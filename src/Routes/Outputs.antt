-- ===== src/Routes/Outputs.antt =====
-- What the recommendation routes answer: the models of app/schemas/__init__.py, and their errors. The
-- texts of errors are held as the error that they are made from.
use khalij_intelligent_energ.Base.{ℕ, String, Bool, Option, none, some, List, map, or_else}
use khalij_intelligent_energ.Base.Float.{FloatOps}
use khalij_intelligent_energ.Base.Table.{Dict}
use khalij_intelligent_energ.Ingestion.OpcuaWrite.{WritePlanItem, Skipped, WriteDetail}
use khalij_intelligent_energ.Optimization.Model.{
  SetpointAdvice, AdviceSimulation, Priority, Status, ApplyMode, Recommendation, Decision,
  ActionError,
}
use khalij_intelligent_energ.Optimization.Apply.{ApplyOutcome}
use khalij_intelligent_energ.Optimization.Engine.{UnitBenchmark}
use khalij_intelligent_energ.Optimization.Impact.{ImpactDetail, ImpactOutcome}
use khalij_intelligent_energ.Security.Deps.{HttpError}

pub data RouteError : Type 0 where
  denied : HttpError → RouteError
  -- statuses 404, 400, 409 and 500
  missing server_error : RouteError
  bad_request conflict : ActionError → RouteError

pub record SetpointAdviceOut (F : Type 0) : Type 0 where
  pub id : Option ℕ
  pub plant_code : String
  pub priority : Priority
  pub title : String
  pub rationale : String
  pub current : Dict F
  pub proposed : Dict F
  pub deltas : Dict F
  pub tags : List String
  pub benchmark_plant : Option String
  pub estimated_sec_reduction_pct : F
  pub estimated_energy_saving_kwh_per_h : F
  pub estimated_efficiency_gain_pp : F
  pub simulated_intensity_delta : Option F
  pub simulated_efficiency_delta_pp : Option F
  pub status : Status
  pub apply_mode : Option ApplyMode
  pub realized_saving_kwh_per_h : Option F
  pub approved_by : Option String
  pub applied_by : Option String

-- The texts of `recommendations` are left out.
pub record OptimizationResponse (F : Type 0) : Type 0 where
  pub units : List (UnitBenchmark F)
  pub advice : List (SetpointAdviceOut F)
  pub simulations : List (AdviceSimulation F)
  pub total_estimated_saving_kwh_per_h : F

pub record FeedbackOut : Type 0 where
  pub recommendation_id : ℕ
  pub decision : Decision
  pub operator : String
  pub comment : Option String
  pub status : Status
  pub created_at : ℕ

-- An entry of `planned` or `written`: a plan item, or a setpoint alone in the demo mode.
pub data PlannedOut (F : Type 0) : Type 0 where
  planned_item : WritePlanItem F → PlannedOut F
  setpoint : String → F → PlannedOut F

pub data ApplyDetail : Type 0 where
  write_detail : WriteDetail → ApplyDetail
  demo_memory_apply : ApplyDetail

pub record ApplyOut (F : Type 0) : Type 0 where
  pub recommendation_id : ℕ
  pub status : Status
  pub apply_mode : ApplyMode
  pub dry_run : Bool
  pub planned : List (PlannedOut F)
  pub written : List (PlannedOut F)
  pub skipped : List Skipped
  pub detail : ApplyDetail
  pub baseline_intensity : Option F
  pub baseline_efficiency : Option F

pub data ImpactText : Type 0 where
  measured : ImpactDetail → ImpactText
  demo_memory_impact : ImpactText

pub record ImpactOut (F : Type 0) : Type 0 where
  pub recommendation_id : ℕ
  pub plant_code : String
  pub status : Status
  pub baseline_intensity : Option F
  pub current_intensity : Option F
  pub baseline_efficiency : Option F
  pub current_efficiency : Option F
  pub estimated_saving_kwh_per_h : Option F
  pub realized_saving_kwh_per_h : Option F
  pub window_minutes : ℕ
  pub samples : ℕ
  pub detail : ImpactText

module _ {F : Type 0} where
  unfoldable pub advice_out :
      SetpointAdvice F → Option ℕ → Option (AdviceSimulation F) → Status → SetpointAdviceOut F
  advice_out advice row_id sim status = record {
    id = row_id;
    plant_code = advice.plant_code;
    priority = advice.priority;
    title = advice.title;
    rationale = advice.rationale;
    current = advice.current;
    proposed = advice.proposed;
    deltas = advice.deltas;
    tags = advice.tags;
    benchmark_plant = advice.benchmark_plant;
    estimated_sec_reduction_pct = advice.estimated_sec_reduction_pct;
    estimated_energy_saving_kwh_per_h = advice.estimated_energy_saving_kwh_per_h;
    estimated_efficiency_gain_pp = advice.estimated_efficiency_gain_pp;
    simulated_intensity_delta = elim sim [ none ↦ none | some s ↦ some s.intensity_delta ];
    simulated_efficiency_delta_pp = elim sim [ none ↦ none | some s ↦ some s.efficiency_delta_pp ];
    status = status;
    apply_mode = none;
    realized_saving_kwh_per_h = none;
    approved_by = none;
    applied_by = none;
  }

  unfoldable pub apply_out : ApplyOutcome F → ApplyOut F
  apply_out outcome = record {
    recommendation_id = outcome.recommendation_id;
    status = outcome.status;
    apply_mode = outcome.apply_mode;
    dry_run = outcome.dry_run;
    planned = map PlannedOut.planned_item outcome.planned;
    written = map PlannedOut.planned_item outcome.written;
    skipped = outcome.skipped;
    detail = ApplyDetail.write_detail outcome.detail;
    baseline_intensity = outcome.baseline_intensity;
    baseline_efficiency = outcome.baseline_efficiency;
  }

  unfoldable pub impact_out : ImpactOutcome F → ImpactOut F
  impact_out out = record {
    recommendation_id = out.recommendation_id;
    plant_code = out.plant_code;
    status = out.status;
    baseline_intensity = out.baseline_intensity;
    current_intensity = out.current_intensity;
    baseline_efficiency = out.baseline_efficiency;
    current_efficiency = out.current_efficiency;
    estimated_saving_kwh_per_h = out.estimated_saving_kwh_per_h;
    realized_saving_kwh_per_h = out.realized_saving_kwh_per_h;
    window_minutes = out.window_minutes;
    samples = out.samples;
    detail = ImpactText.measured out.detail;
  }

module _ {F : Type 0} ⦃fl : FloatOps F⦄ where
  open fl use {lit}

  unfoldable pub row_to_advice : ℕ → Recommendation F → SetpointAdviceOut F
  row_to_advice id r = record {
    id = some id;
    plant_code = r.plant_code;
    priority = r.priority;
    title = r.title;
    rationale = r.rationale;
    current = r.current;
    proposed = r.proposed;
    deltas = r.deltas;
    tags = r.tags;
    benchmark_plant = r.benchmark_plant;
    estimated_sec_reduction_pct = or_else r.estimated_sec_reduction_pct (lit 0 0);
    estimated_energy_saving_kwh_per_h = or_else r.estimated_energy_saving_kwh_per_h (lit 0 0);
    estimated_efficiency_gain_pp = or_else r.estimated_efficiency_gain_pp (lit 0 0);
    simulated_intensity_delta = r.simulated_intensity_delta;
    simulated_efficiency_delta_pp = r.simulated_efficiency_delta_pp;
    status = r.status;
    apply_mode = r.apply_mode;
    realized_saving_kwh_per_h = r.realized_saving_kwh_per_h;
    approved_by = r.approved_by;
    applied_by = r.applied_by;
  }

  -- What simulate_recommendation makes of a row, to simulate it.
  unfoldable pub advice_of_row : Recommendation F → SetpointAdvice F
  advice_of_row r = record {
    plant_code = r.plant_code;
    priority = r.priority;
    title = r.title;
    rationale = r.rationale;
    current = r.current;
    proposed = r.proposed;
    deltas = r.deltas;
    estimated_sec_reduction_pct = or_else r.estimated_sec_reduction_pct (lit 0 0);
    estimated_energy_saving_kwh_per_h = or_else r.estimated_energy_saving_kwh_per_h (lit 0 0);
    estimated_efficiency_gain_pp = or_else r.estimated_efficiency_gain_pp (lit 0 0);
    benchmark_plant = r.benchmark_plant;
    tags = r.tags;
  }
