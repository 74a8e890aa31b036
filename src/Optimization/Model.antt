-- ===== src/Optimization/Model.antt =====
-- The data of app/optimization: `SetpointAdvice` and `UnitOperatingState` of engine.py,
-- `AdviceSimulation` of simulate.py, and the tables of app/db/models.py that store.py and apply.py
-- read and write. The JSON texts of a row are held as the values that they encode, and a row's id
-- is its key in the table.
use khalij_intelligent_energ.Base.{ℕ, String, Bool, Option, List}
use khalij_intelligent_energ.Base.Table.{Table, Dict}
use khalij_intelligent_energ.Ingestion.OpcuaWrite.{WriteError, WriteDetail, WritePlanItem, Skipped}

pub record UnitOperatingState (F : Type 0) : Type 0 where
  pub plant_code : String
  pub electricity_power_mw : F
  pub fuel_gas_flow_km3h : F
  pub steam_flow_tonh : F
  pub feed_flow_tonh : F
  pub reactor_temp_c : F
  pub energy_efficiency_percent : F
  pub energy_intensity_kgoe_ton : F
  pub carbon_emission_kgco2_ton : Option F
  pub pressure_bar : Option F

pub data Priority : Type 0 where
  high medium low : Priority

pub record SetpointAdvice (F : Type 0) : Type 0 where
  pub plant_code : String
  pub priority : Priority
  pub title : String
  pub rationale : String
  pub current : Dict F
  pub proposed : Dict F
  pub deltas : Dict F
  pub estimated_sec_reduction_pct : F
  pub estimated_energy_saving_kwh_per_h : F
  pub estimated_efficiency_gain_pp : F
  pub benchmark_plant : Option String
  pub tags : List String

pub record AdviceSimulation (F : Type 0) : Type 0 where
  pub plant_code : String
  pub before_intensity : F
  pub after_intensity : F
  pub before_efficiency : F
  pub after_efficiency : F
  pub before_carbon_intensity : F
  pub after_carbon_intensity : F
  pub intensity_delta : F
  pub efficiency_delta_pp : F
  pub carbon_delta : F
  pub model : Option String
  pub source : Option String

-- The values of the column `status`.
pub data Status : Type 0 where
  pending accepted rejected approved applied failed : Status

pub data ApplyMode : Type 0 where
  dry_run live write : ApplyMode

-- A row of `optimization_recommendations`.
pub record Recommendation (F : Type 0) : Type 0 where
  pub plant_code : String
  pub priority : Priority
  pub title : String
  pub rationale : String
  pub current : Dict F
  pub proposed : Dict F
  pub deltas : Dict F
  pub tags : List String
  pub benchmark_plant : Option String
  pub estimated_sec_reduction_pct : Option F
  pub estimated_energy_saving_kwh_per_h : Option F
  pub estimated_efficiency_gain_pp : Option F
  pub simulated_intensity_delta : Option F
  pub simulated_efficiency_delta_pp : Option F
  pub status : Status
  pub approved_by : Option String
  pub approved_at : Option ℕ
  pub applied_by : Option String
  pub applied_at : Option ℕ
  pub apply_mode : Option ApplyMode
  pub baseline_intensity : Option F
  pub baseline_efficiency : Option F
  pub realized_saving_kwh_per_h : Option F
  pub created_at : ℕ
  pub resolved_at : Option ℕ

pub data EventType : Type 0 where
  created accepted rejected approved applied apply_failed impact : EventType

-- The `detail` of an audit event, by the call that appends it.
pub data AuditDetail (F : Type 0) : Type 0 where
  advice_detail : String → String → AuditDetail F
  comment_detail : Option String → AuditDetail F
  failure_detail : WriteError → Bool → AuditDetail F
  apply_detail :
      ApplyMode
      → Bool
      → List (WritePlanItem F)
      → List (WritePlanItem F)
      → List Skipped
      → WriteDetail
      → Option F
      → Option F
      → AuditDetail F
  impact_detail : F → F → F → ℕ → ℕ → AuditDetail F
  estimate_detail : F → AuditDetail F

-- A row of `recommendation_audit_events`.
pub record AuditEvent (F : Type 0) : Type 0 where
  pub recommendation_id : ℕ
  pub event_type : EventType
  pub actor : String
  pub detail : AuditDetail F
  pub created_at : ℕ

-- What a caller gives as `decision`.
pub data Decision : Type 0 where
  accepted rejected : Decision
  other : String → Decision

-- A row of `recommendation_feedback`.
pub record Feedback : Type 0 where
  pub recommendation_id : ℕ
  pub decision : Decision
  pub operator : String
  pub comment : Option String
  pub created_at : ℕ

-- A value written to the plant, and the recommendation that it was written for.
pub record PlantWrite (F : Type 0) : Type 0 where
  pub recommendation_id : ℕ
  pub item : WritePlanItem F

-- The committed tables, and the plant: what was written to it, in order.
pub record World (F : Type 0) : Type 0 where
  pub recs : Table (Recommendation F)
  pub next_id : ℕ
  pub audit : List (AuditEvent F)
  pub feedback : List Feedback
  pub plant : List (PlantWrite F)

-- What the operations raise: `KeyError`, the two `ValueError`s of `submit_feedback`,
-- `ActionWorkflowError` with its reason, and an error of the OPC client.
pub data ActionError : Type 0 where
  not_found : ℕ → ActionError
  bad_decision : String → ActionError
  not_open not_accepted not_approved not_tracked : Status → ActionError
  simulate_first : ActionError
  write_not_allowed : WriteError → ActionError
  opc_error : ActionError
