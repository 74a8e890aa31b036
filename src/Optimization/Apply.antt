-- ===== src/Optimization/Apply.antt =====
-- app/optimization/apply.py: approve a recommendation and apply it to the plant. `load_unit_state`
-- reads the live data; what it returns is an argument, and `none` stands for a load that raised.
pub mod Cases
pub mod Outcome
use khalij_intelligent_energ.Base.{
  ℕ, String, Bool, true, false, ◌&&◌, not, Option, none, some, List, [], ◌∷◌, ◌++◌, map, foldl,
  is_some, or_else, length, if◌then◌else◌,
}
use khalij_intelligent_energ.Base.Float.{FloatOps}
use khalij_intelligent_energ.Base.Result.{Result, ok, err, ◌>>=◌, ◌>>◌, pure, raise, guard, modify}
use khalij_intelligent_energ.Base.Table.{Dict, get}
use khalij_intelligent_energ.Config.{Settings}
use khalij_intelligent_energ.Ingestion.TagMap.{TagMap}
use khalij_intelligent_energ.Ingestion.OpcuaWrite.{
  WriteError, is_not_allowed, Skipped, WritePlanItem, WriteDetail, WriteResult, OpcServer,
  write_setpoints,
}
use khalij_intelligent_energ.Optimization.Model.{
  UnitOperatingState, Status, ApplyMode, Recommendation, EventType, AuditDetail, World,
  not_accepted, not_approved, not_tracked, simulate_first, write_not_allowed, opc_error,
}
use khalij_intelligent_energ.Optimization.Store.{Call, append_audit, save, load}

abbrev pub is_accepted : Status → Bool
is_accepted Status.accepted = true
is_accepted _ = false

abbrev pub is_approved : Status → Bool
is_approved Status.approved = true
is_approved _ = false

abbrev pub mode_of : Bool → ApplyMode
mode_of do_dry = if do_dry then ApplyMode.dry_run else ApplyMode.live

pub record ApplyOutcome (F : Type 0) : Type 0 where
  pub recommendation_id : ℕ
  pub status : Status
  pub apply_mode : ApplyMode
  pub dry_run : Bool
  pub planned : List (WritePlanItem F)
  pub written : List (WritePlanItem F)
  pub skipped : List Skipped
  pub detail : WriteDetail
  pub baseline_intensity : Option F
  pub baseline_efficiency : Option F

module _ {F : Type 0} where
  unfoldable pub approve_recommendation : ℕ → ℕ → String → Option String → Call F (Recommendation F)
  unfolding load save append_audit
  approve_recommendation now id actor comment = do
    rec ← load id
    guard (is_accepted rec.status) (not_accepted rec.status)
    let rec' : Recommendation F = record rec {
      status = Status.approved;
      approved_by = some actor;
      approved_at = some now;
    }
    modify (save id rec')
    modify (append_audit id EventType.approved actor (AuditDetail.comment_detail comment) now)
    pure rec'

  -- The plant's log after the writes made for a recommendation.
  unfoldable pub log_writes : ℕ → List (WritePlanItem F) → World F → World F
  log_writes id items w = record w {
    plant = w.plant ++ map (λ item. record { recommendation_id = id; item = item }) items;
  }

  -- The `except WriteNotAllowedError` clause.
  unfoldable pub fail_apply :
      ℕ → ℕ → String → Bool → Recommendation F → WriteError → Call F (ApplyOutcome F)
  unfolding save append_audit
  fail_apply now id actor do_dry rec e = do
    modify (save id (record rec { status = Status.failed }))
    modify (append_audit id EventType.apply_failed actor (AuditDetail.failure_detail e do_dry) now)
    raise (write_not_allowed e)

  -- The end of `apply_recommendation`, from the `except` clause on: an error of the client that is
  -- no `WriteNotAllowedError` is not caught.
  unfoldable pub settle_apply :
      ℕ
      → ℕ
      → String
      → Bool
      → Option F × Option F
      → Recommendation F
      → Result WriteError (WriteResult F)
      → Call F (ApplyOutcome F)
  unfolding fail_apply save append_audit
  settle_apply now id actor do_dry base rec (err e) =
      let failed = fail_apply now id actor do_dry rec e in
      if is_not_allowed e then failed else raise opc_error
  settle_apply now id actor do_dry (bi, be) rec (ok result) = do
    let mode = mode_of result.dry_run
    modify (
        save id (record rec {
          status = Status.applied;
          applied_by = some actor;
          applied_at = some now;
          apply_mode = some mode;
          baseline_intensity = bi;
          baseline_efficiency = be;
          resolved_at = some now;
        }))
    modify (
        append_audit id EventType.applied actor
          (AuditDetail.apply_detail mode result.dry_run result.planned result.written result.skipped
            result.detail bi be)
          now)
    pure (record {
      recommendation_id = id;
      status = Status.applied;
      apply_mode = mode;
      dry_run = result.dry_run;
      planned = result.planned;
      written = result.written;
      skipped = result.skipped;
      detail = result.detail;
      baseline_intensity = bi;
      baseline_efficiency = be;
    })

module _ {F : Type 0} ⦃fl : FloatOps F⦄ where
  open fl use {eq, lit}

  -- The baseline: the live state's, or else what the advice recorded, where 0.0 counts as nothing.
  unfoldable pub baseline : Option (UnitOperatingState F) → Recommendation F → Option F × Option F
  baseline (some state) rec =
      (some state.energy_intensity_kgoe_ton, some state.energy_efficiency_percent)
  baseline none rec = (
    elim (get "energy_intensity_kgoe_ton" rec.current) [
      | none ↦ none
      | some v ↦ if eq v (lit 0 0) then none else some v
    ],
    none,
  )

  unfoldable pub apply_recommendation :
      Settings F
      → TagMap F
      → OpcServer F
      → Option (UnitOperatingState F)
      → ℕ
      → ℕ
      → String
      → Option Bool
      → Call F (ApplyOutcome F)
  unfolding load
  apply_recommendation cfg plants opc state now id actor dry = do
    rec ← load id
    guard (is_approved rec.status) (not_approved rec.status)
    guard (not (cfg.opt_require_sim_before_apply && not (is_some rec.simulated_intensity_delta)))
        simulate_first
    let do_dry = or_else dry cfg.opc_write_dry_run_default
    let attempt = write_setpoints cfg plants opc rec.plant_code rec.proposed (some do_dry)
    modify (log_writes id attempt.1)
    settle_apply now id actor do_dry (baseline state rec) rec attempt.0
