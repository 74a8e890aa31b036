-- ===== src/Optimization/Apply/Outcome.antt =====
-- What a call of `apply_recommendation` of app/optimization/apply.py leaves behind, by how it ends.
use mathlib.Core.List.{append-nil}
use khalij_intelligent_energ.Base.{
  ℕ, String, Bool, true, ◌≡◌, refl, ap, ◌∙◌, inl, inr, Option, some, [], arith, or_else,
}
use khalij_intelligent_energ.Base.Float.{FloatOps}
use khalij_intelligent_energ.Base.Result.{Result, ok, err}
use khalij_intelligent_energ.Base.Table.{get, lookup, lookup-insert}
use khalij_intelligent_energ.Config.{Settings}
use khalij_intelligent_energ.Ingestion.TagMap.{PlantTagMap, TagMap}
use khalij_intelligent_energ.Ingestion.OpcuaWrite.{
  WriteError, WriteResult, OpcServer, run_plan, plan_fields, plan_setpoint_writes, write_setpoints,
  dry_run_detail,
}
use khalij_intelligent_energ.Optimization.Model.{
  UnitOperatingState, EventType, AuditDetail, Status, ApplyMode, Recommendation, World, opc_error,
}
use khalij_intelligent_energ.Optimization.Store.{save, append_audit}
use khalij_intelligent_energ.Optimization.Apply.{
  ApplyOutcome, is_approved, baseline, log_writes, settle_apply, apply_recommendation,
}
use khalij_intelligent_energ.Optimization.Apply.Cases.{IsReady, apply-cases}

module _ {F : Type 0} where
  settle_apply_crash :
      (now id : ℕ) (actor : String) (do_dry : Bool) (base : Option F × Option F)
      (rec : Recommendation F) (r : Result WriteError (WriteResult F)) (w : World F)
      → (settle_apply now id actor do_dry base rec r w).0 ≡ err opc_error
      → (settle_apply now id actor do_dry base rec r w).1 ≡ w
  unfolding settle_apply
  settle_apply_crash now id actor do_dry base rec (err e) w h = ground arith
  settle_apply_crash now id actor do_dry (bi, be) rec (ok result) w h = ground arith

  -- The rows and the trail after a blocked write.
  abbrev IsFailed : ℕ → World F → World F → Type 0
  IsFailed id w w' =
      (rec : Recommendation F) × (lookup id w.recs ≡ some rec)
      × (is_approved rec.status ≡ true)
      × (lookup id w'.recs ≡ some (record rec { status = Status.failed }))
      × (w'.plant ≡ w.plant)

module _ {F : Type 0} ⦃fl : FloatOps F⦄ (cfg : Settings F) (plants : TagMap F) (opc : OpcServer F)
    (state : Option (UnitOperatingState F)) (now id : ℕ) (actor : String) (dry : Option Bool)
    (w : World F) where
  -- An OPC error in the middle of a live write is not recorded: the rows, the feedback and the
  -- audit trail are as before the call, whatever was written to the plant.
  pub apply_crash_unrecorded :
      (apply_recommendation cfg plants opc state now id actor dry w).0 ≡ err opc_error
      → let w' = (apply_recommendation cfg plants opc state now id actor dry w).1 in
        (w'.recs ≡ w.recs) × (w'.audit ≡ w.audit) × (w'.feedback ≡ w.feedback)
  unfolding log_writes
  apply_crash_unrecorded h = elim (apply-cases cfg plants opc state now id actor dry w) [
    | inl (e, unchanged) ↦ rw unchanged (refl, refl, refl)
    | inr (rec, found, ready, settles) ↦
        let do_dry = or_else dry cfg.opc_write_dry_run_default in
        let attempt = write_setpoints cfg plants opc rec.plant_code rec.proposed (some do_dry) in
        rw
          (
            settles,
            settle_apply_crash now id actor do_dry (baseline state rec) rec attempt.0
                (log_writes id attempt.1 w) (rw settles at h),
          )
          (refl, refl, refl)
  ]

  -- The result of the dry run, the row, and the event, written out.
  dry_result : Recommendation F → PlantTagMap F → WriteResult F
  dry_result rec plant =
      let (items, why) = plan_fields cfg.writable_field_list plant.tags rec.proposed in
      record {
        dry_run = true;
        plant_code = rec.plant_code;
        planned = items;
        written = [];
        skipped = why;
        detail = dry_run_detail;
      }

  abbrev dry_outcome : Recommendation F → PlantTagMap F → ApplyOutcome F
  dry_outcome rec plant =
      let (items, why) = plan_fields cfg.writable_field_list plant.tags rec.proposed in
      record {
        recommendation_id = id;
        status = Status.applied;
        apply_mode = ApplyMode.dry_run;
        dry_run = true;
        planned = items;
        written = [];
        skipped = why;
        detail = dry_run_detail;
        baseline_intensity = (baseline state rec).0;
        baseline_efficiency = (baseline state rec).1;
      }

  abbrev applied_row : Recommendation F → Recommendation F
  applied_row rec = record rec {
    status = Status.applied;
    applied_by = some actor;
    applied_at = some now;
    apply_mode = some ApplyMode.dry_run;
    baseline_intensity = (baseline state rec).0;
    baseline_efficiency = (baseline state rec).1;
    resolved_at = some now;
  }

  abbrev applied_world : Recommendation F → PlantTagMap F → World F
  applied_world rec plant =
      let (items, why) = plan_fields cfg.writable_field_list plant.tags rec.proposed in
      append_audit id EventType.applied actor
        (AuditDetail.apply_detail ApplyMode.dry_run true items [] why dry_run_detail
          (baseline state rec).0 (baseline state rec).1)
        now (save id (applied_row rec) (log_writes id [] w))

  dry_write :
      (rec : Recommendation F) (plant : PlantTagMap F)
      → get rec.plant_code plants ≡ some plant
      → write_setpoints cfg plants opc rec.plant_code rec.proposed (some true)
        ≡ (ok (dry_result rec plant), [])
  unfolding write_setpoints run_plan plan_setpoint_writes dry_result
  dry_write rec plant known = ground arith

  settle_dry :
      (rec : Recommendation F) (plant : PlantTagMap F)
      → settle_apply now id actor true
          (baseline state rec)
          rec
          (ok (dry_result rec plant))
          (log_writes id [] w)
        ≡ (ok (dry_outcome rec plant), applied_world rec plant)
  unfolding settle_apply dry_result
  settle_dry rec plant = refl

  dry_run_lem :
      (rec : Recommendation F) (plant : PlantTagMap F)
      → lookup id w.recs ≡ some rec
      → IsReady cfg rec
      → or_else dry cfg.opc_write_dry_run_default ≡ true
      → get rec.plant_code plants ≡ some plant
      → apply_recommendation cfg plants opc state now id actor dry w
        ≡ (ok (dry_outcome rec plant), applied_world rec plant)
  unfolding apply_recommendation
  dry_run_lem rec plant found ready is_dry known =
      ground (arith, dry_write rec plant known, settle_dry rec plant)

  applied_lookup :
      (rec : Recommendation F) (plant : PlantTagMap F)
      → lookup id (applied_world rec plant).recs ≡ some (applied_row rec)
  unfolding append_audit save log_writes
  applied_lookup rec plant = lookup-insert id id (applied_row rec) w.recs ∙ ground arith

  -- A dry run of a recommendation that is ready, for a plant of the tag map, marks it applied in
  -- the mode `dry_run` and writes nothing to the plant.
  pub dry_run_applies :
      (rec : Recommendation F) (plant : PlantTagMap F)
      → lookup id w.recs ≡ some rec
      → IsReady cfg rec
      → or_else dry cfg.opc_write_dry_run_default ≡ true
      → get rec.plant_code plants ≡ some plant
      → (outcome : ApplyOutcome F) × ((apply_recommendation cfg plants opc state now id actor dry
            w).0
          ≡ ok outcome)
        × (outcome.apply_mode ≡ ApplyMode.dry_run)
        × (outcome.written ≡ [])
        × (let w' = (apply_recommendation cfg plants opc state now id actor dry w).1 in
            (w'.plant ≡ w.plant)
            × (rec' : Recommendation F) × (lookup id w'.recs ≡ some rec')
            × (rec'.status ≡ Status.applied)
            × (rec'.apply_mode ≡ some ApplyMode.dry_run)
            × (rec'.applied_by ≡ some actor)
            × (rec'.proposed ≡ rec.proposed))
  dry_run_applies rec plant found ready is_dry known =
      let runs = dry_run_lem rec plant found ready is_dry known in
      let stays : (log_writes id [] w).plant ≡ w.plant = unfold log_writes in append-nil w.plant in
      (
        dry_outcome rec plant,
        ap (λ r. r.0) runs,
        refl,
        refl,
        (
          ap (λ r. r.1.plant) runs ∙ (unfold append_audit save in stays),
          applied_row rec,
          ap (λ r. lookup id r.1.recs) runs ∙ applied_lookup rec plant,
          refl,
          refl,
          refl,
          refl,
        ),
      )
