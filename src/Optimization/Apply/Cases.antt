-- ===== src/Optimization/Apply/Cases.antt =====
-- How `apply_recommendation` of app/optimization/apply.py can go: it raises before anything is done,
-- or it writes and settles.
use khalij_intelligent_energ.Base.{
  ℕ, String, Bool, true, false, ◌≡◌, ◌⊎◌, inl, inr, ◌&&◌, not, Option, some, arith, is_some,
  or_else, Option-cases, Bool-cases,
}
use khalij_intelligent_energ.Base.Float.{FloatOps}
use khalij_intelligent_energ.Base.Result.{err}
use khalij_intelligent_energ.Base.Table.{lookup}
use khalij_intelligent_energ.Config.{Settings}
use khalij_intelligent_energ.Ingestion.TagMap.{TagMap}
use khalij_intelligent_energ.Ingestion.OpcuaWrite.{OpcServer, write_setpoints}
use khalij_intelligent_energ.Optimization.Model.{
  UnitOperatingState, Recommendation, World, ActionError, not_found, not_approved, simulate_first,
}
use khalij_intelligent_energ.Optimization.Apply.{
  is_approved, baseline, log_writes, settle_apply, apply_recommendation,
}

module _ {F : Type 0} where
  -- What a recommendation's row must say before anything is written for it.
  pub record IsReady (cfg : Settings F) (rec : Recommendation F) : Type 0 where
    pub approved_status : is_approved rec.status ≡ true
    pub simulated :
        cfg.opt_require_sim_before_apply && not (is_some rec.simulated_intensity_delta) ≡ false

module _ {F : Type 0} ⦃fl : FloatOps F⦄ (cfg : Settings F) (plants : TagMap F) (opc : OpcServer F)
    (state : Option (UnitOperatingState F)) (now id : ℕ) (actor : String) (dry : Option Bool)
    (w : World F) where
  -- The call past the gates.
  abbrev pub Settles : Recommendation F → Type 0
  Settles rec =
      let do_dry = or_else dry cfg.opc_write_dry_run_default in
      let attempt = write_setpoints cfg plants opc rec.plant_code rec.proposed (some do_dry) in
      apply_recommendation cfg plants opc state now id actor dry w
      ≡ settle_apply now id actor do_dry (baseline state rec) rec attempt.0
          (log_writes id attempt.1 w)

  pub apply-cases :
      ((e : ActionError) × (apply_recommendation cfg plants opc state now id actor dry w
          ≡ (err e, w)))
      ⊎ ((rec : Recommendation F) × (lookup id w.recs ≡ some rec) × IsReady cfg rec × Settles rec)
  unfolding apply_recommendation
  apply-cases = elim (Option-cases (lookup id w.recs)) [
    | inl e ↦ inl (not_found id, ground arith)
    | inr (rec, e) ↦ elim (Bool-cases (is_approved rec.status)) [
      | inr f ↦ inl (not_approved rec.status, ground arith)
      | inl t ↦
          elim (Bool-cases
            (cfg.opt_require_sim_before_apply && not (is_some rec.simulated_intensity_delta))) [
              | inl s ↦ inl (simulate_first, ground arith)
              | inr s ↦ inr (rec, e, record { approved_status = t; simulated = s }, ground arith)
            ]
    ]
  ]
