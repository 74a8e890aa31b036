-- ===== src/Optimization/Steps/Calls.antt =====
-- Every call of app/optimization/store.py and apply.py is a step of the workflow.
use mathlib.Core.List.{append-nil}
use khalij_intelligent_energ.Base.{
  ℕ, String, Bool, true, ◌≡◌, refl, sym, ap, ◌∙◌, ◌++◌, inl, inr, ◌⊎◌, Option, some, List, [], ◌∷◌,
  arith, Option-cases, Bool-cases, or_else, if◌then◌else◌,
}
use khalij_intelligent_energ.Base.Float.{FloatOps}
use khalij_intelligent_energ.Base.Result.{Result, ok, err}
use khalij_intelligent_energ.Base.Table.{lookup, insert}
use khalij_intelligent_energ.Config.{Settings}
use khalij_intelligent_energ.Ingestion.TagMap.{TagMap}
use khalij_intelligent_energ.Ingestion.OpcuaWrite.{
  WriteError, is_not_allowed, WritePlanItem, WriteResult, OpcServer, write_setpoints,
}
use khalij_intelligent_energ.Ingestion.OpcuaWrite.Allowlist.{
  write_setpoints-IsPermitted, write_setpoints_gated,
}
use khalij_intelligent_energ.Optimization.Model.{
  UnitOperatingState, Status, Recommendation, EventType, AuditDetail, World, Decision,
}
use khalij_intelligent_energ.Optimization.Store.{
  new_event, append_audit, save, add_feedback, submit_feedback, is_open, is_rejected,
  decision_event,
}
use khalij_intelligent_energ.Optimization.Apply.{
  is_accepted, is_approved, baseline, approve_recommendation, log_writes, settle_apply,
  apply_recommendation,
}
use khalij_intelligent_energ.Optimization.Apply.Cases.{IsReady, apply-cases}
use khalij_intelligent_energ.Optimization.Trail.{follow, at}
use khalij_intelligent_energ.Optimization.Steps.{IsAuthorized, Step, stay, move, break}

module _ {F : Type 0} (cfg : Settings F) (plants : TagMap F) where
  -- A row saved and its event appended, after `w₁` that adds no more to `w` than writes and feedback.
  pub saved-Step :
      (id : ℕ) (rec rec' : Recommendation F) (event : EventType) (actor : String)
      (detail : AuditDetail F) (now : ℕ) (writes : List (WritePlanItem F)) (w w₁ : World F)
      → lookup id w.recs ≡ some rec
      → follow rec.status event ≡ at rec'.status
      → rec'.plant_code ≡ rec.plant_code
      → (writes ≡ []) ⊎ IsAuthorized cfg plants rec writes
      → w₁.recs ≡ w.recs
      → w₁.next_id ≡ w.next_id
      → w₁.audit ≡ w.audit
      → w₁.plant ≡ (log_writes id writes w).plant
      → Step cfg plants w (append_audit id event actor detail now (save id rec' w₁))
  unfolding append_audit save
  saved-Step id rec rec' event actor detail now writes w w₁ found allowed code auth er en ea ep =
      let e = new_event id event actor detail now in
      move id rec rec' e writes found refl allowed code auth (ap (λ recs. insert id rec' recs) er)
        en (ap (λ audit. audit ++ e ∷ []) ea) ep

  pub no_writes :
      (id : ℕ) (w w₁ : World F) → w₁.plant ≡ w.plant → w₁.plant ≡ (log_writes id [] w).plant
  unfolding log_writes
  no_writes id w w₁ e = e ∙ sym (append-nil w.plant)

  pub approve-Step :
      (now id : ℕ) (actor : String) (comment : Option String) (w : World F)
      → Step cfg plants w (approve_recommendation now id actor comment w).1
  unfolding approve_recommendation
  approve-Step now id actor comment w = elim (Option-cases (lookup id w.recs)) [
    | inl e ↦ stay (ground arith)
    | inr (rec, e) ↦ elim (Bool-cases (is_accepted rec.status)) [
      | inr f ↦ stay (ground arith)
      | inl t ↦
          let rec' : Recommendation F = record rec {
            status = Status.approved;
            approved_by = some actor;
            approved_at = some now;
          } in
          let detail : AuditDetail F = AuditDetail.comment_detail comment in
          let runs : (approve_recommendation now id actor comment w).1
              ≡ append_audit id EventType.approved actor detail now (save id rec' w) =
            ground arith in
          rw runs (
            saved-Step id rec rec' EventType.approved actor detail now [] w w e (ground arith) refl
              (inl refl) refl refl refl (no_writes id w w refl))
    ]
  ]

  -- The world after a decision that is taken.
  abbrev decided_world :
      ℕ → ℕ → Status → Decision → String → Option String → Recommendation F → World F → World F
  decided_world now id s decision operator comment rec w =
      append_audit id (decision_event s) operator (AuditDetail.comment_detail comment) now (
        save id
          (record rec {
            status = s;
            resolved_at = if is_rejected s then some now else rec.resolved_at;
          })
          (add_feedback now id decision operator comment w))

  decided-Step :
      (now id : ℕ) (s : Status) (decision : Decision) (operator : String) (comment : Option String)
      (rec : Recommendation F) (w : World F)
      → lookup id w.recs ≡ some rec
      → follow rec.status (decision_event s) ≡ at s
      → Step cfg plants w (decided_world now id s decision operator comment rec w)
  decided-Step now id s decision operator comment rec w found allowed =
      let w₁ = add_feedback now id decision operator comment w in
      saved-Step id rec _ (decision_event s) operator _ now [] w w₁ found allowed refl (inl refl)
        (unfold add_feedback in refl) (unfold add_feedback in refl) (unfold add_feedback in refl)
        (no_writes id w w₁ (unfold add_feedback in refl))

  pub submit_feedback-Step :
      (now id : ℕ) (decision : Decision) (operator : String) (comment : Option String) (w : World F)
      → Step cfg plants w (submit_feedback now id decision operator comment w).1
  unfolding submit_feedback
  submit_feedback-Step now id decision operator comment w = elim (Option-cases (lookup id w.recs)) [
    | inl e ↦ stay (ground arith)
    | inr (rec, e) ↦ elim (Bool-cases (is_open rec.status)) [
      | inr f ↦ stay (ground arith)
      | inl t ↦ go decision rec e t
    ]
  ]
    where
      go :
          (d : Decision) (rec : Recommendation F)
          → lookup id w.recs ≡ some rec
          → is_open rec.status ≡ true
          → Step cfg plants w (submit_feedback now id d operator comment w).1
      go Decision.accepted rec e t =
          let runs : (submit_feedback now id Decision.accepted operator comment w).1
              ≡ decided_world now id Status.accepted Decision.accepted operator comment rec w =
            ground arith in
          rw runs (
            decided-Step now id Status.accepted Decision.accepted operator comment rec w e
              (ground arith))
      go Decision.rejected rec e t =
          let runs : (submit_feedback now id Decision.rejected operator comment w).1
              ≡ decided_world now id Status.rejected Decision.rejected operator comment rec w =
            ground arith in
          rw runs (
            decided-Step now id Status.rejected Decision.rejected operator comment rec w e
              (ground arith))
      go (Decision.other text) rec e t = stay (ground arith)

  settle_apply-Step :
      (now id : ℕ) (actor : String) (do_dry : Bool) (base : Option F × Option F)
      (rec : Recommendation F) (r : Result WriteError (WriteResult F))
      (writes : List (WritePlanItem F)) (w : World F)
      → lookup id w.recs ≡ some rec
      → is_approved rec.status ≡ true
      → (writes ≡ []) ⊎ IsAuthorized cfg plants rec writes
      → Step cfg plants w (settle_apply now id actor do_dry base rec r (log_writes id writes w)).1
  unfolding settle_apply
  settle_apply-Step now id actor do_dry base rec (err e) writes w found t auth =
      elim (Bool-cases (is_not_allowed e)) [
        | inl n ↦
            let w₁ = log_writes id writes w in
            let detail : AuditDetail F = AuditDetail.failure_detail e do_dry in
            let rec' : Recommendation F = record rec { status = Status.failed } in
            rw n (
              saved-Step id rec rec' EventType.apply_failed actor detail now writes w w₁ found
                (ground arith) refl auth (unfold log_writes in refl) (unfold log_writes in refl)
                (unfold log_writes in refl) refl)
        | inr n ↦ rw n (break id rec writes found auth refl)
      ]
  settle_apply-Step now id actor do_dry (bi, be) rec (ok result) writes w found t auth =
      let w₁ = log_writes id writes w in
      saved-Step id rec _ EventType.applied actor _ now writes w w₁ found (ground arith) refl auth
        (unfold log_writes in refl) (unfold log_writes in refl) (unfold log_writes in refl) refl

module _ {F : Type 0} ⦃fl : FloatOps F⦄ (cfg : Settings F) (plants : TagMap F) where
  -- What `write_setpoints` writes for a recommendation that is ready.
  write_setpoints-IsAuthorized :
      (opc : OpcServer F) (rec : Recommendation F) (do_dry : Bool) (writes : List (WritePlanItem F))
      → (write_setpoints cfg plants opc rec.plant_code rec.proposed (some do_dry)).1 ≡ writes
      → IsReady cfg rec
      → (writes ≡ []) ⊎ IsAuthorized cfg plants rec writes
  write_setpoints-IsAuthorized opc rec do_dry [] e ready = inl refl
  write_setpoints-IsAuthorized opc rec do_dry (x ∷ xs) e ready = inr (record {
    ready = ready;
    enabled =
        (write_setpoints_gated cfg plants opc rec.plant_code rec.proposed (some do_dry)
          (λ none_written. cc)).1;
    permitted =
        rw e at
          (write_setpoints-IsPermitted cfg plants opc rec.plant_code rec.proposed (some do_dry));
  })

  pub apply-Step :
      (opc : OpcServer F) (state : Option (UnitOperatingState F)) (now id : ℕ) (actor : String)
      (dry : Option Bool) (w : World F)
      → Step cfg plants w (apply_recommendation cfg plants opc state now id actor dry w).1
  apply-Step opc state now id actor dry w =
      elim (apply-cases cfg plants opc state now id actor dry w) [
        | inl (e, unchanged) ↦ stay (ap (λ r. r.1) unchanged)
        | inr (rec, found, ready, settles) ↦
            let do_dry = or_else dry cfg.opc_write_dry_run_default in
            let attempt =
              write_setpoints cfg plants opc rec.plant_code rec.proposed (some do_dry) in
            rw settles (
              settle_apply-Step cfg plants now id actor do_dry (baseline state rec) rec attempt.0
                attempt.1 w found ready.approved_status
                (write_setpoints-IsAuthorized opc rec do_dry attempt.1 refl ready))
      ]
