-- ===== src/Optimization/Workflow/Audit.antt =====
-- The audit trail along every run of the workflow of app/optimization.
use mathlib.Core.List.{append_assoc, append-nil}
use khalij_intelligent_energ.Base.{
  ℕ, Bool, true, false, inl, ◌⊎◌, ◌≡◌, refl, sym, ◌∙◌, ap, Option, none, some, List, [], ◌∷◌, ◌++◌,
  arith,
}
use khalij_intelligent_energ.Base.Float.{FloatOps}
use khalij_intelligent_energ.Base.Table.{lookup, lookup-insert}
use khalij_intelligent_energ.Config.{Settings}
use khalij_intelligent_energ.Ingestion.TagMap.{TagMap}
use khalij_intelligent_energ.Optimization.Model.{
  Recommendation, Status, EventType, AuditEvent, World,
}
use khalij_intelligent_energ.Optimization.Store.{
  new_event, append_audit, created_detail, get_recommendation, add_rows, audit_rows,
  persist_recommendations,
}
use khalij_intelligent_energ.Optimization.Apply.{log_writes}
use khalij_intelligent_energ.Optimization.Trail.{
  Track, IsTraced, absent, illegal, at, replay, replay_append_all, replay-append, track_of,
}
use khalij_intelligent_energ.Optimization.Trail.Persist.{add_rows_ids, persist-IsTraced}
use khalij_intelligent_energ.Optimization.Steps.{Step, stay, move, annotate, break, queue}
use khalij_intelligent_energ.Optimization.Workflow.{Request, empty_world, run, run_inv}

module _ {F : Type 0} (cfg : Settings F) (plants : TagMap F) where
  pub Step-IsTraced : (w w' : World F) → Step cfg plants w w' → IsTraced w → IsTraced w'
  unfolding log_writes
  Step-IsTraced w w' (stay e) v = rw e v
  Step-IsTraced w w' (break id rec writes found auth e) v =
      rw e (record { fresh = v.fresh; traced = v.traced })
  Step-IsTraced w w' (annotate id rec rec' found same code er en ea ep) v = record {
    fresh = λ j h. rw er (ground (arith, lookup-insert id j rec' w.recs, v.fresh j, v.fresh id));
    traced =
        λ j. rw (er, ea) (ground (arith, lookup-insert id j rec' w.recs, v.traced j, v.traced id));
  }
  Step-IsTraced w w' (queue now items simulations e) v =
      rw e (persist-IsTraced now items simulations w v)
  Step-IsTraced w w' (move id rec rec' e writes found same allowed code auth er en ea ep) v =
      record {
        fresh =
            λ j h. rw er (ground (arith, lookup-insert id j rec' w.recs, v.fresh j, v.fresh id));
        traced = λ j.
            rw (er, ea)
              (ground (
                arith,
                lookup-insert id j rec' w.recs,
                v.traced j,
                v.traced id,
                replay-append j absent w.audit e,
              ));
      }

module _ {F : Type 0} ⦃fl : FloatOps F⦄ (cfg : Settings F) (plants : TagMap F) where
  pub run-IsTraced :
      (rs : List (Request F)) (w : World F) → IsTraced w → IsTraced (run cfg plants rs w)
  run-IsTraced = run_inv cfg plants IsTraced (Step-IsTraced cfg plants)

  pub empty-IsTraced : IsTraced {F = F} empty_world
  unfolding lookup replay
  empty-IsTraced = record { fresh = λ id h. refl; traced = λ id. refl }

  -- After any requests, for every id, the events of that recommendation in the audit trail are a
  -- run of the status machine that ends in the status of its row, or there are none and no row.
  pub audit_replays_status :
      (rs : List (Request F)) (id : ℕ)
      → let w = run cfg plants rs empty_world in
        replay id absent w.audit ≡ track_of (lookup id w.recs)
  audit_replays_status rs id = (run-IsTraced rs empty_world empty-IsTraced).traced id

-- The statuses that the workflow does not leave.
abbrev pub is_final : Status → Bool
is_final Status.rejected = true
is_final Status.applied = true
is_final Status.failed = true
is_final _ = false

module _ {F : Type 0} where
  pub audit_rows-audit :
      (now : ℕ) (ids : List ℕ) (w : World F)
      → (more : List (AuditEvent F)) × ((audit_rows now ids w).audit ≡ w.audit ++ more)
  unfolding audit_rows append_audit
  audit_rows-audit now [] w = ([], sym (append-nil w.audit))
  audit_rows-audit now (id ∷ ids) w =
      let e =
        new_event id EventType.created "system" (created_detail (get_recommendation id w)) now in
      let (more, h) = audit_rows-audit now ids (record w { audit = w.audit ++ e ∷ [] }) in
      (e ∷ more, h ∙ append_assoc w.audit (e ∷ []) more)

module _ {F : Type 0} (cfg : Settings F) (plants : TagMap F) where
  pub Step-audit :
      (w w' : World F)
      → Step cfg plants w w'
      → (more : List (AuditEvent F)) × (w'.audit ≡ w.audit ++ more)
  unfolding log_writes persist_recommendations
  Step-audit w w' (stay e) = ([], rw e (sym (append-nil w.audit)))
  Step-audit w w' (break id rec writes found auth e) = ([], rw e (sym (append-nil w.audit)))
  Step-audit w w' (annotate id rec rec' found same code er en ea ep) =
      ([], ea ∙ sym (append-nil w.audit))
  Step-audit w w' (move id rec rec' e writes found same allowed code auth er en ea ep) =
      (e ∷ [], ea)
  Step-audit w w' (queue now items simulations e) =
      let (ids, w'') = add_rows now simulations items w in
      let (more, h) = audit_rows-audit now ids w'' in
      let kept = add_rows_ids now simulations items w in
      (more, ap (λ (u : World F). u.audit) e ∙ h ∙ ap (λ audit. audit ++ more) kept.2)

module _ {F : Type 0} ⦃fl : FloatOps F⦄ (cfg : Settings F) (plants : TagMap F) where
  -- Requests only add events: the trail that was there stays, unchanged, as the beginning.
  pub audit_append_only :
      (rs : List (Request F)) (w : World F)
      → (more : List (AuditEvent F)) × ((run cfg plants rs w).audit ≡ w.audit ++ more)
  audit_append_only rs w =
      run_inv cfg plants (λ w'. (more : List (AuditEvent F)) × (w'.audit ≡ w.audit ++ more))
        (λ w₁ w₂ st (more, h).
          let (more', h') = Step-audit cfg plants w₁ w₂ st in
          (more ++ more', h' ∙ ap (λ audit. audit ++ more') h ∙ append_assoc w.audit more more'))
        rs w ([], sym (append-nil w.audit))

module _ {F : Type 0} where
  illegal_stays : (id : ℕ) (es : List (AuditEvent F)) → replay id illegal es ≡ illegal
  unfolding replay
  illegal_stays id [] = refl
  illegal_stays id (e ∷ es) = ground (arith, illegal_stays id es)

  -- From a final status the trail goes nowhere else.
  final_replay :
      (id : ℕ) (s : Status) (es : List (AuditEvent F))
      → is_final s ≡ true
      → (replay id (at s) es ≡ at s) ⊎ (replay id (at s) es ≡ illegal)
  unfolding replay
  final_replay id s [] h = inl refl
  final_replay id s (e ∷ es) h = ground (arith, final_replay id s es h, illegal_stays id es)

  final_row :
      (s : Status) (r : Option (Recommendation F)) (t : Track)
      → (t ≡ at s) ⊎ (t ≡ illegal)
      → t ≡ track_of r
      → track_of r ≡ at s
  final_row s none t h e = ground arith
  final_row s (some rec) t h e = ground arith

module _ {F : Type 0} ⦃fl : FloatOps F⦄ (cfg : Settings F) (plants : TagMap F) where
  -- A recommendation that is rejected, applied or failed keeps that status through all later
  -- requests: it cannot be approved or applied again.
  pub final_status_kept :
      (before after : List (Request F)) (id : ℕ) (s : Status)
      → is_final s ≡ true
      → track_of (lookup id (run cfg plants before empty_world).recs) ≡ at s
      → track_of (lookup id (run cfg plants after (run cfg plants before empty_world)).recs) ≡ at s
  final_status_kept before after id s final h =
      let w = run cfg plants before empty_world in
      let w' = run cfg plants after w in
      let v = run-IsTraced cfg plants before empty_world (empty-IsTraced cfg plants) in
      let v' = run-IsTraced cfg plants after w v in
      let (more, e) = audit_append_only cfg plants after w in
      let reached : replay id absent w.audit ≡ at s = v.traced id ∙ h in
      let onward : replay id absent w'.audit ≡ replay id (at s) more =
        ap (replay id absent) e
        ∙ replay_append_all id absent w.audit more
        ∙ ap (λ t. replay id t more) reached in
      final_row s (lookup id w'.recs) (replay id (at s) more) (final_replay id s more final)
        (sym onward ∙ v'.traced id)
