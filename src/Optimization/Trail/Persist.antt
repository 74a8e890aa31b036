-- ===== src/Optimization/Trail/Persist.antt =====
-- `persist_recommendations` of app/optimization/store.py adds its rows in one loop and their events
-- in a second one; after both, the trail is that of the new rows too.
use khalij_intelligent_energ.Base.{
  ℕ, zero, suc, ◌+◌, Bool, ◌≡◌, refl, ap, ◌&&◌, Option, none, some, List, [], ◌∷◌, arith, ltb, leb,
  length, if◌then◌else◌,
}
use khalij_intelligent_energ.Base.Table.{Dict, lookup, insert, lookup-insert}
use khalij_intelligent_energ.Optimization.Model.{
  SetpointAdvice, AdviceSimulation, Status, Recommendation, EventType, AuditEvent, World,
}
use khalij_intelligent_energ.Optimization.Store.{
  new_event, append_audit, created_detail, new_row, add_rows, audit_rows, get_recommendation,
  persist_recommendations,
}
use khalij_intelligent_energ.Optimization.Trail.{
  absent, at, IsTraced, replay, replay-append, advance, track_of,
}

-- n, n + 1, …, k ids in all
abbrev pub count_from : ℕ → ℕ → List ℕ
count_from n zero = []
count_from n (suc k) = n ∷ count_from (suc n) k

abbrev in_range : ℕ → ℕ → ℕ → Bool
in_range n k id = leb n id && ltb id (n + k)

module _ {F : Type 0} (now : ℕ) (simulations : Dict (AdviceSimulation F)) where
  -- The new ids are the next ones in order.
  pub add_rows_ids :
      (items : List (SetpointAdvice F)) (w : World F)
      → ((add_rows now simulations items w).0 ≡ count_from w.next_id (length items))
        × ((add_rows now simulations items w).1.next_id ≡ w.next_id + length items)
        × ((add_rows now simulations items w).1.audit ≡ w.audit)
  unfolding add_rows
  add_rows_ids [] w = (refl, omega arith, refl)
  add_rows_ids (advice ∷ items) w =
      let w' : World F = record w {
        recs = insert w.next_id (new_row now simulations advice) w.recs;
        next_id = suc w.next_id;
      } in
      let ih = add_rows_ids items w' in
      (ap (λ (ids : List ℕ). w.next_id ∷ ids) ih.0, omega (arith, ih.1), ih.2)

  add_rows-lookup :
      (items : List (SetpointAdvice F)) (w : World F) (id : ℕ)
      → track_of (lookup id (add_rows now simulations items w).1.recs) ≡ (
          if in_range w.next_id (length items) id
          then at Status.pending
          else track_of (lookup id w.recs))
  unfolding add_rows
  add_rows-lookup [] w id = ground arith
  add_rows-lookup (advice ∷ items) w id =
      let row = new_row now simulations advice in
      let w' : World F = record w { recs = insert w.next_id row w.recs; next_id = suc w.next_id } in
      let is_new : row.status ≡ Status.pending = unfold new_row in refl in
      ground (arith, add_rows-lookup items w' id, lookup-insert w.next_id id row w.recs, is_new)

module _ {F : Type 0} (now : ℕ) where
  audit_rows_rest :
      (ids : List ℕ) (w : World F)
      → ((audit_rows now ids w).recs ≡ w.recs) × ((audit_rows now ids w).next_id ≡ w.next_id)
  unfolding audit_rows append_audit
  audit_rows_rest [] w = (refl, refl)
  audit_rows_rest (id ∷ ids) w = audit_rows_rest ids _

  audit_rows-replay :
      (n k : ℕ) (w : World F) (id : ℕ)
      → replay id absent (audit_rows now (count_from n k) w).audit ≡ (
          if in_range n k id
          then advance (replay id absent w.audit) EventType.created
          else replay id absent w.audit)
  unfolding audit_rows append_audit
  audit_rows-replay n zero w id = ground arith
  audit_rows-replay n (suc k) w id =
      let detail = created_detail (get_recommendation n w) in
      let e : AuditEvent F = new_event n EventType.created "system" detail now in
      ground (
        arith,
        replay-append id absent w.audit e,
        audit_rows-replay (suc n) k (append_audit n EventType.created "system" detail now w) id,
      )

module _ {F : Type 0} where
  lookup_of_absent : (r : Option (Recommendation F)) → track_of r ≡ absent → r ≡ none
  lookup_of_absent none h = refl
  lookup_of_absent (some rec) h = ground arith

  -- Queueing advice keeps the trail: each new row gets its `created` event.
  pub persist-IsTraced :
      (now : ℕ) (items : List (SetpointAdvice F)) (simulations : Dict (AdviceSimulation F))
      (w : World F)
      → IsTraced w
      → IsTraced (persist_recommendations now items simulations w).1
  unfolding persist_recommendations
  persist-IsTraced now items simulations w v =
      let (ids, w') = add_rows now simulations items w in
      let new = add_rows_ids now simulations items w in
      let kept = audit_rows_rest now ids w' in
      let n = length items in
      record {
        fresh = λ id h. ground (
          arith,
          kept,
          new,
          add_rows-lookup now simulations items w id,
          v.fresh id,
          lookup_of_absent (lookup id w'.recs),
        );
        traced = λ id.
            rw (kept.0, new.0)
              (ground (
                arith,
                new.2,
                audit_rows-replay now w.next_id n w' id,
                v.traced id,
                v.fresh id,
                add_rows-lookup now simulations items w id,
              ));
      }
