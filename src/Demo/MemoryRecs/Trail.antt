-- ===== src/Demo/MemoryRecs/Trail.antt =====
-- The trail of app/demo/memory_recs.py: it ends in the status of the row.
use khalij_intelligent_energ.Base.{
  ℕ, String, ◌≡◌, refl, inl, inr, Option, none, some, List, [], ◌∷◌, ◌++◌, ◌==◌, arith, Bool-cases,
  Option-cases, true, All, ◌∙◌, if◌then◌else◌,
}
use khalij_intelligent_energ.Base.Table.{Dict, lookup, insert, lookup-insert}
use khalij_intelligent_energ.Optimization.Model.{
  SetpointAdvice, AdviceSimulation, Status, Recommendation,
}
use khalij_intelligent_energ.Optimization.Store.{new_row}
use khalij_intelligent_energ.Demo.MemoryRecs.{
  Extra, set_extra, set_extras, are_json, append_detail, MemoryEvent, MemoryAuditEvent,
  MemoryRecStore, new_memory, append_unlocked, put_row, persist_one, persist, set_status,
}

abbrev pub status_after : MemoryEvent → Status
status_after MemoryEvent.created = Status.pending
status_after (MemoryEvent.set status) = status

-- The status that the last event of the recommendation gives, from `last`.
unfoldable pub last_status : ℕ → Option Status → List MemoryAuditEvent → Option Status
last_status id last [] = last
last_status id last (e ∷ es) =
    last_status id (if e.recommendation_id == id then some (status_after e.event_type) else last) es

abbrev pub row_status : {F : Type 0} → Option (Recommendation F) → Option Status
row_status none = none
row_status (some rec) = some rec.status

last_status-append :
    (id : ℕ) (last : Option Status) (es : List MemoryAuditEvent) (e : MemoryAuditEvent)
    → last_status id last (es ++ e ∷ []) ≡ (
        if e.recommendation_id == id
        then some (status_after e.event_type)
        else last_status id last es)
unfolding last_status
last_status-append id last [] e = refl
last_status-append id last (x ∷ es) e =
    last_status-append id
      (if x.recommendation_id == id then some (status_after x.event_type) else last) es e

pub data Request (F : Type 0) : Type 0 where
  advise : ℕ → List (SetpointAdvice F) → Dict (AdviceSimulation F) → Request F
  set_to : ℕ → Status → String → List (Extra F) → Request F

module _ {F : Type 0} where
  unfoldable pub serve : Request F → MemoryRecStore F → MemoryRecStore F
  serve (advise now items simulations) m = (persist now items simulations m).1
  serve (set_to id status actor extras) m = (set_status id status actor extras m).1

  unfoldable pub run : List (Request F) → MemoryRecStore F → MemoryRecStore F
  run [] m = m
  run (r ∷ rs) m = run rs (serve r m)

  -- The detail of the event can be written as JSON.
  abbrev pub IsRecordable : Request F → Type 0
  IsRecordable (advise now items simulations) = Unit {0}
  IsRecordable (set_to id status actor extras) = are_json extras ≡ true

  set_extra-status : (x : Extra F) (rec : Recommendation F) → (set_extra x rec).status ≡ rec.status
  set_extra-status (Extra.resolved_at t) rec = refl
  set_extra-status (Extra.approved_by user) rec = refl
  set_extra-status (Extra.approved_at t) rec = refl
  set_extra-status (Extra.apply_mode mode) rec = refl
  set_extra-status (Extra.applied_by user) rec = refl
  set_extra-status (Extra.applied_at t) rec = refl
  set_extra-status (Extra.realized_saving_kwh_per_h v) rec = refl

  pub set_extras-status :
      (extras : List (Extra F)) (rec : Recommendation F)
      → (set_extras extras rec).status ≡ rec.status
  unfolding set_extras
  set_extras-status [] rec = refl
  set_extras-status (x ∷ extras) rec =
      set_extras-status extras (set_extra x rec) ∙ set_extra-status x rec

  abbrev IsTracked : MemoryRecStore F → Type 0
  IsTracked m = (id : ℕ) → last_status id none m.audit ≡ row_status (lookup id m.recs)

  -- A row put, and an event that gives its status.
  put-IsTracked :
      (id : ℕ) (rec : Recommendation F) (e : MemoryAuditEvent) (m m' : MemoryRecStore F)
      → e.recommendation_id ≡ id
      → rec.status ≡ status_after e.event_type
      → m'.recs ≡ insert id rec m.recs
      → m'.audit ≡ m.audit ++ e ∷ []
      → IsTracked m
      → IsTracked m'
  put-IsTracked id rec e m m' of_id gives er ea tracked j =
      rw (ea, er, last_status-append j none m.audit e, lookup-insert id j rec m.recs, tracked j)
        (elim (Bool-cases (id == j)) [ inl t ↦ ground arith | inr f ↦ ground arith ])

  persist-IsTracked :
      (now : ℕ) (items : List (SetpointAdvice F)) (simulations : Dict (AdviceSimulation F))
      (m : MemoryRecStore F)
      → IsTracked m
      → IsTracked (persist now items simulations m).1
  unfolding persist persist_one append_unlocked new_row
  persist-IsTracked now [] simulations m tracked = tracked
  persist-IsTracked now (advice ∷ items) simulations m tracked =
      persist-IsTracked now items simulations (persist_one now simulations advice m) (
        put-IsTracked m.next_id (new_row now simulations advice) _ m
          (persist_one now simulations advice m) refl refl refl refl tracked)

  set_status-IsTracked :
      (id : ℕ) (status : Status) (actor : String) (extras : List (Extra F)) (m : MemoryRecStore F)
      → are_json extras ≡ true
      → IsTracked m
      → IsTracked (set_status id status actor extras m).1
  unfolding set_status put_row append_detail append_unlocked
  set_status-IsTracked id status actor extras m json tracked =
      elim (Option-cases (lookup id m.recs)) [
        | inl e ↦
            let runs : (set_status id status actor extras m).1 ≡ m = ground arith in rw runs tracked
        | inr (rec, e) ↦
            let rec' = set_extras extras (record rec { status = status }) in
            let after = append_unlocked id (MemoryEvent.set status) actor (put_row id rec' m) in
            let runs : (set_status id status actor extras m).1 ≡ after = ground arith in
            rw runs
              (put-IsTracked id rec' _ m after refl (set_extras-status extras _) refl refl tracked)
      ]

  run-IsTracked :
      (rs : List (Request F)) (m : MemoryRecStore F)
      → All IsRecordable rs
      → IsTracked m
      → IsTracked (run rs m)
  unfolding run serve
  run-IsTracked [] m ok tracked = tracked
  run-IsTracked (advise now items simulations ∷ rs) m ok tracked =
      run-IsTracked rs _ ok.1 (persist-IsTracked now items simulations m tracked)
  run-IsTracked (set_to id status actor extras ∷ rs) m ok tracked =
      run-IsTracked rs _ ok.1 (set_status-IsTracked id status actor extras m ok.0 tracked)

  -- After any sequence of calls on a new store whose extra columns have a JSON form, the last event
  -- of every id gives the status of its row, and an id without a row has no event.
  pub memory_trail_ends_in_status :
      (rs : List (Request F)) (id : ℕ)
      → All IsRecordable rs
      → last_status id none (run rs new_memory).audit
        ≡ row_status (lookup id (run rs new_memory).recs)
  unfolding last_status lookup
  memory_trail_ends_in_status rs id json = run-IsTracked rs new_memory json (λ j. refl) id
