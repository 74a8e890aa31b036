-- ===== src/Routes/Demo/Evolves.antt =====
-- What one request of app/api/routes/optimization.py does to the rows of the demo memory, and which events
-- of the status machine of the workflow it may take them through.
use khalij_intelligent_energ.Base.{
  ◌⊎◌, ℕ, String, Bool, true, Option, none, some, List, [], ◌∷◌, ◌==◌, or_else, ◌≡◌, refl, arith,
  Option-cases, Bool-cases, ◌≤◌, inl, inr,
}
use khalij_intelligent_energ.Base.Float.{FloatOps}
use khalij_intelligent_energ.Base.Table.{Dict, lookup, insert, lookup-insert}
use khalij_intelligent_energ.Plant.Live.{LiveReading}
use khalij_intelligent_energ.Optimization.Model.{
  SetpointAdvice, AdviceSimulation, Status, Recommendation, Decision, EventType,
}
use khalij_intelligent_energ.Optimization.Store
use khalij_intelligent_energ.Optimization.Store.{
  get_recommendation, persist_recommendations, submit_feedback, record_simulation, is_open,
  is_rejected, new_row,
}
use khalij_intelligent_energ.Optimization.Apply.{is_accepted, is_approved}
use khalij_intelligent_energ.Demo.MemoryRecs.{
  MemoryRecStore, persist, put_row, set_status, set_extras, are_json, append_detail,
  append_unlocked, persist_one,
}
use khalij_intelligent_energ.Routes.Stores.{ApiState, is_decision, status_of}
use khalij_intelligent_energ.Routes.Memory.{
  memory_feedback, memory_approve, memory_apply, memory_impact, memory_simulate,
}
use khalij_intelligent_energ.Optimization.Trail.{follow, at}
use khalij_intelligent_energ.Routes.Demo.Unrecorded.{
  approved_row, applied_row, decided_row, memory_approve_run, memory_apply_run,
  memory_feedback_recs,
}

-- The event of the status machine that a decision is.
abbrev pub Decides : Decision → EventType → Type 0
Decides Decision.accepted e = e ≡ EventType.accepted
Decides Decision.rejected e = e ≡ EventType.rejected
Decides (Decision.other text) e = ⊥

-- Which event may happen to which recommendation.
abbrev pub Events : Type 1
Events = ℕ → EventType → Type 0

abbrev pub Never : Events
Never id e = ⊥

-- The status stays, or one of the events that may happen to the recommendation takes it one step along
-- the status machine that the audit events of the database follow.
abbrev pub Moves : Events → ℕ → Status → Status → Type 0
Moves may id s s' = (s' ≡ s) ⊎ ((e : EventType) × may id e × (follow s e ≡ at s'))

decided_step :
    (may : Events) (id : ℕ) (s : Status) (decision : Decision)
    → is_decision decision ≡ true
    → is_open s ≡ true
    → ((e : EventType) → Decides decision e → may id e)
    → Moves may id s (status_of decision)
decided_step may id Status.pending Decision.accepted a b m =
    inr (EventType.accepted, m _ refl, refl)
decided_step may id Status.pending Decision.rejected a b m =
    inr (EventType.rejected, m _ refl, refl)
decided_step may id Status.accepted Decision.accepted a b m =
    inr (EventType.accepted, m _ refl, refl)
decided_step may id Status.accepted Decision.rejected a b m =
    inr (EventType.rejected, m _ refl, refl)
decided_step may id Status.rejected decision a b m = cc
decided_step may id Status.approved decision a b m = cc
decided_step may id Status.applied decision a b m = cc
decided_step may id Status.failed decision a b m = cc
decided_step may id s (Decision.other text) a b m = cc

module _ {F : Type 0} where
  -- The rows of a store stay, each with a status that its own moves to, and the next id stays fresh.
  pub record Evolves (may : Events) (m m' : MemoryRecStore F) : Type 0 where
    pub kept :
        (id : ℕ) (rec : Recommendation F)
        → lookup id m.recs ≡ some rec
        → (rec' : Recommendation F) × (lookup id m'.recs ≡ some rec')
          × Moves may id rec.status rec'.status
    pub fresh : (id : ℕ) → m'.next_id ≤ id → lookup id m'.recs ≡ none

  abbrev pub IsFresh : MemoryRecStore F → Type 0
  IsFresh m = (id : ℕ) → m.next_id ≤ id → lookup id m.recs ≡ none

  pub same-Evolves :
      (may : Events) (m m' : MemoryRecStore F) → m' ≡ m → IsFresh m → Evolves may m m'
  same-Evolves may m m' e h =
      rw e (record { kept = λ id rec found. (rec, found, inl refl); fresh = h })

  -- Calls under which every status stays.
  pub still-Evolves :
      (may : Events) (a b c : MemoryRecStore F)
      → Evolves Never a b
      → Evolves may b c
      → Evolves may a c
  still-Evolves may a b c p q = record {
    kept = λ id rec found.
        let (rec', found', same) = p.kept id rec found in
        let (rec'', found'', moves) = q.kept id rec' found' in
        (rec'', found'', elim same [ inl e ↦ rw (← e) moves | inr (e, never, h) ↦ absurd never ]);
    fresh = q.fresh;
  }

  put-Evolves :
      (may : Events) (id : ℕ) (rec rec' : Recommendation F) (m m' : MemoryRecStore F)
      → lookup id m.recs ≡ some rec
      → Moves may id rec.status rec'.status
      → m'.recs ≡ insert id rec' m.recs
      → m'.next_id ≡ m.next_id
      → IsFresh m
      → Evolves may m m'
  put-Evolves may id rec rec' m m' found moves er en h = record {
    kept = λ j old found_old. elim (Bool-cases (id == j)) [
      | inl t ↦ (
        rec',
        rw er (ground (arith, lookup-insert id j rec' m.recs)),
        let same : old ≡ rec = ground arith in
            let here : j ≡ id = ground arith in rw (same, here) moves,
      )
      | inr f ↦ (old, rw er (ground (arith, lookup-insert id j rec' m.recs)), inl refl)
    ];
    fresh = λ j le. rw er (ground (arith, lookup-insert id j rec' m.recs, h j, h id));
  }

  persist_one-Evolves :
      (now : ℕ) (simulations : Dict (AdviceSimulation F)) (advice : SetpointAdvice F)
      (m : MemoryRecStore F)
      → IsFresh m
      → Evolves Never m (persist_one now simulations advice m)
  unfolding persist_one
  persist_one-Evolves now simulations advice m h =
      let row = new_row now simulations advice in
      record {
        kept = λ j old found.
            (old, ground (arith, lookup-insert m.next_id j row m.recs, h m.next_id), inl refl);
        fresh = λ j le. ground (arith, lookup-insert m.next_id j row m.recs, h j);
      }

  pub persist-Evolves :
      (now : ℕ) (items : List (SetpointAdvice F)) (simulations : Dict (AdviceSimulation F))
      (m : MemoryRecStore F)
      → IsFresh m
      → Evolves Never m (persist now items simulations m).1
  unfolding persist
  persist-Evolves now [] simulations m h = same-Evolves Never m m refl h
  persist-Evolves now (advice ∷ items) simulations m h =
      let m' = persist_one now simulations advice m in
      let first = persist_one-Evolves now simulations advice m h in
      still-Evolves Never m m' _ first (persist-Evolves now items simulations m' first.fresh)

module _ {F : Type 0} ⦃fl : FloatOps F⦄ where
  pub feedback-Evolves :
      (may : Events) (now id : ℕ) (decision : Decision) (operator : String)
      (comment : Option String) (st : ApiState F)
      → ((e : EventType) → Decides decision e → may id e)
      → IsFresh st.memory
      → Evolves may st.memory (memory_feedback now id decision operator comment st).1.memory
  unfolding memory_feedback
  feedback-Evolves may now id decision operator comment st m h =
      elim (Option-cases (lookup id st.memory.recs)) [
        | inl e ↦ same-Evolves may _ _ (ground arith) h
        | inr (rec, e) ↦ elim (Bool-cases (is_decision decision)) [
          | inr f ↦ same-Evolves may _ _ (ground arith) h
          | inl t ↦ elim (Bool-cases (is_open rec.status)) [
            | inr f' ↦ same-Evolves may _ _ (ground arith) h
            | inl t' ↦
                let runs = memory_feedback_recs now id decision operator comment rec st e t t' in
                put-Evolves may id rec (decided_row now decision rec) st.memory _ e
                  (decided_step may id rec.status decision t t' m) runs.0 runs.1 h
          ]
        ]
      ]

  pub approve-Evolves :
      (may : Events) (now id : ℕ) (actor : String) (st : ApiState F)
      → may id EventType.approved
      → IsFresh st.memory
      → Evolves may st.memory (memory_approve now id actor st).1.memory
  unfolding memory_approve
  approve-Evolves may now id actor st m h = elim (Option-cases (lookup id st.memory.recs)) [
    | inl e ↦ same-Evolves may _ _ (ground arith) h
    | inr (rec, e) ↦ elim (Bool-cases (is_accepted rec.status)) [
      | inr f ↦ same-Evolves may _ _ (ground arith) h
      | inl t ↦ rw (memory_approve_run now id actor rec st e t) (
          put-Evolves may id rec (approved_row now actor rec) st.memory _ e
            (inr (EventType.approved, m, ground arith)) refl refl h)
    ]
  ]

  pub apply-Evolves :
      (may : Events) (now id : ℕ) (actor : String) (dry : Option Bool) (st : ApiState F)
      → may id EventType.applied
      → IsFresh st.memory
      → Evolves may st.memory (memory_apply now id actor dry st).1.memory
  unfolding memory_apply
  apply-Evolves may now id actor dry st m h = elim (Option-cases (lookup id st.memory.recs)) [
    | inl e ↦ same-Evolves may _ _ (ground arith) h
    | inr (rec, e) ↦ elim (Bool-cases (is_approved rec.status)) [
      | inr f ↦ same-Evolves may _ _ (ground arith) h
      | inl t ↦ rw (memory_apply_run now id actor dry rec st e t) (
          put-Evolves may id rec (applied_row now actor (or_else dry true) rec) st.memory _ e
            (inr (EventType.applied, m, ground arith)) refl refl h)
    ]
  ]

  pub impact-Evolves :
      (may : Events) (id : ℕ) (live : LiveReading F) (actor : String) (st : ApiState F)
      → IsFresh st.memory
      → Evolves may st.memory (memory_impact id live actor st).1.memory
  unfolding memory_impact set_status set_extras are_json append_detail put_row append_unlocked
  impact-Evolves may id live actor st h = elim (Option-cases (lookup id st.memory.recs)) [
    | inl e ↦ same-Evolves may _ _ (ground arith) h
    | inr (rec, e) ↦
        let row : Recommendation F = record rec {
          realized_saving_kwh_per_h =
              some
                (fl.mul (or_else rec.estimated_energy_saving_kwh_per_h (fl.lit 0 0)) (fl.lit 85 2));
        } in
        put-Evolves may id rec row st.memory _ e (inl refl) (ground arith) (ground arith) h
  ]

  pub simulated-Evolves :
      (may : Events) (id : ℕ) (sim : AdviceSimulation F) (st : ApiState F)
      → IsFresh st.memory
      → Evolves may st.memory (memory_simulate id sim st).1.memory
  unfolding memory_simulate put_row
  simulated-Evolves may id sim st h = elim (Option-cases (lookup id st.memory.recs)) [
    | inl e ↦ same-Evolves may _ _ (ground arith) h
    | inr (rec, e) ↦
        put-Evolves may id rec (Store.with_simulation sim rec) st.memory _ e (inl refl)
          (ground arith) (ground arith) h
  ]
