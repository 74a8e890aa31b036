-- ===== src/Rto/Queue.antt =====
-- What one round of app/rto/scheduler.py may do: queue recommendations, and no more often than the
-- settings say.
pub mod Examples
use khalij_intelligent_energ.Base.{
  ℕ, ◌-◌, ◌<◌, String, Bool, true, false, not, ◌&&◌, suc, length, ◌||◌, ◌≡◌, ◌⊎◌, refl, ap, ◌∙◌,
  inl, inr, Option, none, some, List, [], ◌∷◌, leb, ltb, is_nil, arith, Bool-cases, Option-cases,
  if◌then◌else◌,
}
use khalij_intelligent_energ.Base.Float.{FloatOps}
use khalij_intelligent_energ.Config.{Settings, allow_demo_memory}
use khalij_intelligent_energ.Optimization.Model.{SetpointAdvice, World}
use khalij_intelligent_energ.Optimization.Engine.{Wording}
use khalij_intelligent_energ.Optimization.Store.{Storing, try_persist}
use khalij_intelligent_energ.Optimization.Workflow.Safety.{try_persist-plant}
use khalij_intelligent_energ.Rto.{
  RtoCycleResult, RtoState, Loads, is_due, cycle_or, session_cycle, compute_rto_cycle, store_advice,
  or_in_memory, mark, queue_result, finish_cycle, run_once,
}

module _ {F : Type 0} where
  -- The database is as before, or one call of the store was made, whether it returned or broke off.
  abbrev pub OnlyQueues : ℕ → World F → World F → Type 0
  OnlyQueues now w w' =
      (w' ≡ w)
      ⊎ ((database : Storing) × (items : List (SetpointAdvice F)) × (w'
            ≡ (try_persist database now items [] w).1))

  queues-plant : (now : ℕ) (w w' : World F) → OnlyQueues now w w' → w'.plant ≡ w.plant
  queues-plant now w w' (inl e) = ap (λ (v : World F). v.plant) e
  queues-plant now w w' (inr (database, items, e)) =
      ap (λ (v : World F). v.plant) e ∙ try_persist-plant database now items [] w

module _ {F : Type 0} ⦃fl : FloatOps F⦄ (cfg : Settings F) where
  or_in_memory-world :
      (now : ℕ) (advice : List (SetpointAdvice F)) (ids : List ℕ) (st : RtoState F)
      → (or_in_memory cfg now advice (ids, st)).1.world ≡ st.world
  or_in_memory-world now advice ids st = elim (Bool-cases (is_nil ids && allow_demo_memory cfg)) [
    | inl t ↦ rw t refl
    | inr f ↦ rw f refl
  ]

  store_advice-OnlyQueues :
      (database : Storing) (now : ℕ) (advice : List (SetpointAdvice F)) (st : RtoState F)
      → OnlyQueues now st.world (store_advice cfg database now advice st).1.world
  unfolding store_advice
  store_advice-OnlyQueues database now advice st =
      let (ids, w) = try_persist database now advice [] st.world in
      inr (database, advice, or_in_memory-world now advice ids (record st { world = w }))

  finish_cycle-OnlyQueues :
      (database : Storing) (now : ℕ) (result : Option (RtoCycleResult F)) (st : RtoState F)
      → OnlyQueues now st.world (finish_cycle cfg database now result st).1.world
  unfolding mark
  finish_cycle-OnlyQueues database now none st = inl refl
  finish_cycle-OnlyQueues database now (some result) st =
      elim (Bool-cases (not (is_due cfg now st.last_persist) || is_nil result.advice)) [
        | inl t ↦ inl (ground arith)
        | inr f ↦
            let seen = record st { status = record st.status { last_cycle_at = some now } } in
            let runs : (finish_cycle cfg database now (some result) st).1.world
                ≡ (store_advice cfg database now result.advice seen).1.world =
              ground arith in
            rw runs (store_advice-OnlyQueues database now result.advice seen)
      ]

  -- A round that counts a row remembers its instant.
  finish_cycle-last :
      (database : Storing) (now count : ℕ) (result : Option (RtoCycleResult F)) (st : RtoState F)
      → (finish_cycle cfg database now result st).0 ≡ some (suc count)
      → (finish_cycle cfg database now result st).1.last_persist ≡ some now
  unfolding mark
  finish_cycle-last database now count none st h = absurd (ground arith)
  finish_cycle-last database now count (some result) st h =
      elim (Bool-cases (not (is_due cfg now st.last_persist) || is_nil result.advice)) [
        | inl t ↦ absurd (ground arith)
        | inr f ↦ ground arith
      ]

  finish_cycle-waits :
      (database : Storing) (now last : ℕ) (result : Option (RtoCycleResult F)) (st : RtoState F)
      → st.last_persist ≡ some last
      → now - last < cfg.rto_persist_interval_seconds
      → let st' = (finish_cycle cfg database now result st).1 in
        (st'.world ≡ st.world) × (st'.memory ≡ st.memory) × (st'.last_persist ≡ st.last_persist)
  finish_cycle-waits database now last none st at_last early = (refl, refl, refl)
  finish_cycle-waits database now last (some result) st at_last early =
      let early_test : leb cfg.rto_persist_interval_seconds (now - last) ≡ false = ground arith in
      (ground arith, ground arith, ground arith)

  module _ (words : Wording F) (now : ℕ) (with_session : Option (Loads F)) (without : Loads F)
      (database : Storing) (st : RtoState F) where
    -- A round writes nothing to the plant. It leaves the database as it is, or as one call of the
    -- store leaves it: with the recommendations and their events or, where the call breaks off once
    -- the rows are committed, with the recommendations and only the first of their events.
    pub rto-OnlyQueues :
        OnlyQueues now st.world (run_once cfg words now with_session without database st).1.world
        × ((run_once cfg words now with_session without database st).1.world.plant ≡ st.world.plant)
    unfolding run_once
    rto-OnlyQueues =
        let result =
          cycle_or (session_cycle words now with_session) (compute_rto_cycle words now without) in
        let queued = finish_cycle-OnlyQueues database now result st in
        (queued, queues-plant now st.world _ queued)

    -- Once a round has queued a recommendation or more, a further round within the interval of it,
    -- whatever it loads, stores nothing: the database and the demo memory stay as the first left
    -- them, and the time of the last store stays that of the first.
    pub rto_waits :
        (count later : ℕ) (later_session : Option (Loads F)) (later_without : Loads F)
        (later_database : Storing)
        → (run_once cfg words now with_session without database st).0 ≡ some (suc count)
        → later - now < cfg.rto_persist_interval_seconds
        → let first = (run_once cfg words now with_session without database st).1 in
          let second =
            (run_once cfg words later later_session later_without later_database first).1 in
          (second.world ≡ first.world)
          × (second.memory ≡ first.memory)
          × (second.last_persist ≡ some now)
    unfolding run_once
    rto_waits count later later_session later_without later_database queued early =
        let result =
          cycle_or (session_cycle words now with_session) (compute_rto_cycle words now without) in
        let result' =
          cycle_or (session_cycle words later later_session)
            (compute_rto_cycle words later later_without) in
        let first = (finish_cycle cfg database now result st).1 in
        let last = finish_cycle-last database now count result st queued in
        let (world, memory, same) =
          finish_cycle-waits later_database later now result' first last early in
        (world, memory, same ∙ last)
