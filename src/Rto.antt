-- ===== src/Rto.antt =====
-- app/rto: real-time optimization. engine.py's cycle recomputes advice from live states, and
-- scheduler.py's `run_once` queues it on a slower cadence. What the loads of states give is an
-- argument, `none` where the session fails; seconds are numbers.
pub mod Queue
use khalij_intelligent_energ.Base.{
  ℕ, suc, ◌-◌, String, Bool, true, false, not, ◌&&◌, ◌||◌, Option, none, some, List, [], ◌∷◌, ◌++◌,
  map, length, ltb, leb, is_nil, is_some, contains, if◌then◌else◌,
}
use khalij_intelligent_energ.Base.Float.{FloatOps}
use khalij_intelligent_energ.Config.{Settings, allow_demo_memory}
use khalij_intelligent_energ.Optimization.Model.{UnitOperatingState, SetpointAdvice, World}
use khalij_intelligent_energ.Optimization.Engine.{
  UnitBenchmark, Wording, classify_units, build_structured_advice,
}
use khalij_intelligent_energ.Optimization.Store.{Storing, try_persist}
use khalij_intelligent_energ.Demo.MemoryRecs.{MemoryRecStore, persist}

pub record RtoCycleResult (F : Type 0) : Type 0 where
  pub computed_at : ℕ
  pub units : List (UnitBenchmark F)
  pub advice : List (SetpointAdvice F)

pub record RtoStatus : Type 0 where
  pub last_cycle_at : Option ℕ
  pub last_persisted_at : Option ℕ
  pub last_persisted_count : ℕ

-- The scheduler, the process-wide status, and the two stores that it queues into.
pub record RtoState (F : Type 0) : Type 0 where
  pub last_persist : Option ℕ
  pub status : RtoStatus
  pub world : World F
  pub memory : MemoryRecStore F

-- The states of a load, and those of the load without a session.
abbrev pub Loads : Type 0 → Type 0
Loads F = List (UnitOperatingState F) × List (UnitOperatingState F)

module _ {F : Type 0} ⦃fl : FloatOps F⦄ where
  open fl use {eq}

  unfoldable pub all_alike : UnitOperatingState F → List (UnitOperatingState F) → Bool
  all_alike first [] = true
  all_alike first (s ∷ states) =
      eq first.energy_efficiency_percent s.energy_efficiency_percent
      && eq first.energy_intensity_kgoe_ton s.energy_intensity_kgoe_ton
      && all_alike first states

  -- `len(distinct) == 1 and len(states) > 1`
  abbrev pub is_one_snapshot : List (UnitOperatingState F) → Bool
  is_one_snapshot [] = false
  is_one_snapshot (first ∷ rest) = not (is_nil rest) && all_alike first rest

  abbrev pub with_tag : SetpointAdvice F → SetpointAdvice F
  with_tag a = if contains "rto" a.tags then a else record a { tags = a.tags ++ "rto" ∷ [] }

  abbrev pub cycle_result :
      ℕ → List (UnitBenchmark F) → Option (List (SetpointAdvice F)) → Option (RtoCycleResult F)
  cycle_result now benchmarks none = none
  cycle_result now benchmarks (some advice) =
      some (record { computed_at = now; units = benchmarks; advice = map with_tag advice })

  -- `none` where the advice raises.
  unfoldable pub compute_rto_cycle : Wording F → ℕ → Loads F → Option (RtoCycleResult F)
  compute_rto_cycle words now (loaded, reloaded) =
      let states = if is_one_snapshot loaded then reloaded else loaded in
      let benchmarks = classify_units states in
      cycle_result now benchmarks (build_structured_advice words states benchmarks)

  -- The cycle with a session, or else the one without.
  abbrev pub cycle_or :
      Option (RtoCycleResult F) → Option (RtoCycleResult F) → Option (RtoCycleResult F)
  cycle_or none fallback = fallback
  cycle_or (some result) fallback = some result

  abbrev pub session_cycle : Wording F → ℕ → Option (Loads F) → Option (RtoCycleResult F)
  session_cycle words now none = none
  session_cycle words now (some loads) = compute_rto_cycle words now loads

  -- `self._last_persist is None or now - self._last_persist >= interval`
  abbrev pub is_due : Settings F → ℕ → Option ℕ → Bool
  is_due cfg now none = true
  is_due cfg now (some last) = leb cfg.rto_persist_interval_seconds (now - last)

  abbrev pub in_database : List ℕ × World F → RtoState F → List ℕ × RtoState F
  in_database (ids, world) st = (ids, record st { world = world })

  abbrev pub in_memory : List ℕ × MemoryRecStore F → RtoState F → List ℕ × RtoState F
  in_memory (ids, memory) st = (ids, record st { memory = memory })

  -- `if not rows and self.settings.allow_demo_memory()`
  abbrev pub or_in_memory :
      Settings F → ℕ → List (SetpointAdvice F) → List ℕ × RtoState F → List ℕ × RtoState F
  or_in_memory cfg now advice (ids, st) =
      if is_nil ids && allow_demo_memory cfg
      then in_memory (persist now advice [] st.memory) st
      else (ids, st)

  -- The rows stored: in the database, and in the memory where the database gives none and it may be
  -- used.
  unfoldable pub store_advice :
      Settings F → Storing → ℕ → List (SetpointAdvice F) → RtoState F → List ℕ × RtoState F
  unfolding try_persist
  store_advice cfg database now advice st =
      or_in_memory cfg now advice (in_database (try_persist database now advice [] st.world) st)

  unfoldable pub mark : ℕ → ℕ → RtoState F → RtoState F
  mark now count st = record st {
    last_persist = some now;
    status = record st.status { last_persisted_at = some now; last_persisted_count = count };
  }

  abbrev pub queue_result :
      Settings F → Storing → ℕ → RtoCycleResult F → RtoState F → Option ℕ × RtoState F
  queue_result cfg database now result st =
      let seen = record st { status = record st.status { last_cycle_at = some now } } in
      if not (is_due cfg now st.last_persist) || is_nil result.advice
      then (some 0, seen)
      else let (ids, stored) = store_advice cfg database now result.advice seen in
        (some (length ids), mark now (length ids) stored)

  abbrev pub finish_cycle :
      Settings F → Storing → ℕ → Option (RtoCycleResult F) → RtoState F → Option ℕ × RtoState F
  finish_cycle cfg database now none st = (none, st)
  finish_cycle cfg database now (some result) st = queue_result cfg database now result st

  -- The count of rows queued, or `none` where both cycles raise.
  unfoldable pub run_once :
      Settings F
      → Wording F
      → ℕ
      → Option (Loads F)
      → Loads F
      → Storing
      → RtoState F
      → Option ℕ × RtoState F
  run_once cfg words now with_session without database st =
      finish_cycle cfg database now
        (cycle_or (session_cycle words now with_session) (compute_rto_cycle words now without)) st
