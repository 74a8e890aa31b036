-- ===== src/Routes/Analysis.antt =====
-- app/api/routes/optimization.py: `analyze`, from the states of the units to the stored advice. What
-- `simulate_advice` gives is an argument, `none` where it raises; so is how the call of the store goes.
use khalij_intelligent_energ.Base.{
  ℕ, String, Bool, ◌&&◌, not, Option, none, some, List, [], ◌∷◌, map, foldl, is_nil, str_eq,
  if◌then◌else◌,
}
use khalij_intelligent_energ.Base.Float.{FloatOps}
use khalij_intelligent_energ.Base.Result.{Result, ok, raise}
use khalij_intelligent_energ.Base.Table.{Dict, get}
use khalij_intelligent_energ.Config.{Settings, allow_demo_memory}
use khalij_intelligent_energ.Optimization.Model.{
  UnitOperatingState, SetpointAdvice, AdviceSimulation, Status, World,
}
use khalij_intelligent_energ.Optimization.Engine.{
  UnitBenchmark, Wording, classify_units, build_structured_advice, last_of,
}
use khalij_intelligent_energ.Optimization.Store.{Storing, try_persist}
use khalij_intelligent_energ.Demo.MemoryRecs.{MemoryRecStore, persist}
use khalij_intelligent_energ.Rto.{Loads, is_one_snapshot}
use khalij_intelligent_energ.Routes.Outputs.{
  RouteError, server_error, OptimizationResponse, advice_out,
}
use khalij_intelligent_energ.Routes.Stores.{ApiState, Route}

module _ {F : Type 0} ⦃fl : FloatOps F⦄ where
  open fl use {add, lit, round_to}

  -- `simulate_advice(by_code[advice.plant_code], advice)` for each item; `none` where one raises.
  unfoldable pub simulate_all :
      (UnitOperatingState F → SetpointAdvice F → Option (AdviceSimulation F))
      → List (UnitOperatingState F)
      → List (SetpointAdvice F)
      → Option (List (AdviceSimulation F))
  simulate_all simulate states [] = some []
  simulate_all simulate states (advice ∷ items) =
      let rest = simulate_all simulate states items in
      elim (last_of (λ (s : UnitOperatingState F). s.plant_code) advice.plant_code states) [
        | none ↦ none
        | some state ↦ elim (simulate state advice) [
          | none ↦ none
          | some sim ↦ elim rest [ none ↦ none | some sims ↦ some (sim ∷ sims) ]
        ]
      ]

  -- `simulations[advice.plant_code] = sim`: the last one for a plant stays.
  unfoldable pub by_plant : List (AdviceSimulation F) → Dict (AdviceSimulation F)
  by_plant [] = []
  by_plant (sim ∷ sims) =
      let rest = by_plant sims in
      elim (get sim.plant_code rest) [ none ↦ (sim.plant_code, sim) ∷ rest | some later ↦ rest ]

  -- `{r.plant_code: r.id for r in rows}`: the last row of a plant.
  unfoldable pub id_of_plant : String → List (SetpointAdvice F) → List ℕ → Option ℕ
  id_of_plant code [] ids = none
  id_of_plant code (advice ∷ items) [] = none
  id_of_plant code (advice ∷ items) (id ∷ ids) = elim (id_of_plant code items ids) [
    | some later ↦ some later
    | none ↦ if str_eq advice.plant_code code then some id else none
  ]

  abbrev pub in_database : List ℕ × World F → ApiState F → List ℕ × ApiState F
  in_database (ids, w) st = (ids, record st { world = w })

  abbrev pub in_memory : List ℕ × MemoryRecStore F → ApiState F → List ℕ × ApiState F
  in_memory (ids, m) st = (ids, record st { memory = m })

  -- `if not rows and get_settings().allow_demo_memory()`
  abbrev pub or_in_memory :
      Settings F
      → ℕ
      → List (SetpointAdvice F)
      → Dict (AdviceSimulation F)
      → List ℕ × ApiState F
      → List ℕ × ApiState F
  or_in_memory cfg now items simulations (ids, st) =
      if is_nil ids && allow_demo_memory cfg
      then in_memory (persist now items simulations st.memory) st
      else (ids, st)

  -- The rows stored: `database` says how the call of the store goes.
  unfoldable pub store_analysis :
      Settings F
      → Storing
      → ℕ
      → List (SetpointAdvice F)
      → Dict (AdviceSimulation F)
      → ApiState F
      → List ℕ × ApiState F
  unfolding try_persist
  store_analysis cfg database now items simulations st =
      or_in_memory cfg now items simulations
        (in_database (try_persist database now items simulations st.world) st)

  abbrev pub respond :
      List (UnitBenchmark F)
      → List (SetpointAdvice F)
      → List (AdviceSimulation F)
      → List ℕ
      → OptimizationResponse F
  respond benchmarks items sims ids = record {
    units = benchmarks;
    advice =
        map
          (λ (a : SetpointAdvice F).
            advice_out a (id_of_plant a.plant_code items ids) (get a.plant_code (by_plant sims))
              Status.pending)
          items;
    simulations = sims;
    total_estimated_saving_kwh_per_h =
        round_to
          (foldl add (lit 0 0)
            (map (λ (a : SetpointAdvice F). a.estimated_energy_saving_kwh_per_h) items))
          2;
  }

  abbrev pub answered :
      List (UnitBenchmark F)
      → List (SetpointAdvice F)
      → List (AdviceSimulation F)
      → List ℕ × ApiState F
      → Result RouteError (OptimizationResponse F) × ApiState F
  answered benchmarks items sims (ids, st) = (ok (respond benchmarks items sims ids), st)

  -- The end of `analyze`, once the advice and the simulations are there.
  abbrev pub finish_analysis :
      Settings F
      → Bool
      → Storing
      → ℕ
      → List (UnitBenchmark F)
      → List (SetpointAdvice F)
      → List (AdviceSimulation F)
      → Route F (OptimizationResponse F)
  finish_analysis cfg wanted database now benchmarks items sims st =
      if wanted && not (is_nil items)
      then answered benchmarks items sims (store_analysis cfg database now items (by_plant sims) st)
      else (ok (respond benchmarks items sims []), st)

  abbrev pub analyze_with :
      Settings F
      → Bool
      → Storing
      → ℕ
      → List (UnitBenchmark F)
      → Option (List (SetpointAdvice F))
      → (List (SetpointAdvice F) → Option (List (AdviceSimulation F)))
      → Route F (OptimizationResponse F)
  analyze_with cfg wanted database now benchmarks none simulate = raise server_error
  analyze_with cfg wanted database now benchmarks (some items) simulate = elim (simulate items) [
    | none ↦ raise server_error
    | some sims ↦ finish_analysis cfg wanted database now benchmarks items sims
  ]

  unfoldable pub analyze_states :
      Settings F
      → Wording F
      → Loads F
      → (UnitOperatingState F → SetpointAdvice F → Option (AdviceSimulation F))
      → Bool
      → Bool
      → Storing
      → ℕ
      → Route F (OptimizationResponse F)
  analyze_states cfg words (loaded, reloaded) simulate simulates wanted database now =
      let states = if is_one_snapshot loaded then reloaded else loaded in
      let benchmarks = classify_units states in
      analyze_with cfg wanted database now benchmarks
        (build_structured_advice words states benchmarks)
        (λ items. if simulates then simulate_all simulate states items else some [])
