-- ===== src/Optimization/Engine.antt =====
-- app/optimization/engine.py: units benchmarked against each other, and setpoints proposed for the
-- less efficient. The texts of a title and a rationale are an argument.
pub mod Bounds
pub mod Total
pub mod Examples
use khalij_intelligent_energ.Base.{
  ℕ, zero, suc, ◌/◌, String, Bool, true, false, not, ◌||◌, ◌&&◌, Option, none, some, List, [], ◌∷◌,
  ◌++◌, map, length, keep, is_nil, is_some, or_else, str_eq, if◌then◌else◌,
}
use khalij_intelligent_energ.Base.Float.{FloatOps}
use khalij_intelligent_energ.Base.Table.{Dict, get}
use khalij_intelligent_energ.Optimization.Model.{UnitOperatingState, Priority, SetpointAdvice}

pub data Tier : Type 0 where
  high low : Tier

pub record UnitBenchmark (F : Type 0) : Type 0 where
  pub plant_code : String
  pub energy_efficiency_percent : F
  pub energy_intensity_kgoe_ton : F
  pub tier : Tier
  pub gap_pp_vs_best : F
  pub benchmark_plant : Option String

pub record Wording (F : Type 0) : Type 0 where
  pub title : String → String → String
  pub rationale : UnitOperatingState F → UnitOperatingState F → String

abbrev pub get_elem? {ℓ} : {A : Type ℓ} → List A → ℕ → Option A
get_elem? [] n = none
get_elem? (x ∷ xs) zero = some x
get_elem? (x ∷ xs) (suc n) = get_elem? xs n

abbrev pub is_low : Tier → Bool
is_low Tier.low = true
is_low Tier.high = false

-- `{x.plant_code: x for x in xs}[code]`: the last with the code.
unfoldable pub last_of {ℓ} : {A : Type ℓ} → (A → String) → String → List A → Option A
last_of code_of code [] = none
last_of code_of code (x ∷ xs) = elim (last_of code_of code xs) [
  | some later ↦ some later
  | none ↦ if str_eq (code_of x) code then some x else none
]

module _ {F : Type 0} ⦃fl : FloatOps F⦄ where
  open fl use {lt, eq, neg, add, sub, mul, div, lit, round_to}

  abbrev pub lower : F → F → F
  lower a b = if lt b a then b else a

  abbrev pub greater : F → F → F
  greater a b = if lt a b then b else a

  abbrev pub at_least : F → F → Bool
  at_least a b = lt b a || eq a b

  abbrev pub absolute : F → F
  absolute x = if lt x (lit 0 0) then neg x else x

  -- `max(lo, min(hi, value))`
  unfoldable pub clip : F → F → F → F
  clip value lo hi = greater lo (lower hi value)

  -- `max(states, key=...)`: the first of the greatest.
  unfoldable pub best_from :
      UnitOperatingState F → List (UnitOperatingState F) → UnitOperatingState F
  best_from best [] = best
  best_from best (s ∷ states) =
      best_from (if lt best.energy_efficiency_percent s.energy_efficiency_percent then s else best)
        states

  unfoldable pub insert_sorted : F → List F → List F
  insert_sorted x [] = x ∷ []
  insert_sorted x (y ∷ ys) = if lt y x then y ∷ insert_sorted x ys else x ∷ y ∷ ys

  unfoldable pub sorted : List F → List F
  sorted [] = []
  sorted (x ∷ xs) = insert_sorted x (sorted xs)

  -- `sorted(...)[len(states) // 2]`, which is in range where there is a state
  unfoldable pub median_efficiency : List (UnitOperatingState F) → F
  median_efficiency states =
      let effs = map (λ (s : UnitOperatingState F). s.energy_efficiency_percent) states in
      or_else (get_elem? (sorted effs) (length states / 2)) (lit 0 0)

  unfoldable pub benchmark : F → UnitOperatingState F → UnitOperatingState F → UnitBenchmark F
  benchmark median best s = record {
    plant_code = s.plant_code;
    energy_efficiency_percent = s.energy_efficiency_percent;
    energy_intensity_kgoe_ton = s.energy_intensity_kgoe_ton;
    tier = if at_least s.energy_efficiency_percent median then Tier.high else Tier.low;
    gap_pp_vs_best = round_to (sub best.energy_efficiency_percent s.energy_efficiency_percent) 2;
    benchmark_plant = if str_eq s.plant_code best.plant_code then none else some best.plant_code;
  }

  unfoldable pub classify_units : List (UnitOperatingState F) → List (UnitBenchmark F)
  classify_units [] = []
  classify_units (first ∷ rest) =
      let states = first ∷ rest in
      map (benchmark (median_efficiency states) (best_from first rest)) states

  abbrev pub current_of : UnitOperatingState F → Dict F
  current_of s =
      ("reactor_temp_c", s.reactor_temp_c)
      ∷ ("feed_flow_tonh", s.feed_flow_tonh)
      ∷ ("fuel_gas_flow_km3h", s.fuel_gas_flow_km3h)
      ∷ ("steam_flow_tonh", s.steam_flow_tonh)
      ∷ ("electricity_power_mw", s.electricity_power_mw)
      ∷ []

  -- Toward the best unit: cooler if hotter, more feed if less, less fuel and steam.
  unfoldable pub temp_delta : UnitOperatingState F → UnitOperatingState F → F
  temp_delta state best =
      if lt (add best.reactor_temp_c (lit 1 0)) state.reactor_temp_c
      then neg (clip (sub state.reactor_temp_c best.reactor_temp_c) (lit 3 0) (lit 10 0))
      else if lt (lit 650 0) state.energy_intensity_kgoe_ton
      then neg (lit 7 0)
      else lit 0 0

  unfoldable pub feed_delta : UnitOperatingState F → UnitOperatingState F → F
  feed_delta state best =
      if lt state.feed_flow_tonh (sub best.feed_flow_tonh (lit 1 0))
      then clip (sub best.feed_flow_tonh state.feed_flow_tonh) (lit 2 0) (lit 10 0)
      else if lt (lit 650 0) state.energy_intensity_kgoe_ton
      then lit 5 0
      else lit 0 0

  unfoldable pub fuel_delta : UnitOperatingState F → UnitOperatingState F → F
  fuel_delta state best =
      if lt (add best.fuel_gas_flow_km3h (lit 1 0)) state.fuel_gas_flow_km3h
      then neg (clip (sub state.fuel_gas_flow_km3h best.fuel_gas_flow_km3h) (lit 2 0) (lit 15 0))
      else lit 0 0

  unfoldable pub steam_delta : UnitOperatingState F → UnitOperatingState F → F
  steam_delta state best =
      if lt (add best.steam_flow_tonh (lit 5 1)) state.steam_flow_tonh
      then neg (clip (sub state.steam_flow_tonh best.steam_flow_tonh) (lit 1 0) (lit 8 0))
      else lit 0 0

  unfoldable pub proposed_of : UnitOperatingState F → UnitOperatingState F → Dict F
  proposed_of s best =
      (
        "reactor_temp_c",
        round_to (clip (add s.reactor_temp_c (temp_delta s best)) (lit 380 0) (lit 420 0)) 2,
      )
      ∷ (
        "feed_flow_tonh",
        round_to (clip (add s.feed_flow_tonh (feed_delta s best)) (lit 80 0) (lit 120 0)) 2,
      )
      ∷ (
        "fuel_gas_flow_km3h",
        round_to (clip (add s.fuel_gas_flow_km3h (fuel_delta s best)) (lit 50 0) (lit 150 0)) 2,
      )
      ∷ (
        "steam_flow_tonh",
        round_to (clip (add s.steam_flow_tonh (steam_delta s best)) (lit 10 0) (lit 50 0)) 2,
      )
      ∷ ("electricity_power_mw", round_to s.electricity_power_mw 2)
      ∷ []

  -- The changes of more than 0.05, rounded.
  unfoldable pub deltas_of : Dict F → Dict F → Dict F
  deltas_of current [] = []
  deltas_of current ((name, value) ∷ proposed) =
      let rest = deltas_of current proposed in
      let change = sub value (or_else (get name current) (lit 0 0)) in
      if lt (lit 5 2) (absolute change) then (name, round_to change 2) ∷ rest else rest

  unfoldable pub sec_reduction_pct : UnitOperatingState F → UnitOperatingState F → F
  sec_reduction_pct s best =
      let gap =
        greater (lit 0 0) (sub s.energy_intensity_kgoe_ton best.energy_intensity_kgoe_ton) in
      lower (lit 12 0) (mul (div gap (greater s.energy_intensity_kgoe_ton (lit 1 0))) (lit 100 0))

  unfoldable pub tags_of : Dict F → List String
  tags_of deltas =
      let has = λ (name : String). is_some (get name deltas) in
      ("sec" ∷ "benchmark" ∷ [])
      ++ (if has "reactor_temp_c" then "reactor_temp" ∷ [] else [])
      ++ (if has "feed_flow_tonh" then "feed_ratio" ∷ [] else [])
      ++ (if has "fuel_gas_flow_km3h" || has "steam_flow_tonh" then "utilities" ∷ [] else [])

  unfoldable pub advice_for :
      Wording F
      → UnitOperatingState F
      → UnitOperatingState F
      → UnitBenchmark F
      → Dict F
      → SetpointAdvice F
  advice_for words best s bench deltas =
      let sec = sec_reduction_pct s best in
      let saving =
        mul (mul (mul s.energy_intensity_kgoe_ton s.feed_flow_tonh) (lit 1163 2))
          (div sec (lit 100 0)) in
      record {
        plant_code = s.plant_code;
        priority =
            if at_least bench.gap_pp_vs_best (lit 3 0) then Priority.high else Priority.medium;
        title = words.title s.plant_code best.plant_code;
        rationale = words.rationale s best;
        current = current_of s;
        proposed = proposed_of s best;
        deltas = deltas;
        estimated_sec_reduction_pct = round_to sec 2;
        estimated_energy_saving_kwh_per_h = round_to saving 2;
        estimated_efficiency_gain_pp = round_to (lower bench.gap_pp_vs_best (lit 8 0)) 2;
        benchmark_plant = some best.plant_code;
        tags = tags_of deltas;
      }

  -- One round of the loop: no advice for a unit of the high tier, or without a change.
  unfoldable pub advise_unit :
      Wording F
      → UnitOperatingState F
      → UnitOperatingState F
      → UnitBenchmark F
      → List (SetpointAdvice F)
  advise_unit words best s bench =
      let deltas = deltas_of (current_of s) (proposed_of s best) in
      if not (is_low bench.tier) || is_nil deltas
      then []
      else advice_for words best s bench deltas ∷ []

  -- A unit without a benchmark raises a KeyError.
  unfoldable pub advise_units :
      Wording F
      → UnitOperatingState F
      → List (UnitBenchmark F)
      → List (UnitOperatingState F)
      → Option (List (SetpointAdvice F))
  advise_units words best benchmarks [] = some []
  advise_units words best benchmarks (s ∷ states) =
      let rest = advise_units words best benchmarks states in
      elim (last_of (λ (b : UnitBenchmark F). b.plant_code) s.plant_code benchmarks) [
        | none ↦ none
        | some bench ↦ elim rest [
          | none ↦ none
          | some later ↦ some (advise_unit words best s bench ++ later)
        ]
      ]

  -- `none` where the code raises: `max` of no states, or a unit without a benchmark.
  unfoldable pub build_structured_advice :
      Wording F
      → List (UnitOperatingState F)
      → List (UnitBenchmark F)
      → Option (List (SetpointAdvice F))
  build_structured_advice words [] benchmarks = none
  build_structured_advice words (first ∷ rest) benchmarks =
      let states = first ∷ rest in
      let code = (best_from first rest).plant_code in
      elim (last_of (λ (s : UnitOperatingState F). s.plant_code) code states) [
        | none ↦ none
        | some best ↦ advise_units words best benchmarks states
      ]
