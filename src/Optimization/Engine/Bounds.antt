-- ===== src/Optimization/Engine/Bounds.antt =====
-- What the advice of app/optimization/engine.py keeps to, whatever the plants report.
use khalij_intelligent_energ.Base.{
  ℕ, ◌≤◌, String, true, false, not, ◌||◌, ◌≡◌, refl, inl, inr, some, List, [], ◌∷◌, ◌++◌, is_nil,
  arith, Bool-cases, Option-cases, All, All-append,
}
use khalij_intelligent_energ.Base.Float.{FloatOps}
use khalij_intelligent_energ.Base.Table.{Dict, get}
use khalij_intelligent_energ.Optimization.Model.{UnitOperatingState, SetpointAdvice}
use khalij_intelligent_energ.Optimization.Engine.{
  UnitBenchmark, is_low, Wording, last_of, clip, best_from, current_of, proposed_of, deltas_of,
  advice_for, advise_unit, advise_units, build_structured_advice,
}

-- What the bounds need of floats; it holds of IEEE numbers, where comparing with a NaN is false.
pub record HasOrder (F : Type 0) ⦃fl : FloatOps F⦄ : Type 0 where
  pub irreflexive : (x : F) → fl.lt x x ≡ false
  pub asymmetric : (x y : F) → fl.lt x y ≡ true → fl.lt y x ≡ false
  pub lit_ordered : (m n : ℕ) → m ≤ n → fl.lt (fl.lit n 0) (fl.lit m 0) ≡ false
  -- Rounding to two places does not cross a whole number.
  pub round_above :
      (x : F) (n : ℕ) → fl.lt x (fl.lit n 0) ≡ false → fl.lt (fl.round_to x 2) (fl.lit n 0) ≡ false
  pub round_below :
      (x : F) (n : ℕ) → fl.lt (fl.lit n 0) x ≡ false → fl.lt (fl.lit n 0) (fl.round_to x 2) ≡ false

module _ {F : Type 0} ⦃fl : FloatOps F⦄ where
  open fl use {lt, add, lit, round_to}

  -- The proposal for a variable, between two whole numbers.
  pub record IsBounded (name : String) (low high : ℕ) (proposed : Dict F) : Type 0 where
    pub value : F
    pub there : get name proposed ≡ some value
    pub above : lt value (lit low 0) ≡ false
    pub below : lt (lit high 0) value ≡ false

  -- Every setpoint is proposed within its range, and some variable changes.
  pub record IsSafe (a : SetpointAdvice F) : Type 0 where
    pub temp : IsBounded "reactor_temp_c" 380 420 a.proposed
    pub feed : IsBounded "feed_flow_tonh" 80 120 a.proposed
    pub fuel : IsBounded "fuel_gas_flow_km3h" 50 150 a.proposed
    pub steam : IsBounded "steam_flow_tonh" 10 50 a.proposed
    pub changes : is_nil a.deltas ≡ false

  module _ (laws : HasOrder F) where
    clip_above :
        (v : F) (low high : ℕ)
        → low ≤ high
        → lt (clip v (lit low 0) (lit high 0)) (lit low 0) ≡ false
    unfolding clip
    clip_above v low high le = ground (
      arith,
      laws.irreflexive (lit low 0),
      laws.asymmetric (lit low 0) v,
      laws.asymmetric (lit low 0) (lit high 0),
    )

    clip_below :
        (v : F) (low high : ℕ)
        → low ≤ high
        → lt (lit high 0) (clip v (lit low 0) (lit high 0)) ≡ false
    unfolding clip
    clip_below v low high le = ground (
      arith,
      laws.irreflexive (lit high 0),
      laws.asymmetric v (lit high 0),
      laws.lit_ordered low high le,
    )

    bounded :
        (name : String) (v : F) (low high : ℕ) (proposed : Dict F)
        → low ≤ high
        → get name proposed ≡ some (round_to (clip v (lit low 0) (lit high 0)) 2)
        → IsBounded name low high proposed
    bounded name v low high proposed le there = record {
      value = round_to (clip v (lit low 0) (lit high 0)) 2;
      there = there;
      above = laws.round_above _ low (clip_above v low high le);
      below = laws.round_below _ high (clip_below v low high le);
    }

    advice_for-IsSafe :
        (words : Wording F) (s best : UnitOperatingState F) (bench : UnitBenchmark F)
        (deltas : Dict F)
        → is_nil deltas ≡ false
        → IsSafe (advice_for words best s bench deltas)
    unfolding advice_for proposed_of get
    advice_for-IsSafe words s best bench deltas changes = record {
      temp = bounded "reactor_temp_c" _ 380 420 _ (omega arith) refl;
      feed = bounded "feed_flow_tonh" _ 80 120 _ (omega arith) refl;
      fuel = bounded "fuel_gas_flow_km3h" _ 50 150 _ (omega arith) refl;
      steam = bounded "steam_flow_tonh" _ 10 50 _ (omega arith) refl;
      changes = changes;
    }

    advise_unit-IsSafe :
        (words : Wording F) (best s : UnitOperatingState F) (bench : UnitBenchmark F)
        → All IsSafe (advise_unit words best s bench)
    unfolding advise_unit
    advise_unit-IsSafe words best s bench =
        let deltas = deltas_of (current_of s) (proposed_of s best) in
        elim (Bool-cases (not (is_low bench.tier) || is_nil deltas)) [
          | inl t ↦ rw t tt
          | inr f ↦ rw f (advice_for-IsSafe words s best bench deltas (ground arith), tt)
        ]

    advise_units-IsSafe :
        (words : Wording F) (best : UnitOperatingState F) (benchmarks : List (UnitBenchmark F))
        (states : List (UnitOperatingState F)) (advice : List (SetpointAdvice F))
        → advise_units words best benchmarks states ≡ some advice
        → All IsSafe advice
    unfolding advise_units
    advise_units-IsSafe words best benchmarks [] advice h =
        let eq : [] ≡ advice = ground arith in rw (← eq) tt
    advise_units-IsSafe words best benchmarks (s ∷ states) advice h =
        elim (Option-cases
          (last_of (λ (b : UnitBenchmark F). b.plant_code) s.plant_code benchmarks)) [
            | inl e ↦ ground arith
            | inr (bench, e) ↦ elim (Option-cases (advise_units words best benchmarks states)) [
              | inl e' ↦ ground arith
              | inr (later, e') ↦
                  let eq : advise_unit words best s bench ++ later ≡ advice = ground arith in
                  rw (← eq) (
                    All-append IsSafe (advise_unit words best s bench) later
                      (advise_unit-IsSafe words best s bench)
                      (advise_units-IsSafe words best benchmarks states later e'))
            ]
          ]

    -- Whatever the units report, each item of advice proposes a reactor temperature of 380 to 420, a
    -- feed flow of 80 to 120, a fuel gas flow of 50 to 150 and a steam flow of 10 to 50, and changes
    -- something; the comparisons and the rounding are taken to behave as those of floats do.
    pub advice_proposals-IsSafe :
        (words : Wording F) (states : List (UnitOperatingState F))
        (benchmarks : List (UnitBenchmark F)) (advice : List (SetpointAdvice F))
        → build_structured_advice words states benchmarks ≡ some advice
        → All IsSafe advice
    unfolding build_structured_advice
    advice_proposals-IsSafe words [] benchmarks advice h = ground arith
    advice_proposals-IsSafe words (first ∷ rest) benchmarks advice h =
        elim (Option-cases (
          last_of (λ (s : UnitOperatingState F). s.plant_code) (best_from first rest).plant_code
            (first ∷ rest))) [
              | inl e ↦ ground arith
              | inr (best, e) ↦
                  advise_units-IsSafe words best benchmarks (first ∷ rest) advice (ground arith)
            ]
