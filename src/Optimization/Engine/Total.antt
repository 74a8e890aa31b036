-- ===== src/Optimization/Engine/Total.antt =====
-- app/optimization/engine.py raises nothing on units with their own benchmarks, and advises the
-- low tier alone.
use khalij_intelligent_energ.Base.{
  String, true, not, ◌||◌, ◌≡◌, refl, ap, inl, inr, some, List, [], ◌∷◌, ◌++◌, map, is_nil, is_some,
  str_eq_self, arith, Bool-cases, Option-cases, All, All-append, All-map,
}
use khalij_intelligent_energ.Base.Float.{FloatOps}
use khalij_intelligent_energ.Optimization.Model.{UnitOperatingState, SetpointAdvice}
use khalij_intelligent_energ.Optimization.Engine.{
  UnitBenchmark, is_low, Wording, last_of, best_from, benchmark, median_efficiency, classify_units,
  advise_unit, advise_units, build_structured_advice, deltas_of, current_of, proposed_of,
  advice_for,
}

module _ {ℓ} {A : Type ℓ} (code_of : A → String) where
  HasCode : List A → String → Type 0
  HasCode xs code = is_some (last_of code_of code xs) ≡ true

  HasCode-cons : (x : A) (xs : List A) (code : String) → HasCode xs code → HasCode (x ∷ xs) code
  unfolding HasCode last_of
  HasCode-cons x xs code h = ground arith

  HasCode-head : (x : A) (xs : List A) → HasCode (x ∷ xs) (code_of x)
  unfolding HasCode last_of
  HasCode-head x xs = elim (Option-cases (last_of code_of (code_of x) xs)) [
    | inl e ↦ ground (arith, str_eq_self (code_of x))
    | inr (y, e) ↦ ground arith
  ]

  HasCode-second :
      (x y : A) (xs : List A) (code : String) → HasCode (x ∷ xs) code → HasCode (x ∷ y ∷ xs) code
  unfolding HasCode last_of
  HasCode-second x y xs code h = elim (Option-cases (last_of code_of code xs)) [
    | inl e ↦ ground arith
    | inr (z, e) ↦ ground arith
  ]

  -- Every member's code is found.
  HasCode-all : (xs : List A) → All (λ x. HasCode xs (code_of x)) xs
  HasCode-all [] = tt
  HasCode-all (x ∷ xs) =
      (HasCode-head x xs, All-map (λ y h. HasCode-cons x xs (code_of y) h) xs (HasCode-all xs))

module _ {ℓ κ} {A : Type ℓ} {B : Type κ} (code_of : A → String) (code_of' : B → String) (f : A → B)
    (same : (x : A) → code_of' (f x) ≡ code_of x) where
  HasCode-map :
      (xs : List A) (code : String) → HasCode code_of xs code → HasCode code_of' (map f xs) code
  unfolding HasCode last_of
  HasCode-map [] code h = h
  HasCode-map (x ∷ xs) code h = elim (Option-cases (last_of code_of code xs)) [
    | inr (y, e) ↦ HasCode-cons code_of' (f x) (map f xs) code (HasCode-map xs code (ap is_some e))
    | inl e ↦ elim (Option-cases (last_of code_of' code (map f xs))) [
      | inr (y, e') ↦ ground arith
      | inl e' ↦ ground (arith, same x)
    ]
  ]

module _ {F : Type 0} ⦃fl : FloatOps F⦄ where
  best_known :
      (best : UnitOperatingState F) (states : List (UnitOperatingState F))
      → HasCode
          (λ (s : UnitOperatingState F). s.plant_code)
          (best ∷ states)
          (best_from best states).plant_code
  unfolding best_from
  best_known best [] = HasCode-head _ best []
  best_known best (s ∷ states) =
      elim (Bool-cases (fl.lt best.energy_efficiency_percent s.energy_efficiency_percent)) [
        | inl t ↦
            let runs : best_from best (s ∷ states) ≡ best_from s states = ground arith in
            rw runs (HasCode-cons _ best (s ∷ states) _ (best_known s states))
        | inr f ↦
            let runs : best_from best (s ∷ states) ≡ best_from best states = ground arith in
            rw runs (HasCode-second _ best s states _ (best_known best states))
      ]

  -- The unit has a benchmark of the low tier.
  pub record IsLow (benchmarks : List (UnitBenchmark F)) (a : SetpointAdvice F) : Type 0 where
    pub bench : UnitBenchmark F
    pub found : last_of (λ (b : UnitBenchmark F). b.plant_code) a.plant_code benchmarks ≡ some bench
    pub low : is_low bench.tier ≡ true

  advise_unit-IsLow :
      (words : Wording F) (best s : UnitOperatingState F) (bench : UnitBenchmark F)
      (benchmarks : List (UnitBenchmark F))
      → last_of (λ (b : UnitBenchmark F). b.plant_code) s.plant_code benchmarks ≡ some bench
      → All (IsLow benchmarks) (advise_unit words best s bench)
  unfolding advise_unit advice_for
  advise_unit-IsLow words best s bench benchmarks found =
      let deltas = deltas_of (current_of s) (proposed_of s best) in
      elim (Bool-cases (not (is_low bench.tier) || is_nil deltas)) [
        | inl t ↦ rw t tt
        | inr f ↦ rw f (record { bench = bench; found = found; low = ground arith }, tt)
      ]

  advise_units_total :
      (words : Wording F) (best : UnitOperatingState F) (benchmarks : List (UnitBenchmark F))
      (states : List (UnitOperatingState F))
      → All
          (λ (s : UnitOperatingState F).
            HasCode (λ (b : UnitBenchmark F). b.plant_code) benchmarks s.plant_code)
          states
      → (advice : List (SetpointAdvice F)) × (advise_units words best benchmarks states
          ≡ some advice)
        × All (IsLow benchmarks) advice
  unfolding advise_units HasCode
  advise_units_total words best benchmarks [] known = ([], refl, tt)
  advise_units_total words best benchmarks (s ∷ states) known =
      let (later, runs, low) = advise_units_total words best benchmarks states known.1 in
      elim (Option-cases
        (last_of (λ (b : UnitBenchmark F). b.plant_code) s.plant_code benchmarks)) [
          | inl e ↦ ground (arith, known.0)
          | inr (bench, e) ↦ (
            advise_unit words best s bench ++ later,
            ground arith,
            All-append (IsLow benchmarks) (advise_unit words best s bench) later
                (advise_unit-IsLow words best s bench benchmarks e) low,
          )
        ]

  -- Advice on one unit or more with the benchmarks of the same units is always given, without an
  -- error, and every item of it is for a unit whose benchmark is of the low tier.
  pub advice_given :
      (words : Wording F) (first : UnitOperatingState F) (rest : List (UnitOperatingState F))
      → (advice : List (SetpointAdvice F)) × (build_structured_advice words
            (first ∷ rest)
            (classify_units (first ∷ rest))
          ≡ some advice)
        × All (IsLow (classify_units (first ∷ rest))) advice
  unfolding build_structured_advice classify_units benchmark HasCode
  advice_given words first rest =
      let states = first ∷ rest in
      let code = λ (s : UnitOperatingState F). s.plant_code in
      let benchmarks = classify_units states in
      let known =
        All-map
          (λ (s : UnitOperatingState F) h.
            HasCode-map code (λ (b : UnitBenchmark F). b.plant_code)
              (benchmark (median_efficiency states) (best_from first rest)) (λ x. refl) states
              s.plant_code h)
          states (HasCode-all code states) in
      elim (Option-cases (last_of code (best_from first rest).plant_code states)) [
        | inl e ↦ ground (arith, best_known first rest)
        | inr (best, e) ↦
            let (advice, runs, low) = advise_units_total words best benchmarks states known in
            (advice, ground arith, low)
      ]
