-- ===== src/Optimization/Engine/Examples.antt =====
-- Two units, one less efficient, and the theorems on them, over whole numbers for floats.
use khalij_intelligent_energ.Base.{
  String, true, false, ◌≡◌, refl, Option, none, some, List, [], ◌∷◌, All, arith,
}
use khalij_intelligent_energ.Base.IntFloat.{ℤ, pos, negsuc, int_lt, int_float}
use khalij_intelligent_energ.Base.Table.{get}
use khalij_intelligent_energ.Optimization.Model.{UnitOperatingState, SetpointAdvice}
use khalij_intelligent_energ.Optimization.Engine.{
  Wording, classify_units, build_structured_advice, benchmark, median_efficiency, best_from, sorted,
  insert_sorted, last_of, clip, temp_delta, feed_delta, fuel_delta, steam_delta, proposed_of,
  deltas_of, sec_reduction_pct, tags_of, advice_for, advise_unit, advise_units,
}
use khalij_intelligent_energ.Optimization.Engine.Bounds.{HasOrder, IsSafe, advice_proposals-IsSafe}
use khalij_intelligent_energ.Optimization.Engine.Total.{IsLow, advice_given}

int_irreflexive : (x : ℤ) → int_lt x x ≡ false
int_irreflexive (pos n) = ground arith
int_irreflexive (negsuc n) = ground arith

int_asymmetric : (x y : ℤ) → int_lt x y ≡ true → int_lt y x ≡ false
int_asymmetric (pos m) (pos n) h = ground arith
int_asymmetric (pos m) (negsuc n) h = ground arith
int_asymmetric (negsuc m) (pos n) h = refl
int_asymmetric (negsuc m) (negsuc n) h = ground arith

int_order : HasOrder ℤ
int_order = record {
  irreflexive = int_irreflexive;
  asymmetric = int_asymmetric;
  lit_ordered = λ m n h. ground arith;
  round_above = λ x n h. h;
  round_below = λ x n h. h;
}

abbrev pub wording : Wording ℤ
wording = record { title = λ unit best. "Align"; rationale = λ s best. "Less efficient" }

abbrev pub good_unit : UnitOperatingState ℤ
good_unit = record {
  plant_code = "pta";
  electricity_power_mw = pos 15;
  fuel_gas_flow_km3h = pos 100;
  steam_flow_tonh = pos 30;
  feed_flow_tonh = pos 100;
  reactor_temp_c = pos 400;
  energy_efficiency_percent = pos 84;
  energy_intensity_kgoe_ton = pos 600;
  carbon_emission_kgco2_ton = none;
  pressure_bar = none;
}

abbrev pub poor_unit : UnitOperatingState ℤ
poor_unit = record good_unit {
  plant_code = "olefin";
  reactor_temp_c = pos 440;
  fuel_gas_flow_km3h = pos 170;
  energy_efficiency_percent = pos 79;
  energy_intensity_kgoe_ton = pos 700;
}

abbrev pub units : List (UnitOperatingState ℤ)
units = good_unit ∷ poor_unit ∷ []

abbrev codes : List (SetpointAdvice ℤ) → List String
codes [] = []
codes (a ∷ items) = a.plant_code ∷ codes items

-- The advice is for the less efficient unit.
abbrev given : Option (List (SetpointAdvice ℤ)) → List String
given none = "raised" ∷ []
given (some items) = codes items

poor_unit_advised :
    given (build_structured_advice wording units (classify_units units)) ≡ "olefin" ∷ []
unfolding build_structured_advice classify_units benchmark median_efficiency best_from sorted
    insert_sorted last_of clip temp_delta feed_delta fuel_delta steam_delta proposed_of deltas_of
    sec_reduction_pct tags_of advice_for advise_unit advise_units get
poor_unit_advised = refl

advice_given_example :
    (advice : List (SetpointAdvice ℤ)) × (build_structured_advice wording units
        (classify_units units)
      ≡ some advice)
    × All (IsLow (classify_units units)) advice
advice_given_example = advice_given wording good_unit (poor_unit ∷ [])

advice_proposals-IsSafe_example : All IsSafe (advice_given wording good_unit (poor_unit ∷ [])).0
advice_proposals-IsSafe_example =
    advice_proposals-IsSafe int_order wording units (classify_units units)
      (advice_given wording good_unit (poor_unit ∷ [])).0
      (advice_given wording good_unit (poor_unit ∷ [])).1
