-- ===== src/Plant/Snapshots.antt =====
-- app/optimization/snapshots.py: the states that advice is computed from. The reading of a plant
-- (`load_unit_state`) is an argument.
use khalij_intelligent_energ.Base.{
  ℕ, zero, suc, ◌+◌, String, ◌≡◌, refl, some, List, [], ◌∷◌, ◌==◌, arith, if◌then◌else◌,
}
use khalij_intelligent_energ.Base.Float.{FloatOps}
use khalij_intelligent_energ.Optimization.Model.{UnitOperatingState}
use khalij_intelligent_energ.Optimization.Engine.{get_elem?}
use khalij_intelligent_energ.Plant.Physics.{Measured, enrich_reading}
use khalij_intelligent_energ.Plant.Live.{LiveReading}

module _ {F : Type 0} where
  unfoldable pub load_unit_state : LiveReading F → String → UnitOperatingState F
  load_unit_state r code = record {
    plant_code = code;
    electricity_power_mw = r.measured.electricity_power_mw;
    fuel_gas_flow_km3h = r.measured.fuel_gas_flow_km3h;
    steam_flow_tonh = r.measured.steam_flow_tonh;
    feed_flow_tonh = r.measured.feed_flow_tonh;
    reactor_temp_c = r.measured.reactor_temp_c;
    energy_efficiency_percent = r.energy_efficiency_percent;
    energy_intensity_kgoe_ton = r.energy_intensity_kgoe_ton;
    carbon_emission_kgco2_ton = r.carbon_emission_kgco2_ton;
    pressure_bar = r.pressure_bar;
  }

module _ {F : Type 0} ⦃fl : FloatOps F⦄ where
  open fl use {add, mul, lit}

  -- The state of the unit at position `i` where `i` is not zero.
  unfoldable pub nudge : ℕ → UnitOperatingState F → String → UnitOperatingState F
  nudge i state code =
      let factor = add (lit 1 0) (mul (lit 8 2) (lit i 0)) in
      let base : Measured F = record {
        electricity_power_mw = mul state.electricity_power_mw factor;
        fuel_gas_flow_km3h = mul state.fuel_gas_flow_km3h factor;
        steam_flow_tonh = mul state.steam_flow_tonh factor;
        feed_flow_tonh = state.feed_flow_tonh;
        reactor_temp_c = add state.reactor_temp_c (mul (lit 2 0) (lit i 0));
      } in
      let derived = enrich_reading base in
      record {
        plant_code = code;
        electricity_power_mw = base.electricity_power_mw;
        fuel_gas_flow_km3h = base.fuel_gas_flow_km3h;
        steam_flow_tonh = base.steam_flow_tonh;
        feed_flow_tonh = base.feed_flow_tonh;
        reactor_temp_c = base.reactor_temp_c;
        energy_efficiency_percent = derived.energy_efficiency_percent;
        energy_intensity_kgoe_ton = derived.energy_intensity_kgoe_ton;
        carbon_emission_kgco2_ton = some derived.carbon_emission_kgco2_ton;
        pressure_bar = state.pressure_bar;
      }

  -- The loop from position `i` on.
  unfoldable pub load_from :
      (String → LiveReading F) → ℕ → List String → List (UnitOperatingState F)
  load_from read i [] = []
  load_from read i (code ∷ codes) =
      let state = load_unit_state (read code) code in
      let rest = load_from read (suc i) codes in
      (if i == 0 then state else nudge i state code) ∷ rest

  unfoldable pub load_unit_states :
      (String → LiveReading F) → List String → List (UnitOperatingState F)
  load_unit_states read codes = load_from read 0 codes

  nudged_from :
      (read : String → LiveReading F) (n i k : ℕ) (codes : List String) (code : String)
      → k ≡ suc (n + i)
      → get_elem? codes i ≡ some code
      → (state : UnitOperatingState F) × (get_elem? (load_from read (suc n) codes) i ≡ some state)
        × (state.fuel_gas_flow_km3h
            ≡ mul (read code).measured.fuel_gas_flow_km3h (add (lit 1 0) (mul (lit 8 2) (lit k 0))))
        × (state.feed_flow_tonh ≡ (read code).measured.feed_flow_tonh)
  unfolding load_from nudge load_unit_state
  nudged_from read n i k [] code at_k h = ground arith
  nudged_from read n zero k (c ∷ codes) code at_k h =
      let position : k ≡ suc n = omega arith in
      let state = nudge (suc n) (load_unit_state (read c) c) c in
      let same : c ≡ code = ground arith in rw (← same, position) (state, ground arith, refl, refl)
  nudged_from read n (suc i) k (c ∷ codes) code at_k h =
      nudged_from read (suc n) i k codes code (omega arith) h

  -- The state of every unit but the first has its measured fuel gas flow raised by 8 % for each unit
  -- before it, whatever the units' readings are; its feed flow is as measured.
  pub later_units_nudged :
      (read : String → LiveReading F) (codes : List String) (i : ℕ) (code : String)
      → get_elem? codes (suc i) ≡ some code
      → (state : UnitOperatingState F) × (get_elem? (load_unit_states read codes) (suc i)
          ≡ some state)
        × (state.fuel_gas_flow_km3h
            ≡ mul
                (read code).measured.fuel_gas_flow_km3h
                (add (lit 1 0) (mul (lit 8 2) (lit (suc i) 0))))
        × (state.feed_flow_tonh ≡ (read code).measured.feed_flow_tonh)
  unfolding load_unit_states load_from
  later_units_nudged read [] i code h = ground arith
  later_units_nudged read (c ∷ codes) i code h =
      nudged_from read 0 i (suc i) codes code (omega arith) h
