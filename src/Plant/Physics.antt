-- ===== src/Plant/Physics.antt =====
-- app/services/physics.py: what follows from the flows and the temperature.
use khalij_intelligent_energ.Base.{if◌then◌else◌}
use khalij_intelligent_energ.Base.Float.{FloatOps}

pub record Derived (F : Type 0) : Type 0 where
  pub energy_intensity_kgoe_ton : F
  pub carbon_emission_kgco2_ton : F
  pub energy_efficiency_percent : F

-- The five measured values of the formulas.
pub record Measured (F : Type 0) : Type 0 where
  pub electricity_power_mw : F
  pub fuel_gas_flow_km3h : F
  pub steam_flow_tonh : F
  pub feed_flow_tonh : F
  pub reactor_temp_c : F

module _ {F : Type 0} ⦃fl : FloatOps F⦄ where
  open fl use {lt, add, sub, mul, lit, round_to}

  -- `np.clip(value, lo, hi)`
  abbrev pub np_clip : F → F → F → F
  np_clip value lo hi = if lt value lo then lo else if lt hi value then hi else value

  unfoldable pub energy_intensity : F → F → F → F → F
  energy_intensity fuel steam feed temp =
      np_clip
        (add
          (sub (add (add (lit 600 0) (mul (lit 5 1) fuel)) (mul (lit 2 0) steam))
            (mul (lit 1 1) feed))
          (mul (lit 3 1) temp))
        (lit 500 0) (lit 800 0)

  unfoldable pub carbon_emission_intensity : F → F → F → F
  carbon_emission_intensity fuel steam power =
      np_clip (add (add (mul (lit 2 1) fuel) (mul (lit 3 1) steam)) (mul (lit 5 2) power))
        (lit 20 0) (lit 80 0)

  unfoldable pub energy_efficiency : F → F
  energy_efficiency ei =
      np_clip (sub (lit 85 0) (mul (lit 25 3) (sub ei (lit 500 0)))) (lit 60 0) (lit 92 0)

  unfoldable pub enrich_reading : Measured F → Derived F
  unfolding energy_intensity carbon_emission_intensity energy_efficiency
  enrich_reading m =
      let ei =
        energy_intensity m.fuel_gas_flow_km3h m.steam_flow_tonh m.feed_flow_tonh m.reactor_temp_c in
      let ce =
        carbon_emission_intensity m.fuel_gas_flow_km3h m.steam_flow_tonh m.electricity_power_mw in
      record {
        energy_intensity_kgoe_ton = round_to ei 2;
        carbon_emission_kgco2_ton = round_to ce 2;
        energy_efficiency_percent = round_to (energy_efficiency ei) 2;
      }
