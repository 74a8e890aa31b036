-- ===== src/Plant/Examples.antt =====
-- Readings on small data, and the theorems at inputs that meet their hypotheses.
use khalij_intelligent_energ.Base.{
  ℕ, String, false, ◌≡◌, refl, none, some, List, [], ◌∷◌, ◌++◌, All,
}
use khalij_intelligent_energ.Base.NatFloat.{nat_float}
use khalij_intelligent_energ.Plant.Live.{Payload, LiveReading, from_payload}
use khalij_intelligent_energ.Base.Result.{ok}
use khalij_intelligent_energ.Base.Table.{Dict, get}
use khalij_intelligent_energ.Plant.Sensors.{
  SensorFields, SensorReading, find_reading, upsert_reading, oldest_first, in_window, get_history,
  upsert_reading_lem,
}
use khalij_intelligent_energ.Plant.Sensors.History.{NotBefore, get_history_oldest}

-- A plant that burns no gas at the moment.
abbrev idle : Payload ℕ
idle = record {
  time = some 5;
  electricity_power_mw = some 12;
  fuel_gas_flow_km3h = some 0;
  steam_flow_tonh = some 30;
  feed_flow_tonh = some 100;
  reactor_temp_c = some 400;
  pressure_bar = none;
  energy_intensity_kgoe_ton = none;
  carbon_emission_kgco2_ton = none;
  energy_efficiency_percent = none;
  source = none;
  quality = none;
}

abbrev read_plant : String → LiveReading ℕ
read_plant code = from_payload 5 code idle "db"

abbrev no_values : SensorFields ℕ
no_values = record {
  electricity_power_mw = none;
  fuel_gas_flow_km3h = none;
  steam_flow_tonh = none;
  feed_flow_tonh = none;
  reactor_temp_c = none;
  pressure_bar = none;
  energy_intensity_kgoe_ton = none;
  carbon_emission_kgco2_ton = none;
  energy_efficiency_percent = none;
  source = none;
  quality = none;
  quality_detail = none;
}

abbrev hot : SensorFields ℕ
hot = record no_values { reactor_temp_c = some 450 }

abbrev reading_at : ℕ → SensorReading ℕ
reading_at time = record { time = time; plant_id = 1; fields = no_values }

abbrev plants : Dict ℕ
plants = ("olefin", 1) ∷ []

abbrev stored : List (SensorReading ℕ)
stored = reading_at 100 ∷ reading_at 102 ∷ reading_at 101 ∷ []

known_plant : get "olefin" plants ≡ some 1
unfolding get
known_plant = refl

-- The newest of three readings is left out where two are asked for.
get_history_oldest_example :
    (left_out : List (SensorReading ℕ)) × (get_history 110 plants "olefin" 2 2 stored ++ left_out
      ≡ oldest_first (in_window 110 1 2 stored))
    × All
        (λ (r : SensorReading ℕ). NotBefore r.time left_out)
        (get_history 110 plants "olefin" 2 2 stored)
get_history_oldest_example = get_history_oldest 110 plants "olefin" 1 2 2 stored known_plant

newest_left_out : get_history 110 plants "olefin" 2 2 stored ≡ reading_at 100 ∷ reading_at 101 ∷ []
unfolding get_history get
newest_left_out = refl

upsert_reading_lem_example :
    let new : SensorReading ℕ = record { time = 102; plant_id = 1; fields = hot } in
    let done = upsert_reading false false plants "olefin" 102 hot stored in
    (done.0 ≡ ok new) × (find_reading 102 1 done.1 ≡ some new)
unfolding find_reading
upsert_reading_lem_example =
    upsert_reading_lem false false plants "olefin" 1 102 hot stored 102 1 known_plant refl
