-- ===== src/Ml/Features.antt =====
-- app/ml/serve.py: the features that a model is asked with, from the readings of a session, and how
-- the row that it answers with is picked.
use khalij_intelligent_energ.Base.{
  ℕ, String, Option, none, some, List, [], ◌∷◌, map, str_eq, is_nil, if◌then◌else◌,
}
use khalij_intelligent_energ.Base.Float.{FloatOps}
use khalij_intelligent_energ.Base.Table.{Dict}
use khalij_intelligent_energ.Plant.Physics.{Measured}
use khalij_intelligent_energ.Plant.Live.{number_or}

-- What a session reads of a plant: the newest reading, and the last readings of some minutes, at most
-- a number of them, the oldest first.
pub record ReadingSession (F : Type 0) : Type 0 where
  pub get_latest_reading : String → Option (Measured (Option F))
  pub get_history : String → ℕ → ℕ → List (Measured (Option F))

module _ {F : Type 0} ⦃fl : FloatOps F⦄ where
  open fl use {lit}

  abbrev pub default_features : Measured F
  default_features = record {
    electricity_power_mw = lit 15 0;
    fuel_gas_flow_km3h = lit 100 0;
    steam_flow_tonh = lit 30 0;
    feed_flow_tonh = lit 100 0;
    reactor_temp_c = lit 400 0;
  }

  -- `value or default` on each column
  unfoldable pub columns_or : Measured F → Measured (Option F) → Measured F
  columns_or default row = record {
    electricity_power_mw = number_or row.electricity_power_mw default.electricity_power_mw;
    fuel_gas_flow_km3h = number_or row.fuel_gas_flow_km3h default.fuel_gas_flow_km3h;
    steam_flow_tonh = number_or row.steam_flow_tonh default.steam_flow_tonh;
    feed_flow_tonh = number_or row.feed_flow_tonh default.feed_flow_tonh;
    reactor_temp_c = number_or row.reactor_temp_c default.reactor_temp_c;
  }

  unfoldable pub matrix_from_history : List (Measured (Option F)) → Measured F → List (Measured F)
  unfolding columns_or
  matrix_from_history [] fallback = fallback ∷ []
  matrix_from_history (row ∷ rows) fallback = map (columns_or fallback) (row ∷ rows)

  -- One entry of the overrides; other keys are ignored.
  abbrev pub override : String → F → Measured F → Measured F
  override key v m =
      if str_eq key "electricity_power_mw"
      then record m { electricity_power_mw = v }
      else if str_eq key "fuel_gas_flow_km3h"
      then record m { fuel_gas_flow_km3h = v }
      else if str_eq key "steam_flow_tonh"
      then record m { steam_flow_tonh = v }
      else if str_eq key "feed_flow_tonh"
      then record m { feed_flow_tonh = v }
      else if str_eq key "reactor_temp_c"
      then record m { reactor_temp_c = v }
      else m

  abbrev pub override_all : Dict F → Measured F → Measured F
  override_all [] m = m
  override_all ((key, v) ∷ overrides) m = override_all overrides (override key v m)

  abbrev pub latest_features : Option (Measured (Option F)) → Measured F
  latest_features none = default_features
  latest_features (some reading) = columns_or default_features reading

  unfoldable pub resolve_features : Option (ReadingSession F) → String → Dict F → Measured F
  unfolding columns_or
  resolve_features none code overrides = override_all overrides default_features
  resolve_features (some session) code overrides =
      override_all overrides (latest_features (session.get_latest_reading code))

  abbrev pub last_row : List (List F) → Option (List F)
  last_row [] = none
  last_row (row ∷ rows) = let later = last_row rows in if is_nil rows then some row else later

  -- `_features_from_kwargs`: an empty matrix stands for the features alone.
  abbrev pub inputs : Measured F → List (Measured F) → List (Measured F)
  inputs features [] = features ∷ []
  inputs features (row ∷ rows) = row ∷ rows
