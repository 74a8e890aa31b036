-- ===== src/Ml/Serve.antt =====
-- app/ml/serve.py: predictions from a registered model, or from the physics formulas. The time that a
-- prediction takes, in milliseconds, is an argument.
pub mod Trusted
use khalij_intelligent_energ.Base.{
  ℕ, ◌+◌, ◌*◌, ◌/◌, String, Bool, true, false, Option, none, some, List, [], ◌∷◌, map, from_end,
  str_eq, is_nil, if◌then◌else◌,
}
use khalij_intelligent_energ.Base.Float.{FloatOps}
use khalij_intelligent_energ.Base.Result.{Result, ok, err}
use khalij_intelligent_energ.Base.Table.{Dict, get}
use khalij_intelligent_energ.Config.{trusted_mode_active, allow_ml_physics_fallback}
use khalij_intelligent_energ.Carbon.Scopes.{Factors, compute_scopes, total_kgco2}
use khalij_intelligent_energ.Plant.Physics.{
  Measured, energy_intensity, carbon_emission_intensity, energy_efficiency,
}
use khalij_intelligent_energ.Plant.Live.{number_or}
use khalij_intelligent_energ.Optimization.Impact.{intensity_to_energy_kwh}
use khalij_intelligent_energ.Ml.Model.{
  MlSettings, ModelKind, lstm_model, Version, RegisteredModel, ModelPrediction, MlState,
}
use khalij_intelligent_energ.Ml.Registry.{load_latest}
use khalij_intelligent_energ.Ml.Dataset.{max_nat}
use khalij_intelligent_energ.Ml.Train.{is_lstm}
use khalij_intelligent_energ.Ml.Features.{
  ReadingSession, matrix_from_history, resolve_features, last_row, inputs,
}

-- `source`
pub data ServedFrom : Type 0 where
  ml_model physics_fallback : ServedFrom

pub record PredictionResult (F : Type 0) : Type 0 where
  pub predicted_energy_kwh : F
  pub predicted_carbon_kgco2 : F
  pub predicted_intensity_kgoe_ton : F
  pub predicted_carbon_intensity_kgco2_ton : F
  pub model : ModelKind
  pub model_version : Option Version
  pub latency_ms : F
  pub mape_estimate : Option F
  pub source : ServedFrom
  pub trusted : Bool
  pub drift_alert : Option Bool

-- `ModelUnavailableError`, and a row or a key that is not there.
pub data ServeError : Type 0 where
  model_unavailable : ModelKind → String → ServeError
  index_error : ServeError
  key_error : String → ServeError

module _ {F : Type 0} ⦃fl : FloatOps F⦄ where
  open fl use {lit, div, round_to}

  abbrev pub carbon_of : Measured F → F
  carbon_of m =
      carbon_emission_intensity m.fuel_gas_flow_km3h m.steam_flow_tonh m.electricity_power_mw

  unfoldable pub physics_result :
      Factors F → ModelKind → String → Measured F → ℕ → F → PredictionResult F
  unfolding energy_intensity carbon_emission_intensity intensity_to_energy_kwh compute_scopes
  physics_result factors kind code features horizon elapsed =
      let intensity =
        energy_intensity features.fuel_gas_flow_km3h features.steam_flow_tonh
          features.feed_flow_tonh features.reactor_temp_c in
      let scopes =
        compute_scopes factors features.fuel_gas_flow_km3h features.steam_flow_tonh
          features.electricity_power_mw features.feed_flow_tonh (div (lit horizon 0) (lit 60 0))
          code in
      record {
        predicted_energy_kwh =
            round_to (intensity_to_energy_kwh intensity features.feed_flow_tonh (lit horizon 0)) 2;
        predicted_carbon_kgco2 = round_to (total_kgco2 scopes) 2;
        predicted_intensity_kgoe_ton = round_to intensity 2;
        predicted_carbon_intensity_kgco2_ton = round_to (carbon_of features) 2;
        model = kind;
        model_version = none;
        latency_ms = round_to elapsed 3;
        mape_estimate = none;
        source = physics_fallback;
        trusted = false;
        drift_alert = none;
      }

  -- The rows that an LSTM looks back on; at about one reading in a second.
  abbrev pub history_matrix :
      MlSettings F → Option (ReadingSession F) → ModelKind → String → Measured F → List (Measured F)
  history_matrix cfg none kind code features = []
  history_matrix cfg (some session) kind code features =
      let lookback = max_nat cfg.ml_lstm_lookback 2 in
      let rows = session.get_history code (max_nat 2 (lookback / 30 + 2)) (lookback * 2) in
      if is_lstm kind
      then (if is_nil rows then [] else matrix_from_history (from_end lookback rows) features)
      else []

module _ {F R : Type 0} ⦃fl : FloatOps F⦄ (cfg : MlSettings F) (factors : Factors F) where
  open fl use {lit, mul, div, round_to}

  unfoldable pub model_result :
      RegisteredModel F R → ModelKind → Measured F → ℕ → F → F → F → PredictionResult F
  unfolding intensity_to_energy_kwh
  model_result m kind features horizon elapsed intensity carbon_int =
      let hours = div (lit horizon 0) (lit 60 0) in
      record {
        predicted_energy_kwh =
            round_to (intensity_to_energy_kwh intensity features.feed_flow_tonh (lit horizon 0)) 2;
        predicted_carbon_kgco2 = round_to (mul (mul carbon_int features.feed_flow_tonh) hours) 2;
        predicted_intensity_kgoe_ton = round_to intensity 2;
        predicted_carbon_intensity_kgco2_ton = round_to carbon_int 2;
        model = kind;
        model_version = some m.version;
        latency_ms = round_to elapsed 3;
        mape_estimate = some (round_to m.mape 3);
        source = ml_model;
        trusted = trusted_mode_active cfg.app;
        drift_alert = none;
      }

  -- The row that the model predicts: its intensity, and its carbon or that of the formula.
  abbrev pub from_row :
      RegisteredModel F R
      → ModelKind
      → Measured F
      → ℕ
      → F
      → Option (List F)
      → Result ServeError (PredictionResult F)
  from_row m kind features horizon elapsed none = err ServeError.index_error
  from_row m kind features horizon elapsed (some []) = err ServeError.index_error
  from_row m kind features horizon elapsed (some (intensity ∷ [])) =
      ok (model_result m kind features horizon elapsed intensity (carbon_of features))
  from_row m kind features horizon elapsed (some (intensity ∷ carbon_int ∷ more)) =
      ok (model_result m kind features horizon elapsed intensity carbon_int)

  unfoldable pub predict_from :
      Option (RegisteredModel F R)
      → ModelKind
      → String
      → Measured F
      → ℕ
      → List (Measured F)
      → F
      → Result ServeError (PredictionResult F)
  unfolding model_result physics_result
  predict_from (some m) kind code features horizon matrix elapsed =
      from_row m kind features horizon elapsed (last_row (m.model (inputs features matrix)))
  predict_from none kind code features horizon matrix elapsed =
      if allow_ml_physics_fallback cfg.app
      then ok (physics_result factors kind code features horizon elapsed)
      else err (ServeError.model_unavailable kind code)

  unfoldable pub predict_with_model :
      MlState F R
      → ModelKind
      → String
      → Measured F
      → ℕ
      → List (Measured F)
      → F
      → Result ServeError (PredictionResult F)
  unfolding predict_from
  predict_with_model st kind code = predict_from (load_latest kind code st) kind code

  unfoldable pub predict_for_plant :
      MlState F R
      → Option (ReadingSession F)
      → ModelKind
      → String
      → ℕ
      → Dict F
      → F
      → Result ServeError (PredictionResult F)
  unfolding predict_with_model matrix_from_history resolve_features
  predict_for_plant st session kind code horizon overrides elapsed =
      let features = resolve_features session code overrides in
      predict_with_model st kind code features horizon
        (history_matrix cfg session kind code features) elapsed
