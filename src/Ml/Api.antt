-- ===== src/Ml/Api.antt =====
-- app/api/routes/prediction.py: the routes that predict and that ask what-if. Whether the database
-- takes the row of a prediction is an argument: the route goes on where it does not.
pub mod Stored
use khalij_intelligent_energ.Base.{
  ℕ, String, Bool, true, false, not, ◌≡◌, refl, Option, none, some, is_some, List, [], ◌∷◌, All,
  Bool-cases, Option-cases, inl, inr, if◌then◌else◌,
}
use khalij_intelligent_energ.Base.Float.{FloatOps}
use khalij_intelligent_energ.Base.Result.{
  Result, ok, err, Action, ◌>>=◌, ◌>>◌, pure, raise, guard, modify, gets,
}
use khalij_intelligent_energ.Base.Table.{get}
use khalij_intelligent_energ.Config.{trusted_mode_active}
use khalij_intelligent_energ.Carbon.Scopes.{Factors}
use khalij_intelligent_energ.Plant.Physics.{Measured}
use khalij_intelligent_energ.Ml.Model.{MlSettings, ModelKind, Version, ModelPrediction, MlState}
use khalij_intelligent_energ.Ml.Registry.{load_latest}
use khalij_intelligent_energ.Ml.Features.{ReadingSession}
use khalij_intelligent_energ.Ml.Train.{at_most}
use khalij_intelligent_energ.Ml.Serve.{
  PredictionResult, ServedFrom, ServeError, model_unavailable, predict_for_plant,
}
use khalij_intelligent_energ.Ml.Serve.Trusted.{ComesFrom, predict_for_plant-ComesFrom}
use khalij_intelligent_energ.Ml.Simulate.{WhatIf, simulate_what_if_ml, persist_prediction, row_for}

-- The answers 503, 504, with the latency, and 500.
pub data ApiError (F : Type 0) : Type 0 where
  service_unavailable : ModelKind → String → ApiError F
  gateway_timeout : F → ApiError F
  server_error : ApiError F

-- The `note` is made from the source and the version.
pub record PredictionResponse (F : Type 0) : Type 0 where
  pub plant_code : String
  pub horizon_minutes : ℕ
  pub model : ModelKind
  pub predicted_energy_kwh : F
  pub predicted_carbon_kgco2 : F
  pub latency_ms : F
  pub mape_estimate : Option F
  pub model_version : Option Version
  pub source : ServedFrom
  pub trusted : Bool

abbrev pub Route : Type 0 → Type 0 → Type 0 → Type 0
Route F R = Action (MlState F R) (ApiError F)

module _ {F R : Type 0} where
  -- `except ModelUnavailableError`
  abbrev pub answered : {A : Type 0} → Result ServeError A → Route F R A
  answered (ok a) = pure a
  answered (err (model_unavailable kind code)) = raise (ApiError.service_unavailable kind code)
  answered (err _) = raise ApiError.server_error

module _ {F R : Type 0} ⦃fl : FloatOps F⦄ (cfg : MlSettings F) (factors : Factors F) where
  unfoldable pub respond :
      Bool → ℕ → String → ℕ → PredictionResult F → Route F R (PredictionResponse F)
  unfolding persist_prediction
  respond stores now code horizon result = do
    guard (not (at_most cfg.ml_max_latency_ms result.latency_ms))
        (ApiError.gateway_timeout result.latency_ms)
    modify
        (λ (st : MlState F R). if stores then persist_prediction now code result horizon st else st)
    pure (record {
      plant_code = code;
      horizon_minutes = horizon;
      model = result.model;
      predicted_energy_kwh = result.predicted_energy_kwh;
      predicted_carbon_kgco2 = result.predicted_carbon_kgco2;
      latency_ms = result.latency_ms;
      mape_estimate = result.mape_estimate;
      model_version = result.model_version;
      source = result.source;
      trusted = result.trusted;
    })

  unfoldable pub predict :
      ReadingSession F → Bool → ℕ → ModelKind → String → ℕ → F → Route F R (PredictionResponse F)
  unfolding predict_for_plant respond
  predict session stores now kind code horizon elapsed st =
      (answered (predict_for_plant cfg factors st (some session) kind code horizon [] elapsed)
          >>= respond stores now code horizon)
        st

  unfoldable pub what_if : ModelKind → String → Measured F → F → Route F R (WhatIf F)
  unfolding simulate_what_if_ml
  what_if kind code m elapsed st =
      answered (simulate_what_if_ml cfg factors st kind code m elapsed) st
