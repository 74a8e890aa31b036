-- ===== src/Ml/Api/Stored.antt =====
-- What the predictions that are stored say of their model.
use khalij_intelligent_energ.Base.{
  ℕ, String, Bool, true, ◌≡◌, refl, Option, none, some, List, [], ◌∷◌, ◌⊎◌, All, Bool-cases, inl,
  inr, arith,
}
use khalij_intelligent_energ.Base.Float.{FloatOps}
use khalij_intelligent_energ.Base.Result.{err, ◌>>=◌, Result-cases}
use khalij_intelligent_energ.Base.Table.{get}
use khalij_intelligent_energ.Config.{trusted_mode_active}
use khalij_intelligent_energ.Carbon.Scopes.{Factors}
use khalij_intelligent_energ.Ml.Model.{
  MlSettings, ModelKind, RegisteredModel, ModelPrediction, MlState,
}
use khalij_intelligent_energ.Ml.Registry.{is_for, find_model, without_run, load_latest}
use khalij_intelligent_energ.Ml.Features.{ReadingSession}
use khalij_intelligent_energ.Ml.Train.{at_most}
use khalij_intelligent_energ.Ml.Serve.{PredictionResult, ServeError, predict_for_plant}
use khalij_intelligent_energ.Ml.Serve.Trusted.{ComesFrom, predict_for_plant-ComesFrom}
use khalij_intelligent_energ.Ml.Simulate.{persist_prediction, row_for}
use khalij_intelligent_energ.Ml.Api.{Route, answered, respond, predict}

-- A member of a list.
abbrev pub OneOf : {A : Type 0} → List A → A → Type 0
OneOf [] x = ⊥
OneOf (y ∷ ys) x = (x ≡ y) ⊎ OneOf ys x

module _ {F R : Type 0} ⦃fl : FloatOps F⦄ where
  -- The row bears the version of a model of the registry and that model's error as it is reported.
  abbrev pub IsTraceable : List (RegisteredModel F R) → ModelPrediction F → Type 0
  IsTraceable registry row =
      (m : RegisteredModel F R) × OneOf registry m
      × (row.model_version ≡ some m.version)
      × (row.mape ≡ some (fl.round_to m.mape 3))

  -- Every prediction that is stored is of a registered model.
  abbrev pub AreTraceable : MlState F R → Type 0
  AreTraceable st = All (IsTraceable st.registry) st.predictions

module _ {F R : Type 0} ⦃fl : FloatOps F⦄ (cfg : MlSettings F) (factors : Factors F) where
  -- The result bears the version of a model of the registry and that model's error.
  abbrev IsNamed : List (RegisteredModel F R) → PredictionResult F → Type 0
  IsNamed registry r =
      (m : RegisteredModel F R) × OneOf registry m
      × (r.model_version ≡ some m.version)
      × (r.mape_estimate ≡ some (fl.round_to m.mape 3))

  find_model-OneOf :
      (kind : ModelKind) (code : String) (m : RegisteredModel F R)
      (models : List (RegisteredModel F R))
      → find_model kind code models ≡ some m
      → OneOf models m
  unfolding find_model
  find_model-OneOf kind code m [] e = cc
  find_model-OneOf kind code m (x ∷ models) e = elim (Bool-cases (is_for kind code x)) [
    | inl t ↦ inl (ground arith)
    | inr f ↦ inr (find_model-OneOf kind code m models (ground arith))
  ]

  named_lem :
      (registry : List (RegisteredModel F R)) (found : Option (RegisteredModel F R))
      (r : PredictionResult F)
      → trusted_mode_active cfg.app ≡ true
      → ((m : RegisteredModel F R) → found ≡ some m → OneOf registry m)
      → ComesFrom cfg (without_run found) r
      → IsNamed registry r
  named_lem registry none r h one from = ground arith
  named_lem registry (some m) r h one from = (m, one m refl, from.1, from.2)

  answered_state :
      {A B : Type 0} (e : ServeError) (k : A → Route F R B) (st : MlState F R)
      → ((answered (err e) >>= k) st).1 ≡ st
  answered_state (ServeError.model_unavailable kind code) k st = refl
  answered_state ServeError.index_error k st = refl
  answered_state (ServeError.key_error key) k st = refl

  row_for-AreTraceable :
      (now : ℕ) (result : PredictionResult F) (horizon : ℕ) (plant : Option ℕ) (st : MlState F R)
      → IsNamed st.registry result
      → AreTraceable st
      → AreTraceable (row_for now result horizon plant st)
  row_for-AreTraceable now result horizon none st named old = old
  row_for-AreTraceable now result horizon (some id) st named old = (named, old)

  respond-AreTraceable :
      (stores : Bool) (now : ℕ) (code : String) (horizon : ℕ) (result : PredictionResult F)
      (st : MlState F R)
      → IsNamed st.registry result
      → AreTraceable st
      → AreTraceable (respond cfg factors stores now code horizon result st).1
  unfolding respond persist_prediction
  respond-AreTraceable stores now code horizon result st named old =
      elim (Bool-cases (at_most cfg.ml_max_latency_ms result.latency_ms)) [
        | inl late ↦ rw late old
        | inr early ↦ rw early (elim (Bool-cases stores) [
          | inl s ↦ rw s (row_for-AreTraceable now result horizon (get code st.plants) st named old)
          | inr s ↦ rw s old
        ])
      ]

  -- In trusted mode, where every stored prediction bears the version of a model of the registry and
  -- that model's error to three places, every stored prediction does after a request for a
  -- prediction, whatever it answers.
  pub predict-AreTraceable :
      (session : ReadingSession F) (stores : Bool) (now : ℕ) (kind : ModelKind) (code : String)
      (horizon : ℕ) (elapsed : F) (st : MlState F R)
      → trusted_mode_active cfg.app ≡ true
      → AreTraceable st
      → AreTraceable (predict cfg factors session stores now kind code horizon elapsed st).1
  unfolding predict load_latest
  predict-AreTraceable session stores now kind code horizon elapsed st h old =
      elim (Result-cases
        (predict_for_plant cfg factors st (some session) kind code horizon [] elapsed)) [
          | inl (r, e) ↦
              let named =
                named_lem st.registry (find_model kind code st.registry) r h
                  (λ m found. find_model-OneOf kind code m st.registry found)
                  (predict_for_plant-ComesFrom cfg factors st (some session) kind code horizon []
                    elapsed r e) in
              rw e (respond-AreTraceable stores now code horizon r st named old)
          | inr (error, e) ↦
              rw (e, answered_state error (respond cfg factors stores now code horizon) st) old
        ]
