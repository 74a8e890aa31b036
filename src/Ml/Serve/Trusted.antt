-- ===== src/Ml/Serve/Trusted.antt =====
-- Where a prediction comes from.
use khalij_intelligent_energ.Base.{
  ℕ, String, true, false, ◌≡◌, inl, inr, refl, Option, none, some, List, [], ◌∷◌, All, OnSome,
  Bool-cases, arith,
}
use khalij_intelligent_energ.Base.Float.{FloatOps}
use khalij_intelligent_energ.Base.Result.{ok, OnOk, OnOk→ok}
use khalij_intelligent_energ.Base.Table.{Dict}
use khalij_intelligent_energ.Config.{
  trusted_mode_active, allow_ml_physics_fallback, fallback→untrusted,
}
use khalij_intelligent_energ.Carbon.Scopes.{Factors}
use khalij_intelligent_energ.Plant.Physics.{Measured}
use khalij_intelligent_energ.Ml.Model.{MlSettings, ModelKind, RegisteredModel, MlState}
use khalij_intelligent_energ.Ml.Registry.{find_model, load_latest, without_run, is_for}
use khalij_intelligent_energ.Ml.Features.{ReadingSession}
use khalij_intelligent_energ.Ml.Learning.{Learning}
use khalij_intelligent_energ.Ml.Train.Trusted.{IsAccepted}
use khalij_intelligent_energ.Ml.Trainer.{Round, run_once, run_once-IsAccepted}
use khalij_intelligent_energ.Ml.Serve.{
  PredictionResult, ml_model, physics_fallback, from_row, model_result, physics_result,
  predict_from, predict_with_model, predict_for_plant,
}

-- The model in the registry is the source, or there is none and the mode is not a trusted one.
abbrev pub ComesFrom :
    {F R : Type 0} ⦃fl : FloatOps F⦄
    → MlSettings F
    → Option (RegisteredModel F R)
    → PredictionResult F
    → Type 0
ComesFrom ⦃fl⦄ cfg (some m) r =
    (r.source ≡ ml_model)
    × (r.model_version ≡ some m.version)
    × (r.mape_estimate ≡ some (fl.round_to m.mape 3))
    × (r.trusted ≡ trusted_mode_active cfg.app)
ComesFrom cfg none r =
    (r.source ≡ physics_fallback)
    × (r.model_version ≡ none)
    × (r.mape_estimate ≡ none)
    × (r.trusted ≡ false)
    × (trusted_mode_active cfg.app ≡ false)

module _ {F R : Type 0} ⦃fl : FloatOps F⦄ (cfg : MlSettings F) (factors : Factors F) where
  from_row-ComesFrom :
      (m : RegisteredModel F R) (kind : ModelKind) (features : Measured F) (horizon : ℕ)
      (elapsed : F) (row : Option (List F))
      → OnOk (ComesFrom cfg (some m)) (from_row cfg factors m kind features horizon elapsed row)
  unfolding model_result
  from_row-ComesFrom m kind features horizon elapsed none = tt
  from_row-ComesFrom m kind features horizon elapsed (some []) = tt
  from_row-ComesFrom m kind features horizon elapsed (some (i ∷ [])) = (refl, refl, refl, refl)
  from_row-ComesFrom m kind features horizon elapsed (some (i ∷ c ∷ more)) =
      (refl, refl, refl, refl)

  predict_from-ComesFrom :
      (model : Option (RegisteredModel F R)) (kind : ModelKind) (code : String)
      (features : Measured F) (horizon : ℕ) (matrix : List (Measured F)) (elapsed : F)
      → OnOk
          (ComesFrom cfg model)
          (predict_from cfg factors model kind code features horizon matrix elapsed)
  unfolding predict_from physics_result
  predict_from-ComesFrom (some m) kind code features horizon matrix elapsed =
      from_row-ComesFrom m kind features horizon elapsed _
  predict_from-ComesFrom none kind code features horizon matrix elapsed =
      elim (Bool-cases (allow_ml_physics_fallback cfg.app)) [
        | inl e ↦ rw e (refl, refl, refl, refl, fallback→untrusted cfg.app e)
        | inr e ↦ rw e tt
      ]

  -- A prediction for a plant is made by the model loaded for it: it bears that model's version, its
  -- error as the estimate, and the mark of trust just where the mode is a trusted one. Where no model
  -- is loaded, it is one of the physics formulas, without version, estimate or mark of trust, and
  -- the mode is not a trusted one.
  pub predict_for_plant-ComesFrom :
      (st : MlState F R) (session : Option (ReadingSession F)) (kind : ModelKind) (code : String)
      (horizon : ℕ) (overrides : Dict F) (elapsed : F) (r : PredictionResult F)
      → predict_for_plant cfg factors st session kind code horizon overrides elapsed ≡ ok r
      → ComesFrom cfg (load_latest kind code st) r
  unfolding predict_for_plant predict_with_model
  predict_for_plant-ComesFrom st session kind code horizon overrides elapsed r e =
      OnOk→ok (ComesFrom cfg (load_latest kind code st)) _ r e
        (predict_from-ComesFrom (load_latest kind code st) kind code _ horizon _ elapsed)

module _ {F R : Type 0} ⦃fl : FloatOps F⦄ (cfg : MlSettings F) (learning : Learning F R) where
  find_model-IsAccepted :
      (kind : ModelKind) (code : String) (models : List (RegisteredModel F R))
      → All (IsAccepted cfg learning) models
      → OnSome (IsAccepted cfg learning) (find_model kind code models)
  unfolding find_model
  find_model-IsAccepted kind code [] h = tt
  find_model-IsAccepted kind code (m ∷ models) h = elim (Bool-cases (is_for kind code m)) [
    | inl t ↦ rw t h.0
    | inr f ↦ rw f (find_model-IsAccepted kind code models h.1)
  ]

  without_run-IsAccepted :
      (model : Option (RegisteredModel F R))
      → OnSome (IsAccepted cfg learning) model
      → OnSome (IsAccepted cfg learning) (without_run model)
  without_run-IsAccepted none h = tt
  without_run-IsAccepted (some m) h = h

  -- The registered model that a prediction comes from, which trusted mode accepted.
  abbrev pub ComesFromAccepted : Option (RegisteredModel F R) → PredictionResult F → Type 0
  ComesFromAccepted model r =
      (m : RegisteredModel F R) × (model ≡ some m)
      × IsAccepted cfg learning m
      × ComesFrom cfg (some m) r

  accepted_only :
      (model : Option (RegisteredModel F R)) (r : PredictionResult F)
      → trusted_mode_active cfg.app ≡ true
      → OnSome (IsAccepted cfg learning) model
      → ComesFrom cfg model r
      → ComesFromAccepted model r
  accepted_only none r h accepted from = ground arith
  accepted_only (some m) r h accepted from = (m, refl, accepted, from)

module _ {F R : Type 0} ⦃fl : FloatOps F⦄ (cfg : MlSettings F) (learning : Learning F R)
    (round : Round F R) (factors : Factors F) where
  -- In trusted mode, if every model of the registry was fitted on enough data of a plant with an error
  -- there of at most the target, then after a round of the trainer every prediction for a plant comes
  -- from such a model: it is the one loaded from the registry, and the prediction bears its version
  -- and error.
  pub trained_then_served :
      (st : MlState F R) (session : Option (ReadingSession F)) (kind : ModelKind) (code : String)
      (horizon : ℕ) (overrides : Dict F) (elapsed : F) (r : PredictionResult F)
      → trusted_mode_active cfg.app ≡ true
      → All (IsAccepted cfg learning) st.registry
      → predict_for_plant cfg factors
          (run_once cfg learning round st).1
          session
          kind
          code
          horizon
          overrides
          elapsed
        ≡ ok r
      → ComesFromAccepted cfg learning (load_latest kind code (run_once cfg learning round st).1) r
  unfolding load_latest
  trained_then_served st session kind code horizon overrides elapsed r h old e =
      let after = (run_once cfg learning round st).1 in
      accepted_only cfg learning (load_latest kind code after) r h
        (without_run-IsAccepted cfg learning (find_model kind code after.registry) (
          find_model-IsAccepted cfg learning kind code after.registry
            (run_once-IsAccepted cfg learning round st h old)))
        (predict_for_plant-ComesFrom cfg factors after session kind code horizon overrides elapsed r
          e)
