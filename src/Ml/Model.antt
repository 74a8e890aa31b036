-- ===== src/Ml/Model.antt =====
-- The data of app/ml: the settings of app/core/config.py that it reads, datasets, calibrations of the
-- physics formulas, models with their metrics, and what is kept of them. A model's artifact, made by
-- numpy or torch, is the function that it predicts with. A version is held as the kind, the plant
-- and the time that its text is made from.
use khalij_intelligent_energ.Base.{ℕ, String, Bool, true, false, ◌≡◌, refl, Option, List}
use khalij_intelligent_energ.Base.Table.{Dict}
use khalij_intelligent_energ.Config.{Settings}
use khalij_intelligent_energ.Plant.Physics.{Measured}

pub record MlSettings (F : Type 0) : Type 0 where
  pub app : Settings F
  pub ml_min_real_samples : ℕ
  pub ml_test_ratio : F
  pub ml_vsg_samples : ℕ
  pub ml_lstm_lookback : ℕ
  pub ml_mape_target : F
  pub ml_max_latency_ms : F
  pub ml_allow_vsg_in_trusted : Bool
  pub ml_holdout_ratio : F
  pub mlflow_enabled : Bool

pub data ModelKind : Type 0 where
  elm_model lstm_model : ModelKind

abbrev pub same_kind : ModelKind → ModelKind → Bool
same_kind elm_model elm_model = true
same_kind lstm_model lstm_model = true
same_kind _ _ = false

pub same_kind_self : (kind : ModelKind) → same_kind kind kind ≡ true
same_kind_self elm_model = refl
same_kind_self lstm_model = refl

-- Where the rows of a dataset come from: the texts "timescaledb" and "synthetic".
pub data Source : Type 0 where
  timescaledb synthetic : Source

-- The text of a training's `data_source`: a source, followed by "+vsg" where virtual samples were
-- added.
pub record DataSource : Type 0 where
  pub source : Source
  pub with_vsg : Bool

-- The target columns of a row.
pub record Targets (F : Type 0) : Type 0 where
  pub energy_intensity_kgoe_ton : F
  pub carbon_emission_kgco2_ton : F

pub record MlDataset (F : Type 0) : Type 0 where
  pub rows : List (Measured F × Targets F)
  pub source : Source

pub record PhysicsCalibration (F : Type 0) : Type 0 where
  pub plant_code : String
  pub energy_scale : F
  pub energy_offset : F
  pub carbon_scale : F
  pub carbon_offset : F
  pub version : String

-- An entry of the YAML file of calibrations; a missing key is `none`.
pub record CalibrationEntry (F : Type 0) : Type 0 where
  pub energy_scale : Option F
  pub energy_offset : Option F
  pub carbon_scale : Option F
  pub carbon_offset : Option F
  pub version : Option String

pub record CalibrationFile (F : Type 0) : Type 0 where
  pub version : Option String
  pub plants : Dict (CalibrationEntry F)

pub record Version : Type 0 where
  pub kind : ModelKind
  pub plant_code : String
  pub stamp : ℕ

-- The `metrics` of a model, `none` for a key that is missing or null. `R` is the type of the reference
-- statistics of the features.
pub record Metrics (F R : Type 0) : Type 0 where
  pub mape : F
  pub test_size : ℕ
  pub holdout_temporal : Bool
  pub trusted : Bool
  pub data_source : Option DataSource
  pub feature_ref : Option R
  pub physics_cal_version : Option String

abbrev pub Predictor : Type 0 → Type 0
Predictor F = List (Measured F) → List (List F)

pub record RegisteredModel (F R : Type 0) : Type 0 where
  pub kind : ModelKind
  pub model : Predictor F
  pub version : Version
  pub run_id : Option String
  pub mape : F
  pub plant_code : String
  pub registered_at : ℕ
  pub metrics : Metrics F R

-- A row of `model_predictions`.
pub record ModelPrediction (F : Type 0) : Type 0 where
  pub time : ℕ
  pub plant_id : ℕ
  pub horizon_minutes : ℕ
  pub predicted_energy_kwh : F
  pub predicted_carbon_kgco2 : F
  pub model_name : ModelKind
  pub model_version : Option Version
  pub mape : Option F
  pub created_at : ℕ

-- What is kept: the models saved, the newest first, the calibrations, and the tables of plants and of
-- predictions.
pub record MlState (F R : Type 0) : Type 0 where
  pub registry : List (RegisteredModel F R)
  pub calibrations : Option (CalibrationFile F)
  pub plants : Dict ℕ
  pub predictions : List (ModelPrediction F)
