-- ===== src/Ml/Learning.antt =====
-- app/ml/train.py: what a training is given and what it gives. The numerical work of numpy, torch and
-- the sampling of app/ml is a record of functions.
use khalij_intelligent_energ.Base.{ℕ, String, Bool, Option, List}
use khalij_intelligent_energ.Plant.Physics.{Measured}
use khalij_intelligent_energ.Ml.Model.{ModelKind, DataSource, Targets, Predictor, RegisteredModel}

abbrev pub Rows : Type 0 → Type 0
Rows F = List (Measured F × Targets F)

-- What is computed elsewhere.
pub record Learning (F R : Type 0) : Type 0 where
  -- `numpy.linalg.lstsq` on one column
  pub affine : List F → List F → F × F
  -- `build_synthetic_dataset`
  pub simulated : Rows F
  -- `int(n * (1 - ratio))`
  pub split_size : ℕ → F → ℕ
  pub shuffle : Rows F → Rows F
  -- `augment_with_vsg` and `merge_real_and_virtual`
  pub virtual : Rows F → Rows F
  pub merge : Rows F → Rows F → Rows F
  -- `train_elm` and `train_lstm`
  pub fit : ModelKind → Rows F → Predictor F
  -- `multi_output_mape`
  pub score : List (Targets F) → List (List F) → F
  -- `feature_reference_stats`
  pub stats : Rows F → R

-- The `TrustedDataError`s of training, with the number of samples or the error, and the TypeError of a
-- null value.
pub data TrainError (F : Type 0) : Type 0 where
  too_few_samples : ℕ → TrainError F
  no_session : TrainError F
  mape_rejected : F → TrainError F
  null_found : TrainError F

pub record TrainResult (F R : Type 0) : Type 0 where
  pub kind : ModelKind
  pub plant_code : String
  pub mape : F
  pub train_size : ℕ
  pub test_size : ℕ
  pub vsg_samples : ℕ
  pub data_source : DataSource
  pub registered : RegisteredModel F R
  pub meets_mape_target : Bool
  pub mlflow_run_id : Option String
  pub trusted : Bool
  pub holdout_temporal : Bool
  pub physics_cal_version : Option String
  pub feature_ref : R
