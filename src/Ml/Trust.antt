-- ===== src/Ml/Trust.antt =====
-- app/ml/train.py: how far a registered model is trusted, and whether its data have drifted. The
-- report of app/ml/drift.py on two sets of rows is an argument.
pub mod Logged
use khalij_intelligent_energ.Base.{
  ℕ, String, Bool, true, false, not, ◌&&◌, ◌||◌, Option, none, some, List, length, ltb,
  if◌then◌else◌,
}
use khalij_intelligent_energ.Base.Float.{FloatOps}
use khalij_intelligent_energ.Config.{
  trusted_mode_active, allow_ml_synthetic, allow_ml_physics_fallback,
}
use khalij_intelligent_energ.Ml.Model.{
  MlSettings, ModelKind, DataSource, MlDataset, Version, RegisteredModel, MlState,
}
use khalij_intelligent_energ.Ml.Registry.{load_latest}
use khalij_intelligent_energ.Ml.Dataset.{
  DbRows, Loaded, no_rows, null_value, frame, load_db_dataset,
}
use khalij_intelligent_energ.Ml.Learning.{Rows}
use khalij_intelligent_energ.Ml.Train.{at_most, is_plant_data}

pub record DriftReport (F : Type 0) : Type 0 where
  pub max_psi : F
  pub drift_alert : Bool

pub record DriftChecked (F : Type 0) : Type 0 where
  pub report : DriftReport F
  pub model_version : Version
  pub holdout_mape : F
  pub trusted : Bool
  pub data_source : Option DataSource

-- The `status` of a report; `null_found` stands for the TypeError of a null value in the readings.
pub data DriftStatus (F : Type 0) : Type 0 where
  no_model no_feature_ref insufficient_current_data null_found : DriftStatus F
  checked : DriftChecked F → DriftStatus F

pub data TrustLevel : Type 0 where
  trusted registered : TrustLevel

pub record ModelTrust (F : Type 0) : Type 0 where
  pub status : TrustLevel
  pub trusted_mode : Bool
  pub model_version : Version
  pub holdout_mape : F
  pub meets_mape_target : Bool
  pub holdout_temporal : Bool
  pub data_source : Option DataSource
  pub physics_cal_version : Option String
  pub allow_synthetic : Bool
  pub allow_physics_fallback : Bool
  pub trust_ok : Bool

pub data TrustStatus (F : Type 0) : Type 0 where
  -- whether the mode is trusted, and the two fallbacks
  unavailable : Bool → Bool → Bool → TrustStatus F
  known : ModelTrust F → TrustStatus F

-- `"timescaledb" in str(meta.get("data_source", ""))`
abbrev pub names_plant : Option DataSource → Bool
names_plant none = false
names_plant (some d) = is_plant_data d.source

module _ {F R : Type 0} where
  abbrev pub drift_of :
      (R → Rows F → DriftReport F) → RegisteredModel F R → Option R → Loaded F → DriftStatus F
  drift_of drift m none current = DriftStatus.no_feature_ref
  drift_of drift m (some ref) null_value = DriftStatus.null_found
  drift_of drift m (some ref) no_rows = DriftStatus.insufficient_current_data
  drift_of drift m (some ref) (frame current) =
      if ltb (length current.rows) 10
      then DriftStatus.insufficient_current_data
      else DriftStatus.checked (record {
        report = drift ref current.rows;
        model_version = m.version;
        holdout_mape = m.mape;
        trusted = m.metrics.trusted;
        data_source = m.metrics.data_source;
      })

  abbrev pub drift_status :
      (R → Rows F → DriftReport F) → Option (RegisteredModel F R) → Loaded F → DriftStatus F
  drift_status drift none current = DriftStatus.no_model
  drift_status drift (some m) current = drift_of drift m m.metrics.feature_ref current

  -- `recent` are the rows of the last hours.
  unfoldable pub evaluate_drift :
      (R → Rows F → DriftReport F) → ModelKind → String → DbRows F → MlState F R → DriftStatus F
  unfolding load_db_dataset
  evaluate_drift drift kind code recent st =
      drift_status drift (load_latest kind code st) (load_db_dataset recent)

module _ {F R : Type 0} ⦃fl : FloatOps F⦄ (cfg : MlSettings F) where
  abbrev pub trust_of : RegisteredModel F R → ModelTrust F
  trust_of m =
      let mape_ok = at_most m.mape cfg.ml_mape_target in
      let trust_ok =
        not (trusted_mode_active cfg.app) || (names_plant m.metrics.data_source && mape_ok) in
      record {
        status = if trust_ok && mape_ok then TrustLevel.trusted else TrustLevel.registered;
        trusted_mode = trusted_mode_active cfg.app;
        model_version = m.version;
        holdout_mape = m.mape;
        meets_mape_target = mape_ok;
        holdout_temporal = m.metrics.holdout_temporal;
        data_source = m.metrics.data_source;
        physics_cal_version = m.metrics.physics_cal_version;
        allow_synthetic = allow_ml_synthetic cfg.app;
        allow_physics_fallback = allow_ml_physics_fallback cfg.app;
        trust_ok = trust_ok;
      }

  abbrev pub trust_status : Option (RegisteredModel F R) → TrustStatus F
  trust_status none =
      TrustStatus.unavailable (trusted_mode_active cfg.app) (allow_ml_synthetic cfg.app)
        (allow_ml_physics_fallback cfg.app)
  trust_status (some m) = TrustStatus.known (trust_of m)

  unfoldable pub model_trust_status : ModelKind → String → MlState F R → TrustStatus F
  model_trust_status kind code st = trust_status (load_latest kind code st)
