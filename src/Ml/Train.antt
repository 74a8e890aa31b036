-- ===== src/Ml/Train.antt =====
-- app/ml/train.py: a model is trained, and in trusted mode refused where the data or the error do not
-- suffice.
pub mod Trusted
pub mod Rejected
use khalij_intelligent_energ.Base.{
  ℕ, ◌-◌, String, Bool, true, false, not, ◌&&◌, ◌||◌, Option, none, some, List, [], ◌∷◌, length,
  map, from_end, ltb, leb, ◌==◌, is_empty, if◌then◌else◌,
}
use khalij_intelligent_energ.Base.Float.{FloatOps}
use khalij_intelligent_energ.Base.Result.{
  Result, ok, Action, ◌>>=◌, ◌>>◌, pure, raise, guard, modify,
}
use khalij_intelligent_energ.Config.{trusted_mode_active, allow_ml_synthetic}
use khalij_intelligent_energ.Plant.Physics.{Measured}
use khalij_intelligent_energ.Ml.Model.{
  MlSettings, ModelKind, elm_model, lstm_model, Source, timescaledb, synthetic, DataSource, Targets,
  MlDataset, Predictor, Metrics, RegisteredModel, MlState,
}
use khalij_intelligent_energ.Ml.Learning.{Rows, Learning, TrainError, TrainResult}
use khalij_intelligent_energ.Ml.Registry.{
  MlflowRun, registered, save_local, only_numbers, log_to_mlflow,
}
use khalij_intelligent_energ.Ml.Calibrate.{fit_calibration_from_xy, save_calibration}
use khalij_intelligent_energ.Ml.Dataset.{
  DbRows, Loaded, no_rows, null_value, frame, load_db_dataset, train_test_split, min_nat,
}

abbrev pub is_plant_data : Source → Bool
is_plant_data timescaledb = true
is_plant_data synthetic = false

abbrev pub is_lstm : ModelKind → Bool
is_lstm lstm_model = true
is_lstm elm_model = false

module _ {F R : Type 0} (cfg : MlSettings F) (learning : Learning F R) where
  abbrev pub synthetic_dataset : MlDataset F
  synthetic_dataset = record { rows = learning.simulated; source = synthetic }

  abbrev pub no_synthetic : Bool
  no_synthetic = trusted_mode_active cfg.app || not (allow_ml_synthetic cfg.app)

  abbrev pub from_database : Loaded F → Result (TrainError F) (MlDataset F)
  from_database null_value = Result.err TrainError.null_found
  from_database no_rows =
      if no_synthetic then Result.err (TrainError.too_few_samples 0) else ok synthetic_dataset
  from_database (frame ds) =
      if leb cfg.ml_min_real_samples (length ds.rows)
      then ok ds
      else if no_synthetic
      then Result.err (TrainError.too_few_samples (length ds.rows))
      else ok synthetic_dataset

  -- `none` where there is no session; otherwise the rows that it reads for the plant.
  unfoldable pub prepare_dataset : Option (DbRows F) → Result (TrainError F) (MlDataset F)
  unfolding load_db_dataset
  prepare_dataset none =
      if no_synthetic then Result.err TrainError.no_session else ok synthetic_dataset
  prepare_dataset (some rows) = from_database (load_db_dataset rows)

  -- The rows with virtual ones among them, and how many those are.
  unfoldable pub vsg_augment_xy : Rows F → Rows F × ℕ
  vsg_augment_xy rows =
      if trusted_mode_active cfg.app && not cfg.ml_allow_vsg_in_trusted
      then (rows, 0)
      else if cfg.ml_vsg_samples == 0
      then (rows, 0)
      else (learning.merge rows (learning.virtual rows), length (learning.virtual rows))

-- A trained model before it is registered.
pub record Trained (F R : Type 0) : Type 0 where
  pub model : Predictor F
  pub train_size : ℕ
  pub vsg_samples : ℕ
  pub data_source : DataSource
  pub feature_ref : R
  pub metrics : Metrics F R

module _ {F : Type 0} ⦃fl : FloatOps F⦄ where
  open fl use {lt, eq}

  -- `x <= y`
  abbrev pub at_most : F → F → Bool
  at_most x y = lt x y || eq x y

module _ {F R : Type 0} ⦃fl : FloatOps F⦄ (cfg : MlSettings F) (learning : Learning F R) where
  open fl use {round_to}

  abbrev pub scored : Predictor F → Rows F → ℕ → F
  scored model test n =
      learning.score (from_end n (map (λ (r : Measured F × Targets F). r.1) test))
        (from_end n (model (map (λ (r : Measured F × Targets F). r.0) test)))

  unfoldable pub evaluated :
      ModelKind → MlDataset F → Option String → Rows F × ℕ → Rows F → Bool → Trained F R
  evaluated kind dataset cal_version (train, n_vsg) test temporal =
      let model = learning.fit kind train in
      let n =
        min_nat (length (model (map (λ (r : Measured F × Targets F). r.0) test))) (length test) in
      let source : DataSource = record { source = dataset.source; with_vsg = not (n_vsg == 0) } in
      record {
        model = model;
        train_size = length train;
        vsg_samples = n_vsg;
        data_source = source;
        feature_ref = learning.stats train;
        metrics = record {
          mape = scored model test n;
          test_size = n;
          holdout_temporal = temporal;
          trusted = trusted_mode_active cfg.app;
          data_source = some source;
          feature_ref = some (learning.stats train);
          physics_cal_version = cal_version;
        };
      }

  unfoldable pub fit_and_score : ModelKind → MlDataset F → Option String → Trained F R
  unfolding evaluated train_test_split vsg_augment_xy
  fit_and_score kind dataset cal_version =
      let temporal = is_plant_data dataset.source || is_lstm kind in
      let ratio = if temporal then cfg.ml_holdout_ratio else cfg.ml_test_ratio in
      let split =
        train_test_split learning.shuffle (learning.split_size (length dataset.rows) ratio) temporal
          dataset.rows in
      evaluated kind dataset cal_version (vsg_augment_xy cfg learning split.0) split.1 temporal

  abbrev pub Training : Type 0 → Type 0
  Training = Action (MlState F R) (TrainError F)

  abbrev pub lift : {A : Type 0} → Result (TrainError F) A → Training A
  lift (ok a) = pure a
  lift (Result.err e) = raise e

  -- Enough rows of the plant calibrate the physics formulas.
  unfoldable pub calibrate : String → MlDataset F → Training (Option String)
  unfolding fit_calibration_from_xy save_calibration
  calibrate code dataset =
      if is_plant_data dataset.source && leb 20 (length dataset.rows)
      then (do
        let cal = fit_calibration_from_xy learning.affine dataset.rows code
        modify (λ (st : MlState F R). record st {
          calibrations = save_calibration cal st.calibrations;
        })
        pure (some cal.version))
      else pure none

  abbrev pub run_named : Option String → Option String
  run_named none = none
  run_named (some id) = if is_empty id then none else some id

  abbrev pub result_of :
      ModelKind
      → String
      → Trained F R
      → RegisteredModel F R
      → Option String × MlState F R
      → Result (TrainError F) (TrainResult F R) × MlState F R
  result_of kind code t m (run_id, st) = (
    ok (record {
      kind = kind;
      plant_code = code;
      mape = round_to t.metrics.mape 3;
      train_size = t.train_size;
      test_size = t.metrics.test_size;
      vsg_samples = t.vsg_samples;
      data_source = t.data_source;
      registered = record m { run_id = run_named run_id };
      meets_mape_target = at_most t.metrics.mape cfg.ml_mape_target;
      mlflow_run_id = run_id;
      trusted = t.metrics.trusted;
      holdout_temporal = t.metrics.holdout_temporal;
      physics_cal_version = t.metrics.physics_cal_version;
      feature_ref = t.feature_ref;
    }),
    st,
  )

  -- Saved to the files, then to MLflow: `later` is the time of the second save.
  unfoldable pub register :
      MlflowRun → ℕ → ℕ → ModelKind → String → Trained F R → Training (TrainResult F R)
  unfolding save_local log_to_mlflow only_numbers
  register run now later kind code t st =
      let m = registered t.model kind code t.metrics.mape now t.metrics in
      let logged = registered t.model kind code t.metrics.mape later (only_numbers t.metrics) in
      result_of kind code t m (log_to_mlflow cfg.mlflow_enabled run logged (save_local m st))

  -- Trusted mode refuses a model by its error; otherwise it is registered.
  unfoldable pub accept_model :
      MlflowRun → ℕ → ℕ → ModelKind → String → Trained F R → Training (TrainResult F R)
  unfolding register
  accept_model run now later kind code t = do
    guard (not (trusted_mode_active cfg.app && not (at_most t.metrics.mape cfg.ml_mape_target)))
        (TrainError.mape_rejected t.metrics.mape)
    register run now later kind code t

  -- `rows` is what a session reads for the plant.
  unfoldable pub train_model :
      MlflowRun → ℕ → ℕ → ModelKind → String → Option (DbRows F) → Training (TrainResult F R)
  unfolding prepare_dataset calibrate fit_and_score accept_model
  train_model run now later kind code rows = do
    dataset ← lift (prepare_dataset cfg learning rows)
    cal_version ← calibrate code dataset
    accept_model run now later kind code (fit_and_score kind dataset cal_version)
