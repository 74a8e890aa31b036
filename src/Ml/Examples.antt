-- ===== src/Ml/Examples.antt =====
-- A plant with a few readings, and the theorems at inputs that meet their hypotheses.
use khalij_intelligent_energ.Base.{
  ℕ, Option, String, true, false, ◌≡◌, ◌≢◌, refl, none, some, [], ◌∷◌, eq_iff, zero, suc, List,
}
use khalij_intelligent_energ.Base.NatFloat.{nat_float}
use khalij_intelligent_energ.Base.Result.{ok, err}
use khalij_intelligent_energ.Base.Table.{get}
use khalij_intelligent_energ.Config.Examples.{live_settings}
use khalij_intelligent_energ.Config.{trusted_mode_active}
use khalij_intelligent_energ.Carbon.Scopes.{Factors}
use khalij_intelligent_energ.Plant.Physics.{Measured}
use khalij_intelligent_energ.Ml.Model.{
  MlSettings, elm_model, Targets, PhysicsCalibration, CalibrationEntry, CalibrationFile, MlState,
  MlDataset, timescaledb,
}
use khalij_intelligent_energ.Ml.Registry.{MlflowRun, load_latest}
use khalij_intelligent_energ.Ml.Calibrate.{
  load_calibration, save_calibration, load_calibration-save_calibration,
}
use khalij_intelligent_energ.Ml.Dataset.{DbRows, load_db_dataset, complete_rows}
use khalij_intelligent_energ.Ml.Learning.{Rows, Learning, mape_rejected}
use khalij_intelligent_energ.Ml.Train.{train_model, at_most, prepare_dataset, fit_and_score}
use khalij_intelligent_energ.Ml.Trust.{DriftReport, evaluate_drift}
use khalij_intelligent_energ.Ml.Trust.Logged.{IsDistrusted, train_model-IsDistrusted}
use khalij_intelligent_energ.Ml.Trainer.{Round, run_once}
use khalij_intelligent_energ.Ml.Features.{ReadingSession}
use khalij_intelligent_energ.Ml.Serve.{PredictionResult, ml_model, predict_for_plant}
use khalij_intelligent_energ.Ml.Serve.Trusted.{ComesFromAccepted, trained_then_served}
use khalij_intelligent_energ.Ml.Api.{predict}
use khalij_intelligent_energ.Ml.Api.Stored.{AreTraceable, predict-AreTraceable}
use khalij_intelligent_energ.Ml.Train.Rejected.{calibrated, rejected_but_calibrated}

abbrev trusted_settings : MlSettings ℕ
trusted_settings = record {
  app = live_settings;
  ml_min_real_samples = 2;
  ml_test_ratio = 0;
  ml_vsg_samples = 300;
  ml_lstm_lookback = 8;
  ml_mape_target = 5;
  ml_max_latency_ms = 3000;
  ml_allow_vsg_in_trusted = false;
  ml_holdout_ratio = 0;
  mlflow_enabled = true;
}

abbrev measured : Measured ℕ
measured = record {
  electricity_power_mw = 15;
  fuel_gas_flow_km3h = 100;
  steam_flow_tonh = 30;
  feed_flow_tonh = 100;
  reactor_temp_c = 400;
}

abbrev row : Measured ℕ × Targets ℕ
row = (measured, record { energy_intensity_kgoe_ton = 700; carbon_emission_kgco2_ton = 30 })

abbrev rows : DbRows ℕ
rows = some row ∷ some row ∷ some row ∷ []

-- Every model predicts 690 and 31, with the given error.
abbrev learning_with : ℕ → Learning ℕ ℕ
learning_with error = record {
  affine = λ xs ys. (1, 0);
  simulated = [];
  split_size = λ n ratio. 2;
  shuffle = λ rs. rs;
  virtual = λ rs. rs;
  merge = λ xs ys. xs;
  fit = λ kind rs ms. (690 ∷ 31 ∷ []) ∷ [];
  score = λ ys ps. error;
  stats = λ rs. 7;
}

abbrev untrained : MlState ℕ ℕ
untrained = record {
  registry = [];
  calibrations = none;
  plants = ("olefin", 1) ∷ [];
  predictions = [];
}

abbrev steady : ℕ → Rows ℕ → DriftReport ℕ
steady reference rs = record { max_psi = 0; drift_alert = false }

abbrev round : Round ℕ ℕ
round = record {
  recent = λ code. rows;
  history = λ code. rows;
  drift = steady;
  run = λ code kind. MlflowRun.finished "run-1";
  now = λ code kind. 10;
  later = λ code kind. 11;
  crash = λ code kind. none;
}

abbrev factors : Factors ℕ
factors = record {
  emission = [];
  scope3 = [];
  ef_natural_gas_kgco2_per_m3 = 2;
  ef_steam_kgco2_per_ton = 0;
  ef_electricity_kgco2_per_kwh = 0;
}

abbrev after_round : MlState ℕ ℕ
after_round = (run_once trusted_settings (learning_with 3) round untrained).1

abbrev served : PredictionResult ℕ
served = record {
  predicted_energy_kwh = 759000;
  predicted_carbon_kgco2 = 3100;
  predicted_intensity_kgoe_ton = 690;
  predicted_carbon_intensity_kgco2_ton = 31;
  model = elm_model;
  model_version = some (record { kind = elm_model; plant_code = "olefin"; stamp = 11 });
  latency_ms = 4;
  mape_estimate = some 3;
  source = ml_model;
  trusted = true;
  drift_alert = none;
}

trusted_lem : trusted_mode_active live_settings ≡ true
unfolding trusted_mode_active
trusted_lem = refl

served_lem :
    predict_for_plant trusted_settings factors after_round none elm_model "olefin" 60 [] 4
    ≡ ok served
unfolding predict_for_plant run_once train_model load_latest trusted_mode_active evaluate_drift
served_lem = refl

trained_then_served_example :
    ComesFromAccepted trusted_settings
      (learning_with 3)
      (load_latest elm_model "olefin" after_round)
      served
trained_then_served_example =
    trained_then_served trusted_settings (learning_with 3) round factors untrained none elm_model
      "olefin" 60 [] 4 served trusted_lem tt served_lem

train_model-IsDistrusted_example :
    IsDistrusted trusted_settings steady elm_model "olefin" rows
      (train_model trusted_settings
        (learning_with 3)
        (MlflowRun.finished "run-1")
        10
        11
        elm_model
        "olefin"
        (some rows)
        untrained).1
unfolding train_model trusted_mode_active
train_model-IsDistrusted_example =
    train_model-IsDistrusted trusted_settings (learning_with 3) steady rows "run-1" 10 11 elm_model
      "olefin" (some rows) untrained trusted_lem refl tt

abbrev fitted : PhysicsCalibration ℕ
fitted = record {
  plant_code = "olefin";
  energy_scale = 2;
  energy_offset = 1;
  carbon_scale = 3;
  carbon_offset = 0;
  version = "fitted";
}

olefin≢pta : ◌≢◌ {A = String} "olefin" "pta"
olefin≢pta e = let h : false ≡ true = (eq_iff "olefin" "pta").1 e in cc

-- The entry of the other plant names no version.
abbrev pta_entry : CalibrationEntry ℕ
pta_entry = record {
  energy_scale = some 5;
  energy_offset = none;
  carbon_scale = none;
  carbon_offset = some 7;
  version = none;
}

abbrev old_file : Option (CalibrationFile ℕ)
old_file = some (record { version = some "v0"; plants = ("pta", pta_entry) ∷ [] })

load_calibration-save_calibration_example :
    (load_calibration "olefin" (save_calibration fitted old_file) ≡ fitted)
    × (load_calibration "pta" (save_calibration fitted old_file)
        ≡ record (load_calibration "pta" old_file) { version = "fitted" })
unfolding get
load_calibration-save_calibration_example =
    load_calibration-save_calibration fitted old_file "pta" olefin≢pta

abbrev session : ReadingSession ℕ
session = record { get_latest_reading = λ code. none; get_history = λ code minutes limit. [] }

none_stored : AreTraceable after_round
unfolding run_once train_model load_latest trusted_mode_active evaluate_drift
none_stored = tt

predict-AreTraceable_example :
    AreTraceable
      (predict trusted_settings factors session true 20 elm_model "olefin" 60 4 after_round).1
predict-AreTraceable_example =
    predict-AreTraceable trusted_settings factors session true 20 elm_model "olefin" 60 4
      after_round trusted_lem none_stored

-- Twenty rows, and a model whose error is above the target.
abbrev copies : {A : Type 0} → ℕ → A → List A
copies zero x = []
copies (suc n) x = x ∷ copies n x

abbrev enough : DbRows ℕ
enough = copies 20 (some row)

abbrev enough_rows : MlDataset ℕ
enough_rows = record { rows = copies 20 row; source = timescaledb }

prepared : prepare_dataset trusted_settings (learning_with 9) (some enough) ≡ ok enough_rows
unfolding prepare_dataset load_db_dataset complete_rows
prepared = refl

too_high :
    at_most
      (fit_and_score trusted_settings
        (learning_with 9)
        elm_model
        enough_rows
        (some "fitted")).metrics.mape
      5
    ≡ false
unfolding fit_and_score
too_high = refl

rejected_but_calibrated_example :
    train_model trusted_settings
      (learning_with 9)
      (MlflowRun.finished "run-1")
      10
      11
      elm_model
      "olefin"
      (some enough)
      untrained
    ≡ (
      err (mape_rejected 9),
      calibrated trusted_settings (learning_with 9) "olefin" enough_rows untrained,
    )
unfolding fit_and_score
rejected_but_calibrated_example =
    rejected_but_calibrated trusted_settings (learning_with 9) (MlflowRun.finished "run-1") 10 11
      elm_model "olefin" (some enough) untrained enough_rows trusted_lem prepared refl refl too_high
