-- ===== src/Ml/Trainer.antt =====
-- app/ml/trainer.py: a round of the retraining worker over the plants and the two kinds of models.
use khalij_intelligent_energ.Base.{
  inl, inr, ℕ, String, Bool, true, not, ◌≡◌, refl, Option, none, some, List, [], ◌∷◌, All,
  if◌then◌else◌,
}
use khalij_intelligent_energ.Base.Float.{FloatOps}
use khalij_intelligent_energ.Base.Result.{Result, ok, err, ◌>>=◌, Result-cases}
use khalij_intelligent_energ.Config.{trusted_mode_active}
use khalij_intelligent_energ.Ml.Model.{
  MlSettings, ModelKind, elm_model, lstm_model, DataSource, Version, MlState,
}
use khalij_intelligent_energ.Ml.Registry.{MlflowRun}
use khalij_intelligent_energ.Ml.Dataset.{DbRows}
use khalij_intelligent_energ.Ml.Learning.{Rows, Learning, TrainError, TrainResult}
use khalij_intelligent_energ.Ml.Train.{lift, prepare_dataset, calibrate, train_model}
use khalij_intelligent_energ.Ml.Train.Trusted.{
  IsAccepted, calibrate_registry, train_model-IsAccepted,
}
use khalij_intelligent_energ.Ml.Trust.{DriftReport, DriftStatus, evaluate_drift}

-- Where an exception of another kind than `TrustedDataError` is raised: before anything is saved, or
-- once the calibration is.
pub data Crash : Type 0 where
  at_start once_calibrated : Crash

-- What the world gives to a round: for each plant the rows of the session, and for each training the
-- MLflow run and the times of the saves.
pub record Round (F R : Type 0) : Type 0 where
  pub recent : String → DbRows F
  pub history : String → DbRows F
  pub drift : R → Rows F → DriftReport F
  pub run : String → ModelKind → MlflowRun
  pub now : String → ModelKind → ℕ
  pub later : String → ModelKind → ℕ
  -- the exception of another kind that a training runs into, if any
  pub crash : String → ModelKind → Option Crash

pub record Trained (F : Type 0) : Type 0 where
  pub mape : F
  pub meets_target : Bool
  pub version : Version
  pub source : DataSource
  pub trusted : Bool
  pub holdout_temporal : Bool

-- An entry of `results`.
pub data Outcome (F : Type 0) : Type 0 where
  skipped : F → Outcome F
  trained : Trained F → Outcome F
  trusted_blocked : TrainError F → Outcome F
  failed : Outcome F

-- What the evaluation of the drift asks for: a training, none, or that it raised.
pub data Next (F : Type 0) : Type 0 where
  train raised : Next F
  keep_model : DriftReport F → Next F

abbrev pub next_of : {F : Type 0} → DriftStatus F → Next F
next_of (DriftStatus.checked c) =
    if not c.report.drift_alert then Next.keep_model c.report else Next.train
next_of DriftStatus.null_found = Next.raised
next_of _ = Next.train

module _ {F R : Type 0} where
  abbrev pub outcome_of :
      Result (TrainError F) (TrainResult F R) × MlState F R → Outcome F × MlState F R
  outcome_of (ok r, st) = (
    Outcome.trained (record {
      mape = r.mape;
      meets_target = r.meets_mape_target;
      version = r.registered.version;
      source = r.data_source;
      trusted = r.trusted;
      holdout_temporal = r.holdout_temporal;
    }),
    st,
  )
  outcome_of (err TrainError.null_found, st) = (Outcome.failed, st)
  outcome_of (err e, st) = (Outcome.trusted_blocked e, st)

  -- The data that are refused are so before the exception.
  abbrev pub crashed_of :
      Result (TrainError F) (Option String) × MlState F R → Outcome F × MlState F R
  crashed_of (ok v, st) = (Outcome.failed, st)
  crashed_of (err TrainError.null_found, st) = (Outcome.failed, st)
  crashed_of (err e, st) = (Outcome.trusted_blocked e, st)

module _ {F R : Type 0} ⦃fl : FloatOps F⦄ (cfg : MlSettings F) (learning : Learning F R)
    (round : Round F R) where
  -- A training up to the exception.
  unfoldable pub calibrated :
      String → MlState F R → Result (TrainError F) (Option String) × MlState F R
  calibrated code =
      lift cfg learning (prepare_dataset cfg learning (some (round.history code)))
      >>= calibrate cfg learning code

  abbrev pub trained_or : Option Crash → String → ModelKind → MlState F R → Outcome F × MlState F R
  trained_or none code kind st = outcome_of (
      train_model cfg learning (round.run code kind) (round.now code kind) (round.later code kind)
        kind code (some (round.history code)) st)
  trained_or (some at_start) code kind st = (Outcome.failed, st)
  trained_or (some once_calibrated) code kind st = crashed_of (calibrated code st)

  abbrev pub go_on : Next F → String → ModelKind → MlState F R → Outcome F × MlState F R
  go_on Next.train code kind st = trained_or (round.crash code kind) code kind st
  go_on Next.raised code kind st = (Outcome.failed, st)
  go_on (Next.keep_model report) code kind st = (Outcome.skipped report.max_psi, st)

  unfoldable pub retrain : String → ModelKind → MlState F R → Outcome F × MlState F R
  unfolding calibrated
  retrain code kind st =
      go_on
        (if trusted_mode_active cfg.app
          then next_of (evaluate_drift round.drift kind code (round.recent code) st)
          else Next.train)
        code kind st

  abbrev pub Results : Type 0
  Results = List ((String × ModelKind) × Outcome F)

  -- Both kinds for each plant, in order.
  unfoldable pub retrain_all : List String → MlState F R → Results × MlState F R
  retrain_all [] st = ([], st)
  retrain_all (code ∷ codes) st =
      let (first, st1) = retrain code elm_model st in
      let (second, st2) = retrain code lstm_model st1 in
      let (rest, st3) = retrain_all codes st2 in
      (((code, elm_model), first) ∷ ((code, lstm_model), second) ∷ rest, st3)

  unfoldable pub run_once : MlState F R → Results × MlState F R
  unfolding retrain_all retrain
  run_once st = retrain_all cfg.app.unit_code_list st

  outcome_of_state :
      (p : Result (TrainError F) (TrainResult F R) × MlState F R) → (outcome_of p).1 ≡ p.1
  outcome_of_state (ok r, st) = refl
  outcome_of_state (err (TrainError.too_few_samples n), st) = refl
  outcome_of_state (err TrainError.no_session, st) = refl
  outcome_of_state (err (TrainError.mape_rejected mape), st) = refl
  outcome_of_state (err TrainError.null_found, st) = refl

  crashed_of_state :
      (p : Result (TrainError F) (Option String) × MlState F R) → (crashed_of p).1 ≡ p.1
  crashed_of_state (ok v, st) = refl
  crashed_of_state (err (TrainError.too_few_samples n), st) = refl
  crashed_of_state (err TrainError.no_session, st) = refl
  crashed_of_state (err (TrainError.mape_rejected mape), st) = refl
  crashed_of_state (err TrainError.null_found, st) = refl

  calibrated_registry :
      (code : String) (st : MlState F R) → (calibrated code st).1.registry ≡ st.registry
  unfolding calibrated
  calibrated_registry code st =
      elim (Result-cases (prepare_dataset cfg learning (some (round.history code)))) [
        | inl (ds, e) ↦ rw e (calibrate_registry cfg learning code ds st)
        | inr (error, e) ↦ rw e refl
      ]

  trained_or-IsAccepted :
      (crash : Option Crash) (code : String) (kind : ModelKind) (st : MlState F R)
      → trusted_mode_active cfg.app ≡ true
      → All (IsAccepted cfg learning) st.registry
      → All (IsAccepted cfg learning) (trained_or crash code kind st).1.registry
  trained_or-IsAccepted (some at_start) code kind st h old = old
  trained_or-IsAccepted (some once_calibrated) code kind st h old =
      rw (crashed_of_state (calibrated code st), calibrated_registry code st) old
  trained_or-IsAccepted none code kind st h old =
      rw
        (outcome_of_state (
          train_model cfg learning (round.run code kind) (round.now code kind)
            (round.later code kind) kind code (some (round.history code)) st))
        (train_model-IsAccepted cfg learning (round.run code kind) (round.now code kind)
          (round.later code kind) kind code (some (round.history code)) st h old)

  go_on-IsAccepted :
      (next : Next F) (code : String) (kind : ModelKind) (st : MlState F R)
      → trusted_mode_active cfg.app ≡ true
      → All (IsAccepted cfg learning) st.registry
      → All (IsAccepted cfg learning) (go_on next code kind st).1.registry
  go_on-IsAccepted Next.train code kind st h old =
      trained_or-IsAccepted (round.crash code kind) code kind st h old
  go_on-IsAccepted Next.raised code kind st h old = old
  go_on-IsAccepted (Next.keep_model report) code kind st h old = old

  retrain-IsAccepted :
      (code : String) (kind : ModelKind) (st : MlState F R)
      → trusted_mode_active cfg.app ≡ true
      → All (IsAccepted cfg learning) st.registry
      → All (IsAccepted cfg learning) (retrain code kind st).1.registry
  unfolding retrain
  retrain-IsAccepted code kind st h old = go_on-IsAccepted _ code kind st h old

  retrain_all-IsAccepted :
      (codes : List String) (st : MlState F R)
      → trusted_mode_active cfg.app ≡ true
      → All (IsAccepted cfg learning) st.registry
      → All (IsAccepted cfg learning) (retrain_all codes st).1.registry
  unfolding retrain_all
  retrain_all-IsAccepted [] st h old = old
  retrain_all-IsAccepted (code ∷ codes) st h old =
      retrain_all-IsAccepted codes _ h
        (retrain-IsAccepted code lstm_model _ h (retrain-IsAccepted code elm_model st h old))

  -- In trusted mode, if every model of the registry was fitted on enough data of a plant with an error
  -- of at most the target, then every model is after a round of the trainer.
  pub run_once-IsAccepted :
      (st : MlState F R)
      → trusted_mode_active cfg.app ≡ true
      → All (IsAccepted cfg learning) st.registry
      → All (IsAccepted cfg learning) (run_once st).1.registry
  unfolding run_once
  run_once-IsAccepted st h old = retrain_all-IsAccepted cfg.app.unit_code_list st h old
