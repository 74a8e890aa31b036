-- ===== src/Ml/Trust/Logged.antt =====
-- What a training leaves behind where MLflow is on.
use khalij_intelligent_energ.Base.{ℕ, String, true, false, not, ◌&&◌, ◌≡◌, refl, Option, none, some}
use khalij_intelligent_energ.Base.Float.{FloatOps}
use khalij_intelligent_energ.Base.Result.{IsOk, bind_returns, guard, ◌>>=◌}
use khalij_intelligent_energ.Config.{trusted_mode_active}
use khalij_intelligent_energ.Ml.Model.{MlSettings, MlDataset, ModelKind, RegisteredModel, MlState}
use khalij_intelligent_energ.Ml.Registry.{
  MlflowRun, registered, only_numbers, save_local, log_to_mlflow, load_latest,
  load_latest-save_local,
}
use khalij_intelligent_energ.Ml.Dataset.{DbRows}
use khalij_intelligent_energ.Ml.Learning.{Rows, Learning, mape_rejected, TrainResult}
use khalij_intelligent_energ.Ml.Train.{
  Trained, prepare_dataset, fit_and_score, calibrate, register, accept_model, train_model, lift,
  at_most, Training,
}
use khalij_intelligent_energ.Ml.Trust.{
  DriftReport, DriftStatus, TrustStatus, ModelTrust, trust_of, evaluate_drift, model_trust_status,
}

module _ {F R : Type 0} ⦃fl : FloatOps F⦄ (cfg : MlSettings F) where
  -- The reference of the features is lost, and the model does not count as trusted.
  abbrev pub IsDistrusted :
      (R → Rows F → DriftReport F) → ModelKind → String → DbRows F → MlState F R → Type 0
  IsDistrusted drift kind code recent st =
      (evaluate_drift drift kind code recent st ≡ DriftStatus.no_feature_ref)
      × ((trust : ModelTrust F) × (model_trust_status cfg kind code st ≡ TrustStatus.known trust)
          × (trust.trust_ok ≡ false))

  loaded-IsDistrusted :
      (drift : R → Rows F → DriftReport F) (recent : DbRows F) (kind : ModelKind) (code : String)
      (m : RegisteredModel F R) (st : MlState F R)
      → trusted_mode_active cfg.app ≡ true
      → load_latest kind code st ≡ some m
      → m.metrics.feature_ref ≡ none
      → m.metrics.data_source ≡ none
      → IsDistrusted drift kind code recent st
  unfolding evaluate_drift model_trust_status
  loaded-IsDistrusted drift recent kind code m st h loaded no_ref no_source =
      (rw (loaded, no_ref) refl, (trust_of cfg m, rw loaded refl, rw (h, no_source) refl))

module _ {F R : Type 0} ⦃fl : FloatOps F⦄ (cfg : MlSettings F) (learning : Learning F R) where
  register-IsDistrusted :
      (drift : R → Rows F → DriftReport F) (recent : DbRows F) (id : String) (now later : ℕ)
      (kind : ModelKind) (code : String) (t : Trained F R) (st : MlState F R)
      → trusted_mode_active cfg.app ≡ true
      → cfg.mlflow_enabled ≡ true
      → IsDistrusted cfg drift kind code recent
          (register cfg learning (MlflowRun.finished id) now later kind code t st).1
  unfolding register log_to_mlflow only_numbers
  register-IsDistrusted drift recent id now later kind code t st h on =
      let saved = registered t.model kind code t.metrics.mape now t.metrics in
      let logged = registered t.model kind code t.metrics.mape later (only_numbers t.metrics) in
      let ran : log_to_mlflow cfg.mlflow_enabled (MlflowRun.finished id) logged
            (save_local saved st)
          ≡ (some id, save_local logged (save_local saved st)) =
        rw on refl in
      rw ran (
        loaded-IsDistrusted cfg drift recent kind code (record logged { run_id = none }) _ h
          (load_latest-save_local logged (save_local saved st)) refl refl)

  accept_model-IsDistrusted :
      (drift : R → Rows F → DriftReport F) (recent : DbRows F) (id : String) (now later : ℕ)
      (kind : ModelKind) (code : String) (t : Trained F R) (st : MlState F R)
      → trusted_mode_active cfg.app ≡ true
      → cfg.mlflow_enabled ≡ true
      → IsOk (accept_model cfg learning (MlflowRun.finished id) now later kind code t st).0
      → IsDistrusted cfg drift kind code recent
          (accept_model cfg learning (MlflowRun.finished id) now later kind code t st).1
  unfolding accept_model
  accept_model-IsDistrusted drift recent id now later kind code t st h on done =
      bind_returns (IsDistrusted cfg drift kind code recent)
        (guard
          (not (trusted_mode_active cfg.app && not (at_most t.metrics.mape cfg.ml_mape_target)))
          (mape_rejected t.metrics.mape))
        (λ u. register cfg learning (MlflowRun.finished id) now later kind code t) st done
        (λ u s ran. register-IsDistrusted drift recent id now later kind code t s h on)

  -- Where MLflow is on and takes the run, a training in trusted mode that succeeds leaves a model
  -- whose drift cannot be evaluated, since its reference is missing, and which the trust status
  -- reports as not trusted.
  pub train_model-IsDistrusted :
      (drift : R → Rows F → DriftReport F) (recent : DbRows F) (id : String) (now later : ℕ)
      (kind : ModelKind) (code : String) (rows : Option (DbRows F)) (st : MlState F R)
      → trusted_mode_active cfg.app ≡ true
      → cfg.mlflow_enabled ≡ true
      → IsOk (train_model cfg learning (MlflowRun.finished id) now later kind code rows st).0
      → IsDistrusted cfg drift kind code recent
          (train_model cfg learning (MlflowRun.finished id) now later kind code rows st).1
  unfolding train_model
  train_model-IsDistrusted drift recent id now later kind code rows st h on done =
      let finish : MlDataset F → Option String → Training cfg learning (TrainResult F R) = λ ds v.
        accept_model cfg learning (MlflowRun.finished id) now later kind code
          (fit_and_score cfg learning kind ds v) in
      bind_returns (IsDistrusted cfg drift kind code recent)
        (lift cfg learning (prepare_dataset cfg learning rows))
        (λ ds. calibrate cfg learning code ds >>= finish ds) st done
        (λ ds s ran.
          bind_returns (IsDistrusted cfg drift kind code recent) (calibrate cfg learning code ds)
            (finish ds) s ran
            (λ v s' ended.
              accept_model-IsDistrusted drift recent id now later kind code
                (fit_and_score cfg learning kind ds v) s' h on ended))
