-- ===== src/Ml/Train/Trusted.antt =====
-- What training registers in trusted mode.
use khalij_intelligent_energ.Base.{
  ◌≤◌, ℕ, String, Bool, true, false, ◌&&◌, ◌≡◌, refl, Option, none, some, [], ◌∷◌, All, length, leb,
  Bool-cases, inl, inr, arith,
}
use khalij_intelligent_energ.Base.Float.{FloatOps}
use khalij_intelligent_energ.Base.Result.{ok, Result-cases, bind_keeps}
use khalij_intelligent_energ.Config.{trusted_mode_active}
use khalij_intelligent_energ.Ml.Model.{
  MlSettings, ModelKind, MlDataset, Predictor, RegisteredModel, MlState,
}
use khalij_intelligent_energ.Ml.Registry.{MlflowRun, log_to_mlflow, save_local, only_numbers}
use khalij_intelligent_energ.Ml.Dataset.{load_db_dataset, DbRows, complete_rows, framed}
use khalij_intelligent_energ.Ml.Learning.{Rows, Learning}
use khalij_intelligent_energ.Ml.Train.{
  Trained, is_plant_data, from_database, prepare_dataset, fit_and_score, at_most, calibrate,
  register, accept_model, train_model,
}

module _ {F R : Type 0} ⦃fl : FloatOps F⦄ where
  -- The predictor and its error are those of a training on enough data of a plant.
  abbrev pub IsFitted : MlSettings F → Learning F R → ModelKind → Predictor F → F → Type 0
  IsFitted cfg learning kind model mape =
      (ds : MlDataset F) × (cal_version : Option String) × (is_plant_data ds.source ≡ true)
      × (cfg.ml_min_real_samples ≤ length ds.rows)
      × (model ≡ (fit_and_score cfg learning kind ds cal_version).model)
      × (mape ≡ (fit_and_score cfg learning kind ds cal_version).metrics.mape)

  -- A model that was fitted on enough data of a plant, and whose error there is at most the target.
  abbrev pub IsAccepted : MlSettings F → Learning F R → RegisteredModel F R → Type 0
  IsAccepted cfg learning m =
      IsFitted cfg learning m.kind m.model m.mape × (at_most m.mape cfg.ml_mape_target ≡ true)

module _ {κ} {F R : Type 0} (P : RegisteredModel F R → Type κ) where
  All-log_to_mlflow :
      (enabled : Bool) (run : MlflowRun) (m : RegisteredModel F R) (st : MlState F R)
      → P m
      → All P st.registry
      → All P (log_to_mlflow enabled run m st).1.registry
  unfolding log_to_mlflow save_local
  All-log_to_mlflow false run m st new old = old
  All-log_to_mlflow true MlflowRun.not_installed m st new old = old
  All-log_to_mlflow true MlflowRun.unreachable m st new old = old
  All-log_to_mlflow true MlflowRun.artifact_refused m st new old = (new, old)
  All-log_to_mlflow true (MlflowRun.finished id) m st new old = (new, old)

module _ {F R : Type 0} ⦃fl : FloatOps F⦄ (cfg : MlSettings F) (learning : Learning F R) where
  from_database_lem :
      (found : Option (Rows F)) (ds : MlDataset F)
      → trusted_mode_active cfg.app ≡ true
      → from_database cfg learning (framed found) ≡ ok ds
      → (is_plant_data ds.source ≡ true) × (cfg.ml_min_real_samples ≤ length ds.rows)
  from_database_lem none ds h e = absurd (ground arith)
  from_database_lem (some []) ds h e = ground arith
  from_database_lem (some (row ∷ rows)) ds h e = ground arith

  -- In trusted mode a model is only trained on enough data of the plant.
  prepare_dataset_lem :
      (rows : Option (DbRows F)) (ds : MlDataset F)
      → trusted_mode_active cfg.app ≡ true
      → prepare_dataset cfg learning rows ≡ ok ds
      → (is_plant_data ds.source ≡ true) × (cfg.ml_min_real_samples ≤ length ds.rows)
  unfolding prepare_dataset load_db_dataset
  prepare_dataset_lem none ds h e = ground arith
  prepare_dataset_lem (some rows) ds h e = from_database_lem (complete_rows rows) ds h e

  pub calibrate_registry :
      (code : String) (ds : MlDataset F) (st : MlState F R)
      → (calibrate cfg learning code ds st).1.registry ≡ st.registry
  unfolding calibrate
  calibrate_registry code ds st =
      elim (Bool-cases (is_plant_data ds.source && leb 20 (length ds.rows))) [
        | inl e ↦ rw e refl
        | inr e ↦ rw e refl
      ]

  register-All :
      (run : MlflowRun) (now later : ℕ) (kind : ModelKind) (code : String) (t : Trained F R)
      (st : MlState F R)
      → at_most t.metrics.mape cfg.ml_mape_target ≡ true
      → IsFitted cfg learning kind t.model t.metrics.mape
      → All (IsAccepted cfg learning) st.registry
      → All
          (IsAccepted cfg learning)
          (register cfg learning run now later kind code t st).1.registry
  unfolding register only_numbers save_local
  register-All run now later kind code t st low fitted old =
      All-log_to_mlflow (IsAccepted cfg learning) cfg.mlflow_enabled run _ _ (fitted, low)
        ((fitted, low), old)

  accept_model-All :
      (run : MlflowRun) (now later : ℕ) (kind : ModelKind) (code : String) (t : Trained F R)
      (st : MlState F R)
      → trusted_mode_active cfg.app ≡ true
      → IsFitted cfg learning kind t.model t.metrics.mape
      → All (IsAccepted cfg learning) st.registry
      → All
          (IsAccepted cfg learning)
          (accept_model cfg learning run now later kind code t st).1.registry
  unfolding accept_model
  accept_model-All run now later kind code t st h fitted old =
      elim (Bool-cases (at_most t.metrics.mape cfg.ml_mape_target)) [
        | inl low ↦ rw (h, low) (register-All run now later kind code t st low fitted old)
        | inr high ↦ rw (h, high) old
      ]

  -- In trusted mode, if every model of the registry was fitted on enough data of a plant with an error
  -- of at most the target, then every model is after a training, whether it succeeds or not.
  pub train_model-IsAccepted :
      (run : MlflowRun) (now later : ℕ) (kind : ModelKind) (code : String)
      (rows : Option (DbRows F)) (st : MlState F R)
      → trusted_mode_active cfg.app ≡ true
      → All (IsAccepted cfg learning) st.registry
      → All
          (IsAccepted cfg learning)
          (train_model cfg learning run now later kind code rows st).1.registry
  unfolding train_model
  train_model-IsAccepted run now later kind code rows st h old =
      elim (Result-cases (prepare_dataset cfg learning rows)) [
        | inr (e, failed) ↦ rw failed old
        | inl (ds, prepared) ↦
            let enough = prepare_dataset_lem rows ds h prepared in
            rw prepared (
              bind_keeps (λ (s : MlState F R). All (IsAccepted cfg learning) s.registry)
                (calibrate cfg learning code ds)
                (λ v.
                  accept_model cfg learning run now later kind code
                    (fit_and_score cfg learning kind ds v))
                st (rw (calibrate_registry code ds st) old)
                (λ v s kept.
                  accept_model-All run now later kind code (fit_and_score cfg learning kind ds v) s
                    h (ds, v, enough.0, enough.1, refl, refl) kept))
      ]
