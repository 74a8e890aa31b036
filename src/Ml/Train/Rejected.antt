-- ===== src/Ml/Train/Rejected.antt =====
-- What a training leaves behind that trusted mode refuses.
use khalij_intelligent_energ.Base.{
  ℕ, String, true, false, ◌≡◌, refl, ◌∙◌, Option, some, length, leb,
}
use khalij_intelligent_energ.Base.Float.{FloatOps}
use khalij_intelligent_energ.Base.Result.{ok, err, bind_ok}
use khalij_intelligent_energ.Config.{trusted_mode_active}
use khalij_intelligent_energ.Ml.Model.{MlSettings, ModelKind, MlDataset, MlState}
use khalij_intelligent_energ.Ml.Registry.{MlflowRun}
use khalij_intelligent_energ.Ml.Calibrate.{fit_calibration_from_xy, save_calibration}
use khalij_intelligent_energ.Ml.Dataset.{DbRows}
use khalij_intelligent_energ.Ml.Learning.{Learning, mape_rejected}
use khalij_intelligent_energ.Ml.Train.{
  Trained, is_plant_data, at_most, prepare_dataset, fit_and_score, calibrate, accept_model,
  train_model,
}

module _ {F R : Type 0} ⦃fl : FloatOps F⦄ (cfg : MlSettings F) (learning : Learning F R) where
  abbrev pub calibrated : String → MlDataset F → MlState F R → MlState F R
  calibrated code ds st = record st {
    calibrations =
        save_calibration (fit_calibration_from_xy learning.affine ds.rows code) st.calibrations;
  }

  calibrate_lem :
      (code : String) (ds : MlDataset F) (st : MlState F R)
      → is_plant_data ds.source ≡ true
      → leb 20 (length ds.rows) ≡ true
      → calibrate cfg learning code ds st ≡ (ok (some "fitted"), calibrated code ds st)
  unfolding calibrate fit_calibration_from_xy
  calibrate_lem code ds st plant enough = rw (plant, enough) refl

  accept_lem :
      (run : MlflowRun) (now later : ℕ) (kind : ModelKind) (code : String) (t : Trained F R)
      (st : MlState F R)
      → trusted_mode_active cfg.app ≡ true
      → at_most t.metrics.mape cfg.ml_mape_target ≡ false
      → accept_model cfg learning run now later kind code t st
        ≡ (err (mape_rejected t.metrics.mape), st)
  unfolding accept_model
  accept_lem run now later kind code t st h high = rw (h, high) refl

  -- In trusted mode, a training on at least 20 rows of the plant whose model has a larger error than
  -- the target raises, registers nothing, and yet replaces the calibration of the plant.
  pub rejected_but_calibrated :
      (run : MlflowRun) (now later : ℕ) (kind : ModelKind) (code : String)
      (rows : Option (DbRows F)) (st : MlState F R) (ds : MlDataset F)
      → trusted_mode_active cfg.app ≡ true
      → prepare_dataset cfg learning rows ≡ ok ds
      → is_plant_data ds.source ≡ true
      → leb 20 (length ds.rows) ≡ true
      → at_most (fit_and_score cfg learning kind ds (some "fitted")).metrics.mape cfg.ml_mape_target
        ≡ false
      → train_model cfg learning run now later kind code rows st ≡ (
        err (mape_rejected (fit_and_score cfg learning kind ds (some "fitted")).metrics.mape),
        calibrated code ds st,
      )
  unfolding train_model
  rejected_but_calibrated run now later kind code rows st ds h prepared plant enough high =
      rw prepared (
        bind_ok (calibrate cfg learning code ds)
          (λ v.
            accept_model cfg learning run now later kind code
              (fit_and_score cfg learning kind ds v))
          st (some "fitted") (calibrated code ds st) (calibrate_lem code ds st plant enough)
        ∙ accept_lem run now later kind code (fit_and_score cfg learning kind ds (some "fitted"))
            (calibrated code ds st) h high)
