-- ===== src/Ml/Registry.antt =====
-- app/ml/registry.py: models saved to files and read back. The file latest.json of a plant and a kind
-- names what was saved last for them. What the MLflow server does is an argument.
use khalij_intelligent_energ.Base.{
  ℕ, String, Bool, true, false, ◌&&◌, ◌≡◌, refl, Option, none, some, List, [], ◌∷◌, str_eq,
  str_eq_self, if◌then◌else◌,
}
use khalij_intelligent_energ.Ml.Model.{
  ModelKind, same_kind, same_kind_self, Metrics, Predictor, RegisteredModel, MlState,
}

-- A run of MLflow: it raises before or after the artifact is saved, or ends with its id.
pub data MlflowRun : Type 0 where
  not_installed unreachable artifact_refused : MlflowRun
  finished : String → MlflowRun

module _ {F R : Type 0} where
  abbrev pub is_for : ModelKind → String → RegisteredModel F R → Bool
  is_for kind code m = same_kind m.kind kind && str_eq m.plant_code code

  unfoldable pub find_model :
      ModelKind → String → List (RegisteredModel F R) → Option (RegisteredModel F R)
  find_model kind code [] = none
  find_model kind code (m ∷ models) =
      if is_for kind code m then some m else find_model kind code models

  -- The metadata holds no run id.
  abbrev pub without_run : Option (RegisteredModel F R) → Option (RegisteredModel F R)
  without_run none = none
  without_run (some m) = some (record m { run_id = none })

  unfoldable pub load_latest : ModelKind → String → MlState F R → Option (RegisteredModel F R)
  unfolding find_model
  load_latest kind code st = without_run (find_model kind code st.registry)

  abbrev pub registered :
      Predictor F → ModelKind → String → F → ℕ → Metrics F R → RegisteredModel F R
  registered model kind code mape now metrics = record {
    kind = kind;
    model = model;
    version = record { kind = kind; plant_code = code; stamp = now };
    run_id = none;
    mape = mape;
    plant_code = code;
    registered_at = now;
    metrics = metrics;
  }

  unfoldable pub save_local : RegisteredModel F R → MlState F R → MlState F R
  save_local m st = record st { registry = m ∷ st.registry }

  -- `{k: v for k, v in metrics.items() if isinstance(v, (int, float, bool))}`: the entries that are
  -- texts, dictionaries or null are left out.
  unfoldable pub only_numbers : Metrics F R → Metrics F R
  only_numbers m = record m { data_source = none; feature_ref = none; physics_cal_version = none }

  -- Saves the model once more, with the metrics that it logs, and gives the id of the run.
  unfoldable pub log_to_mlflow :
      Bool → MlflowRun → RegisteredModel F R → MlState F R → Option String × MlState F R
  unfolding save_local
  log_to_mlflow false run m st = (none, st)
  log_to_mlflow true MlflowRun.not_installed m st = (none, st)
  log_to_mlflow true MlflowRun.unreachable m st = (none, st)
  log_to_mlflow true MlflowRun.artifact_refused m st = (none, save_local m st)
  log_to_mlflow true (MlflowRun.finished id) m st = (some id, save_local m st)

  -- What is saved last is what is loaded.
  pub load_latest-save_local :
      (m : RegisteredModel F R) (st : MlState F R)
      → load_latest m.kind m.plant_code (save_local m st) ≡ some (record m { run_id = none })
  unfolding load_latest save_local find_model
  load_latest-save_local m st =
      let found : find_model m.kind m.plant_code (m ∷ st.registry) ≡ some m =
        rw (same_kind_self m.kind, str_eq_self m.plant_code) refl in
      rw (load_latest, save_local, found) refl
