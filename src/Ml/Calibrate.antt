-- ===== src/Ml/Calibrate.antt =====
-- app/ml/physics_calibrate.py: the physics formulas scaled to a plant. The least-squares solver of
-- numpy is an argument.
use khalij_intelligent_energ.Base.{
  String, ◌≡◌, ◌≢◌, refl, Option, none, some, List, [], map, or_else,
}
use khalij_intelligent_energ.Base.Float.{FloatOps}
use khalij_intelligent_energ.Base.Table.{Dict, get, put, get-put_same, get-put_other}
use khalij_intelligent_energ.Plant.Physics.{
  Measured, enrich_reading, energy_intensity, carbon_emission_intensity, energy_efficiency,
}
use khalij_intelligent_energ.Ml.Model.{
  Targets, PhysicsCalibration, CalibrationEntry, CalibrationFile,
}

-- A reading's derived values, and the calibration that they were computed with.
pub record Calibrated (F : Type 0) : Type 0 where
  pub energy_intensity_kgoe_ton : F
  pub carbon_emission_kgco2_ton : F
  pub energy_efficiency_percent : F
  pub physics_cal_version : String

module _ {F : Type 0} ⦃fl : FloatOps F⦄ where
  open fl use {add, mul, lit, round_to}

  abbrev pub neutral : String → String → PhysicsCalibration F
  neutral code version = record {
    plant_code = code;
    energy_scale = lit 1 0;
    energy_offset = lit 0 0;
    carbon_scale = lit 1 0;
    carbon_offset = lit 0 0;
    version = version;
  }

  -- An entry that is missing is read as an empty one.
  abbrev pub no_entry : CalibrationEntry F
  no_entry = record {
    energy_scale = none;
    energy_offset = none;
    carbon_scale = none;
    carbon_offset = none;
    version = none;
  }

  -- The keys of an entry, each with its default; that of the version is the version of the file.
  abbrev pub read_entry : String → Option String → CalibrationEntry F → PhysicsCalibration F
  read_entry code version meta = record {
    plant_code = code;
    energy_scale = or_else meta.energy_scale (lit 1 0);
    energy_offset = or_else meta.energy_offset (lit 0 0);
    carbon_scale = or_else meta.carbon_scale (lit 1 0);
    carbon_offset = or_else meta.carbon_offset (lit 0 0);
    version = or_else meta.version (or_else version "default");
  }

  unfoldable pub load_calibration : String → Option (CalibrationFile F) → PhysicsCalibration F
  load_calibration code none = neutral code "default"
  load_calibration code (some file) =
      read_entry code file.version (or_else (get code file.plants) no_entry)

  abbrev pub plants_of : Option (CalibrationFile F) → Dict (CalibrationEntry F)
  plants_of none = []
  plants_of (some file) = file.plants

  abbrev pub entry_of : PhysicsCalibration F → CalibrationEntry F
  entry_of cal = record {
    energy_scale = some cal.energy_scale;
    energy_offset = some cal.energy_offset;
    carbon_scale = some cal.carbon_scale;
    carbon_offset = some cal.carbon_offset;
    version = some cal.version;
  }

  unfoldable pub save_calibration :
      PhysicsCalibration F → Option (CalibrationFile F) → Option (CalibrationFile F)
  save_calibration cal file = some (record {
    version = some cal.version;
    plants = put cal.plant_code (entry_of cal) (plants_of file);
  })

  unfoldable pub calibrated_enrich : Option (CalibrationFile F) → String → Measured F → Calibrated F
  unfolding load_calibration enrich_reading energy_efficiency
  calibrated_enrich file code m =
      let cal = load_calibration code file in
      let base = enrich_reading m in
      let ei = add (mul base.energy_intensity_kgoe_ton cal.energy_scale) cal.energy_offset in
      let ce = add (mul base.carbon_emission_kgco2_ton cal.carbon_scale) cal.carbon_offset in
      record {
        energy_intensity_kgoe_ton = round_to ei 2;
        carbon_emission_kgco2_ton = round_to ce 2;
        energy_efficiency_percent = round_to (energy_efficiency ei) 2;
        physics_cal_version = cal.version;
      }

  -- `affine xp yp` is the least-squares solution of `coef[0] * xp + coef[1] ≈ yp`.
  unfoldable pub fit_calibration_from_xy :
      (List F → List F → F × F) → List (Measured F × Targets F) → String → PhysicsCalibration F
  unfolding energy_intensity carbon_emission_intensity
  fit_calibration_from_xy affine rows code =
      let phys_ei =
        map
          (λ (r : Measured F × Targets F).
            energy_intensity r.0.fuel_gas_flow_km3h r.0.steam_flow_tonh r.0.feed_flow_tonh
              r.0.reactor_temp_c)
          rows in
      let phys_ce =
        map
          (λ (r : Measured F × Targets F).
            carbon_emission_intensity r.0.fuel_gas_flow_km3h r.0.steam_flow_tonh
              r.0.electricity_power_mw)
          rows in
      let energy =
        affine phys_ei (map (λ (r : Measured F × Targets F). r.1.energy_intensity_kgoe_ton) rows) in
      let carbon =
        affine phys_ce (map (λ (r : Measured F × Targets F). r.1.carbon_emission_kgco2_ton) rows) in
      record {
        plant_code = code;
        energy_scale = energy.0;
        energy_offset = energy.1;
        carbon_scale = carbon.0;
        carbon_offset = carbon.1;
        version = "fitted";
      }

  -- The version that the entry of a plant itself names.
  abbrev pub own_version : String → Option (CalibrationFile F) → Option String
  own_version code file = (or_else (get code (plants_of file)) no_entry).version

  -- A saved calibration is loaded back for its plant. Any other plant keeps its scales and offsets,
  -- and its version where its own entry names one. Where it has no entry, or one that names none, it
  -- is then reported under the version that was saved for the first plant.
  pub load_calibration-save_calibration :
      (cal : PhysicsCalibration F) (file : Option (CalibrationFile F)) (other : String)
      → cal.plant_code ≢ other
      → (load_calibration cal.plant_code (save_calibration cal file) ≡ cal)
        × (load_calibration other (save_calibration cal file)
            ≡ record (load_calibration other file) {
              version = or_else (own_version other file) cal.version;
            })
  unfolding load_calibration save_calibration get
  load_calibration-save_calibration cal none other h = (
    rw (get-put_same cal.plant_code (entry_of cal) []) refl,
    rw (get-put_other cal.plant_code other (entry_of cal) [] h, get) refl,
  )
  load_calibration-save_calibration cal (some file) other h = (
    rw (get-put_same cal.plant_code (entry_of cal) file.plants) refl,
    rw (get-put_other cal.plant_code other (entry_of cal) file.plants h) refl,
  )
