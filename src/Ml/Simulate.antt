-- ===== src/Ml/Simulate.antt =====
-- app/ml/serve.py, what-if and storing, app/services/prediction.py and app/optimization/simulate.py:
-- what the model says of other setpoints.
use khalij_intelligent_energ.Base.{ℕ, String, Option, none, some, [], ◌∷◌, or_else}
use khalij_intelligent_energ.Base.Float.{FloatOps}
use khalij_intelligent_energ.Base.Result.{Result, ok, err}
use khalij_intelligent_energ.Base.Table.{Dict, get}
use khalij_intelligent_energ.Carbon.Scopes.{Factors}
use khalij_intelligent_energ.Plant.Physics.{Measured, energy_efficiency}
use khalij_intelligent_energ.Optimization.Model.{
  UnitOperatingState, SetpointAdvice, AdviceSimulation,
}
use khalij_intelligent_energ.Ml.Model.{
  MlSettings, ModelKind, elm_model, lstm_model, Version, MlState,
}
use khalij_intelligent_energ.Ml.Serve.{
  PredictionResult, ServedFrom, ml_model, physics_fallback, ServeError, key_error,
  predict_with_model,
}

-- What `simulate_what_if_ml` returns.
pub record WhatIf (F : Type 0) : Type 0 where
  pub estimated_energy_intensity_kgoe_ton : F
  pub estimated_carbon_emission_kgco2_ton : F
  pub estimated_efficiency_percent : F
  pub model : ModelKind
  pub model_version : Option Version
  pub source : ServedFrom

module _ {F : Type 0} ⦃fl : FloatOps F⦄ where
  open fl use {round_to}

  abbrev pub what_if_of : Result ServeError (PredictionResult F) → Result ServeError (WhatIf F)
  what_if_of (err e) = err e
  what_if_of (ok r) = ok (record {
    estimated_energy_intensity_kgoe_ton = r.predicted_intensity_kgoe_ton;
    estimated_carbon_emission_kgco2_ton = r.predicted_carbon_intensity_kgco2_ton;
    estimated_efficiency_percent = round_to (energy_efficiency r.predicted_intensity_kgoe_ton) 2;
    model = r.model;
    model_version = r.model_version;
    source = r.source;
  })

module _ {F R : Type 0} ⦃fl : FloatOps F⦄ (cfg : MlSettings F) (factors : Factors F) where
  unfoldable pub simulate_what_if_ml :
      MlState F R → ModelKind → String → Measured F → F → Result ServeError (WhatIf F)
  unfolding predict_with_model energy_efficiency
  simulate_what_if_ml st kind code features elapsed =
      what_if_of (predict_with_model cfg factors st kind code features 60 [] elapsed)

module _ {F R : Type 0} where
  abbrev pub row_for : ℕ → PredictionResult F → ℕ → Option ℕ → MlState F R → MlState F R
  row_for now result horizon none st = st
  row_for now result horizon (some plant_id) st = record st {
    predictions =
        record {
          time = now;
          plant_id = plant_id;
          horizon_minutes = horizon;
          predicted_energy_kwh = result.predicted_energy_kwh;
          predicted_carbon_kgco2 = result.predicted_carbon_kgco2;
          model_name = result.model;
          model_version = result.model_version;
          mape = result.mape_estimate;
          created_at = now;
        }
        ∷ st.predictions;
  }

  -- Nothing is stored for a plant that is not in the table.
  unfoldable pub persist_prediction :
      ℕ → String → PredictionResult F → ℕ → MlState F R → MlState F R
  persist_prediction now code result horizon st = row_for now result horizon (get code st.plants) st

abbrev pub kind_text : ModelKind → String
kind_text elm_model = "elm"
kind_text lstm_model = "lstm"

abbrev pub source_text : ServedFrom → String
source_text ml_model = "ml_model"
source_text physics_fallback = "physics_fallback"

module _ {F : Type 0} ⦃fl : FloatOps F⦄ where
  open fl use {sub, lit, round_to}

  abbrev pub by_key :
      Dict F → String → (F → Result ServeError (Measured F)) → Result ServeError (Measured F)
  by_key d key next = elim (get key d) [ none ↦ err (key_error key) | some v ↦ next v ]

  -- The setpoints of an advice, in the order in which they are looked up.
  unfoldable pub proposed_features : UnitOperatingState F → Dict F → Result ServeError (Measured F)
  proposed_features state proposed = by_key proposed "reactor_temp_c" (λ temp.
      by_key proposed "feed_flow_tonh" (λ feed. by_key proposed "fuel_gas_flow_km3h" (λ fuel.
        by_key proposed "steam_flow_tonh" (λ steam. ok (record {
          electricity_power_mw =
              or_else (get "electricity_power_mw" proposed) state.electricity_power_mw;
          fuel_gas_flow_km3h = fuel;
          steam_flow_tonh = steam;
          feed_flow_tonh = feed;
          reactor_temp_c = temp;
        })))))

  abbrev pub simulation_of :
      UnitOperatingState F → Result ServeError (WhatIf F) → Result ServeError (AdviceSimulation F)
  simulation_of state (err e) = err e
  simulation_of state (ok after) =
      let before_carbon = or_else state.carbon_emission_kgco2_ton (lit 0 0) in
      ok (record {
        plant_code = state.plant_code;
        before_intensity = state.energy_intensity_kgoe_ton;
        after_intensity = after.estimated_energy_intensity_kgoe_ton;
        before_efficiency = state.energy_efficiency_percent;
        after_efficiency = after.estimated_efficiency_percent;
        before_carbon_intensity = before_carbon;
        after_carbon_intensity = after.estimated_carbon_emission_kgco2_ton;
        intensity_delta =
            round_to (sub after.estimated_energy_intensity_kgoe_ton state.energy_intensity_kgoe_ton)
              2;
        efficiency_delta_pp =
            round_to (sub after.estimated_efficiency_percent state.energy_efficiency_percent) 2;
        carbon_delta = round_to (sub after.estimated_carbon_emission_kgco2_ton before_carbon) 2;
        model = some (kind_text after.model);
        source = some (source_text after.source);
      })

module _ {F R : Type 0} ⦃fl : FloatOps F⦄ (cfg : MlSettings F) (factors : Factors F) where
  abbrev pub simulated :
      MlState F R
      → UnitOperatingState F
      → ModelKind
      → F
      → Result ServeError (Measured F)
      → Result ServeError (AdviceSimulation F)
  simulated st state kind elapsed (err e) = err e
  simulated st state kind elapsed (ok features) =
      simulation_of state
        (simulate_what_if_ml cfg factors st kind state.plant_code features elapsed)

  unfoldable pub simulate_advice :
      MlState F R
      → UnitOperatingState F
      → SetpointAdvice F
      → ModelKind
      → F
      → Result ServeError (AdviceSimulation F)
  unfolding proposed_features simulate_what_if_ml
  simulate_advice st state advice kind elapsed =
      simulated st state kind elapsed (proposed_features state advice.proposed)
