-- ===== src/Carbon/Scopes.antt =====
-- app/services/carbon.py, app/carbon/factors.py and app/carbon/scope3.py: emissions from flows. The
-- YAML files of factors are arguments.
use khalij_intelligent_energ.Base.{String, [], ◌∷◌, or_else, if◌then◌else◌}
use khalij_intelligent_energ.Base.Float.{FloatOps}
use khalij_intelligent_energ.Base.Table.{Dict, get}

pub record EmissionFactors (F : Type 0) : Type 0 where
  pub plant_code : String
  pub natural_gas_kgco2_per_m3 : F
  pub steam_kgco2_per_ton : F
  pub electricity_kgco2_per_kwh : F
  pub version : String
  pub source : String
  pub notes : String

pub record Scope3Factors (F : Type 0) : Type 0 where
  pub plant_code : String
  pub cat3_fuel_upstream_kgco2_per_m3 : F
  pub cat1_purchased_goods_kgco2_per_ton : F
  pub cat5_waste_kgco2_per_ton : F
  pub version : String
  pub source : String
  pub notes : String

pub record CarbonBreakdown (F : Type 0) : Type 0 where
  pub scope1_kgco2 : F
  pub scope2_kgco2 : F
  pub carbon_intensity_kgco2_ton : F
  pub product_ton : F
  pub factors_version : String
  pub plant_code : String

pub record Scope3Breakdown (F : Type 0) : Type 0 where
  pub cat3_fuel_upstream_kgco2 : F
  pub cat1_purchased_goods_kgco2 : F
  pub cat5_waste_kgco2 : F
  pub total_kgco2 : F
  pub factors_version : String
  pub detail : Dict F

-- The factors files, and the three factors of the settings that stand in for a missing plant.
pub record Factors (F : Type 0) : Type 0 where
  pub emission : Dict (EmissionFactors F)
  pub scope3 : Dict (Scope3Factors F)
  pub ef_natural_gas_kgco2_per_m3 : F
  pub ef_steam_kgco2_per_ton : F
  pub ef_electricity_kgco2_per_kwh : F

module _ {F : Type 0} where
  unfoldable pub factors_for : Factors F → String → EmissionFactors F
  factors_for fs code = or_else (get code fs.emission) (record {
    plant_code = code;
    natural_gas_kgco2_per_m3 = fs.ef_natural_gas_kgco2_per_m3;
    steam_kgco2_per_ton = fs.ef_steam_kgco2_per_ton;
    electricity_kgco2_per_kwh = fs.ef_electricity_kgco2_per_kwh;
    version = "settings-fallback";
    source = "app settings";
    notes = "";
  })

module _ {F : Type 0} ⦃fl : FloatOps F⦄ where
  open fl use {lt, add, mul, div, lit, round_to}

  unfoldable pub scope3_for : Factors F → String → Scope3Factors F
  scope3_for fs code = or_else (get code fs.scope3) (record {
    plant_code = code;
    cat3_fuel_upstream_kgco2_per_m3 = lit 35 2;
    cat1_purchased_goods_kgco2_per_ton = lit 12 0;
    cat5_waste_kgco2_per_ton = lit 15 1;
    version = "scope3-default";
    source = "built-in";
    notes = "";
  })

  -- `max(a, b)`: the first unless the second is greater
  abbrev pub max_float : F → F → F
  max_float a b = if lt a b then b else a

  abbrev pub total_kgco2 : CarbonBreakdown F → F
  total_kgco2 b = add b.scope1_kgco2 b.scope2_kgco2

  -- From mean hourly rates, for a plant whose code is not empty.
  unfoldable pub compute_scopes : Factors F → F → F → F → F → F → String → CarbonBreakdown F
  unfolding factors_for
  compute_scopes fs fuel_gas_flow steam_flow power feed_flow duration_hours code =
      let ef = factors_for fs code in
      let fuel_m3 = mul (mul fuel_gas_flow (lit 1000 0)) duration_hours in
      let steam_ton = mul steam_flow duration_hours in
      let electricity_kwh = mul (mul power (lit 1000 0)) duration_hours in
      let product = max_float (mul feed_flow duration_hours) (lit 1 6) in
      let scope1 =
        add (mul fuel_m3 ef.natural_gas_kgco2_per_m3) (mul steam_ton ef.steam_kgco2_per_ton) in
      let scope2 = mul electricity_kwh ef.electricity_kgco2_per_kwh in
      record {
        scope1_kgco2 = round_to scope1 2;
        scope2_kgco2 = round_to scope2 2;
        carbon_intensity_kgco2_ton = round_to (div (add scope1 scope2) product) 2;
        product_ton = round_to product 3;
        factors_version = ef.version;
        plant_code = code;
      }

  unfoldable pub compute_scopes_from_integrals :
      Factors F → F → F → F → F → String → CarbonBreakdown F
  unfolding factors_for
  compute_scopes_from_integrals fs fuel_gas_km3 steam_ton electricity_mwh product_ton code =
      let ef = factors_for fs code in
      let fuel_m3 = mul fuel_gas_km3 (lit 1000 0) in
      let electricity_kwh = mul electricity_mwh (lit 1000 0) in
      let product = max_float product_ton (lit 1 6) in
      let scope1 =
        add (mul fuel_m3 ef.natural_gas_kgco2_per_m3) (mul steam_ton ef.steam_kgco2_per_ton) in
      let scope2 = mul electricity_kwh ef.electricity_kgco2_per_kwh in
      record {
        scope1_kgco2 = round_to scope1 2;
        scope2_kgco2 = round_to scope2 2;
        carbon_intensity_kgco2_ton = round_to (div (add scope1 scope2) product) 2;
        product_ton = round_to product 3;
        factors_version = ef.version;
        plant_code = code;
      }

  unfoldable pub compute_scope3 : Factors F → String → F → F → Scope3Breakdown F
  unfolding scope3_for
  compute_scope3 fs code fuel_gas_km3 product_ton =
      let f = scope3_for fs code in
      let cat3 = mul (mul fuel_gas_km3 (lit 1000 0)) f.cat3_fuel_upstream_kgco2_per_m3 in
      let cat1 = mul product_ton f.cat1_purchased_goods_kgco2_per_ton in
      let cat5 = mul product_ton f.cat5_waste_kgco2_per_ton in
      record {
        cat3_fuel_upstream_kgco2 = round_to cat3 2;
        cat1_purchased_goods_kgco2 = round_to cat1 2;
        cat5_waste_kgco2 = round_to cat5 2;
        total_kgco2 = round_to (add (add cat3 cat1) cat5) 2;
        factors_version = f.version;
        detail =
            ("fuel_gas_km3", fuel_gas_km3)
            ∷ ("product_ton", product_ton)
            ∷ ("cat3_factor", f.cat3_fuel_upstream_kgco2_per_m3)
            ∷ ("cat1_factor", f.cat1_purchased_goods_kgco2_per_ton)
            ∷ ("cat5_factor", f.cat5_waste_kgco2_per_ton)
            ∷ [];
      }
