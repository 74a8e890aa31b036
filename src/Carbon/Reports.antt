-- ===== src/Carbon/Reports.antt =====
-- app/carbon/reports.py: a report of a plant and a period, generated from the sensors' means and
-- stored once for each plant, period start and period type. The SQL aggregate's row and the window
-- that `period_window` gives are arguments, in microseconds; the exported files are left out.
pub mod Keys
pub mod Regenerate
use khalij_intelligent_energ.Base.{
  ℕ, suc, ◌-◌, String, Bool, true, false, ◌&&◌, ◌==◌, Option, none, some, List, [], ◌∷◌, or_else,
  str_eq, if◌then◌else◌, map,
}
use khalij_intelligent_energ.Base.Float.{FloatOps}
use khalij_intelligent_energ.Base.Result.{Action, ◌>>=◌, ◌>>◌, pure, gets, or_raise, modify}
use khalij_intelligent_energ.Base.Table.{Table, Dict, insert}
use khalij_intelligent_energ.Carbon.Model.{
  DetailValue, PeriodType, same_period, AssuranceStatus, CarbonReport, CarbonDb, CarbonError,
  unknown_plant,
}
use khalij_intelligent_energ.Carbon.Scopes.{
  Factors, EmissionFactors, CarbonBreakdown, Scope3Breakdown, factors_for, max_float,
  compute_scopes_from_integrals, compute_scope3,
}
use khalij_intelligent_energ.Carbon.Assurance.{Call, is_locked, status_of, save}

-- The row of the aggregate: the count, and means that are null where no value was.
pub record SensorStats (F : Type 0) : Type 0 where
  pub count : ℕ
  pub avg_fuel_gas_flow_km3h : Option F
  pub avg_steam_flow_tonh : Option F
  pub avg_electricity_power_mw : Option F
  pub avg_feed_flow_tonh : Option F

pub record AggregateTotals (F : Type 0) : Type 0 where
  pub sample_count : ℕ
  pub fuel_gas_km3 : F
  pub steam_ton : F
  pub electricity_mwh : F
  pub product_ton : F
  pub mean_fuel_gas_flow_km3h : F
  pub mean_steam_flow_tonh : F
  pub mean_electricity_power_mw : F
  pub mean_feed_flow_tonh : F

pub record PeriodWindow : Type 0 where
  pub start : ℕ
  pub end : ℕ

pub record GeneratedReport (F : Type 0) : Type 0 where
  pub report_id : ℕ
  pub report : CarbonReport F
  pub breakdown : CarbonBreakdown F
  pub plant_code : String
  pub aggregates : AggregateTotals F
  pub factors_version : String

-- `select(Plant.id).where(Plant.code == plant_code)`
unfoldable pub plant_id_of : String → Table String → Option ℕ
plant_id_of code [] = none
plant_id_of code ((id, name) ∷ plants) =
    if str_eq name code then some id else plant_id_of code plants

module _ {F : Type 0} where
  -- Is this the report of a plant, a period start and a period type?
  abbrev pub is_report_of : ℕ → ℕ → PeriodType → CarbonReport F → Bool
  is_report_of plant_id start period report =
      report.plant_id == plant_id
      && report.period_start == start
      && same_period report.period_type period

  unfoldable pub find_report :
      ℕ → ℕ → PeriodType → Table (CarbonReport F) → Option (ℕ × CarbonReport F)
  find_report plant_id start period [] = none
  find_report plant_id start period ((id, report) ∷ reports) =
      if is_report_of plant_id start period report
      then some (id, report)
      else find_report plant_id start period reports

module _ {F : Type 0} ⦃fl : FloatOps F⦄ where
  open fl use {mul, div, lit}

  unfoldable pub aggregate_sensor_period : PeriodWindow → SensorStats F → Option (AggregateTotals F)
  aggregate_sensor_period window row =
      let zero_or = λ (x : Option F). or_else x (lit 0 0) in
      let hours = max_float (div (lit (window.end - window.start) 6) (lit 3600 0)) (lit 1 9) in
      if row.count == 0
      then none
      else some (record {
        sample_count = row.count;
        fuel_gas_km3 = mul (zero_or row.avg_fuel_gas_flow_km3h) hours;
        steam_ton = mul (zero_or row.avg_steam_flow_tonh) hours;
        electricity_mwh = mul (zero_or row.avg_electricity_power_mw) hours;
        product_ton = mul (zero_or row.avg_feed_flow_tonh) hours;
        mean_fuel_gas_flow_km3h = zero_or row.avg_fuel_gas_flow_km3h;
        mean_steam_flow_tonh = zero_or row.avg_steam_flow_tonh;
        mean_electricity_power_mw = zero_or row.avg_electricity_power_mw;
        mean_feed_flow_tonh = zero_or row.avg_feed_flow_tonh;
      })

module _ {F : Type 0} where
  abbrev pub numbers : Dict F → Dict (DetailValue F)
  numbers entries = map (λ (name, x). (name, DetailValue.number x)) entries

  unfoldable pub scope3_detail_of : Scope3Breakdown F → Dict (DetailValue F)
  scope3_detail_of s3 =
      ("cat3_fuel_upstream_kgco2", DetailValue.number s3.cat3_fuel_upstream_kgco2)
      ∷ ("cat1_purchased_goods_kgco2", DetailValue.number s3.cat1_purchased_goods_kgco2)
      ∷ ("cat5_waste_kgco2", DetailValue.number s3.cat5_waste_kgco2)
      ∷ ("factors_version", DetailValue.text s3.factors_version)
      ∷ numbers s3.detail

  -- The fields that a generated report sets, on a new row and on one that is there.
  unfoldable pub fill :
      PeriodWindow
      → AggregateTotals F
      → CarbonBreakdown F
      → Scope3Breakdown F
      → String
      → CarbonReport F
      → CarbonReport F
  fill window totals breakdown s3 version report = record report {
    period_end = window.end;
    scope1_kgco2 = breakdown.scope1_kgco2;
    scope2_kgco2 = breakdown.scope2_kgco2;
    scope3_kgco2 = some s3.total_kgco2;
    scope3_detail = some (scope3_detail_of s3);
    carbon_intensity_kgco2_ton = some breakdown.carbon_intensity_kgco2_ton;
    product_ton = some breakdown.product_ton;
    sample_count = some totals.sample_count;
    factors_version = some version;
    assurance_status = some (status_of report);
  }

  -- The row before it is filled: a draft that nobody has touched.
  unfoldable pub blank_report : ℕ → ℕ → PeriodWindow → PeriodType → F → CarbonReport F
  blank_report now plant_id window period zero = record {
    plant_id = plant_id;
    period_start = window.start;
    period_end = window.end;
    period_type = period;
    scope1_kgco2 = zero;
    scope2_kgco2 = zero;
    scope3_kgco2 = none;
    scope3_detail = none;
    carbon_intensity_kgco2_ton = none;
    product_ton = none;
    sample_count = none;
    factors_version = none;
    assurance_status = none;
    submitted_by = none;
    submitted_at = none;
    approved_by = none;
    approved_at = none;
    locked_by = none;
    locked_at = none;
    created_at = now;
  }

  unfoldable pub add_report : CarbonReport F → CarbonDb F → CarbonDb F
  add_report report db = record db {
    reports = insert db.next_id report db.reports;
    next_id = suc db.next_id;
  }

  -- From the lookup of an existing row to the commit: a locked row is left alone. The result is the
  -- row's id and the row.
  unfoldable pub store_report :
      (CarbonReport F → CarbonReport F)
      → CarbonReport F
      → Option (ℕ × CarbonReport F)
      → Call F (ℕ × CarbonReport F)
  store_report filled blank (some (id, report)) =
      if is_locked (status_of report)
      then pure (id, report)
      else modify (save id (filled report)) >> pure (id, filled report)
  store_report filled blank none = do
    id ← gets (λ db. db.next_id)
    modify (add_report (filled blank))
    pure (id, filled blank)

  abbrev pub generated_report :
      String
      → AggregateTotals F
      → CarbonBreakdown F
      → String
      → ℕ × CarbonReport F
      → GeneratedReport F
  generated_report code totals breakdown version (id, report) = record {
    report_id = id;
    report = report;
    breakdown = breakdown;
    plant_code = code;
    aggregates = totals;
    factors_version = version;
  }

module _ {F : Type 0} ⦃fl : FloatOps F⦄ where
  open fl use {lit}

  -- The rest of `generate_and_persist_report` once there are samples.
  unfoldable pub persist_generated :
      Factors F
      → ℕ
      → PeriodWindow
      → PeriodType
      → String
      → ℕ
      → AggregateTotals F
      → Call F (GeneratedReport F)
  persist_generated fs now window period code plant_id totals = do
    let b =
        compute_scopes_from_integrals fs totals.fuel_gas_km3 totals.steam_ton totals.electricity_mwh
          totals.product_ton code
    let s3 = compute_scope3 fs code totals.fuel_gas_km3 totals.product_ton
    let ef = factors_for fs code
    existing ← gets (λ db. find_report plant_id window.start period db.reports)
    stored ←
        store_report (fill window totals b s3 ef.version)
          (blank_report now plant_id window period (lit 0 0)) existing
    pure (generated_report code totals b ef.version stored)

  -- Nothing is stored without samples.
  abbrev pub persist_if_sampled :
      Factors F
      → ℕ
      → PeriodWindow
      → PeriodType
      → String
      → ℕ
      → Option (AggregateTotals F)
      → Call F (Option (GeneratedReport F))
  persist_if_sampled fs now window period code plant_id none = pure none
  persist_if_sampled fs now window period code plant_id (some totals) = do
    generated ← persist_generated fs now window period code plant_id totals
    pure (some generated)

  -- A plant without a row raises, in the aggregation already.
  unfoldable pub generate_and_persist_report :
      Factors F
      → ℕ
      → PeriodWindow
      → SensorStats F
      → String
      → PeriodType
      → Call F (Option (GeneratedReport F))
  generate_and_persist_report fs now window row code period = do
    plant_id ← or_raise (← gets (λ db. plant_id_of code db.plants)) (unknown_plant code)
    persist_if_sampled fs now window period code plant_id (aggregate_sensor_period window row)
