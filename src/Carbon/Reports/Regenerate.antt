-- ===== src/Carbon/Reports/Regenerate.antt =====
-- Generating a report of app/carbon/reports.py that is there already.
use khalij_intelligent_energ.Base.{ℕ, String, false, ◌≡◌, ap, ◌∙◌, some, arith}
use khalij_intelligent_energ.Base.Float.{FloatOps}
use khalij_intelligent_energ.Base.Table.{lookup, lookup-insert}
use khalij_intelligent_energ.Carbon.Model.{PeriodType, CarbonReport, CarbonDb}
use khalij_intelligent_energ.Carbon.Scopes.{
  Factors, factors_for, compute_scopes_from_integrals, compute_scope3,
}
use khalij_intelligent_energ.Carbon.Assurance.{is_locked, status_of, save}
use khalij_intelligent_energ.Carbon.Reports.{
  SensorStats, AggregateTotals, PeriodWindow, plant_id_of, find_report, aggregate_sensor_period,
  scope3_detail_of, fill, store_report, persist_generated, generate_and_persist_report,
}

module _ {F : Type 0} ⦃fl : FloatOps F⦄ where
  open fl use {lit}

  -- A report that is there and not locked is overwritten, whatever its status: the end of its period,
  -- the three scopes with the detail of the third, intensity, product, samples and version of the
  -- factors are the new ones. All else stays, its status and who approved it too, and no event is
  -- recorded.
  pub regenerate_keeps_approval :
      (fs : Factors F) (now : ℕ) (window : PeriodWindow) (row : SensorStats F) (code : String)
      (period : PeriodType) (db : CarbonDb F) (plant_id id : ℕ) (report : CarbonReport F)
      (totals : AggregateTotals F)
      → plant_id_of code db.plants ≡ some plant_id
      → aggregate_sensor_period window row ≡ some totals
      → find_report plant_id window.start period db.reports ≡ some (id, report)
      → is_locked (status_of report) ≡ false
      → let b =
          compute_scopes_from_integrals fs totals.fuel_gas_km3 totals.steam_ton
            totals.electricity_mwh totals.product_ton code in
        let s3 = compute_scope3 fs code totals.fuel_gas_km3 totals.product_ton in
        let done = generate_and_persist_report fs now window row code period db in
        (lookup id done.1.reports
          ≡ some (record report {
            period_end = window.end;
            scope1_kgco2 = b.scope1_kgco2;
            scope2_kgco2 = b.scope2_kgco2;
            scope3_kgco2 = some s3.total_kgco2;
            scope3_detail = some (scope3_detail_of s3);
            carbon_intensity_kgco2_ton = some b.carbon_intensity_kgco2_ton;
            product_ton = some b.product_ton;
            sample_count = some totals.sample_count;
            factors_version = some (factors_for fs code).version;
            assurance_status = some (status_of report);
          }))
        × (done.1.events ≡ db.events)
  unfolding generate_and_persist_report persist_generated store_report save fill
  regenerate_keeps_approval fs now window row code period db plant_id id report totals ep et ef f =
      let b =
        compute_scopes_from_integrals fs totals.fuel_gas_km3 totals.steam_ton totals.electricity_mwh
          totals.product_ton code in
      let s3 = compute_scope3 fs code totals.fuel_gas_km3 totals.product_ton in
      let after = fill window totals b s3 (factors_for fs code).version report in
      let runs : (generate_and_persist_report fs now window row code period db).1
          ≡ save id after db =
        ground arith in
      (
        ap (λ (d : CarbonDb F). lookup id d.reports) runs
            ∙ lookup-insert id id after db.reports
            ∙ ground arith,
        ap (λ (d : CarbonDb F). d.events) runs,
      )
