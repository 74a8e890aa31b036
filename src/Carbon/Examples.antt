-- ===== src/Carbon/Examples.antt =====
-- A report from draft to the registry on small data, and the theorems at inputs that meet their
-- hypotheses.
use khalij_intelligent_energ.Base.{
  ◌++◌, ℕ, String, true, false, ◌≡◌, refl, Option, none, some, List, [], ◌∷◌, ◌≤◌, All, length,
}
use khalij_intelligent_energ.Base.NatFloat.{nat_float}
use khalij_intelligent_energ.Base.Result.{ok}
use khalij_intelligent_energ.Base.Table.{Table, lookup, insert, get}
use khalij_intelligent_energ.Config.{Settings}
use khalij_intelligent_energ.Config.Examples.{live_settings}
use khalij_intelligent_energ.Carbon.Model.{
  PeriodType, AssuranceStatus, CarbonReport, RegistryItem, SyncStatus, number, text,
}
use khalij_intelligent_energ.Carbon.Scopes.{
  Factors, factors_for, scope3_for, compute_scopes_from_integrals, compute_scope3,
}
use khalij_intelligent_energ.Carbon.Reports.{
  PeriodWindow, SensorStats, AggregateTotals, find_report, plant_id_of, aggregate_sensor_period,
  store_report, add_report, fill, blank_report, scope3_detail_of, persist_generated,
  generate_and_persist_report,
}
use khalij_intelligent_energ.Carbon.Assurance.{
  find, get_report, save, append_assurance_event, submit_report, approve_report, lock_report,
}
use khalij_intelligent_energ.Carbon.Market.{
  HttpResponse, MarketSyncResult, sync_carbon_market, build_registry_payload, select_rows,
  join_plants, insert_desc, order_desc, registry_item, sync_status, add_sync,
}
use khalij_intelligent_energ.Carbon.Market.Batch.{IsLockedItem, sync_row, sync_resends}
use khalij_intelligent_energ.Carbon.Reports.Regenerate.{regenerate_keeps_approval}
use khalij_intelligent_energ.Carbon.Trail.{replay, status_at}
use khalij_intelligent_energ.Carbon.Workflow.Final.{
  assurance_replays_status, one_report_per_period, locked_report_final, synced_reports_final,
}
use khalij_intelligent_energ.Carbon.Workflow.{
  Request, generate, submit, approve, lock, sync, new_db, serve, run,
}

abbrev plants : Table String
plants = (1, "olefin") ∷ (2, "ammonia") ∷ []

abbrev factors : Factors ℕ
factors = record {
  emission = [];
  scope3 = [];
  ef_natural_gas_kgco2_per_m3 = 2;
  ef_steam_kgco2_per_ton = 3;
  ef_electricity_kgco2_per_kwh = 1;
}

-- Two hours, in microseconds.
abbrev window : PeriodWindow
window = record { start = 0; end = 7200000000 }

abbrev means : SensorStats ℕ
means = record {
  count = 4;
  avg_fuel_gas_flow_km3h = some 5;
  avg_steam_flow_tonh = none;
  avg_electricity_power_mw = some 7;
  avg_feed_flow_tonh = some 50;
}

abbrev first : Request ℕ
first = generate factors 10 window means "olefin" PeriodType.daily

abbrev approved_run : List (Request ℕ)
approved_run = first ∷ submit 11 1 "eng" none ∷ approve 12 1 "mgr" none ∷ []

abbrev locked_run : List (Request ℕ)
locked_run = first ∷ submit 11 1 "eng" none ∷ approve 12 1 "mgr" none ∷ lock 13 1 "mgr" none ∷ []

-- The row after the run.
abbrev locked_row : CarbonReport ℕ
locked_row = record {
  plant_id = 1;
  period_start = 0;
  period_end = 7200000000;
  period_type = PeriodType.daily;
  scope1_kgco2 = 20000;
  scope2_kgco2 = 14000;
  scope3_kgco2 = some 1300;
  scope3_detail = some (
      ("cat3_fuel_upstream_kgco2", number 0)
      ∷ ("cat1_purchased_goods_kgco2", number 1200)
      ∷ ("cat5_waste_kgco2", number 100)
      ∷ ("factors_version", text "scope3-default")
      ∷ ("fuel_gas_km3", number 10)
      ∷ ("product_ton", number 100)
      ∷ ("cat3_factor", number 0)
      ∷ ("cat1_factor", number 12)
      ∷ ("cat5_factor", number 1)
      ∷ []);
  carbon_intensity_kgco2_ton = some 340;
  product_ton = some 100;
  sample_count = some 4;
  factors_version = some "settings-fallback";
  assurance_status = some AssuranceStatus.locked;
  submitted_by = some "eng";
  submitted_at = some 11;
  approved_by = some "mgr";
  approved_at = some 12;
  locked_by = some "mgr";
  locked_at = some 13;
  created_at = 10;
}

locked_there : lookup 1 (run locked_run (new_db plants)).reports ≡ some locked_row
unfolding run serve lookup insert get generate_and_persist_report persist_generated plant_id_of
    find_report aggregate_sensor_period store_report add_report fill blank_report scope3_detail_of
    compute_scopes_from_integrals compute_scope3 factors_for scope3_for find get_report save
    append_assurance_event submit_report approve_report lock_report
locked_there = refl

-- The row before it was locked.
abbrev approved_row : CarbonReport ℕ
approved_row = record locked_row {
  assurance_status = some AssuranceStatus.approved;
  locked_by = none;
  locked_at = none;
}

approved_found :
    find_report 1 0 PeriodType.daily (run approved_run (new_db plants)).reports
    ≡ some (1, approved_row)
unfolding run serve lookup insert get generate_and_persist_report persist_generated plant_id_of
    find_report aggregate_sensor_period store_report add_report fill blank_report scope3_detail_of
    compute_scopes_from_integrals compute_scope3 factors_for scope3_for find get_report save
    append_assurance_event submit_report approve_report lock_report
approved_found = refl

plant_found : plant_id_of "olefin" (run approved_run (new_db plants)).plants ≡ some 1
unfolding run serve lookup insert get generate_and_persist_report persist_generated plant_id_of
    find_report aggregate_sensor_period store_report add_report fill blank_report scope3_detail_of
    compute_scopes_from_integrals compute_scope3 factors_for scope3_for find get_report save
    append_assurance_event submit_report approve_report lock_report
plant_found = refl

abbrev registry_settings : Settings ℕ
registry_settings = record live_settings { carbon_market_api_url = "https://registry" }

abbrev answer : List (RegistryItem ℕ) → Option HttpResponse
answer items = some (record { status_code = "200"; body_id = ""; body_reference = "R-7" })

-- What the sync of the locked report sends and returns.
abbrev sent : List (RegistryItem ℕ)
sent =
    record {
      report_id = 1;
      plant_code = "olefin";
      period_type = PeriodType.daily;
      period_start = 0;
      period_end = 7200000000;
      scope1_kgco2 = 20000;
      scope2_kgco2 = 14000;
      scope3_kgco2 = 1300;
      total_kgco2 = 35300;
      carbon_intensity_kgco2_ton = some 340;
      product_ton = some 100;
      factors_version = some "settings-fallback";
      assurance_status = some AssuranceStatus.locked;
    }
    ∷ []

abbrev sync_result : MarketSyncResult
sync_result = record {
  status = SyncStatus.synced;
  synced_at = 20;
  registry = "khalij-carbon-registry";
  reports_synced = 1;
  batch_id = "b1";
  external_ref = some "R-7";
}

locked_synced :
    (sync_carbon_market registry_settings answer true 20 "b1" none false
      (run locked_run (new_db plants))).0
    ≡ ok (sync_result, sent)
unfolding run serve lookup insert get generate_and_persist_report persist_generated plant_id_of
    find_report aggregate_sensor_period store_report add_report fill blank_report scope3_detail_of
    compute_scopes_from_integrals compute_scope3 factors_for scope3_for find get_report save
    append_assurance_event submit_report approve_report lock_report sync_carbon_market
    build_registry_payload select_rows join_plants insert_desc order_desc registry_item sync_status
    add_sync
locked_synced = refl

assurance_replays_status_example :
    replay 1 (some AssuranceStatus.draft) (run locked_run (new_db plants)).events
    ≡ some (status_at (lookup 1 (run locked_run (new_db plants)).reports))
assurance_replays_status_example = assurance_replays_status locked_run plants 1

abbrev first_id : ℕ
first_id = 1

one_report_per_period_example : (first_id ≡ first_id) × (locked_row ≡ locked_row)
one_report_per_period_example =
    one_report_per_period locked_run plants first_id first_id locked_row locked_row locked_there
      locked_there refl refl refl

locked_report_final_example :
    lookup 1 (run (first ∷ submit 14 1 "eng" none ∷ []) (run locked_run (new_db plants))).reports
    ≡ some locked_row
locked_report_final_example =
    locked_report_final locked_run (first ∷ submit 14 1 "eng" none ∷ []) plants 1 locked_row
      locked_there refl

synced_reports_final_example :
    (length sent ≤ 20)
    × All
        (IsLockedItem (
          run
            (sync registry_settings answer true 20 "b1" none false ∷ first ∷ [])
            (run locked_run (new_db plants))))
        sent
synced_reports_final_example =
    synced_reports_final locked_run (first ∷ []) plants registry_settings answer true 20 "b1" none
      sync_result sent refl locked_synced

-- The sensors' means were corrected after the approval.
abbrev corrected : SensorStats ℕ
corrected = record means { avg_fuel_gas_flow_km3h = some 9 }

abbrev corrected_totals : AggregateTotals ℕ
corrected_totals = record {
  sample_count = 4;
  fuel_gas_km3 = 18;
  steam_ton = 0;
  electricity_mwh = 14;
  product_ton = 100;
  mean_fuel_gas_flow_km3h = 9;
  mean_steam_flow_tonh = 0;
  mean_electricity_power_mw = 7;
  mean_feed_flow_tonh = 50;
}

corrected_aggregate : aggregate_sensor_period window corrected ≡ some corrected_totals
unfolding aggregate_sensor_period
corrected_aggregate = refl

regenerate_keeps_approval_example :
    let before = run approved_run (new_db plants) in
    let b = compute_scopes_from_integrals factors 18 0 14 100 "olefin" in
    let s3 = compute_scope3 factors "olefin" 18 100 in
    let done =
      generate_and_persist_report factors 15 window corrected "olefin" PeriodType.daily before in
    (lookup 1 done.1.reports
      ≡ some (record approved_row {
        period_end = window.end;
        scope1_kgco2 = b.scope1_kgco2;
        scope2_kgco2 = b.scope2_kgco2;
        scope3_kgco2 = some s3.total_kgco2;
        scope3_detail = some (scope3_detail_of s3);
        carbon_intensity_kgco2_ton = some b.carbon_intensity_kgco2_ton;
        product_ton = some b.product_ton;
        sample_count = some corrected_totals.sample_count;
        factors_version = some (factors_for factors "olefin").version;
        assurance_status = some AssuranceStatus.approved;
      }))
    × (done.1.events ≡ before.events)
regenerate_keeps_approval_example =
    regenerate_keeps_approval factors 15 window corrected "olefin" PeriodType.daily
      (run approved_run (new_db plants)) 1 1 approved_row corrected_totals plant_found
      corrected_aggregate approved_found refl

abbrev second_result : MarketSyncResult
second_result = record sync_result { batch_id = "b2"; synced_at = 21 }

locked_synced_again :
    (sync_carbon_market registry_settings answer true 21 "b2" none false
      (sync_carbon_market registry_settings answer true 20 "b1" none false
        (run locked_run (new_db plants))).1).0
    ≡ ok (second_result, sent)
unfolding run serve lookup insert get generate_and_persist_report persist_generated plant_id_of
    find_report aggregate_sensor_period store_report add_report fill blank_report scope3_detail_of
    compute_scopes_from_integrals compute_scope3 factors_for scope3_for find get_report save
    append_assurance_event submit_report approve_report lock_report sync_carbon_market
    build_registry_payload select_rows join_plants insert_desc order_desc registry_item sync_status
    add_sync
locked_synced_again = refl

sync_resends_example :
    let db = run locked_run (new_db plants) in
    let once = sync_carbon_market registry_settings answer true 20 "b1" none false db in
    let twice = sync_carbon_market registry_settings answer true 21 "b2" none false once.1 in
    (sent ≡ sent)
    × (sync_result.reports_synced ≡ length sent)
    × (second_result.reports_synced ≡ length sent)
    × (sync_result.batch_id ≡ "b1")
    × (second_result.batch_id ≡ "b2")
    × (twice.1.syncs
        ≡ (db.syncs ++ sync_row none sync_result ∷ []) ++ sync_row none second_result ∷ [])
    × (twice.1.reports ≡ db.reports)
    × (twice.1.events ≡ db.events)
sync_resends_example =
    sync_resends registry_settings answer answer true true 20 21 "b1" "b2" none false
      (run locked_run (new_db plants)) sync_result second_result sent sent locked_synced
      locked_synced_again
