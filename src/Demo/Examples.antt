-- ===== src/Demo/Examples.antt =====
-- Calls of the stores of app/demo on small data, and their theorems on them.
use khalij_intelligent_energ.Base.{ℕ, ◌≡◌, refl, none, some, List, [], ◌∷◌}
use khalij_intelligent_energ.Base.Table.{lookup, insert}
use khalij_intelligent_energ.Optimization.Model.{SetpointAdvice, Priority, Status}
use khalij_intelligent_energ.Optimization.Store.{new_row}
use khalij_intelligent_energ.Base.Result.{ok}
use khalij_intelligent_energ.Carbon.Model.{PeriodType}
use khalij_intelligent_energ.Demo.MemoryReports.{
  MemoryStatus, MemoryCarbonReport, MemoryReportStore, find_existing, upsert, submit_assurance,
}
use khalij_intelligent_energ.Demo.MemoryReports.Lock.{submission_lifts_lock}
use khalij_intelligent_energ.Demo.MemoryRecs.{
  Extra, set_extras, append_detail, are_json, new_memory, persist, persist_one, append_unlocked,
  put_row, set_status,
}
use khalij_intelligent_energ.Demo.MemoryRecs.Trail.{Request, advise, set_to, serve, run, row_status}

abbrev stored_report : MemoryCarbonReport ℕ
stored_report = record {
  plant_code = "olefin";
  period_type = PeriodType.daily;
  period_start = 1440;
  period_end = 2880;
  scope1_kgco2 = 500;
  scope2_kgco2 = 200;
  scope3_kgco2 = 100;
  carbon_intensity_kgco2_ton = 8;
  product_ton = 100;
  sample_count = 24;
  factors_version = "v1";
  assurance_status = MemoryStatus.locked;
  submitted_by = some "op";
  approved_by = some "chief";
  locked_by = some "admin";
  scope3_detail_json = none;
  created_at = 2900;
}

abbrev generated_report : MemoryCarbonReport ℕ
generated_report = record stored_report {
  scope1_kgco2 = 450;
  assurance_status = MemoryStatus.draft;
}

abbrev report_store : MemoryReportStore ℕ
report_store = record { next_id = 800001; reports = (800000, stored_report) ∷ [] }

abbrev advice : SetpointAdvice ℕ
advice = record {
  plant_code = "olefin";
  priority = Priority.high;
  title = "Align";
  rationale = "";
  current = [];
  proposed = ("feed_flow_tonh", 110) ∷ [];
  deltas = [];
  estimated_sec_reduction_pct = 4;
  estimated_energy_saving_kwh_per_h = 120;
  estimated_efficiency_gain_pp = 2;
  benchmark_plant = none;
  tags = [];
}

abbrev calls : List (Request ℕ)
calls =
    advise 100 (advice ∷ []) []
    ∷ set_to 900000 Status.accepted "op" (Extra.resolved_at none ∷ [])
    ∷ []

accepted_row : row_status (lookup 900000 (run calls new_memory).recs) ≡ some Status.accepted
unfolding run serve set_extras append_detail are_json persist persist_one append_unlocked put_row
    set_status lookup insert new_row
accepted_row = refl

submission_lifts_lock_example :
    let opened : MemoryCarbonReport ℕ = record stored_report {
      assurance_status = MemoryStatus.submitted;
      submitted_by = some "op";
    } in
    (upsert generated_report report_store ≡ ((800000, stored_report), report_store))
    × ((submit_assurance 800000 "op" report_store).0 ≡ ok opened)
    × (lookup 800000 (submit_assurance 800000 "op" report_store).1.reports ≡ some opened)
    × (lookup 800000
          (upsert generated_report (submit_assurance 800000 "op" report_store).1).1.reports
        ≡ some (record opened {
          period_end = generated_report.period_end;
          scope1_kgco2 = generated_report.scope1_kgco2;
          scope2_kgco2 = generated_report.scope2_kgco2;
          scope3_kgco2 = generated_report.scope3_kgco2;
          carbon_intensity_kgco2_ton = generated_report.carbon_intensity_kgco2_ton;
          product_ton = generated_report.product_ton;
          sample_count = generated_report.sample_count;
          factors_version = generated_report.factors_version;
        }))
unfolding find_existing lookup
submission_lifts_lock_example =
    submission_lifts_lock generated_report stored_report 800000 "op" report_store refl refl refl
