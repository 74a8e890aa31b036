-- ===== src/Carbon/Steps/Calls.antt =====
-- Every call of app/carbon/assurance.py, reports.py and market.py is a step.
use khalij_intelligent_energ.Base.{
  true, false, ℕ, String, Bool, ◌≡◌, refl, ◌∙◌, ◌⊎◌, inl, inr, Option, none, some, List, arith,
  Bool-cases, Option-cases,
}
use khalij_intelligent_energ.Base.Float.{FloatOps}
use khalij_intelligent_energ.Base.Result.{ok, err, bind_pure-state}
use khalij_intelligent_energ.Base.Table.{lookup}
use khalij_intelligent_energ.Config.{Settings}
use khalij_intelligent_energ.Carbon.Model.{
  PeriodType, AssuranceStatus, CarbonReport, AssuranceEventType, RegistryItem, CarbonDb, not_found,
}
use khalij_intelligent_energ.Carbon.Scopes.{
  Factors, compute_scopes_from_integrals, compute_scope3, factors_for,
}
use khalij_intelligent_energ.Carbon.Assurance.{
  is_draft_or_in_review, is_in_review, is_approved, is_locked, status_of, new_event, find,
  get_report, save, append_assurance_event, submit_report, approve_report, lock_report,
}
use khalij_intelligent_energ.Carbon.Reports.{
  PeriodWindow, SensorStats, find_report, plant_id_of, aggregate_sensor_period, AggregateTotals,
  fill, blank_report, add_report, store_report, persist_generated, generated_report,
  generate_and_persist_report,
}
use khalij_intelligent_energ.Carbon.Reports.Keys.{SameKey, find_report-matches}
use khalij_intelligent_energ.Carbon.Market.{HttpResponse, sync_carbon_market, add_sync}
use khalij_intelligent_energ.Carbon.Trail.{follow}
use khalij_intelligent_energ.Carbon.Steps.{Step, same, assure, refill, create}

module _ {F : Type 0} where
  -- A row saved with a new status, and its event.
  assured-Step :
      (id : ℕ) (report report' : CarbonReport F) (event : AssuranceEventType) (actor : String)
      (comment : Option String) (now : ℕ) (db : CarbonDb F)
      → lookup id db.reports ≡ some report
      → follow (status_of report) event ≡ some (status_of report')
      → SameKey report report'
      → Step db (append_assurance_event id event actor comment now (save id report' db))
  unfolding append_assurance_event save
  assured-Step id report report' event actor comment now db found allowed key =
      assure id report report' (new_event id event actor comment now) found refl allowed key refl
        refl refl refl

  -- A report is found and its row is there, or the call raises and changes nothing.
  find-cases :
      (id : ℕ) (db : CarbonDb F)
      → (find id db ≡ (err (not_found id), db))
        ⊎ ((report : CarbonReport F) × (code : String) × (lookup id db.reports ≡ some report)
            × (find id db ≡ (ok (report, code), db)))
  unfolding find get_report
  find-cases id db = elim (Option-cases (lookup id db.reports)) [
    | inl e ↦ inl (ground arith)
    | inr (report, e) ↦ elim (Option-cases (lookup report.plant_id db.plants)) [
      | inl e' ↦ inl (ground arith)
      | inr (code, e') ↦ inr (report, code, e, ground arith)
    ]
  ]

  pub submit-Step :
      (now id : ℕ) (actor : String) (comment : Option String) (db : CarbonDb F)
      → Step db (submit_report now id actor comment db).1
  unfolding submit_report
  submit-Step now id actor comment db = elim (find-cases id db) [
    | inl e ↦ same (ground arith) (ground arith) (ground arith) (ground arith)
    | inr (report, code, e, ef) ↦ elim (Bool-cases (is_draft_or_in_review (status_of report))) [
      | inr f ↦ same (ground arith) (ground arith) (ground arith) (ground arith)
      | inl t ↦
          let report' : CarbonReport F = record report {
            assurance_status = some AssuranceStatus.in_review;
            submitted_by = some actor;
            submitted_at = some now;
          } in
          let runs : (submit_report now id actor comment db).1
              ≡ append_assurance_event id AssuranceEventType.submitted actor comment now
                  (save id report' db) =
            ground arith in
          rw runs (
            assured-Step id report report' AssuranceEventType.submitted actor comment now db e
              (ground arith) (record { plant = refl; start = refl; period = refl }))
    ]
  ]

  pub approve-Step :
      (now id : ℕ) (actor : String) (comment : Option String) (db : CarbonDb F)
      → Step db (approve_report now id actor comment db).1
  unfolding approve_report
  approve-Step now id actor comment db = elim (find-cases id db) [
    | inl e ↦ same (ground arith) (ground arith) (ground arith) (ground arith)
    | inr (report, code, e, ef) ↦ elim (Bool-cases (is_in_review (status_of report))) [
      | inr f ↦ same (ground arith) (ground arith) (ground arith) (ground arith)
      | inl t ↦
          let report' : CarbonReport F = record report {
            assurance_status = some AssuranceStatus.approved;
            approved_by = some actor;
            approved_at = some now;
          } in
          let runs : (approve_report now id actor comment db).1
              ≡ append_assurance_event id AssuranceEventType.approved actor comment now
                  (save id report' db) =
            ground arith in
          rw runs (
            assured-Step id report report' AssuranceEventType.approved actor comment now db e
              (ground arith) (record { plant = refl; start = refl; period = refl }))
    ]
  ]

  pub lock-Step :
      (now id : ℕ) (actor : String) (comment : Option String) (db : CarbonDb F)
      → Step db (lock_report now id actor comment db).1
  unfolding lock_report
  lock-Step now id actor comment db = elim (find-cases id db) [
    | inl e ↦ same (ground arith) (ground arith) (ground arith) (ground arith)
    | inr (report, code, e, ef) ↦ elim (Bool-cases (is_approved (status_of report))) [
      | inr f ↦ same (ground arith) (ground arith) (ground arith) (ground arith)
      | inl t ↦
          let report' : CarbonReport F = record report {
            assurance_status = some AssuranceStatus.locked;
            locked_by = some actor;
            locked_at = some now;
          } in
          let runs : (lock_report now id actor comment db).1
              ≡ append_assurance_event id AssuranceEventType.locked actor comment now
                  (save id report' db) =
            ground arith in
          rw runs (
            assured-Step id report report' AssuranceEventType.locked actor comment now db e
              (ground arith) (record { plant = refl; start = refl; period = refl }))
    ]
  ]

  -- What storing a report does, where `filled` sets the report's key and keeps its status.
  store-Step :
      (filled : CarbonReport F → CarbonReport F) (blank : CarbonReport F) (plant_id start : ℕ)
      (period : PeriodType) (db : CarbonDb F)
      → ((r : CarbonReport F) → SameKey r (filled r))
      → ((r : CarbonReport F) → status_of (filled r) ≡ status_of r)
      → status_of blank ≡ AssuranceStatus.draft
      → blank.plant_id ≡ plant_id
      → blank.period_start ≡ start
      → blank.period_type ≡ period
      → Step db (store_report filled blank (find_report plant_id start period db.reports) db).1
  unfolding store_report add_report save
  store-Step filled blank plant_id start period db key kept draft p s t =
      elim (Option-cases (find_report plant_id start period db.reports)) [
        | inl e ↦
            let found : find_report (filled blank).plant_id (filled blank).period_start
                  (filled blank).period_type db.reports
                ≡ none =
              ground (arith, key blank) in
            let runs : (store_report filled blank (find_report plant_id start period db.reports)
                  db).1
                ≡ add_report (filled blank) db =
              ground arith in
            rw runs (create (filled blank) found (kept blank ∙ draft) refl refl refl refl)
        | inr ((id, report), e) ↦ elim (Bool-cases (is_locked (status_of report))) [
          | inl t ↦ same (ground arith) (ground arith) (ground arith) (ground arith)
          | inr f ↦
              let (found_plant, found_start, found_period) =
                find_report-matches plant_id start period id report db.reports e in
              let found : find_report (filled report).plant_id (filled report).period_start
                    (filled report).period_type db.reports
                  ≡ some (id, report) =
                ground (arith, key report) in
              let runs : (store_report filled blank (find_report plant_id start period db.reports)
                    db).1
                  ≡ save id (filled report) db =
                ground arith in
              rw runs (refill id report (filled report) found f (kept report) refl refl refl refl)
        ]
      ]

module _ {F : Type 0} ⦃fl : FloatOps F⦄ where
  open fl use {lit}

  persist-Step :
      (fs : Factors F) (now : ℕ) (window : PeriodWindow) (period : PeriodType) (code : String)
      (plant_id : ℕ) (totals : AggregateTotals F) (db : CarbonDb F)
      → Step db (persist_generated fs now window period code plant_id totals db).1
  unfolding persist_generated fill blank_report
  persist-Step fs now window period code plant_id totals db =
      let b =
        compute_scopes_from_integrals fs totals.fuel_gas_km3 totals.steam_ton totals.electricity_mwh
          totals.product_ton code in
      let s3 = compute_scope3 fs code totals.fuel_gas_km3 totals.product_ton in
      let filled = fill window totals b s3 (factors_for fs code).version in
      let blank = blank_report now plant_id window period (lit 0 0) in
      let existing = find_report plant_id window.start period db.reports in
      rw
        (bind_pure-state (store_report filled blank existing)
          (generated_report code totals b (factors_for fs code).version) db)
        (store-Step filled blank plant_id window.start period db
          (λ r. record { plant = refl; start = refl; period = refl }) (λ r. refl) refl refl refl
          refl)

  pub generate-Step :
      (fs : Factors F) (now : ℕ) (window : PeriodWindow) (row : SensorStats F) (code : String)
      (period : PeriodType) (db : CarbonDb F)
      → Step db (generate_and_persist_report fs now window row code period db).1
  unfolding generate_and_persist_report
  generate-Step fs now window row code period db =
      elim (Option-cases (aggregate_sensor_period window row)) [
        | inl e ↦ same (ground arith) (ground arith) (ground arith) (ground arith)
        | inr (totals, e) ↦ elim (Option-cases (plant_id_of code db.plants)) [
          | inl e' ↦ same (ground arith) (ground arith) (ground arith) (ground arith)
          | inr (plant_id, e') ↦
              let runs : (generate_and_persist_report fs now window row code period db).1
                  ≡ (persist_generated fs now window period code plant_id totals db).1 =
                ground arith in
              rw runs (persist-Step fs now window period code plant_id totals db)
        ]
      ]

  pub sync-Step :
      (cfg : Settings F) (post : List (RegistryItem F) → Option HttpResponse) (staged : Bool)
      (now : ℕ) (batch : String) (filter : Option String) (force : Bool) (db : CarbonDb F)
      → Step db (sync_carbon_market cfg post staged now batch filter force db).1
  unfolding sync_carbon_market add_sync
  sync-Step cfg post true now batch filter force db = same refl refl refl refl
  sync-Step cfg post false now batch filter force db = same refl refl refl refl
