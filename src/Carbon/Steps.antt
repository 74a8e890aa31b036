-- ===== src/Carbon/Steps.antt =====
-- What one call of app/carbon may do to the tables: keep the reports, move one along the assurance
-- workflow, fill one again, or add one. That every call is such a step is proved in Calls.
pub mod Calls
use khalij_intelligent_energ.Base.{
  ℕ, suc, String, Bool, true, false, ◌≡◌, refl, ◌⊎◌, inl, inr, Option, none, some, List, [], ◌∷◌,
  ◌++◌, arith, Bool-cases, Option-cases,
}
use khalij_intelligent_energ.Base.Float.{FloatOps}
use khalij_intelligent_energ.Base.Table.{lookup, insert}
use khalij_intelligent_energ.Config.{Settings}
use khalij_intelligent_energ.Carbon.Model.{
  PeriodType, AssuranceStatus, CarbonReport, AssuranceEvent, AssuranceEventType, RegistryItem,
  CarbonDb,
}
use khalij_intelligent_energ.Carbon.Scopes.{Factors}
use khalij_intelligent_energ.Carbon.Assurance.{
  is_draft_or_in_review, is_in_review, is_approved, is_locked, status_of, new_event, find,
  get_report, save, append_assurance_event, submit_report, approve_report, lock_report,
}
use khalij_intelligent_energ.Carbon.Reports.{
  PeriodWindow, SensorStats, find_report, plant_id_of, aggregate_sensor_period, AggregateTotals,
  fill, blank_report, add_report, store_report, persist_generated, generate_and_persist_report,
}
use khalij_intelligent_energ.Carbon.Reports.Keys.{SameKey}
use khalij_intelligent_energ.Carbon.Market.{HttpResponse, sync_carbon_market, add_sync}
use khalij_intelligent_energ.Carbon.Trail.{follow}

module _ {F : Type 0} where
  pub data Step (db db' : CarbonDb F) : Type 0 where
    same :
        db'.reports ≡ db.reports
        → db'.next_id ≡ db.next_id
        → db'.events ≡ db.events
        → db'.plants ≡ db.plants
        → Step db db'
    assure :
        (id : ℕ) (report report' : CarbonReport F) (e : AssuranceEvent)
        → lookup id db.reports ≡ some report
        → e.report_id ≡ id
        → follow (status_of report) e.event_type ≡ some (status_of report')
        → SameKey report report'
        → db'.reports ≡ insert id report' db.reports
        → db'.next_id ≡ db.next_id
        → db'.events ≡ db.events ++ e ∷ []
        → db'.plants ≡ db.plants
        → Step db db'
    refill :
        (id : ℕ) (report report' : CarbonReport F)
        → find_report report'.plant_id report'.period_start report'.period_type db.reports
          ≡ some (id, report)
        → is_locked (status_of report) ≡ false
        → status_of report' ≡ status_of report
        → db'.reports ≡ insert id report' db.reports
        → db'.next_id ≡ db.next_id
        → db'.events ≡ db.events
        → db'.plants ≡ db.plants
        → Step db db'
    create :
        (report' : CarbonReport F)
        → find_report report'.plant_id report'.period_start report'.period_type db.reports ≡ none
        → status_of report' ≡ AssuranceStatus.draft
        → db'.reports ≡ insert db.next_id report' db.reports
        → db'.next_id ≡ suc db.next_id
        → db'.events ≡ db.events
        → db'.plants ≡ db.plants
        → Step db db'
