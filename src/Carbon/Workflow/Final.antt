-- ===== src/Carbon/Workflow/Final.antt =====
-- What assurance promises for the reports of app/carbon and for the registry, over any run of calls.
use khalij_intelligent_energ.Base.{
  Bool, ℕ, String, true, false, ◌≡◌, ◌≤◌, refl, ap, ◌∙◌, Option, some, List, ◌∷◌, arith, All,
  All-map, length,
}
use khalij_intelligent_energ.Base.Float.{FloatOps}
use khalij_intelligent_energ.Base.Result.{ok}
use khalij_intelligent_energ.Base.Table.{Table, lookup, insert, lookup-insert}
use khalij_intelligent_energ.Config.{Settings}
use khalij_intelligent_energ.Carbon.Model.{
  AssuranceStatus, AssuranceEventType, CarbonReport, RegistryItem, CarbonDb,
}
use khalij_intelligent_energ.Carbon.Assurance.{is_locked, status_of}
use khalij_intelligent_energ.Carbon.Reports.Keys.{SameKey-is_report_of, find_report-lookup}
use khalij_intelligent_energ.Carbon.Market.{
  HttpResponse, MarketSyncResult, build_registry_payload, sync_carbon_market,
}
use khalij_intelligent_energ.Carbon.Market.Batch.{
  IsLockedItem, payload-IsLockedItem, length-payload, sync-IsRecorded,
}
use khalij_intelligent_energ.Carbon.Trail.{follow, replay, status_at}
use khalij_intelligent_energ.Carbon.Steps.{Step, same, assure, refill, create}
use khalij_intelligent_energ.Carbon.Workflow.{Request, sync, new_db, run, run_inv}
use khalij_intelligent_energ.Carbon.Workflow.Sound.{IsSound, Step-IsSound, run-IsSound}

follow_editable :
    (s t : AssuranceStatus) (event : AssuranceEventType)
    → follow s event ≡ some t
    → is_locked s ≡ false
follow_editable AssuranceStatus.draft t event h = refl
follow_editable AssuranceStatus.in_review t event h = refl
follow_editable AssuranceStatus.approved t event h = refl
follow_editable AssuranceStatus.locked t AssuranceEventType.submitted h = cc
follow_editable AssuranceStatus.locked t AssuranceEventType.approved h = cc
follow_editable AssuranceStatus.locked t AssuranceEventType.locked h = cc

module _ {F : Type 0} where
  -- The report is there, locked, and the tables are sound.
  record IsKept (id : ℕ) (report : CarbonReport F) (plants : Table String) (db : CarbonDb F)
      : Type 0 where
    sound : IsSound db
    there : lookup id db.reports ≡ some report
    plants_same : db.plants ≡ plants

  -- A row other than a locked one was saved.
  saved_other :
      (id other : ℕ) (report r r' : CarbonReport F) (db : CarbonDb F)
      → lookup id db.reports ≡ some report
      → is_locked (status_of report) ≡ true
      → lookup other db.reports ≡ some r
      → is_locked (status_of r) ≡ false
      → lookup id (insert other r' db.reports) ≡ some report
  saved_other id other report r r' db there locked found editable =
      lookup-insert other id r' db.reports ∙ ground arith

  Step-plants : (db db' : CarbonDb F) → Step db db' → db'.plants ≡ db.plants
  Step-plants db db' (same er en ee ep) = ep
  Step-plants db db' (assure id r r' e found of_id allowed key er en ee ep) = ep
  Step-plants db db' (refill id r r' found editable status er en ee ep) = ep
  Step-plants db db' (create r' absent draft er en ee ep) = ep

  Step-IsKept :
      (id : ℕ) (report : CarbonReport F) (plants : Table String)
      → is_locked (status_of report) ≡ true
      → (db db' : CarbonDb F) → Step db db'
      → IsKept id report plants db
      → IsKept id report plants db'
  Step-IsKept id report plants locked db db' step kept = record {
    sound = Step-IsSound db db' step kept.sound;
    there = elim step [
      | same er en ee ep ↦ rw er kept.there
      | assure other r r' e found of_id allowed key er en ee ep ↦ rw er (
          saved_other id other report r r' db kept.there locked found
            (follow_editable (status_of r) (status_of r') e.event_type allowed))
      | refill other r r' found editable status er en ee ep ↦
          let row =
            find_report-lookup r'.plant_id r'.period_start r'.period_type other r db.reports
              kept.sound.keyed found in
          rw er (saved_other id other report r r' db kept.there locked row editable)
      | create r' absent draft er en ee ep ↦
          rw er (lookup-insert db.next_id id r' db.reports ∙ ground (arith, kept.sound.fresh id))
    ];
    plants_same = Step-plants db db' step ∙ kept.plants_same;
  }

module _ {F : Type 0} ⦃fl : FloatOps F⦄ where
  -- A locked report stays as it is, whatever calls follow.
  locked-IsKept :
      (id : ℕ) (report : CarbonReport F) (rs : List (Request F)) (db : CarbonDb F)
      → IsSound db
      → lookup id db.reports ≡ some report
      → is_locked (status_of report) ≡ true
      → IsKept id report db.plants (run rs db)
  locked-IsKept id report rs db sound there locked =
      run_inv (IsKept id report db.plants) (Step-IsKept id report db.plants locked) rs db
        (record { sound = sound; there = there; plants_same = refl })

  IsLockedItem-run :
      (rs : List (Request F)) (db : CarbonDb F)
      → IsSound db
      → (item : RegistryItem F) → IsLockedItem db item
      → IsLockedItem (run rs db) item
  IsLockedItem-run rs db sound item (report, code, found, plant, locked, eq) =
      let kept = locked-IsKept item.report_id report rs db sound found (ground arith) in
      (report, code, kept.there, ap (lookup report.plant_id) kept.plants_same ∙ plant, locked, eq)

  -- At any time, from a database without reports: the assurance events of every id, replayed from
  -- draft, follow the order submit, approve, lock, and end in the status that its row has; an id
  -- without a row has no move.
  pub assurance_replays_status :
      (rs : List (Request F)) (plants : Table String) (id : ℕ)
      → replay id (some AssuranceStatus.draft) (run rs (new_db plants)).events
        ≡ some (status_at (lookup id (run rs (new_db plants)).reports))
  assurance_replays_status rs plants id = (run-IsSound rs plants).traced id

  -- At any time, from a database without reports: two rows for the same plant, period start and
  -- period type are the same row.
  pub one_report_per_period :
      (rs : List (Request F)) (plants : Table String) (i j : ℕ) (a b : CarbonReport F)
      → lookup i (run rs (new_db plants)).reports ≡ some a
      → lookup j (run rs (new_db plants)).reports ≡ some b
      → b.plant_id ≡ a.plant_id
      → b.period_start ≡ a.period_start
      → b.period_type ≡ a.period_type
      → (i ≡ j) × (a ≡ b)
  one_report_per_period rs plants i j a b ha hb plant start period =
      let i_is_j =
        (run-IsSound rs plants).single i j a b ha hb
          (SameKey-is_report_of a b (record { plant = plant; start = start; period = period })) in
      (i_is_j, ground arith)

  -- Once a report is locked, its whole row stays as it is under every further sequence of calls:
  -- generating it again, submitting, approving, locking or syncing.
  pub locked_report_final :
      (rs later : List (Request F)) (plants : Table String) (id : ℕ) (report : CarbonReport F)
      → lookup id (run rs (new_db plants)).reports ≡ some report
      → is_locked (status_of report) ≡ true
      → lookup id (run later (run rs (new_db plants))).reports ≡ some report
  locked_report_final rs later plants id report there locked =
      (locked-IsKept id report later (run rs (new_db plants)) (run-IsSound rs plants) there
        locked).there

  -- Where the settings require locked reports and the sync is not forced, a batch has at most 20
  -- items, each the registry item of a locked report and its plant's code; and after the sync and
  -- any further calls, the rows in the tables are still those that were sent.
  pub synced_reports_final :
      (rs later : List (Request F)) (plants : Table String) (cfg : Settings F)
      (post : List (RegistryItem F) → Option HttpResponse) (staged : Bool) (now : ℕ)
      (batch : String) (filter : Option String) (result : MarketSyncResult)
      (payload : List (RegistryItem F))
      → cfg.carbon_market_require_locked ≡ true
      → (sync_carbon_market cfg post staged now batch filter false (run rs (new_db plants))).0
        ≡ ok (result, payload)
      → (length payload ≤ 20)
        × All
            (IsLockedItem
              (run (sync cfg post staged now batch filter false ∷ later) (run rs (new_db plants))))
            payload
  synced_reports_final rs later plants cfg post staged now batch filter result payload required
        runs =
      let db = run rs (new_db plants) in
      let sound = run-IsSound rs plants in
      let sent = sync-IsRecorded cfg post staged now batch filter false db result payload runs in
      let same_payload : payload ≡ build_registry_payload db filter 20 true =
        rw (sent.is_payload, required) refl in
      rw same_payload (
        length-payload db filter 20 true,
        All-map (IsLockedItem-run (sync cfg post staged now batch filter false ∷ later) db sound) _
            (payload-IsLockedItem db filter 20 sound.keyed),
      )
