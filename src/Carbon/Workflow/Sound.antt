-- ===== src/Carbon/Workflow/Sound.antt =====
-- What holds of the tables of app/carbon at all times: ids differ and are given once, the events of
-- a report end in its status, and no two reports are of the same plant and period.
use khalij_intelligent_energ.Base.{
  ℕ, String, ◌≡◌, ◌≤◌, ◌<◌, refl, ap, ◌∙◌, sym, inl, inr, none, some, List, [], ◌∷◌, ◌++◌, ◌==◌,
  arith, Bool-cases,
}
use khalij_intelligent_energ.Base.Float.{FloatOps}
use khalij_intelligent_energ.Base.Table.{Table, lookup, insert, lookup-insert}
use khalij_intelligent_energ.Carbon.Model.{AssuranceStatus, CarbonReport, AssuranceEvent, CarbonDb}
use khalij_intelligent_energ.Carbon.Assurance.{status_of}
use khalij_intelligent_energ.Carbon.Reports.Keys.{
  SameKey, HasUniqueIds, insert-HasUniqueIds, find_report-lookup, find_report-matches, HasOnePerKey,
  insert_known-HasOnePerKey, insert_new-HasOnePerKey,
}
use khalij_intelligent_energ.Carbon.Trail.{follow, replay, replay-append, status_at}
use khalij_intelligent_energ.Carbon.Steps.{Step, same, assure, refill, create}
use khalij_intelligent_energ.Carbon.Workflow.{Request, new_db, run, run_inv}

module _ {F : Type 0} where
  pub record IsSound (db : CarbonDb F) : Type 0 where
    pub keyed : HasUniqueIds db.reports
    pub fresh : (id : ℕ) → db.next_id ≤ id → lookup id db.reports ≡ none
    pub traced :
        (id : ℕ)
        → replay id (some AssuranceStatus.draft) db.events ≡ some (status_at (lookup id db.reports))
    pub single : HasOnePerKey db.reports

  pub new_db-IsSound : (plants : Table String) → IsSound (new_db plants)
  unfolding lookup replay HasUniqueIds
  new_db-IsSound plants = record {
    keyed = tt;
    fresh = λ id h. refl;
    traced = λ id. refl;
    single = λ i j a b ha hb h. cc;
  }

  -- A row saved without an event has the status that was there, a draft for a new one.
  saved-traced :
      (id : ℕ) (report' : CarbonReport F) (db db' : CarbonDb F)
      → IsSound db
      → status_of report' ≡ status_at (lookup id db.reports)
      → db'.reports ≡ insert id report' db.reports
      → db'.events ≡ db.events
      → (j : ℕ)
      → replay j (some AssuranceStatus.draft) db'.events ≡ some (status_at (lookup j db'.reports))
  saved-traced id report' db db' sound kept er ee j =
      rw (ee, er, lookup-insert id j report' db.reports, sound.traced j)
        (ap some (elim (Bool-cases (id == j)) [ inl t ↦ ground arith | inr f ↦ ground arith ]))

  saved-fresh :
      (id : ℕ) (report' : CarbonReport F) (db db' : CarbonDb F)
      → IsSound db
      → db'.reports ≡ insert id report' db.reports
      → db.next_id ≤ db'.next_id
      → id < db'.next_id
      → (j : ℕ) → db'.next_id ≤ j
      → lookup j db'.reports ≡ none
  saved-fresh id report' db db' sound er bound below j h =
      rw (er, lookup-insert id j report' db.reports) (ground (arith, sound.fresh j))

  assured-traced :
      (id : ℕ) (report report' : CarbonReport F) (e : AssuranceEvent) (db db' : CarbonDb F)
      → IsSound db
      → lookup id db.reports ≡ some report
      → e.report_id ≡ id
      → follow (status_of report) e.event_type ≡ some (status_of report')
      → db'.reports ≡ insert id report' db.reports
      → db'.events ≡ db.events ++ e ∷ []
      → (j : ℕ)
      → replay j (some AssuranceStatus.draft) db'.events ≡ some (status_at (lookup j db'.reports))
  assured-traced id report report' e db db' sound found of_id allowed er ee j =
      rw
        (
          ee,
          er,
          lookup-insert id j report' db.reports,
          replay-append j (some AssuranceStatus.draft) db.events e,
          sound.traced j,
        )
        (elim (Bool-cases (id == j)) [ inl t ↦ ground arith | inr f ↦ ground arith ])

  -- A row that is there has an id below the next.
  known_below :
      (id : ℕ) (report : CarbonReport F) (db : CarbonDb F)
      → IsSound db
      → lookup id db.reports ≡ some report
      → id < db.next_id
  known_below id report db sound found = ground (arith, sound.fresh id)

  pub Step-IsSound : (db db' : CarbonDb F) → Step db db' → IsSound db → IsSound db'
  Step-IsSound db db' (same er en ee ep) sound = record {
    keyed = rw er sound.keyed;
    fresh = λ id h. ap (lookup id) er ∙ sound.fresh id (ground arith);
    traced = λ id. rw (er, ee) (sound.traced id);
    single = rw er sound.single;
  }
  Step-IsSound db db' (assure id report report' e found of_id allowed key er en ee ep) sound =
      record {
        keyed = rw er (insert-HasUniqueIds id report' db.reports sound.keyed);
        fresh =
            let below = known_below id report db sound found in
            saved-fresh id report' db db' sound er (ground arith) (ground arith);
        traced = assured-traced id report report' e db db' sound found of_id allowed er ee;
        single =
            rw er (insert_known-HasOnePerKey id report report' db.reports found key sound.single);
      }
  Step-IsSound db db' (refill id report report' found editable kept er en ee ep) sound =
      let there =
        find_report-lookup report'.plant_id report'.period_start report'.period_type id report
          db.reports sound.keyed found in
      let (plant, start, period) =
        find_report-matches report'.plant_id report'.period_start report'.period_type id report
          db.reports found in
      let key : SameKey report report' = record {
        plant = sym plant;
        start = sym start;
        period = sym period;
      } in
      let below = known_below id report db sound there in
      record {
        keyed = rw er (insert-HasUniqueIds id report' db.reports sound.keyed);
        fresh = saved-fresh id report' db db' sound er (ground arith) (ground arith);
        traced = saved-traced id report' db db' sound (ground arith) er ee;
        single =
            rw er (insert_known-HasOnePerKey id report report' db.reports there key sound.single);
      }
  Step-IsSound db db' (create report' absent draft er en ee ep) sound =
      let fresh = sound.fresh db.next_id (ground arith) in
      record {
        keyed = rw er (insert-HasUniqueIds db.next_id report' db.reports sound.keyed);
        fresh = saved-fresh db.next_id report' db db' sound er (ground arith) (ground arith);
        traced = saved-traced db.next_id report' db db' sound (ground arith) er ee;
        single = rw er (insert_new-HasOnePerKey db.next_id report' db.reports absent sound.single);
      }

module _ {F : Type 0} ⦃fl : FloatOps F⦄ where
  pub run-IsSound :
      (rs : List (Request F)) (plants : Table String) → IsSound (run rs (new_db plants))
  run-IsSound rs plants = run_inv IsSound Step-IsSound rs (new_db plants) (new_db-IsSound plants)
