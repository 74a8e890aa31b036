-- ===== src/Carbon/Assurance.antt =====
-- app/carbon/assurance.py: draft → in review → approved → locked. `ensure_e10_schema` only alters
-- tables and is left out.
use khalij_intelligent_energ.Base.{
  ℕ, String, Bool, true, false, Option, none, some, [], ◌∷◌, ◌++◌, or_else,
}
use khalij_intelligent_energ.Base.Result.{Action, ◌>>=◌, ◌>>◌, pure, gets, or_raise, guard, modify}
use khalij_intelligent_energ.Base.Table.{lookup, insert}
use khalij_intelligent_energ.Carbon.Model.{
  AssuranceStatus, CarbonReport, AssuranceEventType, AssuranceEvent, CarbonDb, CarbonError,
  not_found, bad_transition,
}

abbrev pub Call : Type 0 → Type 0 → Type 0
Call F = Action (CarbonDb F) CarbonError

abbrev pub is_draft_or_in_review : AssuranceStatus → Bool
is_draft_or_in_review AssuranceStatus.draft = true
is_draft_or_in_review AssuranceStatus.in_review = true
is_draft_or_in_review _ = false

abbrev pub is_in_review : AssuranceStatus → Bool
is_in_review AssuranceStatus.in_review = true
is_in_review _ = false

abbrev pub is_approved : AssuranceStatus → Bool
is_approved AssuranceStatus.approved = true
is_approved _ = false

abbrev pub is_locked : AssuranceStatus → Bool
is_locked AssuranceStatus.locked = true
is_locked _ = false

abbrev pub new_event : ℕ → AssuranceEventType → String → Option String → ℕ → AssuranceEvent
new_event id event actor comment now = record {
  report_id = id;
  event_type = event;
  actor = actor;
  comment = comment;
  created_at = now;
}

module _ {F : Type 0} where
  -- `report.assurance_status or "draft"`
  abbrev pub status_of : CarbonReport F → AssuranceStatus
  status_of report = or_else report.assurance_status AssuranceStatus.draft

  unfoldable pub append_assurance_event :
      ℕ → AssuranceEventType → String → Option String → ℕ → CarbonDb F → CarbonDb F
  append_assurance_event id event actor comment now db = record db {
    events = db.events ++ new_event id event actor comment now ∷ [];
  }

  -- The join with `plants`: a report whose plant has a row.
  unfoldable pub get_report : CarbonDb F → ℕ → Option (CarbonReport F × String)
  get_report db id = elim (lookup id db.reports) [
    | none ↦ none
    | some report ↦ elim (lookup report.plant_id db.plants) [
      | none ↦ none
      | some code ↦ some (report, code)
    ]
  ]

  unfoldable pub find : ℕ → Call F (CarbonReport F × String)
  find id = do or_raise (← gets (λ db. get_report db id)) (not_found id)

  unfoldable pub save : ℕ → CarbonReport F → CarbonDb F → CarbonDb F
  save id report db = record db { reports = insert id report db.reports }

  unfoldable pub submit_report : ℕ → ℕ → String → Option String → Call F (CarbonReport F)
  unfolding find get_report save append_assurance_event
  submit_report now id actor comment = do
    found ← find id
    let report = found.0
    guard (is_draft_or_in_review (status_of report)) (bad_transition (status_of report))
    let report' : CarbonReport F = record report {
      assurance_status = some AssuranceStatus.in_review;
      submitted_by = some actor;
      submitted_at = some now;
    }
    modify (save id report')
    modify (append_assurance_event id AssuranceEventType.submitted actor comment now)
    pure report'

  unfoldable pub approve_report : ℕ → ℕ → String → Option String → Call F (CarbonReport F)
  unfolding find get_report save append_assurance_event
  approve_report now id actor comment = do
    found ← find id
    let report = found.0
    guard (is_in_review (status_of report)) (bad_transition (status_of report))
    let report' : CarbonReport F = record report {
      assurance_status = some AssuranceStatus.approved;
      approved_by = some actor;
      approved_at = some now;
    }
    modify (save id report')
    modify (append_assurance_event id AssuranceEventType.approved actor comment now)
    pure report'

  unfoldable pub lock_report : ℕ → ℕ → String → Option String → Call F (CarbonReport F)
  unfolding find get_report save append_assurance_event
  lock_report now id actor comment = do
    found ← find id
    let report = found.0
    guard (is_approved (status_of report)) (bad_transition (status_of report))
    let report' : CarbonReport F = record report {
      assurance_status = some AssuranceStatus.locked;
      locked_by = some actor;
      locked_at = some now;
    }
    modify (save id report')
    modify (append_assurance_event id AssuranceEventType.locked actor comment now)
    pure report'
