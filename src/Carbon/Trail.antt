-- ===== src/Carbon/Trail.antt =====
-- What the assurance events of app/carbon promise: the events of a report, read in order, are a run
-- of draft → in review → approved → locked, and end in the status of its row.
use khalij_intelligent_energ.Base.{
  ℕ, ◌≡◌, refl, Option, none, some, List, [], ◌∷◌, ◌++◌, ◌==◌, if◌then◌else◌,
}
use khalij_intelligent_energ.Carbon.Model.{
  AssuranceStatus, CarbonReport, AssuranceEventType, AssuranceEvent,
}
use khalij_intelligent_energ.Carbon.Assurance.{status_of}

-- The status machine; `none` is a move that it does not allow.
abbrev pub follow : AssuranceStatus → AssuranceEventType → Option AssuranceStatus
follow AssuranceStatus.draft AssuranceEventType.submitted = some AssuranceStatus.in_review
follow AssuranceStatus.in_review AssuranceEventType.submitted = some AssuranceStatus.in_review
follow AssuranceStatus.in_review AssuranceEventType.approved = some AssuranceStatus.approved
follow AssuranceStatus.approved AssuranceEventType.locked = some AssuranceStatus.locked
follow _ _ = none

abbrev pub advance : Option AssuranceStatus → AssuranceEventType → Option AssuranceStatus
advance none event = none
advance (some s) event = follow s event

unfoldable pub replay : ℕ → Option AssuranceStatus → List AssuranceEvent → Option AssuranceStatus
replay id t [] = t
replay id t (e ∷ es) = replay id (if e.report_id == id then advance t e.event_type else t) es

-- A report that is not there yet counts as a draft.
abbrev pub status_at : {F : Type 0} → Option (CarbonReport F) → AssuranceStatus
status_at none = AssuranceStatus.draft
status_at (some report) = status_of report

pub replay-append :
    (id : ℕ) (t : Option AssuranceStatus) (es : List AssuranceEvent) (e : AssuranceEvent)
    → replay id t (es ++ e ∷ [])
      ≡ (if e.report_id == id then advance (replay id t es) e.event_type else replay id t es)
unfolding replay
replay-append id t [] e = refl
replay-append id t (x ∷ es) e =
    replay-append id (if x.report_id == id then advance t x.event_type else t) es e
