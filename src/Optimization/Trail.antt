-- ===== src/Optimization/Trail.antt =====
-- What the audit trail of app/optimization promises: the events of a recommendation, read in order,
-- are a run of the status machine, and end in the status of its row.
pub mod Persist
use khalij_intelligent_energ.Base.{
  ℕ, ◌≡◌, refl, ◌≤◌, Option, none, some, List, [], ◌∷◌, ◌++◌, ◌==◌, if◌then◌else◌,
}
use khalij_intelligent_energ.Base.Table.{lookup}
use khalij_intelligent_energ.Optimization.Model.{
  Status, Recommendation, EventType, AuditEvent, World,
}

-- Where the trail has led: no event yet, a status, or a sequence that the workflow does not allow.
pub data Track : Type 0 where
  absent illegal : Track
  at : Status → Track

-- The status machine: what each event does to a status.
abbrev pub follow : Status → EventType → Track
follow Status.pending EventType.accepted = at Status.accepted
follow Status.accepted EventType.accepted = at Status.accepted
follow Status.pending EventType.rejected = at Status.rejected
follow Status.accepted EventType.rejected = at Status.rejected
follow Status.accepted EventType.approved = at Status.approved
follow Status.approved EventType.applied = at Status.applied
follow Status.approved EventType.apply_failed = at Status.failed
follow Status.accepted EventType.impact = at Status.accepted
follow Status.approved EventType.impact = at Status.approved
follow Status.applied EventType.impact = at Status.applied
follow _ _ = illegal

abbrev pub advance : Track → EventType → Track
advance absent EventType.created = at Status.pending
advance absent _ = illegal
advance illegal _ = illegal
advance (at s) event = follow s event

module _ {F : Type 0} where
  -- The trail of one recommendation, from where it stood.
  unfoldable pub replay : ℕ → Track → List (AuditEvent F) → Track
  replay id t [] = t
  replay id t (e ∷ es) =
      replay id (if e.recommendation_id == id then advance t e.event_type else t) es

  abbrev pub track_of : Option (Recommendation F) → Track
  track_of none = absent
  track_of (some rec) = at rec.status

  -- The trail of every recommendation ends in its row's status, and no row has an id that is still
  -- to be given.
  pub record IsTraced (w : World F) : Type 0 where
    pub fresh : (id : ℕ) → w.next_id ≤ id → lookup id w.recs ≡ none
    pub traced : (id : ℕ) → replay id absent w.audit ≡ track_of (lookup id w.recs)

  pub replay_append_all :
      (id : ℕ) (t : Track) (es more : List (AuditEvent F))
      → replay id t (es ++ more) ≡ replay id (replay id t es) more
  unfolding replay
  replay_append_all id t [] more = refl
  replay_append_all id t (x ∷ es) more =
      replay_append_all id (if x.recommendation_id == id then advance t x.event_type else t) es more

  pub replay-append :
      (id : ℕ) (t : Track) (es : List (AuditEvent F)) (e : AuditEvent F)
      → replay id t (es ++ e ∷ []) ≡ (
          if e.recommendation_id == id
          then advance (replay id t es) e.event_type
          else replay id t es)
  unfolding replay
  replay-append id t [] e = refl
  replay-append id t (x ∷ es) e =
      replay-append id (if x.recommendation_id == id then advance t x.event_type else t) es e
