-- ===== src/Demo/MemoryRecs.antt =====
-- app/demo/memory_recs.py: recommendations in memory. A row has the columns of the database's row;
-- `None` for a missing estimate does not occur. Each call holds the lock from its first read to its
-- last write, so calls are atomic.
pub mod Trail
use khalij_intelligent_energ.Base.{
  ℕ, suc, ◌+◌, String, Bool, true, false, ◌&&◌, Option, none, some, List, [], ◌∷◌, ◌++◌, ◌==◌, leb,
  ltb, keep, take, if◌then◌else◌,
}
use khalij_intelligent_energ.Base.Result.{
  Action, ok, err, ◌>>=◌, ◌>>◌, pure, gets, or_raise, modify,
}
use khalij_intelligent_energ.Base.Table.{Table, Dict, lookup, insert}
use khalij_intelligent_energ.Optimization.Model.{
  SetpointAdvice, AdviceSimulation, Status, ApplyMode, Recommendation,
}
use khalij_intelligent_energ.Optimization.Store.{new_row}

-- The `event_type`: "created", or the status that was set.
pub data MemoryEvent : Type 0 where
  created : MemoryEvent
  set : Status → MemoryEvent

pub record MemoryAuditEvent : Type 0 where
  pub id : ℕ
  pub recommendation_id : ℕ
  pub event_type : MemoryEvent
  pub actor : String

pub record MemoryRecStore (F : Type 0) : Type 0 where
  pub next_id : ℕ
  pub recs : Table (Recommendation F)
  pub audit : List MemoryAuditEvent
  pub audit_id : ℕ

abbrev pub id_base : ℕ
id_base = 900000

unfoldable pub is_memory_id : ℕ → Bool
is_memory_id id = leb id_base id

abbrev pub new_memory : {F : Type 0} → MemoryRecStore F
new_memory = record { next_id = id_base; recs = []; audit = []; audit_id = 1 }

-- A missing id, and a detail that `json.dumps` refuses.
pub data MemoryError : Type 0 where
  key_error : ℕ → MemoryError
  type_error : MemoryError

-- The keywords that the routes pass to `set_status`.
pub data Extra (F : Type 0) : Type 0 where
  resolved_at : Option ℕ → Extra F
  approved_by applied_by : String → Extra F
  approved_at applied_at : ℕ → Extra F
  apply_mode : ApplyMode → Extra F
  realized_saving_kwh_per_h : F → Extra F

abbrev pub Call : Type 0 → Type 0 → Type 0
Call F = Action (MemoryRecStore F) MemoryError

abbrev pub new_memory_event : ℕ → ℕ → MemoryEvent → String → MemoryAuditEvent
new_memory_event audit_id id event actor = record {
  id = audit_id;
  recommendation_id = id;
  event_type = event;
  actor = actor;
}

module _ {F : Type 0} where
  unfoldable pub append_unlocked : ℕ → MemoryEvent → String → MemoryRecStore F → MemoryRecStore F
  append_unlocked id event actor m = record m {
    audit = m.audit ++ new_memory_event m.audit_id id event actor ∷ [];
    audit_id = suc m.audit_id;
  }

  unfoldable pub put_row : ℕ → Recommendation F → MemoryRecStore F → MemoryRecStore F
  put_row id rec m = record m { recs = insert id rec m.recs }

  -- One round of `persist`.
  unfoldable pub persist_one :
      ℕ → Dict (AdviceSimulation F) → SetpointAdvice F → MemoryRecStore F → MemoryRecStore F
  unfolding append_unlocked
  persist_one now simulations advice m =
      append_unlocked m.next_id MemoryEvent.created "system" (record m {
        next_id = suc m.next_id;
        recs = insert m.next_id (new_row now simulations advice) m.recs;
      })

  -- The ids of the new rows, and the store.
  unfoldable pub persist :
      ℕ
      → List (SetpointAdvice F)
      → Dict (AdviceSimulation F)
      → MemoryRecStore F
      → List ℕ × MemoryRecStore F
  persist now [] simulations m = ([], m)
  persist now (advice ∷ items) simulations m =
      let (ids, m') = persist now items simulations (persist_one now simulations advice m) in
      (m.next_id ∷ ids, m')

  -- One keyword of `extra`, set in the row.
  abbrev pub set_extra : Extra F → Recommendation F → Recommendation F
  set_extra (Extra.resolved_at t) rec = record rec { resolved_at = t }
  set_extra (Extra.approved_by user) rec = record rec { approved_by = some user }
  set_extra (Extra.approved_at t) rec = record rec { approved_at = some t }
  set_extra (Extra.apply_mode mode) rec = record rec { apply_mode = some mode }
  set_extra (Extra.applied_by user) rec = record rec { applied_by = some user }
  set_extra (Extra.applied_at t) rec = record rec { applied_at = some t }
  set_extra (Extra.realized_saving_kwh_per_h v) rec = record rec {
    realized_saving_kwh_per_h = some v;
  }

  unfoldable pub set_extras : List (Extra F) → Recommendation F → Recommendation F
  set_extras [] rec = rec
  set_extras (x ∷ extras) rec = set_extras extras (set_extra x rec)

  -- Whether `json.dumps` takes the value: it raises a TypeError for a datetime.
  abbrev pub is_json : Extra F → Bool
  is_json (Extra.resolved_at none) = true
  is_json (Extra.resolved_at (some t)) = false
  is_json (Extra.approved_at t) = false
  is_json (Extra.applied_at t) = false
  is_json _ = true

  unfoldable pub are_json : List (Extra F) → Bool
  are_json [] = true
  are_json (x ∷ extras) = is_json x && are_json extras

  -- `_append_audit_unlocked` with a detail: the event's id is taken before the detail is encoded.
  unfoldable pub append_detail : ℕ → MemoryEvent → String → List (Extra F) → Call F (Unit {0})
  unfolding append_unlocked are_json
  append_detail id event actor extras m =
      if are_json extras
      then (ok tt, append_unlocked id event actor m)
      else (err type_error, record m { audit_id = suc m.audit_id })

  unfoldable pub set_status : ℕ → Status → String → List (Extra F) → Call F (Recommendation F)
  unfolding put_row append_detail set_extras
  set_status id status actor extras = do
    rec ← or_raise (← gets (λ m. lookup id m.recs)) (key_error id)
    let rec' = set_extras extras (record rec { status = status })
    modify (put_row id rec')
    append_detail id (MemoryEvent.set status) actor extras
    pure rec'

  unfoldable pub list_audit : MemoryRecStore F → ℕ → ℕ → List MemoryAuditEvent
  list_audit m id limit =
      take limit (keep (λ (e : MemoryAuditEvent). e.recommendation_id == id) m.audit)
