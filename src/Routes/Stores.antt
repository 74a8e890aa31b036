-- ===== src/Routes/Stores.antt =====
-- The stores behind the recommendation routes of app/api/routes/optimization.py, and how a route calls
-- them: through its `except` clauses, and behind what it asks of the request.
use khalij_intelligent_energ.Base.{String, Bool, true, false, Option}
use khalij_intelligent_energ.Base.Result.{Result, ok, err, Action, raise}
use khalij_intelligent_energ.Optimization.Model.{
  Status, Decision, World, ActionError, bad_decision, not_open,
}
use khalij_intelligent_energ.Optimization.Store
use khalij_intelligent_energ.Optimization.Store.{
  get_recommendation, persist_recommendations, submit_feedback, record_simulation, is_open,
  is_rejected,
}
use khalij_intelligent_energ.Demo.MemoryRecs
use khalij_intelligent_energ.Demo.MemoryRecs.{
  MemoryRecStore, MemoryAuditEvent, MemoryError, Extra, is_memory_id, persist, put_row, set_status,
  list_audit,
}
use khalij_intelligent_energ.Security.Auth.{Token}
use khalij_intelligent_energ.Security.Deps.{HttpError, CurrentUser}
use khalij_intelligent_energ.Routes.Outputs.{
  RouteError, denied, missing, server_error, bad_request, conflict,
}

-- The database with the plant, and the demo memory.
pub record ApiState (F : Type 0) : Type 0 where
  pub world : World F
  pub memory : MemoryRecStore F

abbrev pub Route : Type 0 → Type 0 → Type 0
Route F = Action (ApiState F) RouteError

-- The `Authorization` header.
abbrev pub Header : Type 0
Header = Option (Option Token)

-- `except KeyError` and `except ValueError`; anything else is answered by 500.
abbrev pub feedback_error : ActionError → RouteError
feedback_error (ActionError.not_found id) = missing
feedback_error (ActionError.bad_decision text) = bad_request (bad_decision text)
feedback_error (ActionError.not_open status) = bad_request (not_open status)
feedback_error _ = server_error

-- `except KeyError` and `except ActionWorkflowError`
abbrev pub workflow_error : ActionError → RouteError
workflow_error (ActionError.not_found id) = missing
workflow_error (ActionError.opc_error) = server_error
workflow_error e = conflict e

abbrev pub is_decision : Decision → Bool
is_decision (Decision.other text) = false
is_decision _ = true

abbrev pub status_of : Decision → Status
status_of Decision.accepted = Status.accepted
status_of Decision.rejected = Status.rejected
status_of (Decision.other text) = Status.pending

abbrev pub decision_text : Decision → String
decision_text Decision.accepted = "accepted"
decision_text Decision.rejected = "rejected"
decision_text (Decision.other text) = text

module _ {F A : Type 0} where
  abbrev pub with_world :
      (ActionError → RouteError)
      → ApiState F
      → Result ActionError A × World F
      → Result RouteError A × ApiState F
  with_world map_error st (ok a, w) = (ok a, record st { world = w })
  with_world map_error st (err e, w) = (err (map_error e), record st { world = w })

  -- A call of the database within its `except` clauses.
  abbrev pub on_database : (ActionError → RouteError) → Store.Call F A → Route F A
  on_database map_error call st = with_world map_error st (call st.world)

  abbrev pub with_memory :
      ApiState F → Result MemoryError A × MemoryRecStore F → Result RouteError A × ApiState F
  with_memory st (ok a, m) = (ok a, record st { memory = m })
  with_memory st (err e, m) = (err server_error, record st { memory = m })

  -- A call of the demo memory, which no `except` clause surrounds.
  abbrev pub on_memory : MemoryRecs.Call F A → Route F A
  on_memory call st = with_memory st (call st.memory)

  abbrev pub permitted : Result HttpError CurrentUser → (CurrentUser → Route F A) → Route F A
  permitted (err e) handler = raise (denied e)
  permitted (ok user) handler = handler user
