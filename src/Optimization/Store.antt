-- ===== src/Optimization/Store.antt =====
-- app/optimization/store.py: recommendations, feedback and the audit trail. `ensure_e9_schema` only
-- alters tables and is left out. A session's changes are applied at its `commit`.
use khalij_intelligent_energ.Base.{
  ℕ, String, Bool, true, false, suc, Option, none, some, List, [], ◌∷◌, ◌++◌, ◌==◌, ◌&&◌, ◌||◌,
  take, keep, str_eq, is_empty, or_else, if◌then◌else◌,
}
use khalij_intelligent_energ.Base.Lists.{newest_first}
use khalij_intelligent_energ.Base.Result.{
  Action, ◌>>=◌, ◌>>◌, pure, raise, gets, or_raise, guard, modify,
}
use khalij_intelligent_energ.Base.Table.{Table, Dict, lookup, insert, get}
use khalij_intelligent_energ.Optimization.Model.{
  SetpointAdvice, AdviceSimulation, Status, Recommendation, EventType, AuditDetail, AuditEvent,
  Decision, Feedback, World, ActionError, not_found, bad_decision, not_open,
}

abbrev pub Call : Type 0 → Type 0 → Type 0
Call F = Action (World F) ActionError

-- How a call of `persist_recommendations` goes: it raises before the rows are committed, it raises once
-- they and so many of their events are, or it returns.
pub data Storing : Type 0 where
  refuses : Storing
  breaks_after : ℕ → Storing
  takes : Storing

module _ {F : Type 0} where
  unfoldable pub get_recommendation : ℕ → World F → Option (Recommendation F)
  get_recommendation id w = lookup id w.recs

  abbrev pub new_event : ℕ → EventType → String → AuditDetail F → ℕ → AuditEvent F
  new_event id event actor detail now = record {
    recommendation_id = id;
    event_type = event;
    actor = actor;
    detail = detail;
    created_at = now;
  }

  -- `append_audit` up to the commit that ends it or follows it
  unfoldable pub append_audit : ℕ → EventType → String → AuditDetail F → ℕ → World F → World F
  append_audit id event actor detail now w = record w {
    audit = w.audit ++ new_event id event actor detail now ∷ [];
  }

  -- The row of a loaded recommendation after its fields were set.
  unfoldable pub save : ℕ → Recommendation F → World F → World F
  save id rec w = record w { recs = insert id rec w.recs }

  -- The row that `persist_recommendations` adds for one item of advice.
  unfoldable pub new_row : ℕ → Dict (AdviceSimulation F) → SetpointAdvice F → Recommendation F
  new_row now simulations advice = record {
    plant_code = advice.plant_code;
    priority = advice.priority;
    title = advice.title;
    rationale = advice.rationale;
    current = advice.current;
    proposed = advice.proposed;
    deltas = advice.deltas;
    tags = advice.tags;
    benchmark_plant = advice.benchmark_plant;
    estimated_sec_reduction_pct = some advice.estimated_sec_reduction_pct;
    estimated_energy_saving_kwh_per_h = some advice.estimated_energy_saving_kwh_per_h;
    estimated_efficiency_gain_pp = some advice.estimated_efficiency_gain_pp;
    simulated_intensity_delta = elim (get advice.plant_code simulations) [
      | none ↦ none
      | some sim ↦ some sim.intensity_delta
    ];
    simulated_efficiency_delta_pp = elim (get advice.plant_code simulations) [
      | none ↦ none
      | some sim ↦ some sim.efficiency_delta_pp
    ];
    status = Status.pending;
    approved_by = none;
    approved_at = none;
    applied_by = none;
    applied_at = none;
    apply_mode = none;
    baseline_intensity = none;
    baseline_efficiency = none;
    realized_saving_kwh_per_h = none;
    created_at = now;
    resolved_at = none;
  }

  -- The first loop of `persist_recommendations`: a row for each item, under the next id.
  unfoldable pub add_rows :
      ℕ → Dict (AdviceSimulation F) → List (SetpointAdvice F) → World F → List ℕ × World F
  unfolding new_row
  add_rows now simulations [] w = ([], w)
  add_rows now simulations (advice ∷ items) w =
      let id = w.next_id in
      let w' = record w {
        recs = insert id (new_row now simulations advice) w.recs;
        next_id = suc id;
      } in
      let (ids, w'') = add_rows now simulations items w' in (id ∷ ids, w'')

  -- The detail of a `created` event, read from the refreshed row.
  abbrev pub created_detail : Option (Recommendation F) → AuditDetail F
  created_detail none = AuditDetail.comment_detail none
  created_detail (some rec) = AuditDetail.advice_detail rec.plant_code rec.title

  -- Its second loop: a `created` event for each row, committed one by one.
  unfoldable pub audit_rows : ℕ → List ℕ → World F → World F
  audit_rows now [] w = w
  audit_rows now (id ∷ ids) w =
      audit_rows now ids (
        append_audit id EventType.created "system" (created_detail (get_recommendation id w)) now w)

  unfoldable pub persist_recommendations :
      ℕ → List (SetpointAdvice F) → Dict (AdviceSimulation F) → World F → List ℕ × World F
  unfolding add_rows audit_rows
  persist_recommendations now items simulations w =
      let (ids, w') = add_rows now simulations items w in (ids, audit_rows now ids w')

  -- A call of `persist_recommendations` and what its caller holds of it: no rows where it raises.
  unfoldable pub try_persist :
      Storing → ℕ → List (SetpointAdvice F) → Dict (AdviceSimulation F) → World F → List ℕ × World F
  unfolding add_rows audit_rows persist_recommendations
  try_persist refuses now items simulations w = ([], w)
  try_persist (breaks_after done) now items simulations w =
      let (ids, w') = add_rows now simulations items w in ([], audit_rows now (take done ids) w')
  try_persist takes now items simulations w = persist_recommendations now items simulations w

  -- The load that each workflow call begins with: `None` raises a `KeyError`.
  unfoldable pub load : ℕ → Call F (Recommendation F)
  unfolding get_recommendation
  load id = do or_raise (← gets (get_recommendation id)) (not_found id)

  -- What simulate_recommendation of app/api/routes/optimization.py sets in a row.
  abbrev pub with_simulation : AdviceSimulation F → Recommendation F → Recommendation F
  with_simulation sim rec = record rec {
    simulated_intensity_delta = some sim.intensity_delta;
    simulated_efficiency_delta_pp = some sim.efficiency_delta_pp;
  }

  unfoldable pub record_simulation : ℕ → AdviceSimulation F → Call F (AdviceSimulation F)
  unfolding load save
  record_simulation id sim = do rec ← load id; modify (save id (with_simulation sim rec)); pure sim

  -- `decision not in {"accepted", "rejected"}` raises.
  abbrev pub decided : Decision → Call F Status
  decided Decision.accepted = pure Status.accepted
  decided Decision.rejected = pure Status.rejected
  decided (Decision.other text) = raise (bad_decision text)

abbrev pub same_status : Status → Status → Bool
same_status Status.pending Status.pending = true
same_status Status.accepted Status.accepted = true
same_status Status.rejected Status.rejected = true
same_status Status.approved Status.approved = true
same_status Status.applied Status.applied = true
same_status Status.failed Status.failed = true
same_status _ _ = false

module _ {F : Type 0} where
  -- A filter that is not given, or is an empty text, passes every row.
  abbrev pub is_listed : Option String → Option Status → ℕ × Recommendation F → Bool
  is_listed plant_code status (id, rec) =
      (is_empty (or_else plant_code "") || str_eq rec.plant_code (or_else plant_code ""))
      && elim status [ none ↦ true | some s ↦ same_status rec.status s ]

  -- `list_recommendations`, and `MemoryRecStore.list`
  unfoldable pub list_recommendations :
      Option String → Option Status → ℕ → Table (Recommendation F) → Table (Recommendation F)
  list_recommendations plant_code status limit recs = take limit (
      keep (is_listed plant_code status)
        (newest_first (λ (row : ℕ × Recommendation F). row.1.created_at) recs))

  -- Events are appended in the order of time.
  unfoldable pub list_audit_events : ℕ → ℕ → World F → List (AuditEvent F)
  list_audit_events id limit w =
      take limit (keep (λ (e : AuditEvent F). e.recommendation_id == id) w.audit)

abbrev pub is_open : Status → Bool
is_open Status.pending = true
is_open Status.accepted = true
is_open _ = false

abbrev pub is_rejected : Status → Bool
is_rejected Status.rejected = true
is_rejected _ = false

-- The audit event named like a decision.
abbrev pub decision_event : Status → EventType
decision_event Status.rejected = EventType.rejected
decision_event _ = EventType.accepted

pub new_feedback : ℕ → ℕ → Decision → String → Option String → Feedback
new_feedback now id decision operator comment = record {
  recommendation_id = id;
  decision = decision;
  operator = operator;
  comment = comment;
  created_at = now;
}

module _ {F : Type 0} where
  -- `session.add(feedback)`
  unfoldable pub add_feedback : ℕ → ℕ → Decision → String → Option String → World F → World F
  unfolding new_feedback
  add_feedback now id decision operator comment w = record w {
    feedback = w.feedback ++ new_feedback now id decision operator comment ∷ [];
  }

  unfoldable pub submit_feedback :
      ℕ → ℕ → Decision → String → Option String → Call F (Recommendation F × Feedback)
  unfolding load add_feedback save append_audit
  submit_feedback now id decision operator comment = do
    rec ← load id
    status ← decided decision
    guard (is_open rec.status) (not_open rec.status)
    let rec' : Recommendation F = record rec {
      status = status;
      resolved_at = if is_rejected status then some now else rec.resolved_at;
    }
    modify (add_feedback now id decision operator comment)
    modify (save id rec')
    modify
        (append_audit id (decision_event status) operator (AuditDetail.comment_detail comment) now)
    pure (rec', new_feedback now id decision operator comment)
