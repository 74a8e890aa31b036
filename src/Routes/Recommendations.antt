-- ===== src/Routes/Recommendations.antt =====
-- app/api/routes/optimization.py: the routes on recommendations, and any sequence of requests to
-- them. An id from 900000 on is a row of the demo memory, any other one of the database. What a route
-- reads elsewhere is an argument. The answers to a malformed body are left out.
use khalij_intelligent_energ.Base.{
  ℕ, String, Bool, ◌&&◌, Option, none, some, List, [], map, is_nil, if◌then◌else◌,
}
use khalij_intelligent_energ.Base.Float.{FloatOps}
use khalij_intelligent_energ.Base.Result.{Result, ok, err, ◌>>=◌, pure, gets, or_raise}
use khalij_intelligent_energ.Base.Table.{lookup}
use khalij_intelligent_energ.Config.{Settings, allow_demo_memory}
use khalij_intelligent_energ.Ingestion.TagMap.{TagMap}
use khalij_intelligent_energ.Ingestion.OpcuaWrite.{OpcServer}
use khalij_intelligent_energ.Plant.Live.{LiveReading}
use khalij_intelligent_energ.Optimization.Model.{
  UnitOperatingState, SetpointAdvice, AdviceSimulation, Status, Recommendation, AuditEvent,
  Decision, Feedback,
}
use khalij_intelligent_energ.Optimization.Engine.{Wording}
use khalij_intelligent_energ.Optimization.Store.{
  Storing, get_recommendation, submit_feedback, record_simulation, list_recommendations,
  list_audit_events,
}
use khalij_intelligent_energ.Optimization.Apply.{approve_recommendation, apply_recommendation}
use khalij_intelligent_energ.Optimization.Impact.{Sample, measure_impact}
use khalij_intelligent_energ.Demo.MemoryRecs.{MemoryAuditEvent, is_memory_id, list_audit}
use khalij_intelligent_energ.Rto.{Loads}
use khalij_intelligent_energ.Security.Auth.{Digests}
use khalij_intelligent_energ.Security.Deps.{request_action}
use khalij_intelligent_energ.Routes.Outputs.{
  RouteError, missing, server_error, SetpointAdviceOut, OptimizationResponse, FeedbackOut, ApplyOut,
  ImpactOut, apply_out, impact_out, row_to_advice, advice_of_row,
}
use khalij_intelligent_energ.Routes.Stores.{
  ApiState, Route, Header, feedback_error, workflow_error, on_database, permitted,
}
use khalij_intelligent_energ.Routes.Memory.{
  memory_feedback, memory_approve, memory_apply, memory_impact, memory_simulate,
}
use khalij_intelligent_energ.Routes.Analysis.{analyze_states}

pub data AuditOut (F : Type 0) : Type 0 where
  events : List (AuditEvent F) → AuditOut F
  demo_events : List MemoryAuditEvent → AuditOut F

module _ {F : Type 0} where
  abbrev pub feedback_out : ℕ → Recommendation F × Feedback → FeedbackOut
  feedback_out id (rec, fb) = record {
    recommendation_id = id;
    decision = fb.decision;
    operator = fb.operator;
    comment = fb.comment;
    status = rec.status;
    created_at = fb.created_at;
  }

  unfoldable pub database_feedback : ℕ → ℕ → Decision → String → Option String → Route F FeedbackOut
  database_feedback now id decision operator comment = do
    found ← on_database feedback_error (submit_feedback now id decision operator comment)
    pure (feedback_out id found)

module _ {F : Type 0} ⦃fl : FloatOps F⦄ where
  unfoldable pub database_approve : ℕ → ℕ → String → Option String → Route F (SetpointAdviceOut F)
  database_approve now id actor comment = do
    rec ← on_database workflow_error (approve_recommendation now id actor comment)
    pure (row_to_advice id rec)

  unfoldable pub database_apply :
      Settings F
      → TagMap F
      → OpcServer F
      → Option (UnitOperatingState F)
      → ℕ
      → ℕ
      → String
      → Option Bool
      → Route F (ApplyOut F)
  database_apply cfg plants opc state now id actor dry = do
    outcome ←
        on_database workflow_error (apply_recommendation cfg plants opc state now id actor dry)
    pure (apply_out outcome)

  unfoldable pub database_impact :
      Settings F → List (Sample F) → ℕ → ℕ → String → Route F (ImpactOut F)
  database_impact cfg history now id actor = do
    out ← on_database workflow_error (measure_impact cfg history now id actor)
    pure (impact_out out)

  abbrev pub stored_rec : ℕ → ApiState F → Option (Recommendation F)
  stored_rec id st =
      if is_memory_id id then lookup id st.memory.recs else get_recommendation id st.world

  abbrev save_simulation : ℕ → AdviceSimulation F → Route F (AdviceSimulation F)
  save_simulation id sim =
      if is_memory_id id
      then memory_simulate id sim
      else on_database workflow_error (record_simulation id sim)

  -- This route asks for no user. `simulate` is what `simulate_advice` gives for the row.
  unfoldable pub simulate_recommendation :
      (SetpointAdvice F → Option (AdviceSimulation F)) → ℕ → Route F (AdviceSimulation F)
  simulate_recommendation simulate id = do
    rec ← or_raise (← gets (stored_rec id)) missing
    sim ← or_raise (simulate (advice_of_row rec)) server_error
    save_simulation id sim

  -- The routes that read, open to everyone.
  unfoldable pub get_recommendations :
      Settings F
      → Bool
      → Option String
      → Option Status
      → ℕ
      → ApiState F
      → List (SetpointAdviceOut F)
  get_recommendations cfg database plant_code status limit st =
      let rows =
        if database then list_recommendations plant_code status limit st.world.recs else [] in
      let shown =
        if is_nil rows && allow_demo_memory cfg
        then list_recommendations plant_code status limit st.memory.recs
        else rows in
      map (λ (row : ℕ × Recommendation F). row_to_advice row.0 row.1) shown

  unfoldable pub audit : ℕ → ApiState F → Result RouteError (AuditOut F)
  audit id st =
      if is_memory_id id
      then elim (lookup id st.memory.recs) [
        | none ↦ err missing
        | some rec ↦ ok (AuditOut.demo_events (list_audit st.memory id 100))
      ]
      else elim (get_recommendation id st.world) [
        | none ↦ err missing
        | some rec ↦ ok (AuditOut.events (list_audit_events id 100 st.world))
      ]

module _ {F : Type 0} ⦃fl : FloatOps F⦄ (cfg : Settings F) (d : Digests) where
  unfoldable pub analyze :
      Wording F
      → Loads F
      → (UnitOperatingState F → SetpointAdvice F → Option (AdviceSimulation F))
      → Bool
      → Bool
      → Storing
      → ℕ
      → Header
      → Route F (OptimizationResponse F)
  analyze words loads simulate simulates wanted database now header =
      permitted (request_action cfg d now "operate" header)
        (λ _. analyze_states cfg words loads simulate simulates wanted database now)

  unfoldable pub feedback_recommendation :
      ℕ → Header → ℕ → Decision → String → Option String → Route F FeedbackOut
  unfolding database_feedback
  feedback_recommendation now header id decision operator comment =
      permitted (request_action cfg d now "operate" header) (λ _.
        if is_memory_id id
        then memory_feedback now id decision operator comment
        else database_feedback now id decision operator comment)

  unfoldable pub approve : ℕ → Header → ℕ → Option String → Route F (SetpointAdviceOut F)
  unfolding database_approve
  approve now header id comment = permitted (request_action cfg d now "operate" header) (λ user.
      if is_memory_id id
      then memory_approve now id user.username
      else database_approve now id user.username comment)

  unfoldable pub apply :
      TagMap F
      → OpcServer F
      → Option (UnitOperatingState F)
      → ℕ
      → Header
      → ℕ
      → Option Bool
      → Route F (ApplyOut F)
  unfolding database_apply
  apply plants opc state now header id dry =
      permitted (request_action cfg d now "apply" header) (λ user.
        if is_memory_id id
        then memory_apply now id user.username dry
        else database_apply cfg plants opc state now id user.username dry)

  unfoldable pub impact : List (Sample F) → LiveReading F → ℕ → Header → ℕ → Route F (ImpactOut F)
  unfolding database_impact
  impact history live now header id = permitted (request_action cfg d now "operate" header) (λ user.
      if is_memory_id id
      then memory_impact id live user.username
      else database_impact cfg history now id user.username)
