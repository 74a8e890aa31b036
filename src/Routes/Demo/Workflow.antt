-- ===== src/Routes/Demo/Workflow.antt =====
-- The routes of app/api/routes/optimization.py on the demo memory, request by request, beside the status
-- machine of the workflow on the database.
use khalij_intelligent_energ.Base.{
  ℕ, String, Bool, ◌&&◌, not, Option, none, some, List, [], ◌∷◌, is_nil, if◌then◌else◌, ◌≡◌, refl,
  Option-cases, Bool-cases, ◌∙◌, ap, inl, inr,
}
use khalij_intelligent_energ.Base.Float.{FloatOps}
use khalij_intelligent_energ.Base.Result.{Result, ok, err, ◌>>=◌, pure, bind_pure-state}
use khalij_intelligent_energ.Base.Table.{Dict, lookup}
use khalij_intelligent_energ.Config.{Settings, allow_demo_memory}
use khalij_intelligent_energ.Ingestion.TagMap.{TagMap}
use khalij_intelligent_energ.Ingestion.OpcuaWrite.{OpcServer}
use khalij_intelligent_energ.Plant.Live.{LiveReading}
use khalij_intelligent_energ.Optimization.Model.{
  UnitOperatingState, SetpointAdvice, AdviceSimulation, Recommendation, Decision, World,
  ActionError, Status, EventType,
}
use khalij_intelligent_energ.Optimization.Engine.{
  UnitBenchmark, Wording, classify_units, build_structured_advice,
}
use khalij_intelligent_energ.Optimization.Store
use khalij_intelligent_energ.Optimization.Store.{
  Storing, try_persist, get_recommendation, persist_recommendations, submit_feedback,
  record_simulation, is_open, is_rejected, new_row,
}
use khalij_intelligent_energ.Optimization.Apply.{approve_recommendation, apply_recommendation}
use khalij_intelligent_energ.Optimization.Impact.{Sample, measure_impact}
use khalij_intelligent_energ.Demo.MemoryRecs.{is_memory_id}
use khalij_intelligent_energ.Rto.{Loads, is_one_snapshot}
use khalij_intelligent_energ.Security.Auth.{Digests}
use khalij_intelligent_energ.Security.Deps.{HttpError, CurrentUser}
use khalij_intelligent_energ.Routes.Outputs.{
  RouteError, apply_out, impact_out, row_to_advice, advice_of_row,
}
use khalij_intelligent_energ.Routes.Stores.{
  ApiState, Route, Header, feedback_error, workflow_error, with_world, on_database, permitted,
}
use khalij_intelligent_energ.Routes.Memory.{memory_simulate}
use khalij_intelligent_energ.Routes.Recommendations
use khalij_intelligent_energ.Routes.Analysis.{
  store_analysis, finish_analysis, analyze_with, by_plant, simulate_all, analyze_states,
}
use khalij_intelligent_energ.Routes.Recommendations.{
  feedback_recommendation, simulate_recommendation, stored_rec, database_feedback, database_approve,
  database_apply, database_impact, feedback_out,
}
use khalij_intelligent_energ.Routes.Requests.{ApiRequest, serve_api, run_api}
use khalij_intelligent_energ.Routes.Demo.Evolves.{
  Events, Never, Moves, Decides, Evolves, IsFresh, same-Evolves, persist-Evolves, feedback-Evolves,
  approve-Evolves, apply-Evolves, impact-Evolves, simulated-Evolves,
}

module _ {F A : Type 0} where
  with_world-memory :
      (me : ActionError → RouteError) (st : ApiState F) (p : Result ActionError A × World F)
      → (with_world me st p).1.memory ≡ st.memory
  with_world-memory me st (ok a, w) = refl
  with_world-memory me st (err e, w) = refl

  -- A handler that evolves the demo memory at this state.
  record EvolvesAt (may : Events) (handler : Route F A) (st : ApiState F) : Type 0 where
    evolves : IsFresh st.memory → Evolves may st.memory (handler st).1.memory

  permitted-EvolvesAt :
      (may : Events) (answer : Result HttpError CurrentUser) (handler : CurrentUser → Route F A)
      (st : ApiState F)
      → ((user : CurrentUser) → EvolvesAt may (handler user) st)
      → EvolvesAt may (permitted answer handler) st
  permitted-EvolvesAt may (ok user) handler st evolving = evolving user
  permitted-EvolvesAt may (err e) handler st evolving = record {
    evolves = same-Evolves may _ _ refl;
  }

  by_store-EvolvesAt :
      (may : Events) (id : ℕ) (demo database : Route F A) (st : ApiState F)
      → EvolvesAt may demo st
      → (database st).1.memory ≡ st.memory
      → EvolvesAt may (if is_memory_id id then demo else database) st
  by_store-EvolvesAt may id demo database st evolving e = elim (Bool-cases (is_memory_id id)) [
    | inl t ↦ rw t evolving
    | inr f ↦ rw f (record { evolves = same-Evolves may _ _ e })
  ]

  -- A call of the database leaves the demo memory alone.
  settled-memory :
      {B : Type 0} (me : ActionError → RouteError) (call : Store.Call F A) (f : A → B)
      (st : ApiState F)
      → ((on_database me call >>= λ a. pure (f a)) st).1.memory ≡ st.memory
  settled-memory me call f st =
      ap (λ (s : ApiState F). s.memory) (bind_pure-state (on_database me call) f st)
      ∙ with_world-memory me st (call st.world)

module _ {F : Type 0} ⦃fl : FloatOps F⦄ (cfg : Settings F) where
  stored-Evolves :
      (database : Storing) (now : ℕ) (items : List (SetpointAdvice F))
      (sims : Dict (AdviceSimulation F)) (st : ApiState F)
      → IsFresh st.memory
      → Evolves Never st.memory (store_analysis cfg database now items sims st).1.memory
  unfolding store_analysis
  stored-Evolves database now items sims st h =
      elim (Bool-cases
        (is_nil (try_persist database now items sims st.world).0 && allow_demo_memory cfg)) [
          | inl t ↦ rw t (persist-Evolves now items sims st.memory h)
          | inr f ↦ rw f (same-Evolves Never _ _ refl h)
        ]

  finish-EvolvesAt :
      (wanted : Bool) (database : Storing) (now : ℕ) (benchmarks : List (UnitBenchmark F))
      (items : List (SetpointAdvice F)) (sims : List (AdviceSimulation F)) (st : ApiState F)
      → EvolvesAt Never (finish_analysis cfg wanted database now benchmarks items sims) st
  finish-EvolvesAt wanted database now benchmarks items sims st = record {
    evolves = λ h. elim (Bool-cases (wanted && not (is_nil items))) [
      | inl t ↦ rw t (stored-Evolves database now items (by_plant sims) st h)
      | inr f ↦ rw f (same-Evolves Never _ _ refl h)
    ];
  }

  analyzed-EvolvesAt :
      (wanted : Bool) (database : Storing) (now : ℕ) (benchmarks : List (UnitBenchmark F))
      (advice : Option (List (SetpointAdvice F)))
      (sim : List (SetpointAdvice F) → Option (List (AdviceSimulation F))) (st : ApiState F)
      → EvolvesAt Never (analyze_with cfg wanted database now benchmarks advice sim) st
  analyzed-EvolvesAt wanted database now benchmarks none sim st = record {
    evolves = same-Evolves Never _ _ refl;
  }
  analyzed-EvolvesAt wanted database now benchmarks (some items) sim st =
      elim (Option-cases (sim items)) [
        | inl e ↦ rw (e, analyze_with) (record { evolves = same-Evolves Never _ _ refl })
        | inr (sims, e) ↦
            rw (e, analyze_with) (finish-EvolvesAt wanted database now benchmarks items sims st)
      ]

module _ {F : Type 0} ⦃fl : FloatOps F⦄ where
  simulate-EvolvesAt :
      (sim : SetpointAdvice F → Option (AdviceSimulation F)) (id : ℕ) (st : ApiState F)
      → IsFresh st.memory
      → Evolves Never st.memory (simulate_recommendation sim id st).1.memory
  unfolding simulate_recommendation
  simulate-EvolvesAt sim id st h = elim (Option-cases (stored_rec id st)) [
    | inl e ↦ rw e (same-Evolves Never _ _ refl h)
    | inr (rec, e) ↦ rw e (elim (Option-cases (sim (advice_of_row rec))) [
      | inl e' ↦ rw e' (same-Evolves Never _ _ refl h)
      | inr (result, e') ↦ rw e' (
          (by_store-EvolvesAt Never id (memory_simulate id result)
              (on_database workflow_error (Store.record_simulation id result)) st
              (record { evolves = simulated-Evolves Never id result st })
              (with_world-memory _ st (Store.record_simulation id result st.world))).evolves
            h)
    ])
  ]

-- The event that a request asks for.
abbrev pub Asks : {F : Type 0} → ApiRequest F → Events
Asks (ApiRequest.feedback now header id decision operator comment) j e =
    (j ≡ id) × Decides decision e
Asks (ApiRequest.approve now header id comment) j e = (j ≡ id) × (e ≡ EventType.approved)
Asks (ApiRequest.apply opc state now header id dry) j e = (j ≡ id) × (e ≡ EventType.applied)
Asks _ j e = ⊥

-- A status through a list of requests: each leaves it, or takes it one step by the event that it asks
-- for.
abbrev pub Passes : {F : Type 0} → List (ApiRequest F) → ℕ → Status → Status → Type 0
Passes [] id s s' = s' ≡ s
Passes (r ∷ rs) id s s' = (t : Status) × Moves (Asks r) id s t × Passes rs id t s'

module _ {F : Type 0} ⦃fl : FloatOps F⦄ (cfg : Settings F) (plants : TagMap F) (d : Digests) where
  analyze-EvolvesAt :
      (words : Wording F) (loads : Loads F)
      (sim : UnitOperatingState F → SetpointAdvice F → Option (AdviceSimulation F))
      (simulates wanted : Bool) (database : Storing) (now : ℕ) (header : Header) (st : ApiState F)
      → EvolvesAt Never
          (Recommendations.analyze cfg d words loads sim simulates wanted database now header)
          st
  unfolding Recommendations.analyze analyze_states
  analyze-EvolvesAt words loads sim simulates wanted database now header st =
      permitted-EvolvesAt Never _ _ st (λ user.
        let states = if is_one_snapshot loads.0 then loads.1 else loads.0 in
        let benchmarks = classify_units states in
        analyzed-EvolvesAt cfg wanted database now benchmarks
          (build_structured_advice words states benchmarks)
          (λ items. if simulates then simulate_all sim states items else some []) st)

  feedback-EvolvesAt :
      (now : ℕ) (header : Header) (id : ℕ) (decision : Decision) (operator : String)
      (comment : Option String) (st : ApiState F)
      → EvolvesAt
          (Asks {F = F} (ApiRequest.feedback now header id decision operator comment))
          (feedback_recommendation cfg d now header id decision operator comment)
          st
  unfolding feedback_recommendation database_feedback
  feedback-EvolvesAt now header id decision operator comment st =
      permitted-EvolvesAt
        (Asks {F = F} (ApiRequest.feedback now header id decision operator comment)) _ _ st
        (λ user.
          by_store-EvolvesAt
            (Asks {F = F} (ApiRequest.feedback now header id decision operator comment)) id _ _ st
            (record {
              evolves =
                  feedback-Evolves
                    (Asks {F = F} (ApiRequest.feedback now header id decision operator comment)) now
                    id decision operator comment st (λ e m. (refl, m));
            })
            (settled-memory feedback_error (submit_feedback now id decision operator comment)
              (feedback_out id) st))

  approve-EvolvesAt :
      (now : ℕ) (header : Header) (id : ℕ) (comment : Option String) (st : ApiState F)
      → EvolvesAt
          (Asks {F = F} (ApiRequest.approve now header id comment))
          (Recommendations.approve cfg d now header id comment)
          st
  unfolding Recommendations.approve database_approve
  approve-EvolvesAt now header id comment st =
      permitted-EvolvesAt (Asks {F = F} (ApiRequest.approve now header id comment)) _ _ st (λ user.
        by_store-EvolvesAt (Asks {F = F} (ApiRequest.approve now header id comment)) id _ _ st
          (record {
            evolves =
                approve-Evolves (Asks {F = F} (ApiRequest.approve now header id comment)) now id
                  user.username st (refl, refl);
          })
          (settled-memory workflow_error (approve_recommendation now id user.username comment)
            (row_to_advice id) st))

  apply-EvolvesAt :
      (opc : OpcServer F) (state : Option (UnitOperatingState F)) (now : ℕ) (header : Header)
      (id : ℕ) (dry : Option Bool) (st : ApiState F)
      → EvolvesAt
          (Asks {F = F} (ApiRequest.apply opc state now header id dry))
          (Recommendations.apply cfg d plants opc state now header id dry)
          st
  unfolding Recommendations.apply database_apply
  apply-EvolvesAt opc state now header id dry st =
      permitted-EvolvesAt (Asks {F = F} (ApiRequest.apply opc state now header id dry)) _ _ st
        (λ user.
          by_store-EvolvesAt (Asks {F = F} (ApiRequest.apply opc state now header id dry)) id _ _ st
            (record {
              evolves =
                  apply-Evolves (Asks {F = F} (ApiRequest.apply opc state now header id dry)) now id
                    user.username dry st (refl, refl);
            })
            (settled-memory workflow_error
              (apply_recommendation cfg plants opc state now id user.username dry) apply_out st))

  impact-EvolvesAt :
      (history : List (Sample F)) (live : LiveReading F) (now : ℕ) (header : Header) (id : ℕ)
      (st : ApiState F)
      → EvolvesAt Never (Recommendations.impact cfg d history live now header id) st
  unfolding Recommendations.impact database_impact
  impact-EvolvesAt history live now header id st = permitted-EvolvesAt Never _ _ st (λ user.
      by_store-EvolvesAt Never id _ _ st
        (record { evolves = impact-Evolves Never id live user.username st })
        (settled-memory workflow_error (measure_impact cfg history now id user.username) impact_out
          st))

  serve_api-Evolves :
      (r : ApiRequest F) (st : ApiState F)
      → IsFresh st.memory
      → Evolves (Asks r) st.memory (serve_api cfg plants d r st).memory
  unfolding serve_api
  serve_api-Evolves (ApiRequest.analyze words loads sim simulates wanted database now header) st =
      (analyze-EvolvesAt words loads sim simulates wanted database now header st).evolves
  serve_api-Evolves (ApiRequest.feedback now header id decision operator comment) st =
      (feedback-EvolvesAt now header id decision operator comment st).evolves
  serve_api-Evolves (ApiRequest.approve now header id comment) st =
      (approve-EvolvesAt now header id comment st).evolves
  serve_api-Evolves (ApiRequest.apply opc state now header id dry) st =
      (apply-EvolvesAt opc state now header id dry st).evolves
  serve_api-Evolves (ApiRequest.impact history live now header id) st =
      (impact-EvolvesAt history live now header id st).evolves
  serve_api-Evolves (ApiRequest.simulate sim id) st = simulate-EvolvesAt sim id st

  -- In a demo memory whose next ids have no rows, whatever is requested of the routes: a
  -- recommendation stays, and the next ids still have no rows. Each request in turn leaves the
  -- status, or takes it one step along the status machine that the audit events of the database
  -- follow, by the event that it asks for of this id: the decision of a feedback, approved for an
  -- approval, and applied for an application. No other request changes it.
  pub demo_follows_workflow :
      (rs : List (ApiRequest F)) (st : ApiState F) (id : ℕ) (rec : Recommendation F)
      → IsFresh st.memory
      → lookup id st.memory.recs ≡ some rec
      → let after = (run_api cfg plants d rs st).memory in
        ((rec' : Recommendation F) × (lookup id after.recs ≡ some rec')
          × Passes rs id rec.status rec'.status)
        × IsFresh after
  unfolding run_api
  demo_follows_workflow [] st id rec h found = ((rec, found, refl), h)
  demo_follows_workflow (r ∷ rs) st id rec h found =
      let first = serve_api-Evolves r st h in
      let (rec', found', moves) = first.kept id rec found in
      let ((last, found_last, path), fresh) =
        demo_follows_workflow rs (serve_api cfg plants d r st) id rec' first.fresh found' in
      ((last, found_last, (rec'.status, moves, path)), fresh)
