-- ===== src/Optimization/Workflow.antt =====
-- The workflow calls of app/optimization in any order: one request after another, with whatever the
-- clock, the live data and the OPC server answer to each.
pub mod Audit
pub mod Approval
pub mod Safety
use khalij_intelligent_energ.Base.{ℕ, String, Bool, Option, List, [], ◌∷◌, refl}
use khalij_intelligent_energ.Base.Float.{FloatOps}
use khalij_intelligent_energ.Base.Table.{Dict}
use khalij_intelligent_energ.Config.{Settings}
use khalij_intelligent_energ.Ingestion.TagMap.{TagMap}
use khalij_intelligent_energ.Ingestion.OpcuaWrite.{OpcServer}
use khalij_intelligent_energ.Optimization.Model.{
  UnitOperatingState, SetpointAdvice, AdviceSimulation, Decision, World,
}
use khalij_intelligent_energ.Optimization.Store.{
  persist_recommendations, submit_feedback, record_simulation,
}
use khalij_intelligent_energ.Optimization.Apply.{approve_recommendation, apply_recommendation}
use khalij_intelligent_energ.Optimization.Impact.{Sample, measure_impact}
use khalij_intelligent_energ.Optimization.Steps.{Step, queue}
use khalij_intelligent_energ.Optimization.Steps.Calls.{
  approve-Step, submit_feedback-Step, apply-Step,
}
use khalij_intelligent_energ.Optimization.Steps.Impact.{measure_impact-Step}
use khalij_intelligent_energ.Optimization.Steps.Simulate.{simulate-Step}

pub data Request (F : Type 0) : Type 0 where
  advise : ℕ → List (SetpointAdvice F) → Dict (AdviceSimulation F) → Request F
  give_feedback : ℕ → ℕ → Decision → String → Option String → Request F
  approve : ℕ → ℕ → String → Option String → Request F
  apply : OpcServer F → Option (UnitOperatingState F) → ℕ → ℕ → String → Option Bool → Request F
  measure : List (Sample F) → ℕ → ℕ → String → Request F
  simulate : ℕ → AdviceSimulation F → Request F

abbrev pub empty_world : {F : Type 0} → World F
empty_world = record { recs = []; next_id = 1; audit = []; feedback = []; plant = [] }

module _ {F : Type 0} ⦃fl : FloatOps F⦄ (cfg : Settings F) (plants : TagMap F) where
  unfoldable pub serve : Request F → World F → World F
  serve (advise now items simulations) w = (persist_recommendations now items simulations w).1
  serve (give_feedback now id decision operator comment) w =
      (submit_feedback now id decision operator comment w).1
  serve (approve now id actor comment) w = (approve_recommendation now id actor comment w).1
  serve (apply opc state now id actor dry) w =
      (apply_recommendation cfg plants opc state now id actor dry w).1
  serve (measure history now id actor) w = (measure_impact cfg history now id actor w).1
  serve (simulate id sim) w = (record_simulation id sim w).1

  unfoldable pub run : List (Request F) → World F → World F
  run [] w = w
  run (r ∷ rs) w = run rs (serve r w)

  pub serve-Step : (r : Request F) (w : World F) → Step cfg plants w (serve r w)
  unfolding serve
  serve-Step (advise now items simulations) w = queue now items simulations refl
  serve-Step (give_feedback now id decision operator comment) w =
      submit_feedback-Step cfg plants now id decision operator comment w
  serve-Step (approve now id actor comment) w = approve-Step cfg plants now id actor comment w
  serve-Step (apply opc state now id actor dry) w =
      apply-Step cfg plants opc state now id actor dry w
  serve-Step (measure history now id actor) w =
      measure_impact-Step cfg plants history now id actor w
  serve-Step (simulate id sim) w = simulate-Step cfg plants id sim w

  -- An invariant of the steps holds along every run.
  pub run_inv {κ} :
      (P : World F → Type κ)
      → ((w w' : World F) → Step cfg plants w w' → P w → P w')
      → (rs : List (Request F)) (w : World F) → P w
      → P (run rs w)
  unfolding run
  run_inv P keep [] w h = h
  run_inv P keep (r ∷ rs) w h =
      run_inv P keep rs (serve r w) (keep w (serve r w) (serve-Step r w) h)
