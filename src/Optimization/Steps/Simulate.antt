-- ===== src/Optimization/Steps/Simulate.antt =====
-- Simulating a stored recommendation is a step of the workflow.
use khalij_intelligent_energ.Base.{ℕ, ◌≡◌, refl, inl, inr, arith, Option-cases}
use khalij_intelligent_energ.Base.Table.{lookup}
use khalij_intelligent_energ.Config.{Settings}
use khalij_intelligent_energ.Ingestion.TagMap.{TagMap}
use khalij_intelligent_energ.Optimization.Model.{AdviceSimulation, World}
use khalij_intelligent_energ.Optimization.Store.{save, with_simulation, record_simulation}
use khalij_intelligent_energ.Optimization.Steps.{Step, stay, annotate}

module _ {F : Type 0} (cfg : Settings F) (plants : TagMap F) where
  pub simulate-Step :
      (id : ℕ) (sim : AdviceSimulation F) (w : World F)
      → Step cfg plants w (record_simulation id sim w).1
  unfolding record_simulation save
  simulate-Step id sim w = elim (Option-cases (lookup id w.recs)) [
    | inl e ↦ stay (ground arith)
    | inr (rec, e) ↦
        let runs : (record_simulation id sim w).1 ≡ save id (with_simulation sim rec) w =
          ground arith in
        rw runs (annotate id rec (with_simulation sim rec) e refl refl refl refl refl refl)
  ]
