-- ===== src/Optimization/Steps.antt =====
-- The workflow of app/optimization as a step relation: what one call may do to the tables and to the
-- plant. That every call is such a step is proved in the children; what holds of the program at
-- large follows by induction on the steps.
pub mod Calls
pub mod Impact
pub mod Simulate
use khalij_intelligent_energ.Base.{ℕ, true, ◌≡◌, ◌⊎◌, some, List, [], ◌∷◌, ◌++◌, All}
use khalij_intelligent_energ.Base.Table.{Dict, lookup, insert}
use khalij_intelligent_energ.Config.{Settings}
use khalij_intelligent_energ.Ingestion.TagMap.{TagMap}
use khalij_intelligent_energ.Ingestion.OpcuaWrite.{WritePlanItem}
use khalij_intelligent_energ.Ingestion.OpcuaWrite.Allowlist.{IsPermitted}
use khalij_intelligent_energ.Optimization.Model.{
  SetpointAdvice, AdviceSimulation, Recommendation, AuditEvent, World,
}
use khalij_intelligent_energ.Optimization.Store.{persist_recommendations}
use khalij_intelligent_energ.Optimization.Apply.{log_writes}
use khalij_intelligent_energ.Optimization.Apply.Cases.{IsReady}
use khalij_intelligent_energ.Optimization.Trail.{follow, at}

module _ {F : Type 0} (cfg : Settings F) (plants : TagMap F) where
  -- Writes to the plant for a recommendation that is ready, enabled by the settings, each to a
  -- field and a tag that may be written.
  pub record IsAuthorized (rec : Recommendation F) (writes : List (WritePlanItem F)) : Type 0 where
    pub ready : IsReady cfg rec
    pub enabled : cfg.opc_write_enabled ≡ true
    pub permitted : All (IsPermitted cfg plants rec.plant_code) writes

  pub data Step (w w' : World F) : Type 0 where
    stay : w' ≡ w → Step w w'
    -- One event of one recommendation, with the writes that it made.
    move :
        (id : ℕ) (rec rec' : Recommendation F) (e : AuditEvent F) (writes : List (WritePlanItem F))
        → lookup id w.recs ≡ some rec
        → e.recommendation_id ≡ id
        → follow rec.status e.event_type ≡ at rec'.status
        → rec'.plant_code ≡ rec.plant_code
        → (writes ≡ []) ⊎ IsAuthorized rec writes
        → w'.recs ≡ insert id rec' w.recs
        → w'.next_id ≡ w.next_id
        → w'.audit ≡ w.audit ++ e ∷ []
        → w'.plant ≡ (log_writes id writes w).plant
        → Step w w'
    -- A row changed outside its status and its plant, with no event.
    annotate :
        (id : ℕ) (rec rec' : Recommendation F)
        → lookup id w.recs ≡ some rec
        → rec'.status ≡ rec.status
        → rec'.plant_code ≡ rec.plant_code
        → w'.recs ≡ insert id rec' w.recs
        → w'.next_id ≡ w.next_id
        → w'.audit ≡ w.audit
        → w'.plant ≡ w.plant
        → Step w w'
    -- The client failed: what it had written stays, and no event is recorded.
    break :
        (id : ℕ) (rec : Recommendation F) (writes : List (WritePlanItem F))
        → lookup id w.recs ≡ some rec
        → (writes ≡ []) ⊎ IsAuthorized rec writes
        → w' ≡ log_writes id writes w
        → Step w w'
    queue :
        (now : ℕ) (items : List (SetpointAdvice F)) (simulations : Dict (AdviceSimulation F))
        → w' ≡ (persist_recommendations now items simulations w).1
        → Step w w'
