-- ===== src/Optimization/Workflow/Safety.antt =====
-- What reaches the plant along every run of the workflow of app/optimization.
use mathlib.Core.List.{append-nil}
use khalij_intelligent_energ.Base.{
  take, ℕ, suc, ◌<◌, false, ◌≡◌, refl, ◌∙◌, ap, inl, inr, ◌⊎◌, some, List, [], ◌∷◌, map, arith, All,
  All-append, All-map,
}
use khalij_intelligent_energ.Base.Float.{FloatOps}
use khalij_intelligent_energ.Base.Table.{Dict, lookup, insert, lookup-insert}
use khalij_intelligent_energ.Config.{Settings}
use khalij_intelligent_energ.Ingestion.TagMap.{TagMap}
use khalij_intelligent_energ.Ingestion.OpcuaWrite.{WritePlanItem}
use khalij_intelligent_energ.Ingestion.OpcuaWrite.Allowlist.{IsPermitted}
use khalij_intelligent_energ.Optimization.Model.{
  Recommendation, World, SetpointAdvice, AdviceSimulation,
}
use khalij_intelligent_energ.Optimization.Store.{
  append_audit, new_row, add_rows, audit_rows, persist_recommendations, Storing, refuses,
  breaks_after, takes, try_persist,
}
use khalij_intelligent_energ.Optimization.Apply.{log_writes}
use khalij_intelligent_energ.Optimization.Trail.{IsTraced, absent, track_of}
use khalij_intelligent_energ.Optimization.Steps.{
  IsAuthorized, Step, stay, move, annotate, break, queue,
}
use khalij_intelligent_energ.Optimization.Workflow.{Request, empty_world, run, run_inv}
use khalij_intelligent_energ.Optimization.Workflow.Audit.{Step-IsTraced, Step-audit, empty-IsTraced}
use khalij_intelligent_energ.Optimization.Workflow.Approval.{
  approval_of_replay, IsJustified, KeepsRows, IsJustified-keeps, insert-KeepsRows,
}

module _ {F : Type 0} where
  add_rows_old :
      (now : ℕ) (simulations : Dict (AdviceSimulation F)) (items : List (SetpointAdvice F))
      (w : World F) (j : ℕ)
      → j < w.next_id
      → (lookup j (add_rows now simulations items w).1.recs ≡ lookup j w.recs)
        × ((add_rows now simulations items w).1.plant ≡ w.plant)
  unfolding add_rows
  add_rows_old now simulations [] w j h = (refl, refl)
  add_rows_old now simulations (advice ∷ items) w j h =
      let row = new_row now simulations advice in
      let w' : World F = record w { recs = insert w.next_id row w.recs; next_id = suc w.next_id } in
      let (same, plant) = add_rows_old now simulations items w' j (omega arith) in
      (same ∙ lookup-insert w.next_id j row w.recs ∙ ground arith, plant)

  add_rows-plant :
      (now : ℕ) (simulations : Dict (AdviceSimulation F)) (items : List (SetpointAdvice F))
      (w : World F)
      → (add_rows now simulations items w).1.plant ≡ w.plant
  unfolding add_rows
  add_rows-plant now simulations [] w = refl
  add_rows-plant now simulations (advice ∷ items) w = add_rows-plant now simulations items _

  audit_rows-plant :
      (now : ℕ) (ids : List ℕ) (w : World F)
      → ((audit_rows now ids w).plant ≡ w.plant) × ((audit_rows now ids w).recs ≡ w.recs)
  unfolding audit_rows append_audit
  audit_rows-plant now [] w = (refl, refl)
  audit_rows-plant now (id ∷ ids) w = audit_rows-plant now ids _

  pub persist-plant :
      (now : ℕ) (items : List (SetpointAdvice F)) (simulations : Dict (AdviceSimulation F))
      (w : World F)
      → (persist_recommendations now items simulations w).1.plant ≡ w.plant
  unfolding persist_recommendations
  persist-plant now items simulations w =
      let (ids, w') = add_rows now simulations items w in
      (audit_rows-plant now ids w').0 ∙ add_rows-plant now simulations items w

  pub try_persist-plant :
      (database : Storing) (now : ℕ) (items : List (SetpointAdvice F))
      (simulations : Dict (AdviceSimulation F)) (w : World F)
      → (try_persist database now items simulations w).1.plant ≡ w.plant
  unfolding try_persist
  try_persist-plant refuses now items simulations w = refl
  try_persist-plant (breaks_after done) now items simulations w =
      let (ids, w') = add_rows now simulations items w in
      (audit_rows-plant now (take done ids) w').0 ∙ add_rows-plant now simulations items w
  try_persist-plant takes now items simulations w = persist-plant now items simulations w

  -- An id that has a row is below the next one.
  lt_of_found :
      (w : World F) (j : ℕ) (rec : Recommendation F)
      → IsTraced w
      → lookup j w.recs ≡ some rec
      → j < w.next_id
  lt_of_found w j rec v h = ground (arith, v.fresh j)

module _ {F : Type 0} (cfg : Settings F) (plants : TagMap F) where
  persist-KeepsRows :
      (now : ℕ) (items : List (SetpointAdvice F)) (simulations : Dict (AdviceSimulation F))
      (w : World F)
      → IsTraced w
      → KeepsRows cfg plants w (persist_recommendations now items simulations w).1
  unfolding persist_recommendations
  persist-KeepsRows now items simulations w v j rec found =
      let (ids, w') = add_rows now simulations items w in
      let old = add_rows_old now simulations items w j (lt_of_found w j rec v found) in
      (rec, ap (lookup j) (audit_rows-plant now ids w').1 ∙ old.0 ∙ found, refl)

  Step-KeepsRows : (w w' : World F) → Step cfg plants w w' → IsTraced w → KeepsRows cfg plants w w'
  unfolding log_writes
  Step-KeepsRows w w' (stay e) v = rw e (λ j rec found. (rec, found, refl))
  Step-KeepsRows w w' (break id rec writes found auth e) v =
      rw e (λ j old found'. (old, found', refl))
  Step-KeepsRows w w' (queue now items simulations e) v =
      rw e (persist-KeepsRows now items simulations w v)
  Step-KeepsRows w w' (annotate id rec rec' found same code er en ea ep) v =
      insert-KeepsRows cfg plants id rec rec' w w' found code er
  Step-KeepsRows w w' (move id rec rec' e writes found same allowed code auth er en ea ep) v =
      insert-KeepsRows cfg plants id rec rec' w w' found code er

  -- The new writes of a step are justified before it.
  log_writes-IsJustified :
      (id : ℕ) (rec : Recommendation F) (writes : List (WritePlanItem F)) (w : World F)
      → IsTraced w
      → lookup id w.recs ≡ some rec
      → (writes ≡ []) ⊎ IsAuthorized cfg plants rec writes
      → All (IsJustified cfg plants w) w.plant
      → All (IsJustified cfg plants w) (log_writes id writes w).plant
  unfolding log_writes
  log_writes-IsJustified id rec writes w v found (inl none_written) h =
      rw (none_written, append-nil) h
  log_writes-IsJustified id rec writes w v found (inr auth) h =
      let approved =
        approval_of_replay id absent w.audit rec.status refl (v.traced id ∙ ap track_of found)
          auth.ready.approved_status in
      All-append (IsJustified cfg plants w) w.plant _ h
        (All-map-logged writes (λ item permitted. (rec, found, permitted, approved)) auth.permitted)
    where
      All-map-logged :
          (items : List (WritePlanItem F))
          → ((item : WritePlanItem F)
              → IsPermitted cfg plants rec.plant_code item
              → IsJustified cfg plants w (record { recommendation_id = id; item = item }))
          → All (IsPermitted cfg plants rec.plant_code) items
          → All
              (IsJustified cfg plants w)
              (map (λ item. record { recommendation_id = id; item = item }) items)
      All-map-logged [] f h = tt
      All-map-logged (x ∷ xs) f h = (f x h.0, All-map-logged xs f h.1)

  Step-new_writes :
      (w w' : World F)
      → Step cfg plants w w'
      → IsTraced w
      → All (IsJustified cfg plants w) w.plant
      → All (IsJustified cfg plants w) w'.plant
  Step-new_writes w w' (stay e) v h = rw e h
  Step-new_writes w w' (break id rec writes found auth e) v h =
      rw e (log_writes-IsJustified id rec writes w v found auth h)
  Step-new_writes w w' (queue now items simulations e) v h =
      rw (ap (λ (u : World F). u.plant) e ∙ persist-plant now items simulations w) h
  Step-new_writes w w' (annotate id rec rec' found same code er en ea ep) v h = rw ep h
  Step-new_writes w w' (move id rec rec' e writes found same allowed code auth er en ea ep) v h =
      rw ep (log_writes-IsJustified id rec writes w v found auth h)

  abbrev IsSafe : World F → Type 0
  IsSafe w = IsTraced w × All (IsJustified cfg plants w) w.plant

  Step-IsSafe : (w w' : World F) → Step cfg plants w w' → IsSafe w → IsSafe w'
  Step-IsSafe w w' st (v, h) =
      let (more, ea) = Step-audit cfg plants w w' st in
      let keep = Step-KeepsRows w w' st v in
      (
        Step-IsTraced cfg plants w w' st v,
        All-map (λ pw. IsJustified-keeps cfg plants w w' more pw keep ea) w'.plant
            (Step-new_writes w w' st v h),
      )

module _ {F : Type 0} ⦃fl : FloatOps F⦄ (cfg : Settings F) (plants : TagMap F) where
  -- Whatever is requested, and whatever the OPC server does, each value ever written to the plant
  -- was written for a recommendation that an operator approved, at a tag of its plant that the tag
  -- map marks writable, of a field that the settings list as writable.
  pub plant_writes-IsJustified :
      (rs : List (Request F))
      → let w = run cfg plants rs empty_world in All (IsJustified cfg plants w) w.plant
  plant_writes-IsJustified rs =
      (run_inv cfg plants (IsSafe cfg plants) (Step-IsSafe cfg plants) rs empty_world
        (empty-IsTraced cfg plants, tt)).1

  none_when_disabled :
      (id : ℕ) (rec : Recommendation F) (writes : List (WritePlanItem F)) (w : World F)
      → cfg.opc_write_enabled ≡ false
      → (writes ≡ []) ⊎ IsAuthorized cfg plants rec writes
      → (log_writes id writes w).plant ≡ w.plant
  unfolding log_writes
  none_when_disabled id rec writes w off (inl none_written) = rw (none_written, append-nil)
  none_when_disabled id rec writes w off (inr auth) = cc (auth.enabled)

  Step-disabled :
      (w w' : World F) → cfg.opc_write_enabled ≡ false → Step cfg plants w w' → w'.plant ≡ w.plant
  Step-disabled w w' off (stay e) = ap (λ (u : World F). u.plant) e
  Step-disabled w w' off (break id rec writes found auth e) =
      ap (λ (u : World F). u.plant) e ∙ none_when_disabled id rec writes w off auth
  Step-disabled w w' off (queue now items simulations e) =
      ap (λ (u : World F). u.plant) e ∙ persist-plant now items simulations w
  Step-disabled w w' off (annotate id rec rec' found same code er en ea ep) = ep
  Step-disabled w w' off (move id rec rec' e writes found same allowed code auth er en ea ep) =
      ep ∙ none_when_disabled id rec writes w off auth

  -- With live writes disabled nothing is ever written to the plant.
  pub disabled_writes_nothing :
      (rs : List (Request F))
      → cfg.opc_write_enabled ≡ false
      → (run cfg plants rs empty_world).plant ≡ []
  disabled_writes_nothing rs off =
      run_inv cfg plants (λ w. w.plant ≡ []) (λ w w' st h. Step-disabled w w' off st ∙ h) rs
        empty_world refl
