-- ===== src/Routes/Spares.antt =====
-- The routes of app/api/routes/optimization.py on the demo memory leave the database alone.
use khalij_intelligent_energ.Base.{ℕ, String, Bool, true, false, ◌≡◌, refl, ◌∙◌, Option, none, some}
use khalij_intelligent_energ.Base.Float.{FloatOps}
use khalij_intelligent_energ.Base.Result.{
  Result, ok, err, ◌>>=◌, pure, gets, or_raise, guard, bind_keeps,
}
use khalij_intelligent_energ.Plant.Live.{LiveReading}
use khalij_intelligent_energ.Optimization.Model.{AdviceSimulation, Decision, World, ActionError}
use khalij_intelligent_energ.Demo.MemoryRecs
use khalij_intelligent_energ.Demo.MemoryRecs.{MemoryRecStore, MemoryError, is_memory_id}
use khalij_intelligent_energ.Routes.Outputs.{RouteError}
use khalij_intelligent_energ.Routes.Stores.{ApiState, Route, with_world, with_memory, on_memory}
use khalij_intelligent_energ.Routes.Memory.{
  memory_feedback, memory_approve, memory_apply, memory_impact, memory_simulate,
}

module _ {F A : Type 0} where
  pub with_world-world :
      (me : ActionError → RouteError) (st : ApiState F) (p : Result ActionError A × World F)
      → (with_world me st p).1.world ≡ p.1
  with_world-world me st (ok a, w) = refl
  with_world-world me st (err e, w) = refl

  with_memory-world :
      (st : ApiState F) (p : Result MemoryError A × MemoryRecStore F)
      → (with_memory st p).1.world ≡ st.world
  with_memory-world st (ok a, m) = refl
  with_memory-world st (err e, m) = refl

module _ {F : Type 0} where
  -- The routes on the demo memory leave the database alone.
  abbrev pub Spares : {A : Type 0} → Route F A → Type 0
  Spares m = (st : ApiState F) → (m st).1.world ≡ st.world

  bind-Spares :
      {A B : Type 0} (m : Route F A) (k : A → Route F B)
      → Spares m
      → ((a : A) → Spares (k a))
      → Spares (m >>= k)
  bind-Spares m k hm hk st =
      bind_keeps (λ (s : ApiState F). s.world ≡ st.world) m k st (hm st) (λ a s' h. hk a s' ∙ h)

  guard-Spares : (b : Bool) (e : RouteError) → Spares (guard b e)
  guard-Spares true e st = refl
  guard-Spares false e st = refl

  or_raise-Spares : {A : Type 0} (o : Option A) (e : RouteError) → Spares (or_raise o e)
  or_raise-Spares none e st = refl
  or_raise-Spares (some a) e st = refl

  on_memory-Spares : {A : Type 0} (call : MemoryRecs.Call F A) → Spares (on_memory call)
  on_memory-Spares call st = with_memory-world st (call st.memory)

  gets-Spares : {A : Type 0} (f : ApiState F → A) → Spares (gets f)
  gets-Spares f st = refl

  pure-Spares : {A : Type 0} (a : A) → Spares (pure a)
  pure-Spares a st = refl

ruleset keeps_database =
    (bind-Spares, guard-Spares, or_raise-Spares, on_memory-Spares, gets-Spares, pure-Spares)

module _ {F : Type 0} where
  pub memory_feedback-Spares :
      (now id : ℕ) (decision : Decision) (operator : String) (comment : Option String)
      → Spares {F = F} (memory_feedback now id decision operator comment)
  unfolding memory_feedback
  memory_feedback-Spares now id decision operator comment = search keeps_database

module _ {F : Type 0} ⦃fl : FloatOps F⦄ where
  pub memory_approve-Spares :
      (now id : ℕ) (actor : String) → Spares {F = F} (memory_approve now id actor)
  unfolding memory_approve
  memory_approve-Spares now id actor = search keeps_database

  pub memory_apply-Spares :
      (now id : ℕ) (actor : String) (dry : Option Bool)
      → Spares {F = F} (memory_apply now id actor dry)
  unfolding memory_apply
  memory_apply-Spares now id actor dry = search keeps_database

  pub memory_impact-Spares :
      (id : ℕ) (live : LiveReading F) (actor : String) → Spares (memory_impact id live actor)
  unfolding memory_impact
  memory_impact-Spares id live actor = search keeps_database

  pub memory_simulate-Spares : (id : ℕ) (sim : AdviceSimulation F) → Spares (memory_simulate id sim)
  unfolding memory_simulate
  memory_simulate-Spares id sim = search keeps_database
