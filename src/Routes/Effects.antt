-- ===== src/Routes/Effects.antt =====
-- What a request to the routes of app/api/routes/optimization.py may make of the database, and what it takes
-- of its caller.
use khalij_intelligent_energ.Base.{◌⊎◌, ℕ, String, ◌≡◌, Option, some, List, [], ◌∷◌, if◌then◌else◌}
use khalij_intelligent_energ.Base.Float.{FloatOps}
use khalij_intelligent_energ.Base.Result.{ok}
use khalij_intelligent_energ.Base.Table.{Dict}
use khalij_intelligent_energ.Config.{Settings}
use khalij_intelligent_energ.Ingestion.TagMap.{TagMap}
use khalij_intelligent_energ.Optimization.Model.{SetpointAdvice, AdviceSimulation, World}
use khalij_intelligent_energ.Optimization.Engine.{Wording, classify_units, build_structured_advice}
use khalij_intelligent_energ.Rto.{Loads, is_one_snapshot}
use khalij_intelligent_energ.Optimization.Store.{breaks_after, try_persist}
use khalij_intelligent_energ.Optimization.Workflow.{
  Request, advise, give_feedback, approve, apply, measure, simulate, serve,
}
use khalij_intelligent_energ.Security.Auth.{Digests}
use khalij_intelligent_energ.Security.Deps.{CurrentUser, request_action}
use khalij_intelligent_energ.Routes.Stores.{Header}
use khalij_intelligent_energ.Routes.Requests.{ApiRequest}

-- What a request has made of the database: a call of the workflow, or a call of the store that broke off
-- between the rows and the last of their events.
pub data Effect (F : Type 0) : Type 0 where
  workflow : Request F → Effect F
  broken_off : ℕ → ℕ → List (SetpointAdvice F) → Dict (AdviceSimulation F) → Effect F

module _ {F : Type 0} ⦃fl : FloatOps F⦄ where
  -- The advice on the loaded states, or on those of the load without a session.
  abbrev pub advised : Wording F → Loads F → Option (List (SetpointAdvice F))
  advised words loads =
      let states = if is_one_snapshot loads.0 then loads.1 else loads.0 in
      build_structured_advice words states (classify_units states)

module _ {F : Type 0} ⦃fl : FloatOps F⦄ (cfg : Settings F) (d : Digests) where
  abbrev pub IsUser : String → ℕ → Header → CurrentUser → Type 0
  IsUser action now header user = request_action cfg d now action header ≡ ok user

  -- The effect is that of the request: it is made with the request's own arguments, at its instant, and
  -- the request's own header passed for what the route asks for, as the user in whose name it is made.
  abbrev pub IsBacked : ApiRequest F → Effect F → Type 0
  IsBacked (ApiRequest.analyze words loads sim simulates wanted database now header) effect =
      (user : CurrentUser) × IsUser "operate" now header user
      × (items : List (SetpointAdvice F)) × (advised words loads ≡ some items)
      × (sims : Dict (AdviceSimulation F)) × ((effect ≡ workflow (advise now items sims))
          ⊎ ((done : ℕ) × (database ≡ breaks_after done)
              × (effect ≡ broken_off done now items sims)))
  IsBacked (ApiRequest.feedback now header id decision operator comment) effect =
      (user : CurrentUser) × IsUser "operate" now header user
      × (effect ≡ workflow (give_feedback now id decision operator comment))
  IsBacked (ApiRequest.approve now header id comment) effect =
      (user : CurrentUser) × IsUser "operate" now header user
      × (effect ≡ workflow (approve now id user.username comment))
  IsBacked (ApiRequest.apply opc state now header id dry) effect =
      (user : CurrentUser) × IsUser "apply" now header user
      × (effect ≡ workflow (apply opc state now id user.username dry))
  IsBacked (ApiRequest.impact history live now header id) effect =
      (user : CurrentUser) × IsUser "operate" now header user
      × (effect ≡ workflow (measure history now id user.username))
  IsBacked (ApiRequest.simulate sim id) effect =
      (result : AdviceSimulation F) × (effect ≡ workflow (simulate id result))

  -- The effects of a list of requests in their order, at most one for each.
  abbrev pub AreBacked : List (ApiRequest F) → List (Effect F) → Type 0
  AreBacked [] effects = effects ≡ []
  AreBacked (r ∷ rs) effects =
      AreBacked rs effects
      ⊎ ((effect : Effect F) × (rest : List (Effect F)) × (effects ≡ effect ∷ rest)
          × IsBacked r effect
          × AreBacked rs rest)

module _ {F : Type 0} ⦃fl : FloatOps F⦄ (cfg : Settings F) (plants : TagMap F) where
  abbrev pub effect_on : Effect F → World F → World F
  effect_on (workflow r) w = serve cfg plants r w
  effect_on (broken_off done now items sims) w =
      (try_persist (breaks_after done) now items sims w).1

  unfoldable pub effects_on : List (Effect F) → World F → World F
  effects_on [] w = w
  effects_on (effect ∷ effects) w = effects_on effects (effect_on effect w)
