-- ===== src/Routes/Refinement.antt =====
-- The routes of app/api/routes/optimization.py over the workflow of app/optimization: what each handler
-- makes of the database.
use khalij_intelligent_energ.Base.{ℕ, Bool, ◌≡◌, Option}
use khalij_intelligent_energ.Base.Float.{FloatOps}
use khalij_intelligent_energ.Config.{Settings}
use khalij_intelligent_energ.Ingestion.TagMap.{TagMap}
use khalij_intelligent_energ.Optimization.Model.{
  UnitOperatingState, SetpointAdvice, AdviceSimulation, World,
}
use khalij_intelligent_energ.Optimization.Engine.{Wording}
use khalij_intelligent_energ.Rto.{Loads}
use khalij_intelligent_energ.Optimization.Store.{Storing}
use khalij_intelligent_energ.Optimization.Store
use khalij_intelligent_energ.Security.Auth.{Digests}
use khalij_intelligent_energ.Routes.Stores.{Header}
use khalij_intelligent_energ.Routes.Recommendations
use khalij_intelligent_energ.Routes.Requests.{ApiRequest}
use khalij_intelligent_energ.Routes.Spares.{Spares}
use khalij_intelligent_energ.Routes.Effects.{Effect, IsBacked, effect_on}

module _ {F : Type 0} ⦃fl : FloatOps F⦄ (cfg : Settings F) (plants : TagMap F) (d : Digests) where
  -- The database after at most one effect.
  pub data Serves (r : ApiRequest F) (w w' : World F) : Type 0 where
    spared : w' ≡ w → Serves r w w'
    called :
        (effect : Effect F)
        → IsBacked cfg d r effect
        → w' ≡ effect_on cfg plants effect w
        → Serves r w w'

  -- The end of `analyze`, for the request with these arguments.
  module _ (words : Wording F) (loads : Loads F)
      (sim : UnitOperatingState F → SetpointAdvice F → Option (AdviceSimulation F))
      (simulates wanted : Bool) (database : Storing) (now : ℕ) (header : Header) where
    abbrev Analyzes : World F → World F → Type 0
    Analyzes = Serves (ApiRequest.analyze words loads sim simulates wanted database now header)
