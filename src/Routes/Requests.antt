-- ===== src/Routes/Requests.antt =====
-- Any sequence of requests to the routes of app/api/routes/optimization.py.
use khalij_intelligent_energ.Base.{ℕ, String, Bool, Option, List, [], ◌∷◌}
use khalij_intelligent_energ.Base.Float.{FloatOps}
use khalij_intelligent_energ.Config.{Settings}
use khalij_intelligent_energ.Ingestion.TagMap.{TagMap}
use khalij_intelligent_energ.Ingestion.OpcuaWrite.{OpcServer}
use khalij_intelligent_energ.Plant.Live.{LiveReading}
use khalij_intelligent_energ.Optimization.Model.{
  UnitOperatingState, SetpointAdvice, AdviceSimulation, Decision,
}
use khalij_intelligent_energ.Optimization.Engine.{Wording}
use khalij_intelligent_energ.Optimization.Store.{Storing}
use khalij_intelligent_energ.Optimization.Impact.{Sample}
use khalij_intelligent_energ.Rto.{Loads}
use khalij_intelligent_energ.Security.Auth.{Digests}
use khalij_intelligent_energ.Routes.Stores.{ApiState, Header}
use khalij_intelligent_energ.Routes.Recommendations
use khalij_intelligent_energ.Routes.Recommendations.{
  feedback_recommendation, simulate_recommendation,
}

-- A route with its arguments, with the instant, the header and what the code reads elsewhere.
pub data ApiRequest (F : Type 0) : Type 0 where
  analyze :
      Wording F
      → Loads F
      → (UnitOperatingState F → SetpointAdvice F → Option (AdviceSimulation F))
      → Bool
      → Bool
      → Storing
      → ℕ
      → Header
      → ApiRequest F
  feedback : ℕ → Header → ℕ → Decision → String → Option String → ApiRequest F
  approve : ℕ → Header → ℕ → Option String → ApiRequest F
  apply : OpcServer F → Option (UnitOperatingState F) → ℕ → Header → ℕ → Option Bool → ApiRequest F
  impact : List (Sample F) → LiveReading F → ℕ → Header → ℕ → ApiRequest F
  simulate : (SetpointAdvice F → Option (AdviceSimulation F)) → ℕ → ApiRequest F

module _ {F : Type 0} ⦃fl : FloatOps F⦄ (cfg : Settings F) (plants : TagMap F) (d : Digests) where
  unfoldable pub serve_api : ApiRequest F → ApiState F → ApiState F
  serve_api (analyze words loads sim simulates wanted database now header) st =
      (Recommendations.analyze cfg d words loads sim simulates wanted database now header st).1
  serve_api (feedback now header id decision operator comment) st =
      (feedback_recommendation cfg d now header id decision operator comment st).1
  serve_api (approve now header id comment) st =
      (Recommendations.approve cfg d now header id comment st).1
  serve_api (apply opc state now header id dry) st =
      (Recommendations.apply cfg d plants opc state now header id dry st).1
  serve_api (impact history live now header id) st =
      (Recommendations.impact cfg d history live now header id st).1
  serve_api (simulate sim id) st = (simulate_recommendation sim id st).1

  unfoldable pub run_api : List (ApiRequest F) → ApiState F → ApiState F
  run_api [] st = st
  run_api (r ∷ rs) st = run_api rs (serve_api r st)
