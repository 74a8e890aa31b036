-- ===== src/Carbon/Workflow.antt =====
-- The calls of app/carbon in any order: one request after another, with the factors, the sensors'
-- means and the registry's answers that each meets.
pub mod Sound
pub mod Final
use khalij_intelligent_energ.Base.{ℕ, String, Bool, Option, List, [], ◌∷◌}
use khalij_intelligent_energ.Base.Float.{FloatOps}
use khalij_intelligent_energ.Base.Table.{Table}
use khalij_intelligent_energ.Config.{Settings}
use khalij_intelligent_energ.Carbon.Model.{PeriodType, RegistryItem, CarbonDb}
use khalij_intelligent_energ.Carbon.Scopes.{Factors}
use khalij_intelligent_energ.Carbon.Assurance.{submit_report, approve_report, lock_report}
use khalij_intelligent_energ.Carbon.Reports.{PeriodWindow, SensorStats, generate_and_persist_report}
use khalij_intelligent_energ.Carbon.Market.{HttpResponse, sync_carbon_market}
use khalij_intelligent_energ.Carbon.Steps.{Step}
use khalij_intelligent_energ.Carbon.Steps.Calls.{
  submit-Step, approve-Step, lock-Step, generate-Step, sync-Step,
}

pub data Request (F : Type 0) : Type 0 where
  generate : Factors F → ℕ → PeriodWindow → SensorStats F → String → PeriodType → Request F
  submit approve lock : ℕ → ℕ → String → Option String → Request F
  sync :
      Settings F
      → (List (RegistryItem F) → Option HttpResponse)
      → Bool
      → ℕ
      → String
      → Option String
      → Bool
      → Request F

-- A database with plants and no reports.
abbrev pub new_db : {F : Type 0} → Table String → CarbonDb F
new_db plants = record { plants = plants; reports = []; next_id = 1; events = []; syncs = [] }

module _ {F : Type 0} ⦃fl : FloatOps F⦄ where
  unfoldable pub serve : Request F → CarbonDb F → CarbonDb F
  serve (generate fs now window row code period) db =
      (generate_and_persist_report fs now window row code period db).1
  serve (submit now id actor comment) db = (submit_report now id actor comment db).1
  serve (approve now id actor comment) db = (approve_report now id actor comment db).1
  serve (lock now id actor comment) db = (lock_report now id actor comment db).1
  serve (sync cfg post staged now batch filter force) db =
      (sync_carbon_market cfg post staged now batch filter force db).1

  unfoldable pub run : List (Request F) → CarbonDb F → CarbonDb F
  run [] db = db
  run (r ∷ rs) db = run rs (serve r db)

  pub serve-Step : (r : Request F) (db : CarbonDb F) → Step db (serve r db)
  unfolding serve
  serve-Step (generate fs now window row code period) db =
      generate-Step fs now window row code period db
  serve-Step (submit now id actor comment) db = submit-Step now id actor comment db
  serve-Step (approve now id actor comment) db = approve-Step now id actor comment db
  serve-Step (lock now id actor comment) db = lock-Step now id actor comment db
  serve-Step (sync cfg post staged now batch filter force) db =
      sync-Step cfg post staged now batch filter force db

  -- An invariant of the steps holds along every run.
  pub run_inv {κ} :
      (P : CarbonDb F → Type κ)
      → ((db db' : CarbonDb F) → Step db db' → P db → P db')
      → (rs : List (Request F)) (db : CarbonDb F) → P db
      → P (run rs db)
  unfolding run
  run_inv P keep [] db h = h
  run_inv P keep (r ∷ rs) db h =
      run_inv P keep rs (serve r db) (keep db (serve r db) (serve-Step r db) h)
