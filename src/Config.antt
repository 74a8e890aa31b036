-- ===== src/Config.antt =====
-- app/core/config.py: the settings that the modelled parts read, and the methods that decide which
-- sources of data a deployment may fall back to. Texts that the program splits at commas
-- (`writable_field_list`, `unit_code_list`) are held as the lists that the split gives.
pub mod Examples
use khalij_intelligent_energ.Base.{
  ℕ, String, Bool, true, false, ◌||◌, ◌≡◌, List, arith, str_eq, if◌then◌else◌,
}

pub record Settings (F : Type 0) : Type 0 where
  pub app_env : String
  pub app_debug : Bool
  pub auth_enforce : Bool
  pub auth_login_require_2fa : Bool
  pub auth_token_ttl_seconds : ℕ
  pub demo_feeder : Bool
  pub demo_memory_only : Bool
  pub demo_prefer_memory : Bool
  pub plant_connect : Bool
  pub opc_ua_endpoint : String
  pub opc_ua_username : String
  pub opc_ua_password : String
  pub opc_ua_allow_uncertain : Bool
  pub unit_code_list : List String
  pub stale_data_seconds : F
  pub stream_alert_cooldown_seconds : F
  pub carbon_market_registry_name : String
  pub carbon_market_api_url : String
  pub carbon_market_require_locked : Bool
  pub ml_trusted_mode : Bool
  pub ml_allow_synthetic : Bool
  pub ml_allow_physics_fallback : Bool
  pub opc_write_enabled : Bool
  pub opc_write_dry_run_default : Bool
  pub opt_require_sim_before_apply : Bool
  pub opt_impact_window_minutes : ℕ
  pub writable_field_list : List String
  pub rto_interval_seconds : ℕ
  pub rto_persist_interval_seconds : ℕ

module _ {F : Type 0} where
  unfoldable pub trusted_mode_active : Settings F → Bool
  trusted_mode_active s = s.plant_connect || s.ml_trusted_mode

  unfoldable pub allow_demo_memory : Settings F → Bool
  allow_demo_memory s =
      if s.plant_connect
      then false
      else if s.app_debug || str_eq s.app_env "development"
      then true
      else s.demo_prefer_memory || s.demo_memory_only || s.demo_feeder

  pub should_run_demo_feeder : Settings F → Bool
  should_run_demo_feeder s =
      if s.plant_connect
      then false
      else if s.demo_feeder
      then true
      else s.app_debug || str_eq s.app_env "development"

  unfoldable pub allow_ml_synthetic : Settings F → Bool
  unfolding trusted_mode_active
  allow_ml_synthetic s = if trusted_mode_active s then false else s.ml_allow_synthetic

  unfoldable pub allow_ml_physics_fallback : Settings F → Bool
  unfolding trusted_mode_active
  allow_ml_physics_fallback s = if trusted_mode_active s then false else s.ml_allow_physics_fallback

  pub fallback→untrusted :
      (s : Settings F) → allow_ml_physics_fallback s ≡ true → trusted_mode_active s ≡ false
  unfolding allow_ml_physics_fallback
  fallback→untrusted s h = ground arith

  -- Connected to a plant, the program takes nothing from the demo memory, runs no demo feeder, and
  -- neither trains on synthetic data nor falls back to the physics formulas.
  pub plant_connect_disables_demo :
      (s : Settings F)
      → s.plant_connect ≡ true
      → (allow_demo_memory s ≡ false)
        × (should_run_demo_feeder s ≡ false)
        × (allow_ml_synthetic s ≡ false)
        × (allow_ml_physics_fallback s ≡ false)
  unfolding allow_demo_memory should_run_demo_feeder allow_ml_synthetic allow_ml_physics_fallback
  plant_connect_disables_demo s h = ground arith
