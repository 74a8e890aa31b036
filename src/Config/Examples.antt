-- ===== src/Config/Examples.antt =====
-- The settings of the examples: app/core/config.py's defaults, with whole numbers for floats.
use khalij_intelligent_energ.Base.{ℕ, true, false, [], ◌∷◌}
use khalij_intelligent_energ.Config.{Settings}

abbrev pub default_settings : Settings ℕ
default_settings = record {
  app_env = "development";
  app_debug = true;
  auth_enforce = false;
  auth_login_require_2fa = false;
  auth_token_ttl_seconds = 3600;
  demo_feeder = false;
  demo_memory_only = false;
  demo_prefer_memory = false;
  plant_connect = false;
  opc_ua_endpoint = "";
  opc_ua_username = "";
  opc_ua_password = "";
  opc_ua_allow_uncertain = true;
  unit_code_list = "olefin" ∷ "pta" ∷ [];
  stale_data_seconds = 5;
  stream_alert_cooldown_seconds = 30;
  carbon_market_registry_name = "khalij-carbon-registry";
  carbon_market_api_url = "";
  carbon_market_require_locked = true;
  ml_trusted_mode = false;
  ml_allow_synthetic = true;
  ml_allow_physics_fallback = true;
  opc_write_enabled = false;
  opc_write_dry_run_default = true;
  opt_require_sim_before_apply = true;
  opt_impact_window_minutes = 15;
  writable_field_list = "reactor_temp_c" ∷ "feed_flow_tonh" ∷ [];
  rto_interval_seconds = 10;
  rto_persist_interval_seconds = 120;
}

-- A plant that takes live writes.
abbrev pub live_settings : Settings ℕ
live_settings = record default_settings {
  plant_connect = true;
  opc_ua_endpoint = "opc.tcp://plant:4840";
  opc_write_enabled = true;
  opc_write_dry_run_default = false;
}
