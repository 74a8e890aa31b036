-- ===== src/Rto/Queue/Examples.antt =====
-- Rounds of the scheduler on small data, and the theorems at inputs that
-- meet their hypotheses.
use khalij_intelligent_energ.Base.{true, false, ◌≡◌, refl, none, some, [], arith}
use khalij_intelligent_energ.Base.IntFloat.{ℤ, pos, int_float}
use khalij_intelligent_energ.Config.{Settings}
use khalij_intelligent_energ.Demo.MemoryRecs.{new_memory, persist}
use khalij_intelligent_energ.Optimization.Engine.Examples.{wording, units}
use khalij_intelligent_energ.Optimization.Workflow.{empty_world}
use khalij_intelligent_energ.Optimization.Store.{
  breaks_after, takes, add_rows, append_audit, audit_rows, get_recommendation, new_row,
  persist_recommendations, try_persist,
}
use khalij_intelligent_energ.Optimization.Engine.{
  build_structured_advice, last_of, best_from, advise_units, classify_units, benchmark, advise_unit,
  median_efficiency, sorted, insert_sorted, deltas_of, proposed_of, clip, temp_delta, advice_for,
  feed_delta, fuel_delta, sec_reduction_pct, steam_delta, tags_of,
}
use khalij_intelligent_energ.Base.Table.{insert, lookup, get}
use khalij_intelligent_energ.Rto.{
  RtoState, run_once, compute_rto_cycle, all_alike, store_advice, mark,
}
use khalij_intelligent_energ.Rto.Queue.{OnlyQueues, rto-OnlyQueues, rto_waits}

abbrev settings : Settings ℤ
settings = record {
  app_env = "development";
  app_debug = true;
  auth_enforce = false;
  auth_login_require_2fa = false;
  auth_token_ttl_seconds = 3600;
  demo_feeder = false;
  demo_memory_only = false;
  demo_prefer_memory = false;
  plant_connect = false;
  opc_ua_endpoint = "";
  opc_ua_username = "";
  opc_ua_password = "";
  opc_ua_allow_uncertain = true;
  unit_code_list = [];
  stale_data_seconds = pos 5;
  stream_alert_cooldown_seconds = pos 30;
  carbon_market_registry_name = "";
  carbon_market_api_url = "";
  carbon_market_require_locked = true;
  ml_trusted_mode = false;
  ml_allow_synthetic = true;
  ml_allow_physics_fallback = true;
  opc_write_enabled = false;
  opc_write_dry_run_default = true;
  opt_require_sim_before_apply = true;
  opt_impact_window_minutes = 15;
  writable_field_list = [];
  rto_interval_seconds = 10;
  rto_persist_interval_seconds = 120;
}

abbrev idle : RtoState ℤ
idle = record {
  last_persist = some 900;
  status = record { last_cycle_at = none; last_persisted_at = some 900; last_persisted_count = 1 };
  world = empty_world;
  memory = new_memory;
}

rto-OnlyQueues_example :
    let after =
      (run_once settings wording 1100
        (some (units, units))
        (units, units)
        (breaks_after 0)
        idle).1 in
    OnlyQueues 1100 idle.world after.world × (after.world.plant ≡ [])
rto-OnlyQueues_example =
    rto-OnlyQueues settings wording 1100 (some (units, units)) (units, units) (breaks_after 0) idle

rto_waits_example :
    let first =
      (run_once settings wording 1100 (some (units, units)) (units, units) takes idle).1 in
    let second = (run_once settings wording 1200 none (units, units) takes first).1 in
    (second.world ≡ first.world)
    × (second.memory ≡ first.memory)
    × (second.last_persist ≡ some 1100)
unfolding run_once compute_rto_cycle all_alike store_advice mark build_structured_advice last_of
    best_from advise_units classify_units benchmark advise_unit median_efficiency sorted
    insert_sorted deltas_of proposed_of clip temp_delta advice_for feed_delta fuel_delta
    sec_reduction_pct steam_delta tags_of add_rows append_audit audit_rows get_recommendation
    new_row persist_recommendations try_persist insert lookup get persist
rto_waits_example =
    rto_waits settings wording 1100 (some (units, units)) (units, units) takes idle 0 1200 none
      (units, units) takes refl (omega arith)
