-- ===== src/Optimization/Examples.antt =====
-- Runs of the workflow on small data, and the theorems at inputs that meet their hypotheses.
use khalij_intelligent_energ.Base.{
  String, not, map, keep, ℕ, true, ◌≡◌, refl, none, some, List, [], ◌∷◌, ◌++◌, All, length, str_eq,
}
use khalij_intelligent_energ.Base.NatFloat.{nat_float}
use khalij_intelligent_energ.Base.Result.{ok, err}
use khalij_intelligent_energ.Base.Table.{Dict, lookup, insert, get}
use khalij_intelligent_energ.Config.Examples.{live_settings}
use khalij_intelligent_energ.Ingestion.TagMap.{TagDef, PlantTagMap, TagMap}
use khalij_intelligent_energ.Ingestion.OpcuaWrite.{
  OpcServer, plan_item, plan_field, plan_fields, plan_setpoint_writes, write_items, run_plan,
  write_setpoints,
}
use khalij_intelligent_energ.Ingestion.OpcuaWrite.Allowlist.{
  IsPermitted, requested, may_write, skipped_field, plan_fields_lem, write_setpoints-IsPermitted,
}
use khalij_intelligent_energ.Optimization.Model.{
  SetpointAdvice, AdviceSimulation, Status, ApplyMode, Priority, Decision, AuditEvent,
  Recommendation, World, opc_error,
}
use khalij_intelligent_energ.Optimization.Store.{persist_recommendations, submit_feedback}
use khalij_intelligent_energ.Optimization.Apply.{
  ApplyOutcome, approve_recommendation, log_writes, settle_apply, apply_recommendation,
}
use khalij_intelligent_energ.Optimization.Apply.Outcome.{apply_crash_unrecorded, dry_run_applies}
use khalij_intelligent_energ.Optimization.Trail.{absent, at, replay, track_of}
use khalij_intelligent_energ.Optimization.Workflow.{
  Request, advise, give_feedback, approve, apply, empty_world, serve, run,
}
use khalij_intelligent_energ.Optimization.Workflow.Approval.{IsJustified}
use khalij_intelligent_energ.Optimization.Workflow.Audit.{
  audit_replays_status, audit_append_only, final_status_kept,
}
use khalij_intelligent_energ.Optimization.Workflow.Safety.{plant_writes-IsJustified}

abbrev pub temp_tag : TagDef ℕ
temp_tag = record {
  field = "reactor_temp_c";
  node_id = "ns=2;s=T1";
  unit = "C";
  description = "";
  scale = 2;
  offset = 10;
  writable = true;
  write_node_id = some "ns=2;s=T1.SP";
}

abbrev pub feed_tag : TagDef ℕ
feed_tag = record temp_tag { field = "feed_flow_tonh"; node_id = "ns=2;s=F1"; write_node_id = none }

abbrev pub olefin : PlantTagMap ℕ
olefin = record {
  code = "olefin";
  name = "Olefin";
  tags = ("reactor_temp_c", temp_tag) ∷ ("feed_flow_tonh", feed_tag) ∷ [];
  endpoint = none;
}

abbrev pub tag_map : TagMap ℕ
tag_map = ("olefin", olefin) ∷ []

abbrev pub setpoints : Dict ℕ
setpoints = ("reactor_temp_c", 390) ∷ ("feed_flow_tonh", 110) ∷ ("steam_flow_tonh", 30) ∷ []

-- Takes the first setpoint and then loses the connection.
abbrev pub failing_server : OpcServer ℕ
failing_server = record {
  installed = true;
  connects = λ _ _ _. true;
  accepts = λ node v. str_eq node "ns=2;s=T1.SP";
  disconnects = true;
}

abbrev pub good_server : OpcServer ℕ
good_server = record failing_server { accepts = λ _ _. true }

abbrev pub advice : SetpointAdvice ℕ
advice = record {
  plant_code = "olefin";
  priority = Priority.high;
  title = "Align";
  rationale = "";
  current = [];
  proposed = setpoints;
  deltas = [];
  estimated_sec_reduction_pct = 4;
  estimated_energy_saving_kwh_per_h = 120;
  estimated_efficiency_gain_pp = 2;
  benchmark_plant = some "pta";
  tags = "sec" ∷ [];
}

abbrev simulated : Dict (AdviceSimulation ℕ)
simulated =
    (
      "olefin",
      record {
        plant_code = "olefin";
        before_intensity = 100;
        after_intensity = 103;
        before_efficiency = 80;
        after_efficiency = 81;
        before_carbon_intensity = 8;
        after_carbon_intensity = 8;
        intensity_delta = 3;
        efficiency_delta_pp = 1;
        carbon_delta = 0;
        model = none;
        source = none;
      },
    )
    ∷ []

abbrev to_approved : List (Request ℕ)
to_approved =
    advise 100 (advice ∷ []) simulated
    ∷ give_feedback 101 1 Decision.accepted "op" none
    ∷ approve 102 1 "op" none
    ∷ []

abbrev apply_live : OpcServer ℕ → Request ℕ
apply_live server = apply server none 103 1 "admin" none

abbrev ready_world : World ℕ
ready_world = run live_settings tag_map to_approved empty_world

-- Its row.
abbrev approved_row : Recommendation ℕ
approved_row = record {
  plant_code = "olefin";
  priority = Priority.high;
  title = "Align";
  rationale = "";
  current = [];
  proposed = setpoints;
  deltas = [];
  tags = "sec" ∷ [];
  benchmark_plant = some "pta";
  estimated_sec_reduction_pct = some 4;
  estimated_energy_saving_kwh_per_h = some 120;
  estimated_efficiency_gain_pp = some 2;
  simulated_intensity_delta = some 3;
  simulated_efficiency_delta_pp = some 1;
  status = Status.approved;
  approved_by = some "op";
  approved_at = some 102;
  applied_by = none;
  applied_at = none;
  apply_mode = none;
  baseline_intensity = none;
  baseline_efficiency = none;
  realized_saving_kwh_per_h = none;
  created_at = 100;
  resolved_at = none;
}

approved_run : track_of (lookup 1 ready_world.recs) ≡ at Status.approved
unfolding run serve lookup insert persist_recommendations submit_feedback approve_recommendation
approved_run = refl

-- The call is rejected, the plant has the first setpoint, and no event says so.
crashed :
    (apply_recommendation live_settings tag_map failing_server none 103 1 "admin" none
      ready_world).0
    ≡ err opc_error
unfolding run serve lookup insert get persist_recommendations submit_feedback approve_recommendation
    apply_recommendation write_setpoints run_plan plan_setpoint_writes plan_fields plan_field
    plan_item write_items settle_apply log_writes
crashed = refl

crash_leaves_a_write :
    length
      (apply_recommendation live_settings tag_map failing_server none 103 1 "admin" none
        ready_world).1.plant
    ≡ 1
unfolding run serve lookup insert get persist_recommendations submit_feedback approve_recommendation
    apply_recommendation write_setpoints run_plan plan_setpoint_writes plan_fields plan_field
    plan_item write_items settle_apply log_writes
crash_leaves_a_write = refl

applied_run :
    track_of (
      lookup 1
        (run live_settings tag_map (to_approved ++ apply_live good_server ∷ []) empty_world).recs)
    ≡ at Status.applied
unfolding run serve lookup insert get persist_recommendations submit_feedback approve_recommendation
    apply_recommendation write_setpoints run_plan plan_setpoint_writes plan_fields plan_field
    plan_item write_items settle_apply log_writes
applied_run = refl

write_setpoints-IsPermitted_example :
    All
      (IsPermitted live_settings tag_map "olefin")
      (write_setpoints live_settings tag_map good_server "olefin" setpoints none).1
write_setpoints-IsPermitted_example =
    write_setpoints-IsPermitted live_settings tag_map good_server "olefin" setpoints none

plan_fields_lem_example :
    let allowed = live_settings.writable_field_list in
    (map requested (plan_fields allowed olefin.tags setpoints).0
      ≡ keep (λ (p : String × ℕ). may_write allowed olefin.tags p.0) setpoints)
    × (map skipped_field (plan_fields allowed olefin.tags setpoints).1
        ≡ map
            (λ (p : String × ℕ). p.0)
            (keep (λ (p : String × ℕ). not (may_write allowed olefin.tags p.0)) setpoints))
plan_fields_lem_example = plan_fields_lem live_settings.writable_field_list olefin.tags setpoints

audit_replays_status_example :
    let w = run live_settings tag_map (to_approved ++ apply_live good_server ∷ []) empty_world in
    replay 1 absent w.audit ≡ track_of (lookup 1 w.recs)
audit_replays_status_example =
    audit_replays_status live_settings tag_map (to_approved ++ apply_live good_server ∷ []) 1

audit_append_only_example :
    (more : List (AuditEvent ℕ)) × ((run live_settings tag_map
        (apply_live good_server ∷ [])
        ready_world).audit
      ≡ ready_world.audit ++ more)
audit_append_only_example =
    audit_append_only live_settings tag_map (apply_live good_server ∷ []) ready_world

final_status_kept_example :
    track_of (
      lookup 1
        (run live_settings tag_map (apply_live good_server ∷ []) (
          run live_settings tag_map (to_approved ++ apply_live good_server ∷ []) empty_world)).recs)
    ≡ at Status.applied
final_status_kept_example =
    final_status_kept live_settings tag_map (to_approved ++ apply_live good_server ∷ [])
      (apply_live good_server ∷ []) 1 Status.applied refl applied_run

plant_writes-IsJustified_example :
    let w = run live_settings tag_map (to_approved ++ apply_live good_server ∷ []) empty_world in
    All (IsJustified live_settings tag_map w) w.plant
plant_writes-IsJustified_example =
    plant_writes-IsJustified live_settings tag_map (to_approved ++ apply_live good_server ∷ [])

apply_crash_unrecorded_example :
    let w' =
      (apply_recommendation live_settings tag_map failing_server none 103 1 "admin" none
        ready_world).1 in
    (w'.recs ≡ ready_world.recs)
    × (w'.audit ≡ ready_world.audit)
    × (w'.feedback ≡ ready_world.feedback)
apply_crash_unrecorded_example =
    apply_crash_unrecorded live_settings tag_map failing_server none 103 1 "admin" none ready_world
      crashed

dry_run_applies_example :
    (outcome : ApplyOutcome ℕ) × ((apply_recommendation live_settings tag_map good_server none 103 1
        "admin"
        (some true)
        ready_world).0
      ≡ ok outcome)
    × (outcome.apply_mode ≡ ApplyMode.dry_run)
    × (outcome.written ≡ [])
    × (let w' =
          (apply_recommendation live_settings tag_map good_server none 103 1 "admin"
            (some true)
            ready_world).1 in
        (w'.plant ≡ ready_world.plant)
        × (rec' : Recommendation ℕ) × (lookup 1 w'.recs ≡ some rec')
        × (rec'.status ≡ Status.applied)
        × (rec'.apply_mode ≡ some ApplyMode.dry_run)
        × (rec'.applied_by ≡ some "admin")
        × (rec'.proposed ≡ setpoints))
unfolding run serve lookup insert get persist_recommendations submit_feedback approve_recommendation
dry_run_applies_example =
    dry_run_applies live_settings tag_map good_server none 103 1 "admin" (some true) ready_world
      approved_row olefin refl (record { approved_status = refl; simulated = refl }) refl refl
