-- ===== src/Ingestion/OpcuaWrite.antt =====
-- app/ingestion/opcua_write.py: the plan of setpoint writes, and the write itself. The asyncua
-- client and the server behind it are a parameter, `OpcServer`; what was written is part of the
-- result, since a write to the plant is not undone by an exception that comes after it.
pub mod Allowlist
use khalij_intelligent_energ.Base.{
  String, Bool, true, false, ◌&&◌, Option, none, some, List, [], ◌∷◌, not, is_empty, is_nil,
  or_else, contains, if◌then◌else◌,
}
use khalij_intelligent_energ.Base.Float.{FloatOps}
use khalij_intelligent_energ.Base.Result.{Result, ok, err}
use khalij_intelligent_energ.Base.Table.{Dict, get}
use khalij_intelligent_energ.Config.{Settings}
use khalij_intelligent_energ.Ingestion.TagMap.{TagDef, TagMap}

-- The reasons in a `WriteNotAllowedError`, and the errors of asyncua, which `write_setpoints` lets
-- through.
pub data WriteError : Type 0 where
  unknown_plant : String → WriteError
  write_disabled no_endpoint nothing_planned no_asyncua : WriteError
  opc_failure : WriteError

-- Is it a `WriteNotAllowedError`?
abbrev pub is_not_allowed : WriteError → Bool
is_not_allowed opc_failure = false
is_not_allowed _ = true

pub data Skipped : Type 0 where
  not_in_writable_fields no_tag tag_not_writable : String → Skipped

pub record WritePlanItem (F : Type 0) : Type 0 where
  pub field : String
  pub node_id : String
  pub value : F
  pub engineering_value : F
  pub scale : F
  pub offset : F

pub data WriteDetail : Type 0 where
  plan_only dry_run_detail live_write_ok : WriteDetail

-- `written` lists the items of the plan that were written.
pub record WriteResult (F : Type 0) : Type 0 where
  pub dry_run : Bool
  pub plant_code : String
  pub planned : List (WritePlanItem F)
  pub written : List (WritePlanItem F)
  pub skipped : List Skipped
  pub detail : WriteDetail

-- What the client and the server do: whether `import asyncua` and `connect` succeed, and whether
-- `write_value` at a node and the `disconnect` in the `finally` block do.
pub record OpcServer (F : Type 0) : Type 0 where
  pub installed : Bool
  pub connects : String → String → String → Bool
  pub accepts : String → F → Bool
  pub disconnects : Bool

module _ {F : Type 0} where
  -- `tag.write_node_id or tag.node_id`
  unfoldable pub write_node : TagDef F → String
  write_node tag = elim tag.write_node_id [
    | none ↦ tag.node_id
    | some node ↦ if is_empty node then tag.node_id else node
  ]

  -- `planned.append(…)` or `skipped.append(…)`, before what the later fields add
  abbrev pub collect :
      Result Skipped (WritePlanItem F)
      → List (WritePlanItem F) × List Skipped
      → List (WritePlanItem F) × List Skipped
  collect (ok item) (planned, skipped) = (item ∷ planned, skipped)
  collect (err why) (planned, skipped) = (planned, why ∷ skipped)

module _ {F : Type 0} ⦃fl : FloatOps F⦄ where
  open fl use {eq, sub, div, lit}

  -- `tag.scale if tag.scale else 1.0`
  unfoldable pub effective_scale : TagDef F → F
  effective_scale tag = if eq tag.scale (lit 0 0) then lit 1 0 else tag.scale

  unfoldable pub plan_item : String → TagDef F → F → WritePlanItem F
  unfolding write_node effective_scale
  plan_item name tag eng = record {
    field = name;
    node_id = write_node tag;
    value = div (sub eng tag.offset) (effective_scale tag);
    engineering_value = eng;
    scale = effective_scale tag;
    offset = tag.offset;
  }

  -- What the body of the loop over `proposed.items()` does with one field.
  unfoldable pub plan_field :
      List String → Dict (TagDef F) → String → F → Result Skipped (WritePlanItem F)
  unfolding plan_item
  plan_field allowed tags name v =
      if not (contains name allowed)
      then err (not_in_writable_fields name)
      else elim (get name tags) [
        | none ↦ err (no_tag name)
        | some tag ↦
            if not tag.writable then err (tag_not_writable name) else ok (plan_item name tag v)
      ]

  -- The loop: the items planned and the fields skipped, each in order.
  unfoldable pub plan_fields :
      List String → Dict (TagDef F) → Dict F → List (WritePlanItem F) × List Skipped
  plan_fields allowed tags [] = ([], [])
  plan_fields allowed tags ((name, v) ∷ rest) =
      collect (plan_field allowed tags name v) (plan_fields allowed tags rest)

  unfoldable pub plan_setpoint_writes :
      Settings F → TagMap F → String → Dict F → Result WriteError (WriteResult F)
  plan_setpoint_writes cfg plants code proposed = elim (get code plants) [
    | none ↦ err (unknown_plant code)
    | some plant ↦
        let (items, why) = plan_fields cfg.writable_field_list plant.tags proposed in
        ok (record {
          dry_run = true;
          plant_code = code;
          planned = items;
          written = [];
          skipped = why;
          detail = plan_only;
        })
  ]

module _ {F : Type 0} where
  -- The loop of writes: the items written, and whether it came to its end.
  unfoldable pub write_items : OpcServer F → List (WritePlanItem F) → List (WritePlanItem F) × Bool
  write_items opc [] = ([], true)
  write_items opc (item ∷ items) =
      let (done, finished) = write_items opc items in
      if opc.accepts item.node_id item.value then (item ∷ done, finished) else ([], false)

  -- The client's part of `write_setpoints`, from the import on. Beside the outcome stands what was
  -- written to the plant.
  unfoldable pub write_live :
      Settings F
      → OpcServer F
      → WriteResult F
      → Result WriteError (WriteResult F) × List (WritePlanItem F)
  write_live cfg opc plan =
      if not opc.installed
      then (err no_asyncua, [])
      else if not (opc.connects cfg.opc_ua_endpoint cfg.opc_ua_username cfg.opc_ua_password)
      then (err opc_failure, [])
      else (let (done, finished) = write_items opc plan.planned in
          if finished && opc.disconnects
          then (
            ok (record {
              dry_run = false;
              plant_code = plan.plant_code;
              planned = plan.planned;
              written = done;
              skipped = plan.skipped;
              detail = live_write_ok;
            }),
            done,
          )
          else (err opc_failure, done))

  -- `write_setpoints` once the plan stands, with `dry_run` decided.
  unfoldable pub run_plan :
      Settings F
      → OpcServer F
      → Bool
      → WriteResult F
      → Result WriteError (WriteResult F) × List (WritePlanItem F)
  unfolding write_live
  run_plan cfg opc do_dry plan =
      if do_dry
      then (ok (record plan { dry_run = true; detail = dry_run_detail }), [])
      else if not cfg.opc_write_enabled
      then (err write_disabled, [])
      else if is_empty cfg.opc_ua_endpoint
      then (err no_endpoint, [])
      else if is_nil plan.planned
      then (err nothing_planned, [])
      else write_live cfg opc plan

  abbrev pub run_planned :
      Settings F
      → OpcServer F
      → Bool
      → Result WriteError (WriteResult F)
      → Result WriteError (WriteResult F) × List (WritePlanItem F)
  run_planned cfg opc do_dry (err e) = (err e, [])
  run_planned cfg opc do_dry (ok plan) = run_plan cfg opc do_dry plan

module _ {F : Type 0} ⦃fl : FloatOps F⦄ where
  unfoldable pub write_setpoints :
      Settings F
      → TagMap F
      → OpcServer F
      → String
      → Dict F
      → Option Bool
      → Result WriteError (WriteResult F) × List (WritePlanItem F)
  write_setpoints cfg plants opc code proposed dry =
      run_planned cfg opc (or_else dry cfg.opc_write_dry_run_default)
        (plan_setpoint_writes cfg plants code proposed)
