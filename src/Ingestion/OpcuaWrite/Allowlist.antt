-- ===== src/Ingestion/OpcuaWrite/Allowlist.antt =====
-- What app/ingestion/opcua_write.py writes to the plant: only planned items, and of these only
-- fields that the settings allow at tags that are marked writable.
use khalij_intelligent_energ.Base.{
  not, ◌&&◌, none, map, keep, String, Bool, true, false, ◌≡◌, ◌≢◌, inl, inr, refl, Option, some,
  List, [], ◌∷◌, arith, All, All-map, contains, is_empty, or_else, Bool-cases, Option-cases,
}
use khalij_intelligent_energ.Base.Float.{FloatOps}
use khalij_intelligent_energ.Base.Result.{Result, ok, err}
use khalij_intelligent_energ.Base.Table.{Dict, get}
use khalij_intelligent_energ.Config.{Settings}
use khalij_intelligent_energ.Ingestion.TagMap.{TagDef, PlantTagMap, TagMap}
use khalij_intelligent_energ.Ingestion.OpcuaWrite.{
  Skipped, not_in_writable_fields, no_tag, tag_not_writable, plan_item, WriteError, WritePlanItem,
  WriteResult, OpcServer, write_node, collect, plan_field, plan_fields, plan_setpoint_writes,
  write_items, run_plan, run_planned, write_setpoints,
}

abbrev pub skipped_field : Skipped → String
skipped_field (not_in_writable_fields name) = name
skipped_field (no_tag name) = name
skipped_field (tag_not_writable name) = name

module _ {F : Type 0} where
  -- The field is allowed, and the item goes to the node of a writable tag of that field.
  abbrev pub IsAllowlisted : List String → Dict (TagDef F) → WritePlanItem F → Type 0
  IsAllowlisted allowed tags item =
      (contains item.field allowed ≡ true)
      × (tag : TagDef F) × (get item.field tags ≡ some tag)
      × (tag.writable ≡ true)
      × (item.node_id ≡ write_node tag)

  -- The same at the tags of a plant of the map.
  abbrev pub IsPermitted : Settings F → TagMap F → String → WritePlanItem F → Type 0
  IsPermitted cfg plants code item =
      (plant : PlantTagMap F) × (get code plants ≡ some plant)
      × IsAllowlisted cfg.writable_field_list plant.tags item

module _ {F : Type 0} ⦃fl : FloatOps F⦄ where
  plan_field-IsAllowlisted :
      (allowed : List String) (tags : Dict (TagDef F)) (name : String) (v : F)
      (item : WritePlanItem F)
      → plan_field allowed tags name v ≡ ok item
      → IsAllowlisted allowed tags item
  unfolding plan_field
  plan_field-IsAllowlisted allowed tags name v item h = elim (Option-cases (get name tags)) [
    | inl e ↦ ground arith
    | inr (tag, e) ↦ elim (Bool-cases tag.writable) [
      | inl w ↦ (ground arith, tag, ground arith, ground arith, ground arith)
      | inr w ↦ ground arith
    ]
  ]

  collect-IsAllowlisted :
      (allowed : List String) (tags : Dict (TagDef F)) (r : Result Skipped (WritePlanItem F))
      (rest : List (WritePlanItem F) × List Skipped)
      → ((item : WritePlanItem F) → r ≡ ok item → IsAllowlisted allowed tags item)
      → All (IsAllowlisted allowed tags) rest.0
      → All (IsAllowlisted allowed tags) (collect r rest).0
  collect-IsAllowlisted allowed tags (ok item) rest h hs = (h item refl, hs)
  collect-IsAllowlisted allowed tags (err why) rest h hs = hs

  plan_fields-IsAllowlisted :
      (allowed : List String) (tags : Dict (TagDef F)) (proposed : Dict F)
      → All (IsAllowlisted allowed tags) (plan_fields allowed tags proposed).0
  unfolding plan_fields
  plan_fields-IsAllowlisted allowed tags [] = tt
  plan_fields-IsAllowlisted allowed tags ((name, v) ∷ rest) =
      collect-IsAllowlisted allowed tags (plan_field allowed tags name v)
        (plan_fields allowed tags rest) (plan_field-IsAllowlisted allowed tags name v)
        (plan_fields-IsAllowlisted allowed tags rest)

  abbrev has_writable : Option (TagDef F) → Bool
  has_writable none = false
  has_writable (some tag) = tag.writable

  -- The settings allow the field, and the plant has a writable tag of it.
  abbrev pub may_write : List String → Dict (TagDef F) → String → Bool
  may_write allowed tags name = contains name allowed && has_writable (get name tags)

  plan_field_planned :
      (allowed : List String) (tags : Dict (TagDef F)) (name : String) (v : F)
      → may_write allowed tags name ≡ true
      → (item : WritePlanItem F) × (plan_field allowed tags name v ≡ ok item)
        × (item.field ≡ name)
        × (item.engineering_value ≡ v)
  unfolding plan_field plan_item
  plan_field_planned allowed tags name v t = elim (Option-cases (get name tags)) [
    | inl e ↦ absurd (ground arith)
    | inr (tag, e) ↦ (plan_item name tag v, ground arith, refl, refl)
  ]

  plan_field_skipped :
      (allowed : List String) (tags : Dict (TagDef F)) (name : String) (v : F)
      → may_write allowed tags name ≡ false
      → (why : Skipped) × (plan_field allowed tags name v ≡ err why) × (skipped_field why ≡ name)
  unfolding plan_field
  plan_field_skipped allowed tags name v f = elim (Bool-cases (contains name allowed)) [
    | inr denied ↦ (not_in_writable_fields name, ground arith, refl)
    | inl listed ↦ elim (Option-cases (get name tags)) [
      | inl e ↦ (no_tag name, ground arith, refl)
      | inr (tag, e) ↦ (tag_not_writable name, ground arith, refl)
    ]
  ]

  abbrev pub requested : WritePlanItem F → String × F
  requested item = (item.field, item.engineering_value)

  -- The plan holds the fields that the settings allow and of which the plant has a writable tag, with
  -- the values asked for, and the rest is skipped; both in the order in which they are asked for.
  pub plan_fields_lem :
      (allowed : List String) (tags : Dict (TagDef F)) (proposed : Dict F)
      → (map requested (plan_fields allowed tags proposed).0
          ≡ keep (λ (p : String × F). may_write allowed tags p.0) proposed)
        × (map skipped_field (plan_fields allowed tags proposed).1
            ≡ map
                (λ (p : String × F). p.0)
                (keep (λ (p : String × F). not (may_write allowed tags p.0)) proposed))
  unfolding plan_fields
  plan_fields_lem allowed tags [] = (refl, refl)
  plan_fields_lem allowed tags ((name, v) ∷ rest) =
      let (planned, skipped) = plan_fields_lem allowed tags rest in
      elim (Bool-cases (may_write allowed tags name)) [
        | inl t ↦
            let (item, e, named, valued) = plan_field_planned allowed tags name v t in
            (rw (e, t, named, valued, planned) refl, rw (e, t, skipped) refl)
        | inr f ↦
            let (why, e, named) = plan_field_skipped allowed tags name v f in
            (rw (e, f, planned) refl, rw (e, f, named, skipped) refl)
      ]

module _ {F : Type 0} (P : WritePlanItem F → Type 0) where
  -- What is written is a part of the plan.
  write_items-All :
      (opc : OpcServer F) (items : List (WritePlanItem F))
      → All P items
      → All P (write_items opc items).0
  unfolding write_items
  write_items-All opc [] h = tt
  write_items-All opc (item ∷ items) h = elim (Bool-cases (opc.accepts item.node_id item.value)) [
    | inl e ↦ rw e (h.0, write_items-All opc items h.1)
    | inr e ↦ rw e tt
  ]

  run_plan-All :
      (cfg : Settings F) (opc : OpcServer F) (do_dry : Bool) (plan : WriteResult F)
      → All P plan.planned
      → All P (run_plan cfg opc do_dry plan).1
  unfolding run_plan
  run_plan-All cfg opc do_dry plan h = ground (arith, write_items-All opc plan.planned h)

  run_planned-All :
      (cfg : Settings F) (opc : OpcServer F) (do_dry : Bool) (r : Result WriteError (WriteResult F))
      → ((plan : WriteResult F) → r ≡ ok plan → All P plan.planned)
      → All P (run_planned cfg opc do_dry r).1
  run_planned-All cfg opc do_dry (err e) h = tt
  run_planned-All cfg opc do_dry (ok plan) h = run_plan-All cfg opc do_dry plan (h plan refl)

module _ {F : Type 0} ⦃fl : FloatOps F⦄ where
  plan_setpoint_writes-IsPermitted :
      (cfg : Settings F) (plants : TagMap F) (code : String) (proposed : Dict F)
      (plan : WriteResult F)
      → plan_setpoint_writes cfg plants code proposed ≡ ok plan
      → All (IsPermitted cfg plants code) plan.planned
  unfolding plan_setpoint_writes
  plan_setpoint_writes-IsPermitted cfg plants code proposed plan h =
      elim (Option-cases (get code plants)) [
        | inl e ↦ ground arith
        | inr (plant, e) ↦
            let planned : plan.planned
                ≡ (plan_fields cfg.writable_field_list plant.tags proposed).0 =
              ground arith in
            rw planned (
              All-map (λ item allowed. (plant, e, allowed))
                (plan_fields cfg.writable_field_list plant.tags proposed).0
                (plan_fields-IsAllowlisted cfg.writable_field_list plant.tags proposed))
      ]

  -- Whatever `write_setpoints` writes to the plant, and however it ends, each value written is one
  -- of a field that the settings list as writable, at the node of a writable tag of the plant.
  pub write_setpoints-IsPermitted :
      (cfg : Settings F) (plants : TagMap F) (opc : OpcServer F) (code : String) (proposed : Dict F)
      (dry : Option Bool)
      → All (IsPermitted cfg plants code) (write_setpoints cfg plants opc code proposed dry).1
  unfolding write_setpoints
  write_setpoints-IsPermitted cfg plants opc code proposed dry =
      run_planned-All (IsPermitted cfg plants code) cfg opc
        (or_else dry cfg.opc_write_dry_run_default) (plan_setpoint_writes cfg plants code proposed)
        (plan_setpoint_writes-IsPermitted cfg plants code proposed)

  -- Nothing is written to the plant unless it is a live call, live writes are enabled, and an
  -- endpoint is set.
  pub write_setpoints_gated :
      (cfg : Settings F) (plants : TagMap F) (opc : OpcServer F) (code : String) (proposed : Dict F)
      (dry : Option Bool)
      → (write_setpoints cfg plants opc code proposed dry).1 ≢ []
      → (or_else dry cfg.opc_write_dry_run_default ≡ false)
        × (cfg.opc_write_enabled ≡ true)
        × (is_empty cfg.opc_ua_endpoint ≡ false)
  unfolding write_setpoints run_plan plan_setpoint_writes
  write_setpoints_gated cfg plants opc code proposed dry h = ground arith
