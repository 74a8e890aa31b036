-- ===== src/Ingestion/TagMap.antt =====
-- app/ingestion/tag_map.py: the tags of each plant. The YAML file that `load_tag_map` reads is not
-- code; a map is an argument of the functions that read it.
use khalij_intelligent_energ.Base.{String, Bool, Option}
use khalij_intelligent_energ.Base.Table.{Dict}

pub record TagDef (F : Type 0) : Type 0 where
  pub field : String
  pub node_id : String
  pub unit : String
  pub description : String
  pub scale : F
  pub offset : F
  pub writable : Bool
  pub write_node_id : Option String

pub record PlantTagMap (F : Type 0) : Type 0 where
  pub code : String
  pub name : String
  pub tags : Dict (TagDef F)
  pub endpoint : Option String

abbrev pub TagMap : Type 0 → Type 0
TagMap F = Dict (PlantTagMap F)
