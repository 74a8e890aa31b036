-- ===== src/Ingestion/Session.antt =====
-- app/ingestion/opcua_session.py: the long-lived OPC UA session with its cache of samples. What the
-- server and the asyncua client answer is a record of functions. A datetime without a zone counts as
-- UTC.
pub mod Frozen
use khalij_intelligent_energ.Base.{
  ℕ, String, Bool, true, false, not, ◌&&◌, ◌≡◌, refl, Option, none, some, List, [], ◌∷◌, length,
  leb, str_eq, is_empty, is_some, if◌then◌else◌,
}
use khalij_intelligent_energ.Base.Result.{
  Result, ok, err, Action, ◌>>=◌, ◌>>◌, pure, raise, guard, gets, modify, or_raise,
}
use khalij_intelligent_energ.Base.Table.{Dict, get, put}
use khalij_intelligent_energ.Ingestion.TagMap.{TagDef, PlantTagMap, TagMap}
use khalij_intelligent_energ.Ingestion.Quality.{QualityCode, status_code_to_quality}

abbrev pub sensor_fields : List String
sensor_fields =
    "electricity_power_mw" ∷ "fuel_gas_flow_km3h" ∷ "steam_flow_tonh" ∷ "feed_flow_tonh"
    ∷ "reactor_temp_c" ∷ "pressure_bar" ∷ []

pub record TagSample (F : Type 0) : Type 0 where
  pub value : Option F
  pub quality : QualityCode
  pub status_code : Option ℕ
  pub server_timestamp : Option ℕ
  pub source_timestamp : Option ℕ

-- The value of a tag: nothing, what `float` takes, or what it does not.
pub data TagValue (F : Type 0) : Type 0 where
  no_value not_a_number : TagValue F
  number : F → TagValue F

pub record DataValue (F : Type 0) : Type 0 where
  pub value : TagValue F
  pub status_code : Option ℕ
  pub server_timestamp : Option ℕ
  pub source_timestamp : Option ℕ

-- The answers of the server; `none` or false where a call raises.
pub record OpcClient (F : Type 0) : Type 0 where
  pub connects : Bool
  pub creates_subscription : Bool
  pub subscribe_data_change : String → Option ℕ
  pub read_data_value : String → Option (DataValue F)

pub record SessionSettings : Type 0 where
  pub opc_ua_endpoint : String
  pub opc_ua_use_subscription : Bool

pub record PlantConnectSession (F : Type 0) : Type 0 where
  pub client : Bool
  pub subscription : Bool
  pub handles : List (String × String × ℕ)
  pub cache : Dict (Dict (TagSample F))
  pub connected : Bool

pub data SessionError : Type 0 where
  endpoint_required connect_failed subscription_failed : SessionError
  subscribe_failed : String → SessionError

abbrev pub Call : Type 0 → Type 0 → Type 0
Call F = Action (PlantConnectSession F) SessionError

module _ {F : Type 0} where
  unfoldable pub sample_of : TagValue F → QualityCode → DataValue F → TagSample F
  sample_of v quality dv = record {
    value = elim v [ number x ↦ some x | _ ↦ none ];
    quality = elim v [ not_a_number ↦ QualityCode.bad | _ ↦ quality ];
    status_code = dv.status_code;
    server_timestamp = dv.server_timestamp;
    source_timestamp = dv.source_timestamp;
  }

  abbrev pub bad_sample : TagSample F
  bad_sample = record {
    value = none;
    quality = QualityCode.bad;
    status_code = none;
    server_timestamp = none;
    source_timestamp = none;
  }

  -- `_read_datavalue`
  unfoldable pub read_datavalue : Option (DataValue F) → TagSample F
  unfolding sample_of status_code_to_quality
  read_datavalue none = bad_sample
  read_datavalue (some dv) = sample_of dv.value (status_code_to_quality dv.status_code) dv

  abbrev pub put_sample :
      String → String → TagSample F → Dict (Dict (TagSample F)) → Dict (Dict (TagSample F))
  put_sample code field sample cache = elim (get code cache) [
    | none ↦ put code ((field, sample) ∷ []) cache
    | some samples ↦ put code (put field sample samples) cache
  ]

  -- `self._cache.setdefault(plant_code, {})`
  abbrev pub set_default : String → Dict (Dict (TagSample F)) → Dict (Dict (TagSample F))
  set_default code cache = if is_some (get code cache) then cache else put code [] cache

  abbrev pub node_of : String → PlantTagMap F → Option String
  node_of field plant = elim (get field plant.tags) [ none ↦ none | some tag ↦ some tag.node_id ]

  -- `[f for f in SENSOR_FIELDS if f in plant.tags]`
  unfoldable pub tagged : PlantTagMap F → List String → List String
  tagged plant [] = []
  tagged plant (field ∷ fields) =
      let rest = tagged plant fields in
      if is_some (get field plant.tags) then field ∷ rest else rest

  -- The samples of the cache, where it has one for every tag.
  unfoldable pub complete :
      PlantTagMap F → Option (Dict (TagSample F)) → Option (Dict (TagSample F))
  unfolding tagged
  complete plant none = none
  complete plant (some cached) =
      if leb (length (tagged plant sensor_fields)) (length cached) then some cached else none

module _ {F : Type 0} (cfg : SessionSettings) (opc : OpcClient F) where
  abbrev pub subscribed :
      String → String → String → ℕ → PlantConnectSession F → PlantConnectSession F
  subscribed code field node handle st = record st {
    handles = (code, field, handle) ∷ st.handles;
    cache = put_sample code field (read_datavalue (opc.read_data_value node)) st.cache;
  }

  -- A field without a tag is passed over.
  unfoldable pub subscribe_field : String → String → Option String → Call F (Unit {0})
  unfolding read_datavalue
  subscribe_field code field none = pure tt
  subscribe_field code field (some node) = do
    handle ← or_raise (opc.subscribe_data_change node) (subscribe_failed node)
    modify (subscribed code field node handle)

  unfoldable pub subscribe_fields : String → PlantTagMap F → List String → Call F (Unit {0})
  unfolding subscribe_field
  subscribe_fields code plant [] = pure tt
  subscribe_fields code plant (field ∷ fields) =
      subscribe_field code field (node_of field plant) >> subscribe_fields code plant fields

  unfoldable pub subscribe_plants : TagMap F → Call F (Unit {0})
  unfolding subscribe_fields
  subscribe_plants [] = pure tt
  subscribe_plants ((code, plant) ∷ plants) =
      modify (λ (st : PlantConnectSession F). record st { cache = set_default code st.cache })
      >> subscribe_fields code plant sensor_fields
      >> subscribe_plants plants

  unfoldable pub setup_subscriptions : TagMap F → Call F (Unit {0})
  unfolding subscribe_plants
  setup_subscriptions plants = do
    guard opc.creates_subscription subscription_failed
    modify (λ (st : PlantConnectSession F). record st { subscription = true })
    subscribe_plants plants

  abbrev pub open_session : TagMap F → Call F (Unit {0})
  open_session plants = do
    guard (not (is_empty cfg.opc_ua_endpoint)) endpoint_required
    guard opc.connects connect_failed
    modify (λ (st : PlantConnectSession F). record st { client = true; connected = true })
    if cfg.opc_ua_use_subscription then setup_subscriptions plants else pure tt

  unfoldable pub connect : TagMap F → Call F (Unit {0})
  unfolding setup_subscriptions
  connect plants st = if st.connected then (ok tt, st) else open_session plants st

  abbrev pub ensure : TagMap F → Call F (Unit {0})
  ensure plants st = if st.connected then (ok tt, st) else connect plants st

  -- Errors of the client on the way out are only logged.
  unfoldable pub disconnect : Call F (Unit {0})
  disconnect = modify (λ (st : PlantConnectSession F). record st {
    client = false;
    subscription = false;
    handles = [];
    connected = false;
  })

  abbrev pub with_sample : String → Option (TagDef F) → Dict (TagSample F) → Dict (TagSample F)
  with_sample field none samples = samples
  with_sample field (some tag) samples =
      (field, read_datavalue (opc.read_data_value tag.node_id)) ∷ samples

  unfoldable pub poll : PlantTagMap F → List String → Dict (TagSample F)
  poll plant [] = []
  poll plant (field ∷ fields) = with_sample field (get field plant.tags) (poll plant fields)

  abbrev pub polled : PlantTagMap F → Call F (Dict (TagSample F))
  polled plant st =
      let out = poll plant sensor_fields in
      (ok out, record st { cache = put plant.code out st.cache })

  abbrev pub cached_or_polled :
      PlantTagMap F → Option (Dict (TagSample F)) → Call F (Dict (TagSample F))
  cached_or_polled plant none = polled plant
  cached_or_polled plant (some cached) = pure cached

  unfoldable pub read_connected : PlantTagMap F → Call F (Dict (TagSample F))
  unfolding poll complete read_datavalue
  read_connected plant st =
      cached_or_polled plant
        (if cfg.opc_ua_use_subscription then complete plant (get plant.code st.cache) else none) st

  unfoldable pub read_plant : TagMap F → PlantTagMap F → Call F (Dict (TagSample F))
  unfolding connect read_connected
  read_plant plants plant = do ensure plants; read_connected plant

module _ {F : Type 0} where
  abbrev pub field_of_node : String → Dict (TagDef F) → Option String
  field_of_node node [] = none
  field_of_node node ((field, tag) ∷ tags) =
      if str_eq tag.node_id node then some field else field_of_node node tags

  -- A sample for the first tag of the node, if there is one.
  unfoldable pub update_cache :
      TagMap F → String → TagSample F → PlantConnectSession F → PlantConnectSession F
  update_cache [] node sample st = st
  update_cache ((code, plant) ∷ plants) node sample st =
      let rest = update_cache plants node sample st in
      elim (field_of_node node plant.tags) [
        | none ↦ rest
        | some field ↦ record st { cache = put_sample code field sample st.cache }
      ]

  -- The notification of a subscription: without a data value the quality counts as good.
  unfoldable pub datachange_notification :
      TagMap F
      → String
      → TagValue F
      → Option (DataValue F)
      → PlantConnectSession F
      → PlantConnectSession F
  unfolding update_cache sample_of
  datachange_notification plants node val none st =
      update_cache plants node
        (sample_of val QualityCode.good (record {
          value = val;
          status_code = none;
          server_timestamp = none;
          source_timestamp = none;
        }))
        st
  datachange_notification plants node val (some dv) st =
      update_cache plants node (sample_of val (status_code_to_quality dv.status_code) dv) st
