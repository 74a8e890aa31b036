-- ===== src/Ingestion/Session/Frozen.antt =====
-- What a session reads after its subscriptions failed.
use khalij_intelligent_energ.Base.{
  ℕ, suc, String, true, false, ◌≡◌, refl, ap, ◌∙◌, Option, none, some, List, [], ◌∷◌, length, leb,
  is_empty, Bool-cases, Option-cases, inl, inr, arith,
}
use khalij_intelligent_energ.Base.Result.{bind_keeps}
use khalij_intelligent_energ.Base.Table.{Dict, get, get-put_same}
use khalij_intelligent_energ.Ingestion.TagMap.{PlantTagMap, TagMap}
use khalij_intelligent_energ.Ingestion.Session.{
  sensor_fields, TagSample, OpcClient, SessionSettings, PlantConnectSession, tagged, poll, complete,
  node_of, set_default, subscribe_field, subscribe_fields, subscribe_plants, setup_subscriptions,
  connect, cached_or_polled, read_connected, read_plant,
}

leb_self : (n : ℕ) → leb n n ≡ true
leb_self n = ground arith

module _ {F : Type 0} (cfg : SessionSettings) (opc : OpcClient F) where
  length-poll :
      (plant : PlantTagMap F) (fields : List String)
      → length (poll cfg opc plant fields) ≡ length (tagged plant fields)
  unfolding poll tagged
  length-poll plant [] = refl
  length-poll plant (field ∷ fields) = elim (Option-cases (get field plant.tags)) [
    | inl e ↦ rw e (length-poll plant fields)
    | inr (tag, e) ↦ rw e (ap suc (length-poll plant fields))
  ]

module _ {F : Type 0} where
  abbrev IsConnected : PlantConnectSession F → Type 0
  IsConnected st = st.connected ≡ true

module _ {F : Type 0} (cfg : SessionSettings) (opc : OpcClient F) where
  subscribe_field-IsConnected :
      (code field : String) (node : Option String) (st : PlantConnectSession F)
      → IsConnected st
      → IsConnected (subscribe_field cfg opc code field node st).1
  unfolding subscribe_field
  subscribe_field-IsConnected code field none st h = h
  subscribe_field-IsConnected code field (some node) st h =
      elim (Option-cases (opc.subscribe_data_change node)) [
        | inl e ↦ rw e h
        | inr (handle, e) ↦ rw e h
      ]

  subscribe_fields-IsConnected :
      (code : String) (plant : PlantTagMap F) (fields : List String) (st : PlantConnectSession F)
      → IsConnected st
      → IsConnected (subscribe_fields cfg opc code plant fields st).1
  unfolding subscribe_fields
  subscribe_fields-IsConnected code plant [] st h = h
  subscribe_fields-IsConnected code plant (field ∷ fields) st h =
      bind_keeps IsConnected (subscribe_field cfg opc code field (node_of field plant))
        (λ u. subscribe_fields cfg opc code plant fields) st
        (subscribe_field-IsConnected code field (node_of field plant) st h)
        (λ u s kept. subscribe_fields-IsConnected code plant fields s kept)

  subscribe_plants-IsConnected :
      (plants : TagMap F) (st : PlantConnectSession F)
      → IsConnected st
      → IsConnected (subscribe_plants cfg opc plants st).1
  unfolding subscribe_plants
  subscribe_plants-IsConnected [] st h = h
  subscribe_plants-IsConnected ((code, plant) ∷ plants) st h =
      let seeded = record st { cache = set_default code st.cache } in
      bind_keeps IsConnected (subscribe_fields cfg opc code plant sensor_fields)
        (λ u. subscribe_plants cfg opc plants) seeded
        (subscribe_fields-IsConnected code plant sensor_fields seeded h)
        (λ u s kept. subscribe_plants-IsConnected plants s kept)

  setup_subscriptions-IsConnected :
      (plants : TagMap F) (st : PlantConnectSession F)
      → IsConnected st
      → IsConnected (setup_subscriptions cfg opc plants st).1
  unfolding setup_subscriptions
  setup_subscriptions-IsConnected plants st h = elim (Bool-cases opc.creates_subscription) [
    | inl e ↦ rw e (subscribe_plants-IsConnected plants (record st { subscription = true }) h)
    | inr e ↦ rw e h
  ]

  -- Once the client connects, the session counts as connected, though the rest may raise.
  connect-IsConnected :
      (plants : TagMap F) (st : PlantConnectSession F)
      → is_empty cfg.opc_ua_endpoint ≡ false
      → opc.connects ≡ true
      → IsConnected (connect cfg opc plants st).1
  unfolding connect
  connect-IsConnected plants st endpoint opened = elim (Bool-cases st.connected) [
    | inl e ↦ rw e refl
    | inr e ↦
        rw (e, endpoint, opened)
          (elim (Bool-cases cfg.opc_ua_use_subscription) [
            | inl s ↦ rw s (setup_subscriptions-IsConnected plants _ refl)
            | inr s ↦ rw s refl
          ])
  ]

module _ {F : Type 0} (cfg : SessionSettings) where
  again_lem :
      (opc later : OpcClient F) (plant : PlantTagMap F) (found : Option (Dict (TagSample F)))
      (st : PlantConnectSession F)
      → cfg.opc_ua_use_subscription ≡ true
      → complete plant (get plant.code st.cache) ≡ found
      → let first = cached_or_polled cfg opc plant found st in
        (read_connected cfg later plant first.1).0 ≡ first.0
  unfolding read_connected
  again_lem opc later plant (some cached) st on e = rw (on, e) refl
  again_lem opc later plant none st on e =
      rw
        (
          on,
          get-put_same plant.code (poll cfg opc plant sensor_fields) st.cache,
          length-poll cfg opc plant sensor_fields,
          leb_self (length (tagged plant sensor_fields)),
        )
        refl

  read_plant_lem :
      (opc : OpcClient F) (plants : TagMap F) (plant : PlantTagMap F) (st : PlantConnectSession F)
      → IsConnected st
      → read_plant cfg opc plants plant st ≡ read_connected cfg opc plant st
  unfolding read_plant
  read_plant_lem opc plants plant st h = rw h refl

  cached_or_polled-IsConnected :
      (opc : OpcClient F) (plant : PlantTagMap F) (found : Option (Dict (TagSample F)))
      (st : PlantConnectSession F)
      → IsConnected st
      → IsConnected (cached_or_polled cfg opc plant found st).1
  cached_or_polled-IsConnected opc plant none st h = h
  cached_or_polled-IsConnected opc plant (some cached) st h = h

  reads_repeat :
      (opc later : OpcClient F) (plants : TagMap F) (plant : PlantTagMap F)
      (st : PlantConnectSession F)
      → cfg.opc_ua_use_subscription ≡ true
      → IsConnected st
      → let first = read_plant cfg opc plants plant st in
        (read_plant cfg later plants plant first.1).0 ≡ first.0
  reads_repeat opc later plants plant st on h =
      let found = complete plant (get plant.code st.cache) in
      let first : read_plant cfg opc plants plant st ≡ cached_or_polled cfg opc plant found st =
        read_plant_lem opc plants plant st h ∙ (unfold read_connected in rw on refl) in
      rw
        (
          first,
          read_plant_lem later plants plant (cached_or_polled cfg opc plant found st).1
              (cached_or_polled-IsConnected opc plant found st h),
        )
        (again_lem opc later plant found st on refl)

  -- With subscriptions on, once the client connects, the session stays connected even where the
  -- subscriptions fail. From then on, without a notification in between, a plant that is read twice
  -- gives the same samples, whatever the server would answer to the second read.
  pub connected_reads_repeat :
      (opc first_opc later : OpcClient F) (plants : TagMap F) (plant : PlantTagMap F)
      (st : PlantConnectSession F)
      → is_empty cfg.opc_ua_endpoint ≡ false
      → cfg.opc_ua_use_subscription ≡ true
      → opc.connects ≡ true
      → let opened = (connect cfg opc plants st).1 in
        let first = read_plant cfg first_opc plants plant opened in
        (opened.connected ≡ true) × ((read_plant cfg later plants plant first.1).0 ≡ first.0)
  connected_reads_repeat opc first_opc later plants plant st endpoint on connects =
      let opened = connect-IsConnected cfg opc plants st endpoint connects in
      (opened, reads_repeat first_opc later plants plant (connect cfg opc plants st).1 on opened)
