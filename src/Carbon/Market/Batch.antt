-- ===== src/Carbon/Market/Batch.antt =====
-- What app/carbon/market.py puts into a batch for the registry.
use khalij_intelligent_energ.Base.{
  ap, sym, ◌∙◌, ◌++◌, ℕ, String, Bool, true, false, not, ◌&&◌, ◌≡◌, ◌≤◌, refl, inl, inr, Option,
  none, some, List, [], ◌∷◌, arith, Bool-cases, Option-cases, All, All-take, All-keep, All-of_map,
  All-map, length, length-take, length-map, keep, ltb, ◌==◌,
}
use khalij_intelligent_energ.Base.Float.{FloatOps}
use khalij_intelligent_energ.Base.Result.{ok}
use khalij_intelligent_energ.Base.Table.{Table, lookup}
use khalij_intelligent_energ.Config.{Settings}
use khalij_intelligent_energ.Carbon.Model.{
  AssuranceStatus, CarbonReport, CarbonMarketSync, RegistryItem, CarbonDb,
}
use khalij_intelligent_energ.Carbon.Reports.Keys.{HasUniqueIds}
use khalij_intelligent_energ.Carbon.Market.{
  Row, join_plants, is_selected, has_locked, insert_desc, order_desc, select_rows, registry_item,
  build_registry_payload, HttpResponse, MarketSyncResult, add_sync, sync_carbon_market,
}

module _ {ℓ κ} {V : Type ℓ} (P : ℕ → V → Type κ) where
  -- A predicate of every row that a lookup finds, where ids differ.
  pub All_rows :
      (rows : Table V)
      → HasUniqueIds rows
      → ((id : ℕ) (row : V) → lookup id rows ≡ some row → P id row)
      → All (λ (kv : ℕ × V). P kv.0 kv.1) rows
  unfolding HasUniqueIds lookup
  All_rows [] u h = tt
  All_rows ((key, row) ∷ rows) (fresh, rest) h =
      let later : (id : ℕ) (found : V) → lookup id rows ≡ some found → P id found = λ id found e.
        h id found (elim (Bool-cases (key == id)) [
          | inl t ↦ let same : key ≡ id = ground arith in ground arith
          | inr f ↦ ground arith
        ]) in
      (h key row (ground arith), All_rows rows rest later)

module _ {F : Type 0} where
  -- The row is the database's, and its plant has the code that goes with it.
  abbrev pub IsRowOf : CarbonDb F → Row F → Type 0
  IsRowOf db (id, report, code) =
      (lookup id db.reports ≡ some report) × (lookup report.plant_id db.plants ≡ some code)

  module _ {κ} (P : Row F → Type κ) where
    insert_desc-All : (r : Row F) (xs : List (Row F)) → P r → All P xs → All P (insert_desc r xs)
    unfolding insert_desc
    insert_desc-All r [] h hs = (h, tt)
    insert_desc-All r (x ∷ xs) h hs = elim (Bool-cases (ltb x.1.period_start r.1.period_start)) [
      | inl t ↦ rw t (h, hs)
      | inr f ↦ rw f (hs.0, insert_desc-All r xs h hs.1)
    ]

    order_desc-All : (xs : List (Row F)) → All P xs → All P (order_desc xs)
    unfolding order_desc
    order_desc-All [] h = tt
    order_desc-All (x ∷ xs) h = insert_desc-All x (order_desc xs) h.0 (order_desc-All xs h.1)

  join_plants-IsRowOf :
      (db : CarbonDb F) (rows : Table (CarbonReport F))
      → All (λ (kv : ℕ × CarbonReport F). lookup kv.0 db.reports ≡ some kv.1) rows
      → All (IsRowOf db) (join_plants db.plants rows)
  unfolding join_plants
  join_plants-IsRowOf db [] h = tt
  join_plants-IsRowOf db ((id, report) ∷ rows) h =
      elim (Option-cases (lookup report.plant_id db.plants)) [
        | inl e ↦
            let runs : join_plants db.plants ((id, report) ∷ rows) ≡ join_plants db.plants rows =
              ground arith in
            rw runs (join_plants-IsRowOf db rows h.1)
        | inr (code, e) ↦
            let runs : join_plants db.plants ((id, report) ∷ rows)
                ≡ (id, report, code) ∷ join_plants db.plants rows =
              ground arith in
            rw runs ((h.0, e), join_plants-IsRowOf db rows h.1)
      ]

  pub select_rows-IsRowOf :
      (db : CarbonDb F) (filter : Option String) (limit : ℕ) (locked_only : Bool)
      → HasUniqueIds db.reports
      → All
          (λ r. IsRowOf db r × (is_selected filter locked_only r ≡ true))
          (select_rows db filter limit locked_only)
  unfolding select_rows
  select_rows-IsRowOf db filter limit locked_only u =
      let P = λ (r : Row F). IsRowOf db r × (is_selected filter locked_only r ≡ true) in
      let own = All_rows (λ id row. lookup id db.reports ≡ some row) db.reports u (λ id row h. h) in
      let joined = join_plants-IsRowOf db db.reports own in
      let kept =
        All-keep (IsRowOf db) (is_selected filter locked_only) (join_plants db.plants db.reports)
          joined in
      All-take P limit _ (order_desc-All P _ kept)

has_locked→eq : (s : Option AssuranceStatus) → has_locked s ≡ true → s ≡ some AssuranceStatus.locked
has_locked→eq none h = cc
has_locked→eq (some AssuranceStatus.draft) h = cc
has_locked→eq (some AssuranceStatus.in_review) h = cc
has_locked→eq (some AssuranceStatus.approved) h = cc
has_locked→eq (some AssuranceStatus.locked) h = refl

module _ {F : Type 0} ⦃fl : FloatOps F⦄ where
  -- The item stands for a locked report of the database, as it is there.
  abbrev pub IsLockedItem : CarbonDb F → RegistryItem F → Type 0
  IsLockedItem db item =
      (report : CarbonReport F) × (code : String) × (lookup item.report_id db.reports ≡ some report)
      × (lookup report.plant_id db.plants ≡ some code)
      × (report.assurance_status ≡ some AssuranceStatus.locked)
      × (item ≡ registry_item (item.report_id, report, code))

  pub payload-IsLockedItem :
      (db : CarbonDb F) (filter : Option String) (limit : ℕ)
      → HasUniqueIds db.reports
      → All (IsLockedItem db) (build_registry_payload db filter limit true)
  unfolding build_registry_payload registry_item
  payload-IsLockedItem db filter limit u =
      All-of_map registry_item (IsLockedItem db) (select_rows db filter limit true) (
        All-map
          (λ (id, report, code) ((found, plant), selected). (
            report,
            code,
            found,
            plant,
            has_locked→eq report.assurance_status (ground arith),
            refl,
          ))
          (select_rows db filter limit true) (select_rows-IsRowOf db filter limit true u))

  pub length-payload :
      (db : CarbonDb F) (filter : Option String) (limit : ℕ) (locked_only : Bool)
      → length (build_registry_payload db filter limit locked_only) ≤ limit
  unfolding build_registry_payload select_rows
  length-payload db filter limit locked_only =
      rw (length-map registry_item (select_rows db filter limit locked_only)) (
        length-take limit
          (order_desc (keep (is_selected filter locked_only) (join_plants db.plants db.reports))))

-- The row that records a sync.
abbrev pub sync_row : Option String → MarketSyncResult → CarbonMarketSync
sync_row filter result = record {
  batch_id = result.batch_id;
  plant_code = filter;
  status = result.status;
  registry = result.registry;
  reports_synced = result.reports_synced;
  external_ref = result.external_ref;
  synced_at = result.synced_at;
}

module _ {F : Type 0} ⦃fl : FloatOps F⦄ where
  -- What a sync that returns has sent and recorded.
  pub record IsRecorded (cfg : Settings F) (batch : String) (filter : Option String) (force : Bool)
      (db after : CarbonDb F) (result : MarketSyncResult) (payload : List (RegistryItem F))
      : Type 0 where
    pub batch_id : result.batch_id ≡ batch
    pub counted : result.reports_synced ≡ length payload
    pub is_payload :
        payload
        ≡ build_registry_payload db filter 20 (cfg.carbon_market_require_locked && not force)
    pub recorded : after ≡ record db { syncs = db.syncs ++ sync_row filter result ∷ [] }

  pub sync-IsRecorded :
      (cfg : Settings F) (post : List (RegistryItem F) → Option HttpResponse) (staged : Bool)
      (now : ℕ) (batch : String) (filter : Option String) (force : Bool) (db : CarbonDb F)
      (result : MarketSyncResult) (payload : List (RegistryItem F))
      → (sync_carbon_market cfg post staged now batch filter force db).0 ≡ ok (result, payload)
      → IsRecorded cfg batch filter force db
          (sync_carbon_market cfg post staged now batch filter force db).1
          result
          payload
  unfolding sync_carbon_market add_sync
  sync-IsRecorded cfg post false now batch filter force db result payload e = absurd (ground arith)
  sync-IsRecorded cfg post true now batch filter force db result payload e = record {
    batch_id = ground arith;
    counted = ground arith;
    is_payload = ground arith;
    recorded = ground arith;
  }

  same_tables-payload :
      (db : CarbonDb F) (syncs : List CarbonMarketSync) (filter : Option String) (limit : ℕ)
      (locked_only : Bool)
      → build_registry_payload (record db { syncs = syncs }) filter limit locked_only
        ≡ build_registry_payload db filter limit locked_only
  unfolding build_registry_payload select_rows
  same_tables-payload db syncs filter limit locked_only = refl

  -- A sync does not mark what it sent: where two syncs of the same filter and force return one after
  -- the other, the second sends the items of the first again, whatever the registry answered. Both
  -- count them, and each adds one row to the record of the syncs, with its own batch and what it
  -- returned; the reports and their events stay.
  pub sync_resends :
      (cfg : Settings F) (post post' : List (RegistryItem F) → Option HttpResponse)
      (staged staged' : Bool) (now now' : ℕ) (batch batch' : String) (filter : Option String)
      (force : Bool) (db : CarbonDb F) (first second : MarketSyncResult)
      (payload payload' : List (RegistryItem F))
      → let once = sync_carbon_market cfg post staged now batch filter force db in
        let twice = sync_carbon_market cfg post' staged' now' batch' filter force once.1 in
        once.0 ≡ ok (first, payload)
        → twice.0 ≡ ok (second, payload')
        → (payload' ≡ payload)
          × (first.reports_synced ≡ length payload)
          × (second.reports_synced ≡ length payload)
          × (first.batch_id ≡ batch)
          × (second.batch_id ≡ batch')
          × (twice.1.syncs
              ≡ (db.syncs ++ sync_row filter first ∷ []) ++ sync_row filter second ∷ [])
          × (twice.1.reports ≡ db.reports)
          × (twice.1.events ≡ db.events)
  sync_resends cfg post post' staged staged' now now' batch batch' filter force db first second
        payload payload' e e' =
      let once = sync_carbon_market cfg post staged now batch filter force db in
      let a = sync-IsRecorded cfg post staged now batch filter force db first payload e in
      let b =
        sync-IsRecorded cfg post' staged' now' batch' filter force once.1 second payload' e' in
      let same : payload' ≡ payload =
        b.is_payload
        ∙ ap
            (λ (d : CarbonDb F).
              build_registry_payload d filter 20 (cfg.carbon_market_require_locked && not force))
            a.recorded
        ∙ same_tables-payload db _ filter 20 _
        ∙ sym a.is_payload in
      (
        same,
        a.counted,
        b.counted ∙ ap length same,
        a.batch_id,
        b.batch_id,
        ap (λ (d : CarbonDb F). d.syncs) b.recorded
            ∙ ap (λ (d : CarbonDb F). d.syncs ++ sync_row filter second ∷ []) a.recorded,
        ap (λ (d : CarbonDb F). d.reports) b.recorded
            ∙ ap (λ (d : CarbonDb F). d.reports) a.recorded,
        ap (λ (d : CarbonDb F). d.events) b.recorded ∙ ap (λ (d : CarbonDb F). d.events) a.recorded,
      )
