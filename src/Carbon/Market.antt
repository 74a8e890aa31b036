-- ===== src/Carbon/Market.antt =====
-- app/carbon/market.py: the batch of reports for the carbon registry. The registry's answer is an
-- argument: `none` where the client or `raise_for_status` raises. The contents of the staging file are left
-- out; whether it can be written is an argument.
pub mod Batch
use khalij_intelligent_energ.Base.{
  ℕ, String, Bool, true, false, not, ◌&&◌, ◌||◌, Option, none, some, List, [], ◌∷◌, ◌++◌, or_else,
  str_eq, is_empty, ltb, length, take, keep, is_nil, map, if◌then◌else◌,
}
use khalij_intelligent_energ.Base.Float.{FloatOps}
use khalij_intelligent_energ.Base.Result.{Action, ◌>>=◌, ◌>>◌, pure, gets, guard, modify}
use khalij_intelligent_energ.Base.Table.{Table, lookup}
use khalij_intelligent_energ.Config.{Settings}
use khalij_intelligent_energ.Carbon.Model.{
  AssuranceStatus, CarbonReport, SyncStatus, RegistryItem, CarbonMarketSync, CarbonDb, CarbonError,
  staging_failed,
}
use khalij_intelligent_energ.Carbon.Assurance.{Call, is_locked}

-- The status code and the texts of an answer that is not an error; an absent key is empty.
pub record HttpResponse : Type 0 where
  pub status_code : String
  pub body_id : String
  pub body_reference : String

pub record MarketSyncResult : Type 0 where
  pub status : SyncStatus
  pub synced_at : ℕ
  pub registry : String
  pub reports_synced : ℕ
  pub batch_id : String
  pub external_ref : Option String

abbrev pub given : Option String → Bool
given none = false
given (some text) = not (is_empty text)

-- The column against the word "locked": a null is not equal to it.
abbrev pub has_locked : Option AssuranceStatus → Bool
has_locked none = false
has_locked (some s) = is_locked s

abbrev pub Row : Type 0 → Type 0
Row F = ℕ × CarbonReport F × String

module _ {F : Type 0} where
  -- The rows of the join with `plants`.
  unfoldable pub join_plants : Table String → Table (CarbonReport F) → List (Row F)
  join_plants plants [] = []
  join_plants plants ((id, report) ∷ reports) =
      let rest = join_plants plants reports in
      elim (lookup report.plant_id plants) [ none ↦ rest | some code ↦ (id, report, code) ∷ rest ]

  abbrev pub is_selected : Option String → Bool → Row F → Bool
  is_selected filter locked_only (id, report, code) =
      (not (given filter) || str_eq code (or_else filter ""))
      && (not locked_only || has_locked report.assurance_status)

  -- `order_by(period_start.desc())`
  unfoldable pub insert_desc : Row F → List (Row F) → List (Row F)
  insert_desc r [] = r ∷ []
  insert_desc r (x ∷ xs) =
      if ltb x.1.period_start r.1.period_start then r ∷ x ∷ xs else x ∷ insert_desc r xs

  unfoldable pub order_desc : List (Row F) → List (Row F)
  order_desc [] = []
  order_desc (x ∷ xs) = insert_desc x (order_desc xs)

  unfoldable pub select_rows : CarbonDb F → Option String → ℕ → Bool → List (Row F)
  select_rows db filter limit locked_only =
      take limit
        (order_desc (keep (is_selected filter locked_only) (join_plants db.plants db.reports)))

module _ {F : Type 0} ⦃fl : FloatOps F⦄ where
  open fl use {add, lit}

  unfoldable pub registry_item : Row F → RegistryItem F
  registry_item (id, report, code) =
      let scope3 = or_else report.scope3_kgco2 (lit 0 0) in
      record {
        report_id = id;
        plant_code = code;
        period_type = report.period_type;
        period_start = report.period_start;
        period_end = report.period_end;
        scope1_kgco2 = report.scope1_kgco2;
        scope2_kgco2 = report.scope2_kgco2;
        scope3_kgco2 = scope3;
        total_kgco2 = add (add report.scope1_kgco2 report.scope2_kgco2) scope3;
        carbon_intensity_kgco2_ton = report.carbon_intensity_kgco2_ton;
        product_ton = report.product_ton;
        factors_version = report.factors_version;
        assurance_status = report.assurance_status;
      }

  unfoldable pub build_registry_payload :
      CarbonDb F → Option String → ℕ → Bool → List (RegistryItem F)
  build_registry_payload db filter limit locked_only =
      map registry_item (select_rows db filter limit locked_only)

-- `str(body.get("id") or body.get("reference") or response.status_code)`
abbrev pub external_ref_of : HttpResponse → String
external_ref_of r =
    if not (is_empty r.body_id)
    then r.body_id
    else if not (is_empty r.body_reference)
    then r.body_reference
    else r.status_code

abbrev pub answer_status : Option HttpResponse → SyncStatus × Option String
answer_status none = (SyncStatus.error, none)
answer_status (some r) = (SyncStatus.synced, some (external_ref_of r))

module _ {F : Type 0} where
  -- The status and the reference, posting where there is a registry and something to post.
  unfoldable pub sync_status :
      Settings F
      → Bool
      → List (RegistryItem F)
      → (List (RegistryItem F) → Option HttpResponse)
      → SyncStatus × Option String
  sync_status cfg locked_only payload post =
      if is_nil payload && locked_only
      then (SyncStatus.empty, none)
      else if not (is_empty cfg.carbon_market_api_url) && not (is_nil payload)
      then answer_status (post payload)
      else (SyncStatus.staged, none)

  unfoldable pub add_sync : CarbonMarketSync → CarbonDb F → CarbonDb F
  add_sync sync db = record db { syncs = db.syncs ++ sync ∷ [] }

module _ {F : Type 0} ⦃fl : FloatOps F⦄ where
  -- `staged` says whether the directory and the file of the batch could be written.
  unfoldable pub sync_carbon_market :
      Settings F
      → (List (RegistryItem F) → Option HttpResponse)
      → Bool
      → ℕ
      → String
      → Option String
      → Bool
      → Call F (MarketSyncResult × List (RegistryItem F))
  sync_carbon_market cfg post staged now batch filter force_unlocked = do
    let locked_only = cfg.carbon_market_require_locked && not force_unlocked
    payload ← gets (λ db. build_registry_payload db filter 20 locked_only)
    guard staged staging_failed
    let outcome = sync_status cfg locked_only payload post
    modify (
        add_sync (record {
          batch_id = batch;
          plant_code = filter;
          status = outcome.0;
          registry = cfg.carbon_market_registry_name;
          reports_synced = length payload;
          external_ref = outcome.1;
          synced_at = now;
        }))
    pure (
      record {
        status = outcome.0;
        synced_at = now;
        registry = cfg.carbon_market_registry_name;
        reports_synced = length payload;
        batch_id = batch;
        external_ref = outcome.1;
      },
      payload,
    )

-- `list_market_syncs`: the newest first
unfoldable pub insert_newest : CarbonMarketSync → List CarbonMarketSync → List CarbonMarketSync
insert_newest s [] = s ∷ []
insert_newest s (x ∷ xs) =
    if ltb x.synced_at s.synced_at then s ∷ x ∷ xs else x ∷ insert_newest s xs

unfoldable pub order_newest : List CarbonMarketSync → List CarbonMarketSync
order_newest [] = []
order_newest (x ∷ xs) = insert_newest x (order_newest xs)

abbrev pub is_sync_of : Option String → CarbonMarketSync → Bool
is_sync_of filter s =
    not (given filter) || given s.plant_code && str_eq (or_else s.plant_code "") (or_else filter "")

unfoldable pub list_market_syncs :
    {F : Type 0} → CarbonDb F → Option String → ℕ → List CarbonMarketSync
list_market_syncs db filter limit = take limit (order_newest (keep (is_sync_of filter) db.syncs))
