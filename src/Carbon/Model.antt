-- ===== src/Carbon/Model.antt =====
-- The data of app/carbon: the tables of app/db/models.py that its modules read and write. A row's
-- id is its key in the table; `period_start` and the like are instants, as numbers.
use khalij_intelligent_energ.Base.{ℕ, String, Bool, true, false, Option, List}
use khalij_intelligent_energ.Base.Table.{Table, Dict}

pub data PeriodType : Type 0 where
  daily monthly yearly : PeriodType

abbrev pub same_period : PeriodType → PeriodType → Bool
same_period PeriodType.daily PeriodType.daily = true
same_period PeriodType.monthly PeriodType.monthly = true
same_period PeriodType.yearly PeriodType.yearly = true
same_period _ _ = false

pub data AssuranceStatus : Type 0 where
  draft in_review approved locked : AssuranceStatus

-- A value of the JSON text `scope3_detail_json`.
pub data DetailValue (F : Type 0) : Type 0 where
  number : F → DetailValue F
  text : String → DetailValue F

-- A row of `carbon_reports`. The column `assurance_status` came with a migration, so a row may have
-- none yet.
pub record CarbonReport (F : Type 0) : Type 0 where
  pub plant_id : ℕ
  pub period_start : ℕ
  pub period_end : ℕ
  pub period_type : PeriodType
  pub scope1_kgco2 : F
  pub scope2_kgco2 : F
  pub scope3_kgco2 : Option F
  pub scope3_detail : Option (Dict (DetailValue F))
  pub carbon_intensity_kgco2_ton : Option F
  pub product_ton : Option F
  pub sample_count : Option ℕ
  pub factors_version : Option String
  pub assurance_status : Option AssuranceStatus
  pub submitted_by : Option String
  pub submitted_at : Option ℕ
  pub approved_by : Option String
  pub approved_at : Option ℕ
  pub locked_by : Option String
  pub locked_at : Option ℕ
  pub created_at : ℕ

pub data AssuranceEventType : Type 0 where
  submitted approved locked : AssuranceEventType

-- A row of `carbon_report_assurance_events`; its detail holds the comment alone.
pub record AssuranceEvent : Type 0 where
  pub report_id : ℕ
  pub event_type : AssuranceEventType
  pub actor : String
  pub comment : Option String
  pub created_at : ℕ

pub data SyncStatus : Type 0 where
  empty staged synced error : SyncStatus

-- One report in the payload for the registry.
pub record RegistryItem (F : Type 0) : Type 0 where
  pub report_id : ℕ
  pub plant_code : String
  pub period_type : PeriodType
  pub period_start : ℕ
  pub period_end : ℕ
  pub scope1_kgco2 : F
  pub scope2_kgco2 : F
  pub scope3_kgco2 : F
  pub total_kgco2 : F
  pub carbon_intensity_kgco2_ton : Option F
  pub product_ton : Option F
  pub factors_version : Option String
  pub assurance_status : Option AssuranceStatus

-- A row of `carbon_market_syncs`, but for its message and path.
pub record CarbonMarketSync : Type 0 where
  pub batch_id : String
  pub plant_code : Option String
  pub status : SyncStatus
  pub registry : String
  pub reports_synced : ℕ
  pub external_ref : Option String
  pub synced_at : ℕ

-- The committed tables. `plants` gives the code of a plant by its id.
pub record CarbonDb (F : Type 0) : Type 0 where
  pub plants : Table String
  pub reports : Table (CarbonReport F)
  pub next_id : ℕ
  pub events : List AssuranceEvent
  pub syncs : List CarbonMarketSync

pub data CarbonError : Type 0 where
  not_found : ℕ → CarbonError
  unknown_plant : String → CarbonError
  bad_transition : AssuranceStatus → CarbonError
  staging_failed : CarbonError
