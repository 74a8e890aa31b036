-- ===== src/Demo/MemoryReports.antt =====
-- app/demo/memory_reports.py: carbon reports in memory, and what app/api/routes/carbon.py does with
-- them for submit, approve and lock. Each call holds the lock from its first read to its last write.
pub mod Lock
use khalij_intelligent_energ.Base.{
  ℕ, suc, String, Bool, true, false, ◌&&◌, ◌==◌, Option, none, some, List, [], ◌∷◌, str_eq,
  if◌then◌else◌,
}
use khalij_intelligent_energ.Base.Result.{Action, ◌>>=◌, ◌>>◌, pure, gets, or_raise, modify}
use khalij_intelligent_energ.Base.Table.{Table, lookup, insert}
use khalij_intelligent_energ.Carbon.Model.{PeriodType, same_period}

pub data MemoryStatus : Type 0 where
  draft submitted approved locked : MemoryStatus

abbrev pub is_locked : MemoryStatus → Bool
is_locked MemoryStatus.locked = true
is_locked _ = false

pub record MemoryCarbonReport (F : Type 0) : Type 0 where
  pub plant_code : String
  pub period_type : PeriodType
  pub period_start : ℕ
  pub period_end : ℕ
  pub scope1_kgco2 : F
  pub scope2_kgco2 : F
  pub scope3_kgco2 : F
  pub carbon_intensity_kgco2_ton : F
  pub product_ton : F
  pub sample_count : ℕ
  pub factors_version : String
  pub assurance_status : MemoryStatus
  pub submitted_by : Option String
  pub approved_by : Option String
  pub locked_by : Option String
  pub scope3_detail_json : Option String
  pub created_at : ℕ

pub record MemoryReportStore (F : Type 0) : Type 0 where
  pub next_id : ℕ
  pub reports : Table (MemoryCarbonReport F)

abbrev pub new_report_store : {F : Type 0} → MemoryReportStore F
new_report_store = record { next_id = 800000; reports = [] }

module _ {F : Type 0} where
  abbrev pub has_same_key : MemoryCarbonReport F → MemoryCarbonReport F → Bool
  has_same_key report existing =
      str_eq existing.plant_code report.plant_code
      && same_period existing.period_type report.period_type
      && existing.period_start == report.period_start

  -- The first stored report of the same plant and period.
  unfoldable pub find_existing :
      MemoryCarbonReport F → Table (MemoryCarbonReport F) → Option (ℕ × MemoryCarbonReport F)
  find_existing report [] = none
  find_existing report ((id, existing) ∷ reports) =
      if has_same_key report existing then some (id, existing) else find_existing report reports

  unfoldable pub overwrite : MemoryCarbonReport F → MemoryCarbonReport F → MemoryCarbonReport F
  overwrite report existing = record existing {
    period_end = report.period_end;
    scope1_kgco2 = report.scope1_kgco2;
    scope2_kgco2 = report.scope2_kgco2;
    scope3_kgco2 = report.scope3_kgco2;
    carbon_intensity_kgco2_ton = report.carbon_intensity_kgco2_ton;
    product_ton = report.product_ton;
    sample_count = report.sample_count;
    factors_version = report.factors_version;
  }

  abbrev pub put_report : ℕ → MemoryCarbonReport F → MemoryReportStore F → MemoryReportStore F
  put_report id report m = record m { reports = insert id report m.reports }

  abbrev pub upsert_over :
      MemoryCarbonReport F
      → Option (ℕ × MemoryCarbonReport F)
      → MemoryReportStore F
      → (ℕ × MemoryCarbonReport F) × MemoryReportStore F
  upsert_over report none m = (
    (m.next_id, report),
    record m { next_id = suc m.next_id; reports = insert m.next_id report m.reports },
  )
  upsert_over report (some (id, existing)) m =
      if is_locked existing.assurance_status
      then ((id, existing), m)
      else ((id, overwrite report existing), put_report id (overwrite report existing) m)

  -- Of a report without an id, as `generate_memory_report` makes it.
  unfoldable pub upsert :
      MemoryCarbonReport F → MemoryReportStore F → (ℕ × MemoryCarbonReport F) × MemoryReportStore F
  upsert report m = upsert_over report (find_existing report m.reports) m

  abbrev pub signed : MemoryStatus → String → MemoryCarbonReport F → MemoryCarbonReport F
  signed MemoryStatus.submitted actor r = record r { submitted_by = some actor }
  signed MemoryStatus.approved actor r = record r { approved_by = some actor }
  signed MemoryStatus.locked actor r = record r { locked_by = some actor }
  signed MemoryStatus.draft actor r = r

  -- A missing id raises a KeyError.
  unfoldable pub set_assurance :
      ℕ → MemoryStatus → String → Action (MemoryReportStore F) ℕ (MemoryCarbonReport F)
  set_assurance id status actor = do
    report ← or_raise (← gets (λ m. lookup id m.reports)) id
    let report' = signed status actor (record report { assurance_status = status })
    modify (put_report id report')
    pure report'

  -- The routes on a report of this store.
  unfoldable pub submit_assurance :
      ℕ → String → Action (MemoryReportStore F) ℕ (MemoryCarbonReport F)
  submit_assurance id user = set_assurance id MemoryStatus.submitted user

  unfoldable pub approve_assurance :
      ℕ → String → Action (MemoryReportStore F) ℕ (MemoryCarbonReport F)
  approve_assurance id user = set_assurance id MemoryStatus.approved user

  unfoldable pub lock_assurance : ℕ → String → Action (MemoryReportStore F) ℕ (MemoryCarbonReport F)
  lock_assurance id user = set_assurance id MemoryStatus.locked user
