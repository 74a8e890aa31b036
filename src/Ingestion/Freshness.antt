-- ===== src/Ingestion/Freshness.antt =====
-- app/ingestion/freshness.py: whether a plant's stream is fresh, and the alerts on it. The age and the
-- latest reading are arguments, seconds are floats, and the texts of messages are left out.
pub mod Alerts
use khalij_intelligent_energ.Base.{
  ℕ, suc, ◌==◌, String, Bool, true, false, not, ◌&&◌, Option, none, some, List, [], ◌∷◌, ◌++◌,
  str_eq, is_some, take, keep, if◌then◌else◌,
}
use khalij_intelligent_energ.Base.Float.{FloatOps}
use khalij_intelligent_energ.Base.Table.{Table, lookup, insert}
use khalij_intelligent_energ.Config.{Settings}
use khalij_intelligent_energ.Ingestion.Quality.{QualityCode, quality_is_healthy}

pub data StreamStatus : Type 0 where
  fresh stale missing bad_quality : StreamStatus

pub data AlertType : Type 0 where
  stream_stale stream_missing data_quality : AlertType

abbrev pub same_type : AlertType → AlertType → Bool
same_type AlertType.stream_stale AlertType.stream_stale = true
same_type AlertType.stream_missing AlertType.stream_missing = true
same_type AlertType.data_quality AlertType.data_quality = true
same_type _ _ = false

pub record FreshnessStatus (F : Type 0) : Type 0 where
  pub plant_code : String
  pub status : StreamStatus
  pub age_seconds : Option F
  pub threshold_seconds : F
  pub quality : Option QualityCode
  pub source : Option String

-- A row of `stream_alerts`.
pub record StreamAlert (F : Type 0) : Type 0 where
  pub plant_code : String
  pub alert_type : AlertType
  pub age_seconds : Option F
  pub created_at : F
  pub resolved_at : Option F

pub record AlertDb (F : Type 0) : Type 0 where
  pub alerts : Table (StreamAlert F)
  pub next_id : ℕ

-- The latest reading's columns.
pub record Latest : Type 0 where
  pub quality : Option QualityCode
  pub source : Option String

abbrev pub quality_of : Option Latest → Option QualityCode
quality_of none = none
quality_of (some r) = r.quality

abbrev pub source_of : Option Latest → Option String
source_of none = none
source_of (some r) = r.source

abbrev pub is_unhealthy : Option QualityCode → Bool → Bool
is_unhealthy none allow_uncertain = false
is_unhealthy (some q) allow_uncertain = not (quality_is_healthy q allow_uncertain)

-- The type of alert that a status raises, if any.
unfoldable pub alert_type_of : StreamStatus → Option AlertType
alert_type_of StreamStatus.fresh = none
alert_type_of StreamStatus.missing = some AlertType.stream_missing
alert_type_of StreamStatus.bad_quality = some AlertType.data_quality
alert_type_of StreamStatus.stale = some AlertType.stream_stale

module _ {F : Type 0} ⦃fl : FloatOps F⦄ where
  open fl use {lt, sub, round_to}

  abbrev pub status_by : Settings F → Option F → Option QualityCode → StreamStatus
  status_by cfg none quality = StreamStatus.missing
  status_by cfg (some age) quality =
      if lt cfg.stale_data_seconds age
      then StreamStatus.stale
      else if is_unhealthy quality cfg.opc_ua_allow_uncertain
      then StreamStatus.bad_quality
      else StreamStatus.fresh

  abbrev pub rounded : Option F → Option F
  rounded none = none
  rounded (some age) = some (round_to age 3)

  unfoldable pub check_freshness :
      Settings F → String → Option F → Option Latest → FreshnessStatus F
  check_freshness cfg code age latest = record {
    plant_code = code;
    status = status_by cfg age (quality_of latest);
    age_seconds = rounded age;
    threshold_seconds = cfg.stale_data_seconds;
    quality = quality_of latest;
    source = source_of latest;
  }

  abbrev pub is_open_alert : StreamAlert F → Bool
  is_open_alert a = not (is_some a.resolved_at)

  abbrev pub is_alert_of : String → AlertType → StreamAlert F → Bool
  is_alert_of code kind a =
      str_eq a.plant_code code && same_type a.alert_type kind && is_open_alert a

  abbrev pub newer : Option (ℕ × StreamAlert F) → ℕ × StreamAlert F → Option (ℕ × StreamAlert F)
  newer none row = some row
  newer (some best) row = if lt best.1.created_at row.1.created_at then some row else some best

  -- `order_by(created_at.desc()).limit(1)` on the open alerts of the plant and the type
  unfoldable pub newest_open :
      String
      → AlertType
      → Option (ℕ × StreamAlert F)
      → Table (StreamAlert F)
      → Option (ℕ × StreamAlert F)
  newest_open code kind best [] = best
  newest_open code kind best (row ∷ rows) =
      newest_open code kind (if is_alert_of code kind row.1 then newer best row else best) rows

  unfoldable pub add_alert :
      F → FreshnessStatus F → AlertType → AlertDb F → (ℕ × StreamAlert F) × AlertDb F
  add_alert now status kind db =
      let alert : StreamAlert F = record {
        plant_code = status.plant_code;
        alert_type = kind;
        age_seconds = status.age_seconds;
        created_at = now;
        resolved_at = none;
      } in
      (
        (db.next_id, alert),
        record { alerts = db.alerts ++ (db.next_id, alert) ∷ []; next_id = suc db.next_id },
      )

  -- An open alert that is younger than the cooldown stands for a new one.
  abbrev pub alert_or_add :
      Settings F
      → F
      → FreshnessStatus F
      → AlertType
      → Option (ℕ × StreamAlert F)
      → AlertDb F
      → (ℕ × StreamAlert F) × AlertDb F
  alert_or_add cfg now status kind none db = add_alert now status kind db
  alert_or_add cfg now status kind (some existing) db =
      if lt (sub now existing.1.created_at) cfg.stream_alert_cooldown_seconds
      then (existing, db)
      else add_alert now status kind db

  abbrev pub raise_alert :
      Settings F
      → F
      → FreshnessStatus F
      → Option AlertType
      → AlertDb F
      → Option (ℕ × StreamAlert F) × AlertDb F
  raise_alert cfg now status none db = (none, db)
  raise_alert cfg now status (some kind) db =
      let raised =
        alert_or_add cfg now status kind (newest_open status.plant_code kind none db.alerts) db in
      (some raised.0, raised.1)

  unfoldable pub raise_alert_if_needed :
      Settings F → F → FreshnessStatus F → AlertDb F → Option (ℕ × StreamAlert F) × AlertDb F
  raise_alert_if_needed cfg now status db =
      raise_alert cfg now status (alert_type_of status.status) db

  unfoldable pub insert_newest_alert :
      ℕ × StreamAlert F → Table (StreamAlert F) → Table (StreamAlert F)
  insert_newest_alert row [] = row ∷ []
  insert_newest_alert row (x ∷ xs) =
      if lt x.1.created_at row.1.created_at then row ∷ x ∷ xs else x ∷ insert_newest_alert row xs

  unfoldable pub order_alerts : Table (StreamAlert F) → Table (StreamAlert F)
  order_alerts [] = []
  order_alerts (row ∷ rows) = insert_newest_alert row (order_alerts rows)

  unfoldable pub list_open_alerts : AlertDb F → ℕ → Table (StreamAlert F)
  list_open_alerts db limit =
      take limit (order_alerts (keep (λ (row : ℕ × StreamAlert F). is_open_alert row.1) db.alerts))

  abbrev pub resolved :
      F → ℕ → Option (StreamAlert F) → AlertDb F → Option (StreamAlert F) × AlertDb F
  resolved now id none db = (none, db)
  resolved now id (some alert) db =
      let alert' : StreamAlert F = record alert { resolved_at = some now } in
      (some alert', record db { alerts = insert id alert' db.alerts })

  unfoldable pub resolve_alert : F → ℕ → AlertDb F → Option (StreamAlert F) × AlertDb F
  resolve_alert now id db = resolved now id (lookup id db.alerts) db
