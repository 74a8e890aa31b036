-- ===== src/Ingestion/Examples.antt =====
-- Quality codes, freshness and alerts on small data, and the theorems at inputs that meet their hypotheses.
use khalij_intelligent_energ.Base.{true, false, ◌≡◌, refl, inl, inr, some, [], ◌∷◌, arith, none, ℕ}
use khalij_intelligent_energ.Base.Table.{Dict}
use khalij_intelligent_energ.Base.NatFloat.{nat_float}
use khalij_intelligent_energ.Config.Examples.{default_settings}
use khalij_intelligent_energ.Ingestion.Freshness.{
  AlertDb, AlertType, StreamAlert, StreamStatus, FreshnessStatus, alert_type_of, newest_open,
  add_alert, raise_alert_if_needed,
}
use khalij_intelligent_energ.Ingestion.Freshness.Alerts.{alert_once_in_cooldown}
use khalij_intelligent_energ.Ingestion.Quality.{
  QualityCode, status_code_to_quality, quality_is_healthy, reading_quality_payload,
}
use khalij_intelligent_energ.Ingestion.Quality.Worst.{unknown_tag_masked}
use khalij_intelligent_energ.Base.Result.{err}
use khalij_intelligent_energ.Ingestion.TagMap.{TagDef, PlantTagMap, TagMap}
use khalij_intelligent_energ.Ingestion.Session.{
  SessionSettings, OpcClient, TagValue, PlantConnectSession, SessionError, connect, read_plant,
}
use khalij_intelligent_energ.Ingestion.Session.Frozen.{connected_reads_repeat}

abbrev tags : Dict QualityCode
tags =
    ("feed_flow_tonh", QualityCode.good)
    ∷ ("reactor_temp_c", QualityCode.uncertain)
    ∷ ("steam_flow_tonh", QualityCode.unknown)
    ∷ []

bad_code : status_code_to_quality (some 2150891520) ≡ QualityCode.bad
unfolding status_code_to_quality
bad_code = refl

unknown_tag_masked_example :
    ((reading_quality_payload tags true).quality_ok ≡ true)
    × (quality_is_healthy QualityCode.unknown true ≡ false)
unknown_tag_masked_example =
    unknown_tag_masked tags (omega arith, (omega arith, (omega arith, tt))) (inr (inl refl))
      (inr (inr (inl refl)))

abbrev no_alerts : AlertDb ℕ
no_alerts = record { alerts = []; next_id = 1 }

abbrev silent : FreshnessStatus ℕ
silent = record {
  plant_code = "olefin";
  status = StreamStatus.missing;
  age_seconds = none;
  threshold_seconds = 5;
  quality = none;
  source = none;
}

abbrev alert : StreamAlert ℕ
alert = record {
  plant_code = "olefin";
  alert_type = AlertType.stream_missing;
  age_seconds = none;
  created_at = 100;
  resolved_at = none;
}

abbrev one_alert : AlertDb ℕ
one_alert = record { alerts = (1, alert) ∷ []; next_id = 2 }

alert_raised :
    raise_alert_if_needed default_settings 100 silent no_alerts ≡ (some (1, alert), one_alert)
unfolding raise_alert_if_needed alert_type_of newest_open add_alert
alert_raised = refl

alert_once_in_cooldown_example :
    raise_alert_if_needed default_settings 120 silent one_alert ≡ (some (1, alert), one_alert)
unfolding alert_type_of newest_open
alert_once_in_cooldown_example =
    alert_once_in_cooldown default_settings 100 120 silent AlertType.stream_missing no_alerts
      one_alert (1, alert) refl (λ best e. ground arith) alert_raised refl

abbrev session_settings : SessionSettings
session_settings = record {
  opc_ua_endpoint = "opc.tcp://plant:4840";
  opc_ua_use_subscription = true;
}

-- A server that takes no subscription, and answers every read by the given value.
abbrev server : ℕ → OpcClient ℕ
server value = record {
  connects = true;
  creates_subscription = false;
  subscribe_data_change = λ node. none;
  read_data_value = λ node. some (record {
    value = TagValue.number value;
    status_code = some 0;
    server_timestamp = none;
    source_timestamp = none;
  });
}

abbrev temp_tag : TagDef ℕ
temp_tag = record {
  field = "reactor_temp_c";
  node_id = "ns=2;s=temp";
  unit = "C";
  description = "";
  scale = 1;
  offset = 0;
  writable = false;
  write_node_id = none;
}

abbrev olefin : PlantTagMap ℕ
olefin = record {
  code = "olefin";
  name = "Olefin";
  tags = ("reactor_temp_c", temp_tag) ∷ [];
  endpoint = none;
}

abbrev plant_map : TagMap ℕ
plant_map = ("olefin", olefin) ∷ []

abbrev unopened : PlantConnectSession ℕ
unopened = record {
  client = false;
  subscription = false;
  handles = [];
  cache = [];
  connected = false;
}

-- The subscription fails; 400 degrees are read for ever, though the server says 450.
connected_reads_repeat_example :
    let opened = (connect session_settings (server 400) plant_map unopened).1 in
    let first = read_plant session_settings (server 400) plant_map olefin opened in
    (opened.connected ≡ true)
    × ((read_plant session_settings (server 450) plant_map olefin first.1).0 ≡ first.0)
connected_reads_repeat_example =
    connected_reads_repeat session_settings (server 400) (server 400) (server 450) plant_map olefin
      unopened refl refl refl

subscription_fails :
    (connect session_settings (server 400) plant_map unopened).0
    ≡ err SessionError.subscription_failed
unfolding connect
subscription_fails = refl
