-- ===== src/Ingestion/Freshness/Alerts.antt =====
-- When app/ingestion/freshness.py alerts, and that it does so once in a cooldown.
use khalij_intelligent_energ.Base.{
  ℕ, String, true, false, ◌≡◌, ◌↔◌, refl, ◌∙◌, inl, inr, Option, none, some, [], ◌∷◌, ◌++◌,
  str_eq_self, arith, Bool-cases, Option-cases, if◌then◌else◌,
}
use khalij_intelligent_energ.Base.Float.{FloatOps}
use khalij_intelligent_energ.Base.Table.{Table}
use khalij_intelligent_energ.Config.{Settings}
use khalij_intelligent_energ.Ingestion.Freshness.{
  StreamStatus, AlertType, same_type, FreshnessStatus, StreamAlert, AlertDb, alert_type_of, Latest,
  is_alert_of, newer, newest_open, add_alert, raise_alert_if_needed, check_freshness, quality_of,
  is_unhealthy,
}

same_type_self : (t : AlertType) → same_type t t ≡ true
same_type_self AlertType.stream_stale = refl
same_type_self AlertType.stream_missing = refl
same_type_self AlertType.data_quality = refl

module _ {F : Type 0} ⦃fl : FloatOps F⦄ where
  open fl use {lt, sub}

  newest_open-append :
      (code : String) (kind : AlertType) (best : Option (ℕ × StreamAlert F))
      (rows : Table (StreamAlert F)) (row : ℕ × StreamAlert F)
      → is_alert_of code kind row.1 ≡ true
      → newest_open code kind best (rows ++ row ∷ []) ≡ newer (newest_open code kind best rows) row
  unfolding newest_open
  newest_open-append code kind best [] row h = rw h refl
  newest_open-append code kind best (x ∷ rows) row h =
      newest_open-append code kind (if is_alert_of code kind x.1 then newer best x else best) rows
        row h

  -- The newest open alert of a kind that follows an alert just added: the added one, where the clock
  -- is past the others.
  added-newest_open :
      (now : F) (status : FreshnessStatus F) (kind : AlertType) (db : AlertDb F)
      → ((best : ℕ × StreamAlert F)
          → newest_open status.plant_code kind none db.alerts ≡ some best
          → lt best.1.created_at now ≡ true)
      → newest_open status.plant_code kind none (add_alert now status kind db).1.alerts
        ≡ some (add_alert now status kind db).0
  unfolding add_alert
  added-newest_open now status kind db clock =
      let row = (add_alert now status kind db).0 in
      let fits : is_alert_of status.plant_code kind row.1 ≡ true =
        ground (arith, str_eq_self status.plant_code, same_type_self kind) in
      newest_open-append status.plant_code kind none db.alerts row fits
      ∙ elim (Option-cases (newest_open status.plant_code kind none db.alerts)) [
        | inl e ↦ ground arith
        | inr (best, e) ↦ ground (arith, clock best)
      ]

  -- A call for a status that is not fresh, made while the alert of an earlier call for it is younger
  -- than the cooldown, gives that alert again and adds none, where the clock of the earlier call was
  -- past the newest open alert of the plant and the type.
  pub alert_once_in_cooldown :
      (cfg : Settings F) (now later : F) (status : FreshnessStatus F) (kind : AlertType)
      (db db' : AlertDb F) (alert : ℕ × StreamAlert F)
      → alert_type_of status.status ≡ some kind
      → ((best : ℕ × StreamAlert F)
          → newest_open status.plant_code kind none db.alerts ≡ some best
          → lt best.1.created_at now ≡ true)
      → raise_alert_if_needed cfg now status db ≡ (some alert, db')
      → lt (sub later alert.1.created_at) cfg.stream_alert_cooldown_seconds ≡ true
      → raise_alert_if_needed cfg later status db' ≡ (some alert, db')
  unfolding raise_alert_if_needed
  alert_once_in_cooldown cfg now later status kind db db' alert raises clock raised within =
      let newest = added-newest_open now status kind db clock in
      elim (Option-cases (newest_open status.plant_code kind none db.alerts)) [
        | inl e ↦
            let is_alert : (add_alert now status kind db).0 ≡ alert = ground arith in
            let is_db : (add_alert now status kind db).1 ≡ db' = ground arith in ground arith
        | inr (best, e) ↦
            elim (Bool-cases (lt (sub now best.1.created_at) cfg.stream_alert_cooldown_seconds)) [
              | inl t ↦
                  let is_alert : best ≡ alert = ground arith in
                  let is_db : db ≡ db' = ground arith in ground arith
              | inr f ↦
                  let is_alert : (add_alert now status kind db).0 ≡ alert = ground arith in
                  let is_db : (add_alert now status kind db).1 ≡ db' = ground arith in ground arith
            ]
      ]

  -- A stream is missing just where it has no reading, stale just where its age is over the threshold,
  -- and of bad quality just where it is neither and the quality of its latest reading is known and not
  -- healthy.
  pub check_freshness_cases :
      (cfg : Settings F) (code : String) (age : Option F) (latest : Option Latest)
      → ((check_freshness cfg code age latest).status ≡ StreamStatus.missing ↔ (age ≡ none))
        × ((check_freshness cfg code age latest).status ≡ StreamStatus.stale
            ↔ ((a : F) × (age ≡ some a) × (lt cfg.stale_data_seconds a ≡ true)))
        × ((check_freshness cfg code age latest).status ≡ StreamStatus.bad_quality ↔ (
            (a : F) × (age ≡ some a)
            × (lt cfg.stale_data_seconds a ≡ false)
            × (is_unhealthy (quality_of latest) cfg.opc_ua_allow_uncertain ≡ true)))
  unfolding check_freshness
  check_freshness_cases cfg code none latest = (
    (λ h. refl, λ h. refl),
    (λ h. ground arith, λ h. ground arith),
    (λ h. ground arith, λ h. ground arith),
  )
  check_freshness_cases cfg code (some a) latest =
      let old = Bool-cases (lt cfg.stale_data_seconds a) in
      let bad = Bool-cases (is_unhealthy (quality_of latest) cfg.opc_ua_allow_uncertain) in
      (
        (λ h. ground arith, λ h. ground arith),
        (λ h. (a, refl, ground arith), λ h. ground arith),
        (λ h. (a, refl, ground arith, ground arith), λ h. ground arith),
      )
