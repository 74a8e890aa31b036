-- ===== src/Plant/Sensors.antt =====
-- app/repositories/sensors.py: the table of readings, by time and plant. A reading's text of quality
-- details is held as it is stored; whether the database refuses a row is an argument.
pub mod History
use khalij_intelligent_energ.Base.{
  ℕ, ◌-◌, ◌*◌, String, Bool, true, false, not, ◌&&◌, ◌==◌, ◌≡◌, refl, ltb, leb, Option, none, some,
  is_some, List, [], ◌∷◌, take, keep, newest_first, if◌then◌else◌, arith,
}
use khalij_intelligent_energ.Base.Result.{
  Result, ok, err, Action, pure, raise, or_raise, ◌>>=◌, ◌>>◌,
}
use khalij_intelligent_energ.Base.Table.{Dict, get}

-- The columns of a reading besides its key.
pub record SensorFields (F : Type 0) : Type 0 where
  pub electricity_power_mw : Option F
  pub fuel_gas_flow_km3h : Option F
  pub steam_flow_tonh : Option F
  pub feed_flow_tonh : Option F
  pub reactor_temp_c : Option F
  pub pressure_bar : Option F
  pub energy_intensity_kgoe_ton : Option F
  pub carbon_emission_kgco2_ton : Option F
  pub energy_efficiency_percent : Option F
  pub source : Option String
  pub quality : Option String
  pub quality_detail : Option String

pub record SensorReading (F : Type 0) : Type 0 where
  pub time : ℕ
  pub plant_id : ℕ
  pub fields : SensorFields F

pub data SensorError : Type 0 where
  unknown_plant : String → SensorError
  database_error : SensorError

module _ {F : Type 0} where
  abbrev pub has_key : ℕ → ℕ → SensorReading F → Bool
  has_key time plant_id row = row.time == time && row.plant_id == plant_id

  unfoldable pub find_reading : ℕ → ℕ → List (SensorReading F) → Option (SensorReading F)
  find_reading time plant_id [] = none
  find_reading time plant_id (row ∷ rows) =
      if has_key time plant_id row then some row else find_reading time plant_id rows

  -- `_apply_fields` on the row of the same key, or a new row.
  unfoldable pub put_reading : SensorReading F → List (SensorReading F) → List (SensorReading F)
  put_reading new [] = new ∷ []
  put_reading new (row ∷ rows) =
      if has_key new.time new.plant_id row then new ∷ rows else row ∷ put_reading new rows

  -- Whether the commit that decides is refused: the second one where the key is taken, since the insert
  -- fails there, and else the insert.
  abbrev pub is_refused : Bool → Bool → Option (SensorReading F) → Bool
  is_refused refused again none = refused
  is_refused refused again (some row) = again

  -- The insert fails where the key is taken, or the database refuses it; then the row of the key is
  -- looked for and changed, in a second commit that may be refused `again`.
  unfoldable pub upsert_reading :
      Bool
      → Bool
      → Dict ℕ
      → String
      → ℕ
      → SensorFields F
      → Action (List (SensorReading F)) SensorError (SensorReading F)
  unfolding find_reading put_reading
  upsert_reading refused again plants code time fields = do
    plant_id ← or_raise (get code plants) (unknown_plant code)
    let new : SensorReading F = record { time = time; plant_id = plant_id; fields = fields }
    λ rows.
        if is_refused refused again (find_reading time plant_id rows)
        then (err database_error, rows)
        else (ok new, put_reading new rows)

  abbrev pub of_plant : ℕ → List (SensorReading F) → List (SensorReading F)
  of_plant plant_id rows = keep (λ (r : SensorReading F). r.plant_id == plant_id) rows

  abbrev pub first_row : List (SensorReading F) → Option (SensorReading F)
  first_row [] = none
  first_row (row ∷ rows) = some row

  -- `order_by(time.desc()).limit(1)`
  abbrev pub latest_of : Option ℕ → List (SensorReading F) → Option (SensorReading F)
  latest_of none rows = none
  latest_of (some id) rows =
      first_row (newest_first (λ (r : SensorReading F). r.time) (of_plant id rows))

  unfoldable pub get_latest_reading :
      Dict ℕ → String → List (SensorReading F) → Option (SensorReading F)
  get_latest_reading plants code rows = latest_of (get code plants) rows

  -- `order_by(time.asc())`
  unfoldable pub insert_oldest : SensorReading F → List (SensorReading F) → List (SensorReading F)
  insert_oldest new [] = new ∷ []
  insert_oldest new (row ∷ rows) =
      if leb new.time row.time then new ∷ row ∷ rows else row ∷ insert_oldest new rows

  unfoldable pub oldest_first : List (SensorReading F) → List (SensorReading F)
  unfolding insert_oldest
  oldest_first [] = []
  oldest_first (row ∷ rows) = insert_oldest row (oldest_first rows)

  -- The readings of a plant of the last minutes; instants are seconds.
  abbrev pub in_window : ℕ → ℕ → ℕ → List (SensorReading F) → List (SensorReading F)
  in_window now plant_id minutes rows =
      keep (λ (r : SensorReading F). leb (now - minutes * 60) r.time) (of_plant plant_id rows)

  abbrev pub history_of : ℕ → ℕ → ℕ → Option ℕ → List (SensorReading F) → List (SensorReading F)
  history_of now minutes limit none rows = []
  history_of now minutes limit (some id) rows =
      take limit (oldest_first (in_window now id minutes rows))

  unfoldable pub get_history :
      ℕ → Dict ℕ → String → ℕ → ℕ → List (SensorReading F) → List (SensorReading F)
  unfolding oldest_first
  get_history now plants code minutes limit rows =
      history_of now minutes limit (get code plants) rows

  -- An upsert changes the row of its key, and no other.
  pub find_reading-put_reading :
      (time plant_id : ℕ) (new : SensorReading F) (rows : List (SensorReading F))
      → find_reading time plant_id (put_reading new rows)
        ≡ (if has_key time plant_id new then some new else find_reading time plant_id rows)
  unfolding find_reading put_reading
  find_reading-put_reading time plant_id new [] = refl
  find_reading-put_reading time plant_id new (row ∷ rows) =
      ground (arith, find_reading-put_reading time plant_id new rows)

  -- For a known plant, unless the database refuses a new row or the change of the row of that key, an
  -- upsert returns the row of the reading. It is then found by its time and plant, and every other row
  -- is found as before.
  pub upsert_reading_lem :
      (refused again : Bool) (plants : Dict ℕ) (code : String) (id time : ℕ)
      (fields : SensorFields F) (rows : List (SensorReading F)) (other_time other_id : ℕ)
      → get code plants ≡ some id
      → is_refused refused again (find_reading time id rows) ≡ false
      → let new : SensorReading F = record { time = time; plant_id = id; fields = fields } in
        let done = upsert_reading refused again plants code time fields rows in
        (done.0 ≡ ok new)
        × (find_reading other_time other_id done.1 ≡ (
            if has_key other_time other_id new
            then some new
            else find_reading other_time other_id rows))
  unfolding upsert_reading
  upsert_reading_lem refused again plants code id time fields rows other_time other_id known taken =
      rw (known, taken)
        (
          refl,
          find_reading-put_reading other_time other_id
              (record { time = time; plant_id = id; fields = fields }) rows,
        )
