-- ===== src/Plant/Sensors/History.antt =====
-- Which readings the history of a plant leaves out.
use khalij_intelligent_energ.Base.{
  ℕ, zero, suc, ◌≤◌, String, ◌≡◌, refl, ap, ◌++◌, some, List, [], ◌∷◌, All, All-map, take, drop,
  leb, leb→le, Bool-cases, inl, inr, arith,
}
use khalij_intelligent_energ.Base.Table.{Dict, get}
use khalij_intelligent_energ.Plant.Sensors.{
  SensorReading, insert_oldest, oldest_first, in_window, get_history,
}

module _ {F : Type 0} where
  -- No reading of the list is older than the instant.
  abbrev pub NotBefore : ℕ → List (SensorReading F) → Type 0
  NotBefore t rows = All (λ (r : SensorReading F). t ≤ r.time) rows

  abbrev IsSorted : List (SensorReading F) → Type 0
  IsSorted [] = Unit
  IsSorted (row ∷ rows) = NotBefore row.time rows × IsSorted rows

  NotBefore-insert_oldest :
      (t : ℕ) (new : SensorReading F) (rows : List (SensorReading F))
      → t ≤ new.time
      → NotBefore t rows
      → NotBefore t (insert_oldest new rows)
  unfolding insert_oldest
  NotBefore-insert_oldest t new [] le h = (le, tt)
  NotBefore-insert_oldest t new (row ∷ rows) le h = elim (Bool-cases (leb new.time row.time)) [
    | inl e ↦ rw e (le, h)
    | inr e ↦ rw e (h.0, NotBefore-insert_oldest t new rows le h.1)
  ]

  insert_oldest-IsSorted :
      (new : SensorReading F) (rows : List (SensorReading F))
      → IsSorted rows
      → IsSorted (insert_oldest new rows)
  unfolding insert_oldest
  insert_oldest-IsSorted new [] h = (tt, tt)
  insert_oldest-IsSorted new (row ∷ rows) h = elim (Bool-cases (leb new.time row.time)) [
    | inl e ↦
        let le = leb→le new.time row.time e in
        rw e (((le, All-map (λ r later. omega (arith, le, later)) rows h.0)), h)
    | inr e ↦ rw e (
      NotBefore-insert_oldest row.time new rows (ground (arith, e)) h.0,
      insert_oldest-IsSorted new rows h.1,
    )
  ]

  oldest_first-IsSorted : (rows : List (SensorReading F)) → IsSorted (oldest_first rows)
  unfolding oldest_first
  oldest_first-IsSorted [] = tt
  oldest_first-IsSorted (row ∷ rows) = insert_oldest-IsSorted row _ (oldest_first-IsSorted rows)

  NotBefore-drop :
      (t n : ℕ) (rows : List (SensorReading F)) → NotBefore t rows → NotBefore t (drop n rows)
  NotBefore-drop t zero rows h = h
  NotBefore-drop t (suc n) [] h = tt
  NotBefore-drop t (suc n) (row ∷ rows) h = NotBefore-drop t n rows h.1

  take_oldest :
      (n : ℕ) (rows : List (SensorReading F))
      → IsSorted rows
      → All (λ (r : SensorReading F). NotBefore r.time (drop n rows)) (take n rows)
  take_oldest zero rows h = tt
  take_oldest (suc n) [] h = tt
  take_oldest (suc n) (row ∷ rows) h = (NotBefore-drop row.time n rows h.0, take_oldest n rows h.1)

  take_then_drop : (n : ℕ) (rows : List (SensorReading F)) → take n rows ++ drop n rows ≡ rows
  take_then_drop zero rows = refl
  take_then_drop (suc n) [] = refl
  take_then_drop (suc n) (row ∷ rows) = ap (λ rs. row ∷ rs) (take_then_drop n rows)

  -- The history of a known plant is the beginning of the readings in the window, put in order of
  -- time. It is cut at its new end: no reading of the window that the limit leaves out is older than
  -- one that is returned.
  pub get_history_oldest :
      (now : ℕ) (plants : Dict ℕ) (code : String) (id minutes limit : ℕ)
      (rows : List (SensorReading F))
      → get code plants ≡ some id
      → (left_out : List (SensorReading F)) × (get_history now plants code minutes limit rows
            ++ left_out
          ≡ oldest_first (in_window now id minutes rows))
        × All
            (λ (r : SensorReading F). NotBefore r.time left_out)
            (get_history now plants code minutes limit rows)
  unfolding get_history
  get_history_oldest now plants code id minutes limit rows known =
      let window = oldest_first (in_window now id minutes rows) in
      rw known (
        drop limit window,
        take_then_drop limit window,
        take_oldest limit window (oldest_first-IsSorted (in_window now id minutes rows)),
      )
