-- ===== src/Ml/Dataset.antt =====
-- app/ml/dataset.py: the rows that a model is trained on, and how they are split. The rows of the
-- database, the rounded size of a split and the shuffling are arguments.
use khalij_intelligent_energ.Base.{
  ℕ, ◌-◌, ◌/◌, Bool, Option, none, some, List, [], ◌∷◌, length, take, drop, from_end, is_nil, ltb,
  if◌then◌else◌,
}
use khalij_intelligent_energ.Plant.Physics.{Measured}
use khalij_intelligent_energ.Ml.Model.{Targets, MlDataset, timescaledb}

-- The readings of the last hours: a row is `none` where a column that is read is null.
abbrev pub DbRows : Type 0 → Type 0
DbRows F = List (Option (Measured F × Targets F))

-- What is loaded: nothing, the rows, or a TypeError.
pub data Loaded (F : Type 0) : Type 0 where
  no_rows null_value : Loaded F
  frame : MlDataset F → Loaded F

abbrev pub max_nat : ℕ → ℕ → ℕ
max_nat a b = if ltb a b then b else a

abbrev pub min_nat : ℕ → ℕ → ℕ
min_nat a b = if ltb b a then b else a

module _ {F : Type 0} where
  -- `float(rec[c])` for each column: `none` where one is null and `float` raises.
  unfoldable pub complete_rows : DbRows F → Option (List (Measured F × Targets F))
  complete_rows [] = some []
  complete_rows (none ∷ rows) = none
  complete_rows (some row ∷ rows) = elim (complete_rows rows) [
    | none ↦ none
    | some rest ↦ some (row ∷ rest)
  ]

  abbrev pub framed : Option (List (Measured F × Targets F)) → Loaded F
  framed none = null_value
  framed (some []) = no_rows
  framed (some (row ∷ rows)) = frame (record { rows = row ∷ rows; source = timescaledb })

  unfoldable pub load_db_dataset : DbRows F → Loaded F
  unfolding complete_rows
  load_db_dataset rows = framed (complete_rows rows)

module _ {A : Type 0} where
  -- The last part is held out; one row alone is trained on.
  unfoldable pub temporal_split : ℕ → List A → List A × List A
  temporal_split size rows =
      let cut = if ltb 1 (length rows) then min_nat (max_nat 1 size) (length rows - 1) else 1 in
      (take cut rows, drop cut rows)

  abbrev pub with_test : List A → List A → ℕ → List A × List A
  with_test train test n = (train, if is_nil test then from_end (max_nat 1 (n / 5)) train else test)

  -- A split of the shuffled rows; where nothing is left for the test, rows are used twice.
  unfoldable pub shuffled_split : ℕ → List A → List A × List A
  shuffled_split size shuffled =
      with_test (take (max_nat 1 size) shuffled) (drop (max_nat 1 size) shuffled) (length shuffled)

  -- `size` is `int(n * (1 - test_ratio))`.
  unfoldable pub train_test_split : (List A → List A) → ℕ → Bool → List A → List A × List A
  unfolding temporal_split shuffled_split
  train_test_split shuffle size temporal rows =
      if temporal then temporal_split size rows else shuffled_split size (shuffle rows)
