-- ===== src/Carbon/Reports/Keys.antt =====
-- Reports by their plant, period start and period type: what the lookup of app/carbon/reports.py
-- finds, in a table whose ids differ.
use khalij_intelligent_energ.Base.{
  ℕ, Bool, true, false, ◌≡◌, refl, ◌∙◌, inl, inr, none, some, [], ◌∷◌, ◌==◌, arith, Bool-cases,
}
use khalij_intelligent_energ.Base.Table.{Table, lookup, insert, lookup-insert}
use khalij_intelligent_energ.Carbon.Model.{PeriodType, same_period, CarbonReport}
use khalij_intelligent_energ.Carbon.Reports.{is_report_of, find_report}

same_period→eq : (s t : PeriodType) → same_period s t ≡ true → s ≡ t
same_period→eq PeriodType.daily PeriodType.daily h = refl
same_period→eq PeriodType.monthly PeriodType.monthly h = refl
same_period→eq PeriodType.yearly PeriodType.yearly h = refl
same_period→eq PeriodType.daily PeriodType.monthly h = cc
same_period→eq PeriodType.daily PeriodType.yearly h = cc
same_period→eq PeriodType.monthly PeriodType.daily h = cc
same_period→eq PeriodType.monthly PeriodType.yearly h = cc
same_period→eq PeriodType.yearly PeriodType.daily h = cc
same_period→eq PeriodType.yearly PeriodType.monthly h = cc

same_period_self : (s : PeriodType) → same_period s s ≡ true
same_period_self PeriodType.daily = refl
same_period_self PeriodType.monthly = refl
same_period_self PeriodType.yearly = refl

same_period_sym : (s t : PeriodType) → same_period s t ≡ true → same_period t s ≡ true
same_period_sym s t h = rw (same_period→eq s t h) (same_period_self t)

module _ {ℓ} {V : Type ℓ} where
  -- No id stands twice in the table.
  unfoldable pub HasUniqueIds : Table V → Type ℓ
  HasUniqueIds [] = Unit
  HasUniqueIds ((id, row) ∷ rows) = (lookup id rows ≡ none) × HasUniqueIds rows

  pub insert-HasUniqueIds :
      (id : ℕ) (new : V) (rows : Table V) → HasUniqueIds rows → HasUniqueIds (insert id new rows)
  unfolding insert lookup HasUniqueIds
  insert-HasUniqueIds id new [] h = (refl, tt)
  insert-HasUniqueIds id new ((key, row) ∷ rows) h = elim (Bool-cases (key == id)) [
    | inl t ↦
        let (fresh, rest) = h in
        let same : key ≡ id = ground arith in rw t (rw (← same) fresh, rest)
    | inr f ↦
        let (fresh, rest) = h in
        rw f (lookup-insert id key new rows ∙ ground arith, insert-HasUniqueIds id new rows rest)
  ]

module _ {F : Type 0} where
  pub record SameKey (a b : CarbonReport F) : Type 0 where
    pub plant : b.plant_id ≡ a.plant_id
    pub start : b.period_start ≡ a.period_start
    pub period : b.period_type ≡ a.period_type

  pub is_report_of→eq :
      (plant_id start : ℕ) (period : PeriodType) (r : CarbonReport F)
      → is_report_of plant_id start period r ≡ true
      → (r.plant_id ≡ plant_id) × (r.period_start ≡ start) × (r.period_type ≡ period)
  is_report_of→eq plant_id start period r h =
      (ground arith, ground arith, same_period→eq r.period_type period (ground arith))

  find_report-is_report_of :
      (plant_id start : ℕ) (period : PeriodType) (id : ℕ) (r : CarbonReport F)
      (rows : Table (CarbonReport F))
      → find_report plant_id start period rows ≡ some (id, r)
      → is_report_of plant_id start period r ≡ true
  unfolding find_report
  find_report-is_report_of plant_id start period id r [] h = cc
  find_report-is_report_of plant_id start period id r ((key, row) ∷ rows) h =
      ground (arith, find_report-is_report_of plant_id start period id r rows)

  pub find_report-matches :
      (plant_id start : ℕ) (period : PeriodType) (id : ℕ) (r : CarbonReport F)
      (rows : Table (CarbonReport F))
      → find_report plant_id start period rows ≡ some (id, r)
      → (r.plant_id ≡ plant_id) × (r.period_start ≡ start) × (r.period_type ≡ period)
  find_report-matches plant_id start period id r rows h =
      is_report_of→eq plant_id start period r
        (find_report-is_report_of plant_id start period id r rows h)

  -- What is found is the row of its id.
  pub find_report-lookup :
      (plant_id start : ℕ) (period : PeriodType) (id : ℕ) (r : CarbonReport F)
      (rows : Table (CarbonReport F))
      → HasUniqueIds rows
      → find_report plant_id start period rows ≡ some (id, r)
      → lookup id rows ≡ some r
  unfolding find_report lookup HasUniqueIds
  find_report-lookup plant_id start period id r [] u h = cc
  find_report-lookup plant_id start period id r ((key, row) ∷ rows) u h =
      let (fresh, rest) = u in
      elim (Bool-cases (key == id)) [
        | inl t ↦
            let same : key ≡ id = ground arith in
            ground (arith, find_report-lookup plant_id start period id r rows rest)
        | inr f ↦ ground (arith, find_report-lookup plant_id start period id r rows rest)
      ]

  -- Every row of the table but for what is found has another key.
  pub find_report-none :
      (plant_id start : ℕ) (period : PeriodType) (rows : Table (CarbonReport F)) (id : ℕ)
      (r : CarbonReport F)
      → find_report plant_id start period rows ≡ none
      → lookup id rows ≡ some r
      → is_report_of plant_id start period r ≡ false
  unfolding find_report lookup
  find_report-none plant_id start period [] id r e h = cc
  find_report-none plant_id start period ((key, row) ∷ rows) id r e h =
      ground (arith, find_report-none plant_id start period rows id r)

  abbrev same_key : CarbonReport F → CarbonReport F → Bool
  same_key a b = is_report_of a.plant_id a.period_start a.period_type b

  same_key_sym : (a b : CarbonReport F) → same_key a b ≡ true → same_key b a ≡ true
  same_key_sym a b h = ground (arith, same_period_sym b.period_type a.period_type)

  -- No two ids stand for reports of the same plant and period.
  abbrev pub HasOnePerKey : Table (CarbonReport F) → Type 0
  HasOnePerKey rows =
      (i j : ℕ) (a b : CarbonReport F)
      → lookup i rows ≡ some a
      → lookup j rows ≡ some b
      → is_report_of a.plant_id a.period_start a.period_type b ≡ true
      → i ≡ j

  -- A row of the table after a report was saved under its own key stood there before, if with other
  -- numbers.
  row_before :
      (id : ℕ) (r r' : CarbonReport F) (rows : Table (CarbonReport F))
      → lookup id rows ≡ some r
      → SameKey r r'
      → (i : ℕ) (a : CarbonReport F) → lookup i (insert id r' rows) ≡ some a
      → (old : CarbonReport F) × (lookup i rows ≡ some old) × SameKey old a
  row_before id r r' rows found key i a h = elim (Bool-cases (id == i)) [
    | inl t ↦
        let put : lookup i (insert id r' rows) ≡ some r' =
          lookup-insert id i r' rows ∙ ground arith in
        let eq : r' ≡ a = ground arith in (r, ground arith, rw (← eq) key)
    | inr f ↦ (
      a,
      ground (arith, lookup-insert id i r' rows),
      record { plant = refl; start = refl; period = refl },
    )
  ]

  pub insert_known-HasOnePerKey :
      (id : ℕ) (r r' : CarbonReport F) (rows : Table (CarbonReport F))
      → lookup id rows ≡ some r
      → SameKey r r'
      → HasOnePerKey rows
      → HasOnePerKey (insert id r' rows)
  insert_known-HasOnePerKey id r r' rows found key one i j a b ha hb h =
      let (a₀, ea, ka) = row_before id r r' rows found key i a ha in
      let (b₀, eb, kb) = row_before id r r' rows found key j b hb in
      let match : same_key a₀ b₀ ≡ true = ground arith in one i j a₀ b₀ ea eb match

  pub insert_new-HasOnePerKey :
      (id : ℕ) (r' : CarbonReport F) (rows : Table (CarbonReport F))
      → find_report r'.plant_id r'.period_start r'.period_type rows ≡ none
      → HasOnePerKey rows
      → HasOnePerKey (insert id r' rows)
  insert_new-HasOnePerKey id r' rows absent one i j a b ha hb h =
      let at_i = lookup-insert id i r' rows in
      let at_j = lookup-insert id j r' rows in
      let other = find_report-none r'.plant_id r'.period_start r'.period_type rows in
      elim (Bool-cases (id == i)) [
        | inl t ↦ elim (Bool-cases (id == j)) [
          | inl t' ↦ ground arith
          | inr f' ↦ let eq : r' ≡ a = ground arith in ground (arith, other j b absent)
        ]
        | inr f ↦ elim (Bool-cases (id == j)) [
          | inl t' ↦
              let eq : r' ≡ b = ground arith in ground (arith, other i a absent, same_key_sym a b h)
          | inr f' ↦ ground (arith, one i j a b)
        ]
      ]

  pub SameKey-is_report_of :
      (a b : CarbonReport F)
      → SameKey a b
      → is_report_of a.plant_id a.period_start a.period_type b ≡ true
  SameKey-is_report_of a b key = ground (arith, same_period_self a.period_type)
