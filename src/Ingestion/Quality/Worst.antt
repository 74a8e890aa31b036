-- ===== src/Ingestion/Quality/Worst.antt =====
-- The worst-of aggregation of app/ingestion/quality.py.
use khalij_intelligent_energ.Base.{
  ◌≤◌, true, false, ◌≡◌, ◌⊎◌, refl, sym, inl, inr, [], ◌∷◌, ltb, Bool-cases, arith,
}
use khalij_intelligent_energ.Base.Table.{Dict}
use khalij_intelligent_energ.Ingestion.Quality.{
  QualityCode, order, worst_from, aggregate_quality, quality_is_healthy, reading_quality_payload,
}

-- No tag is worse than the bound.
abbrev pub IsBound : QualityCode → Dict QualityCode → Type 0
IsBound worst [] = Unit
IsBound worst ((tag, code) ∷ qualities) = (order code ≤ order worst) × IsBound worst qualities

-- Some tag has this quality.
abbrev pub IsAmong : QualityCode → Dict QualityCode → Type 0
IsAmong worst [] = ⊥
IsAmong worst ((tag, code) ∷ qualities) = (code ≡ worst) ⊎ IsAmong worst qualities

worst_from-IsBound :
    (w v : QualityCode) (qs : Dict QualityCode)
    → worst_from w qs ≡ v
    → (order w ≤ order v) × IsBound v qs
unfolding worst_from
worst_from-IsBound w v [] e = (ground arith, tt)
worst_from-IsBound w v ((tag, code) ∷ qs) e = elim (Bool-cases (ltb (order w) (order code))) [
  | inl t ↦
      let (le, bound) = worst_from-IsBound code v qs (ground arith) in (ground arith, (le, bound))
  | inr f ↦
      let (le, bound) = worst_from-IsBound w v qs (ground arith) in (le, (ground arith, bound))
]

worst_from-IsAmong :
    (w v : QualityCode) (qs : Dict QualityCode) → worst_from w qs ≡ v → (v ≡ w) ⊎ IsAmong v qs
unfolding worst_from
worst_from-IsAmong w v [] e = inl (sym e)
worst_from-IsAmong w v ((tag, code) ∷ qs) e = elim (Bool-cases (ltb (order w) (order code))) [
  | inl t ↦ elim (worst_from-IsAmong code v qs (ground arith)) [
    | inl same ↦ inr (inl (sym same))
    | inr among ↦ inr (inr among)
  ]
  | inr f ↦ elim (worst_from-IsAmong w v qs (ground arith)) [
    | inl same ↦ inl same
    | inr among ↦ inr (inr among)
  ]
]

-- The quality of a reading is that of its worst tag, in the order good, unknown, uncertain, bad: no
-- tag is worse, and some tag has it, or it is good.
pub aggregate_quality_worst :
    (qs : Dict QualityCode)
    → IsBound (aggregate_quality qs) qs
      × ((aggregate_quality qs ≡ QualityCode.good) ⊎ IsAmong (aggregate_quality qs) qs)
unfolding aggregate_quality
aggregate_quality_worst qs = (
  (worst_from-IsBound QualityCode.good (aggregate_quality qs) qs refl).1,
  worst_from-IsAmong QualityCode.good (aggregate_quality qs) qs refl,
)

IsBound-le :
    (worst code : QualityCode) (qs : Dict QualityCode)
    → IsBound worst qs
    → IsAmong code qs
    → order code ≤ order worst
IsBound-le worst code [] h among = ground arith
IsBound-le worst code ((tag, other) ∷ qs) h (inl e) = rw (← e) h.0
IsBound-le worst code ((tag, other) ∷ qs) h (inr among) = IsBound-le worst code qs h.1 among

order_two : (q : QualityCode) → order q ≡ 2 → q ≡ QualityCode.uncertain
order_two QualityCode.good h = ground arith
order_two QualityCode.uncertain h = refl
order_two QualityCode.bad h = ground arith
order_two QualityCode.unknown h = ground arith

-- Where no tag is bad, one is uncertain and one is unknown, and uncertain values are allowed, a
-- reading passes as healthy, though an unknown tag alone does not.
pub unknown_tag_masked :
    (qs : Dict QualityCode)
    → IsBound QualityCode.uncertain qs
    → IsAmong QualityCode.uncertain qs
    → IsAmong QualityCode.unknown qs
    → ((reading_quality_payload qs true).quality_ok ≡ true)
      × (quality_is_healthy QualityCode.unknown true ≡ false)
unfolding reading_quality_payload
unknown_tag_masked qs bound uncertain_tag unknown_tag =
    let (above, among) = aggregate_quality_worst qs in
    let least = IsBound-le (aggregate_quality qs) QualityCode.uncertain qs above uncertain_tag in
    let most : order (aggregate_quality qs) ≤ 2 = elim among [
      | inl e ↦ ground arith
      | inr tag ↦ IsBound-le QualityCode.uncertain (aggregate_quality qs) qs bound tag
    ] in
    let same = order_two (aggregate_quality qs) (ground arith) in (ground arith, refl)
