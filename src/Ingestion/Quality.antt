-- ===== src/Ingestion/Quality.antt =====
-- app/ingestion/quality.py: the quality of OPC UA values. A status code is a number, and
-- `code & 0xC0000000` its two bits from 2 ^ 30 on.
pub mod Worst
use khalij_intelligent_energ.Base.{
  ℕ, ◌*◌, ◌/◌, ◌%◌, ◌^◌, String, Bool, true, false, Option, none, some, List, [], ◌∷◌, ltb, ◌==◌,
  if◌then◌else◌,
}
use khalij_intelligent_energ.Base.Float.{FloatOps}
use khalij_intelligent_energ.Base.Table.{Dict}

pub data QualityCode : Type 0 where
  good uncertain bad unknown : QualityCode

unfoldable pub status_code_to_quality : Option ℕ → QualityCode
status_code_to_quality none = QualityCode.unknown
status_code_to_quality (some code) =
    let bits = code / 2 ^ 30 % 4 in
    if bits == 0
    then QualityCode.good
    else if bits == 1
    then QualityCode.uncertain
    else if bits == 2
    then QualityCode.bad
    else QualityCode.unknown

abbrev pub order : QualityCode → ℕ
order QualityCode.bad = 3
order QualityCode.uncertain = 2
order QualityCode.unknown = 1
order QualityCode.good = 0

-- The loop of `aggregate_quality` from the worst so far.
unfoldable pub worst_from : QualityCode → Dict QualityCode → QualityCode
worst_from worst [] = worst
worst_from worst ((tag, code) ∷ qualities) =
    worst_from (if ltb (order worst) (order code) then code else worst) qualities

unfoldable pub aggregate_quality : Dict QualityCode → QualityCode
aggregate_quality qualities = worst_from QualityCode.good qualities

abbrev pub quality_is_healthy : QualityCode → Bool → Bool
quality_is_healthy QualityCode.good allow_uncertain = true
quality_is_healthy QualityCode.uncertain allow_uncertain = allow_uncertain
quality_is_healthy _ allow_uncertain = false

pub record QualityPayload : Type 0 where
  pub quality : QualityCode
  pub quality_detail : Dict QualityCode
  pub quality_ok : Bool

unfoldable pub reading_quality_payload : Dict QualityCode → Bool → QualityPayload
reading_quality_payload per_tag allow_uncertain =
    let overall = aggregate_quality per_tag in
    record {
      quality = overall;
      quality_detail = per_tag;
      quality_ok = quality_is_healthy overall allow_uncertain;
    }

module _ {F : Type 0} ⦃fl : FloatOps F⦄ where
  unfoldable pub apply_scale : F → F → F → F
  apply_scale value scale offset = fl.add (fl.mul value scale) offset
