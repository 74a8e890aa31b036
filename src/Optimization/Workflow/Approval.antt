-- ===== src/Optimization/Workflow/Approval.antt =====
-- A write to the plant is justified by the audit trail and by the row that it was made for, and
-- stays so as rows change and events are added.
use khalij_intelligent_energ.Base.{
  ℕ, Bool, true, false, ◌≡◌, refl, ◌∙◌, ap, inl, inr, ◌||◌, ◌&&◌, ◌==◌, some, List, [], ◌∷◌, ◌++◌,
  arith, Bool-cases,
}
use khalij_intelligent_energ.Base.Table.{lookup, insert, lookup-insert}
use khalij_intelligent_energ.Config.{Settings}
use khalij_intelligent_energ.Ingestion.TagMap.{TagMap}
use khalij_intelligent_energ.Ingestion.OpcuaWrite.Allowlist.{IsPermitted}
use khalij_intelligent_energ.Optimization.Model.{
  Recommendation, Status, EventType, AuditEvent, PlantWrite, World,
}
use khalij_intelligent_energ.Optimization.Apply.{is_approved}
use khalij_intelligent_energ.Optimization.Trail.{Track, at, replay, advance}

abbrev is_approval : EventType → Bool
is_approval EventType.approved = true
is_approval _ = false

-- The track is one that only an approval leads to.
abbrev is_past_approval : Track → Bool
is_past_approval (at Status.approved) = true
is_past_approval (at Status.applied) = true
is_past_approval (at Status.failed) = true
is_past_approval _ = false

module _ {F : Type 0} where
  -- Is there an `approved` event of this recommendation?
  unfoldable pub has_approval : ℕ → List (AuditEvent F) → Bool
  has_approval id [] = false
  has_approval id (e ∷ es) =
      e.recommendation_id == id && is_approval e.event_type || has_approval id es

  has_approval-append :
      (id : ℕ) (es more : List (AuditEvent F))
      → has_approval id es ≡ true
      → has_approval id (es ++ more) ≡ true
  unfolding has_approval
  has_approval-append id [] more h = cc
  has_approval-append id (e ∷ es) more h = ground (arith, has_approval-append id es more)

  pub approval_of_replay :
      (id : ℕ) (t : Track) (es : List (AuditEvent F)) (s : Status)
      → is_past_approval t ≡ false
      → replay id t es ≡ at s
      → is_approved s ≡ true
      → has_approval id es ≡ true
  unfolding has_approval replay
  approval_of_replay id t [] s early e h = ground arith
  approval_of_replay id t (x ∷ es) s early e h =
      ground
        (arith, approval_of_replay id t es s, approval_of_replay id (advance t x.event_type) es s)

module _ {F : Type 0} (cfg : Settings F) (plants : TagMap F) where
  -- The write belongs to a recommendation that was approved, and goes to a field and a tag of its
  -- plant that may be written.
  abbrev pub IsJustified : World F → PlantWrite F → Type 0
  IsJustified w pw =
      (rec : Recommendation F) × (lookup pw.recommendation_id w.recs ≡ some rec)
      × IsPermitted cfg plants rec.plant_code pw.item
      × (has_approval pw.recommendation_id w.audit ≡ true)

  -- The rows of `w` are still there in `w'`, for the same plants.
  abbrev pub KeepsRows : World F → World F → Type 0
  KeepsRows w w' =
      (j : ℕ) (rec : Recommendation F)
      → lookup j w.recs ≡ some rec
      → (rec' : Recommendation F) × (lookup j w'.recs ≡ some rec')
        × (rec'.plant_code ≡ rec.plant_code)

  pub IsJustified-keeps :
      (w w' : World F) (more : List (AuditEvent F)) (pw : PlantWrite F)
      → KeepsRows w w'
      → w'.audit ≡ w.audit ++ more
      → IsJustified w pw
      → IsJustified w' pw
  IsJustified-keeps w w' more pw keep ea (rec, found, permitted, approved) =
      let (rec', found', code) = keep pw.recommendation_id rec found in
      (
        rec',
        found',
        rw code permitted,
        rw ea (has_approval-append pw.recommendation_id w.audit more approved),
      )

  pub insert-KeepsRows :
      (id : ℕ) (rec rec' : Recommendation F) (w w' : World F)
      → lookup id w.recs ≡ some rec
      → rec'.plant_code ≡ rec.plant_code
      → w'.recs ≡ insert id rec' w.recs
      → KeepsRows w w'
  insert-KeepsRows id rec rec' w w' found code er j old h = elim (Bool-cases (id == j)) [
    | inl t ↦ (rec', ap (lookup j) er ∙ lookup-insert id j rec' w.recs ∙ ground arith, ground arith)
    | inr f ↦ (old, ap (lookup j) er ∙ lookup-insert id j rec' w.recs ∙ ground arith, refl)
  ]
