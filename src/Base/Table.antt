-- ===== src/Base/Table.antt =====
-- A keyed collection as an association list: a database table by its primary key, or a `dict`.
use Prim.Native.Nat.{ℕ}
use Prim.Native.String.{String}
use mathlib.Core.Path.{◌≡◌, refl}
use mathlib.Core.Logic.{◌≢◌, inl, inr}
use mathlib.Core.Option.{Option, none, some}
use mathlib.Core.List.{List, [], ◌∷◌}
use native.Mathlib.Omega.{arith}
use package.khalij_intelligent_energ.Base.Tests.{
  ◌==◌, str_eq, if◌then◌else◌, Bool-cases, str_eq_self, str_eq→eq, ne→str_eq,
}

abbrev pub Table {ℓ} : Type ℓ → Type ℓ
Table V = List (ℕ × V)

abbrev pub Dict {ℓ} : Type ℓ → Type ℓ
Dict V = List (String × V)

module _ {ℓ} {V : Type ℓ} where
  unfoldable pub lookup : ℕ → Table V → Option V
  lookup id [] = none
  lookup id ((key, row) ∷ rows) = if key == id then some row else lookup id rows

  -- An update in place, or a new row at the end.
  unfoldable pub insert : ℕ → V → Table V → Table V
  insert id new [] = (id, new) ∷ []
  insert id new ((key, row) ∷ rows) =
      if key == id then (id, new) ∷ rows else (key, row) ∷ insert id new rows

  pub lookup-insert :
      (id other : ℕ) (new : V) (rows : Table V)
      → lookup other (insert id new rows) ≡ (if id == other then some new else lookup other rows)
  unfolding lookup insert
  lookup-insert id other new [] = refl
  lookup-insert id other new ((key, row) ∷ rows) = ground (arith, lookup-insert id other new rows)

  -- `d.get(k)`
  unfoldable pub get : String → Dict V → Option V
  get name [] = none
  get name ((key, value) ∷ entries) = if str_eq key name then some value else get name entries

  -- `d[k] = v`: in place, or at the end.
  unfoldable pub put : String → V → Dict V → Dict V
  put name new [] = (name, new) ∷ []
  put name new ((key, value) ∷ entries) =
      if str_eq key name then (key, new) ∷ entries else (key, value) ∷ put name new entries

  pub get-put_same : (name : String) (new : V) (d : Dict V) → get name (put name new d) ≡ some new
  unfolding get put
  get-put_same name new [] = rw (str_eq_self name) refl
  get-put_same name new ((key, value) ∷ entries) =
      ground (arith, get-put_same name new entries, str_eq_self name)

  pub get-put_other :
      (name other : String) (new : V) (d : Dict V)
      → name ≢ other
      → get other (put name new d) ≡ get other d
  unfolding get put
  get-put_other name other new [] h = rw (ne→str_eq name other h) refl
  get-put_other name other new ((key, value) ∷ entries) h = elim (Bool-cases (str_eq key name)) [
    | inl e ↦ rw (e, str_eq→eq key name e, ne→str_eq name other h) refl
    | inr e ↦ ground (arith, get-put_other name other new entries h)
  ]
