-- ===== src/Base/Result.antt =====
-- Calls that may raise: a result, and a call that reads and changes a state. What was committed
-- before a raise stays committed, so the state comes back after a raise too.
use mathlib.Core.Path.{◌≡◌, refl, ◌∙◌, ap, subst}
use mathlib.Core.Logic.{◌⊎◌, inl, inr}
use mathlib.Core.Bool.{Bool, true, false}
use mathlib.Core.Option.{Option, none, some}

pub data Result (E A : Type 0) : Type 0 where
  ok : A → Result E A
  err : E → Result E A

abbrev pub Action : Type 0 → Type 0 → Type 0 → Type 0
Action S E A = S → Result E A × S

module _ {S E A : Type 0} where
  abbrev pub pure : A → Action S E A
  pure a s = (ok a, s)

  abbrev pub raise : E → Action S E A
  raise e s = (err e, s)

  abbrev pub gets : (S → A) → Action S E A
  gets f s = (ok (f s), s)

  abbrev pub or_raise : Option A → E → Action S E A
  or_raise none e = raise e
  or_raise (some a) _ = pure a

module _ {S E : Type 0} where
  abbrev pub guard : Bool → E → Action S E (Unit {0})
  guard true e s = (ok tt, s)
  guard false e s = (err e, s)

  abbrev pub modify : (S → S) → Action S E (Unit {0})
  modify f s = (ok tt, f s)

infixl 5 ◌>>=◌ ◌>>◌
abbrev pub ◌>>=◌ : {S E A B : Type 0} → Action S E A → (A → Action S E B) → Action S E B
◌>>=◌ m f s = let (r, s') = m s in elim r [ ok a ↦ f a s' | err e ↦ raise e s' ]

abbrev pub ◌>>◌ : {S E A B : Type 0} → Action S E A → Action S E B → Action S E B
m >> k = m >>= λ _. k

module _ {S E A B : Type 0} where
  settled_state :
      (f : A → B) (p : Result E A × S) (s : S) → (((λ (_ : S). p) >>= λ a. pure (f a)) s).1 ≡ p.1
  settled_state f (ok a, s') s = refl
  settled_state f (err e, s') s = refl

  -- A result that is only rebuilt leaves the state of the call.
  pub bind_pure-state :
      (m : Action S E A) (f : A → B) (s : S) → ((m >>= λ a. pure (f a)) s).1 ≡ (m s).1
  bind_pure-state m f s = settled_state f (m s) s

module _ {S E A B : Type 0} where
  pub bind_ok :
      (m : Action S E A) (k : A → Action S E B) (s : S) (a : A) (s' : S)
      → m s ≡ (ok a, s')
      → (m >>= k) s ≡ k a s'
  bind_ok m k s a s' e = ap (λ p. ((λ (_ : S). p) >>= k) s) e

module _ {κ} {S E A B : Type 0} (P : S → Type κ) where
  carried :
      (p : Result E A × S) (k : A → Action S E B) (s : S)
      → P p.1
      → ((a : A) (s' : S) → P s' → P (k a s').1)
      → P (((λ (_ : S). p) >>= k) s).1
  carried (ok a, s') k s h next = next a s' h
  carried (err e, s') k s h next = h

  -- What holds after a call, and is kept by what follows it.
  pub bind_keeps :
      (m : Action S E A) (k : A → Action S E B) (s : S)
      → P (m s).1
      → ((a : A) (s' : S) → P s' → P (k a s').1)
      → P ((m >>= k) s).1
  bind_keeps m k s = carried (m s) k s

abbrev pub IsOk : {E A : Type 0} → Result E A → Type 0
IsOk (ok a) = Unit
IsOk (err e) = ⊥

-- What holds of a value that is returned.
abbrev pub OnOk {κ} : {E A : Type 0} → (A → Type κ) → Result E A → Type κ
OnOk P (ok a) = P a
OnOk P (err e) = Unit

pub OnOk→ok {κ} :
    {E A : Type 0} (P : A → Type κ) (r : Result E A) (a : A) → r ≡ ok a → OnOk P r → P a
OnOk→ok P r a e h = subst (λ x. OnOk P x) e h

module _ {κ} {S E A B : Type 0} (P : S → Type κ) where
  returned :
      (p : Result E A × S) (k : A → Action S E B) (s : S)
      → IsOk (((λ (_ : S). p) >>= k) s).0
      → ((a : A) (s' : S) → IsOk (k a s').0 → P (k a s').1)
      → P (((λ (_ : S). p) >>= k) s).1
  returned (ok a, s') k s h next = next a s' h
  returned (err e, s') k s h next = elim h [ ]

  -- What holds after a call that did not raise: each of its parts did not.
  pub bind_returns :
      (m : Action S E A) (k : A → Action S E B) (s : S)
      → IsOk ((m >>= k) s).0
      → ((a : A) (s' : S) → IsOk (k a s').0 → P (k a s').1)
      → P ((m >>= k) s).1
  bind_returns m k s = returned (m s) k s

-- A call that leaves the state as it is.
pub record Keeps {S E A : Type 0} (m : Action S E A) : Type 0 where
  pub same : (s : S) → (m s).1 ≡ s

module _ {S E : Type 0} where
  pub bind-Keeps :
      {A B : Type 0} (m : Action S E A) (k : A → Action S E B)
      → Keeps m
      → ((a : A) → Keeps (k a))
      → Keeps (m >>= k)
  bind-Keeps m k hm hk = record {
    same = λ s. bind_keeps (λ (t : S). t ≡ s) m k s (hm.same s) (λ a t h. (hk a).same t ∙ h);
  }

  pub guard-Keeps : (b : Bool) (e : E) → Keeps {S = S} (guard b e)
  guard-Keeps true e = record { same = λ s. refl }
  guard-Keeps false e = record { same = λ s. refl }

  pub or_raise-Keeps : {A : Type 0} (o : Option A) (e : E) → Keeps {S = S} (or_raise o e)
  or_raise-Keeps none e = record { same = λ s. refl }
  or_raise-Keeps (some a) e = record { same = λ s. refl }

  pub gets-Keeps : {A : Type 0} (f : S → A) → Keeps {E = E} (gets f)
  gets-Keeps f = record { same = λ s. refl }

  pub pure-Keeps : {A : Type 0} (a : A) → Keeps {S = S} {E = E} (pure a)
  pure-Keeps a = record { same = λ s. refl }

pub ruleset keeps_state = (bind-Keeps, guard-Keeps, or_raise-Keeps, gets-Keeps, pure-Keeps)

pub Result-cases :
    {E A : Type 0} (r : Result E A) → ((a : A) × (r ≡ ok a)) ⊎ ((e : E) × (r ≡ err e))
Result-cases (ok a) = inl (a, refl)
Result-cases (err e) = inr (e, refl)
