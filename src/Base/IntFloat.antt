-- ===== src/Base/IntFloat.antt =====
-- A carrier for the examples with values below zero: whole numbers in place of floats.
use khalij_intelligent_energ.Base.{
  ℕ, zero, suc, ◌+◌, ◌-◌, ◌*◌, ◌/◌, ◌^◌, Bool, true, false, ltb, ◌==◌, if◌then◌else◌,
}
use khalij_intelligent_energ.Base.Float.{FloatOps}

-- `negsuc n` is -(n + 1).
pub data ℤ : Type 0 where
  pos negsuc : ℕ → ℤ

abbrev pub negate : ℕ → ℤ
negate zero = pos zero
negate (suc n) = negsuc n

abbrev pub int_neg : ℤ → ℤ
int_neg (pos n) = negate n
int_neg (negsuc n) = pos (suc n)

-- m - n
abbrev pub difference : ℕ → ℕ → ℤ
difference m n = if ltb m n then negate (n - m) else pos (m - n)

abbrev pub int_add : ℤ → ℤ → ℤ
int_add (pos m) (pos n) = pos (m + n)
int_add (pos m) (negsuc n) = difference m (suc n)
int_add (negsuc m) (pos n) = difference n (suc m)
int_add (negsuc m) (negsuc n) = negsuc (suc (m + n))

abbrev pub int_mul : ℤ → ℤ → ℤ
int_mul (pos m) (pos n) = pos (m * n)
int_mul (pos m) (negsuc n) = negate (m * suc n)
int_mul (negsuc m) (pos n) = negate (suc m * n)
int_mul (negsuc m) (negsuc n) = pos (suc m * suc n)

-- The quotient towards zero.
abbrev pub int_div : ℤ → ℤ → ℤ
int_div (pos m) (pos n) = pos (m / n)
int_div (pos m) (negsuc n) = negate (m / suc n)
int_div (negsuc m) (pos n) = negate (suc m / n)
int_div (negsuc m) (negsuc n) = pos (suc m / suc n)

abbrev pub int_lt : ℤ → ℤ → Bool
int_lt (pos m) (pos n) = ltb m n
int_lt (pos m) (negsuc n) = false
int_lt (negsuc m) (pos n) = true
int_lt (negsuc m) (negsuc n) = ltb n m

abbrev pub int_eq : ℤ → ℤ → Bool
int_eq (pos m) (pos n) = m == n
int_eq (negsuc m) (negsuc n) = m == n
int_eq _ _ = false

instance abbrev pub int_float : FloatOps ℤ
int_float = record {
  lt = int_lt;
  eq = int_eq;
  neg = int_neg;
  add = int_add;
  sub = λ x y. int_add x (int_neg y);
  mul = int_mul;
  div = int_div;
  lit = λ m k. pos (m / 10 ^ k);
  round_to = λ x n. x;
}
