-- ===== src/Base/NatFloat.antt =====
-- A carrier for the examples: whole numbers in place of floats.
use khalij_intelligent_energ.Base.{ℕ, ◌+◌, ◌-◌, ◌*◌, ◌/◌, ◌^◌, ltb, ◌==◌}
use khalij_intelligent_energ.Base.Float.{FloatOps}

instance abbrev pub nat_float : FloatOps ℕ
nat_float = record {
  lt = ltb;
  eq = ◌==◌;
  neg = λ x. 0 - x;
  add = ◌+◌;
  sub = ◌-◌;
  mul = ◌*◌;
  div = ◌/◌;
  lit = λ m k. m / 10 ^ k;
  round_to = λ x n. x;
}
