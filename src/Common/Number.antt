-- ===== src/Common/Number.antt =====
-- Python's numbers, `int` and `float` together, as a parameter: the type and the operations that the
-- program applies to them, `of_ℕ` for its whole literals. A theorem that needs a law of one states it as a hypothesis.
use mathlib.Core.Bool.{Bool}
use openlaps.Common.Tests.{ltb, leb, eqb}
use Prim.Native.Nat.{ℕ, ◌+◌, ◌-◌, ◌*◌, ◌/◌}

pub record Number : Type 1 where
  pub N : Type 0
  pub of_ℕ : ℕ → N
  pub add : N → N → N
  pub sub : N → N → N
  pub mul : N → N → N
  pub div : N → N → N
  pub abs : N → N
  pub lt_n : N → N → Bool
  pub le_n : N → N → Bool
  pub eq_n : N → N → Bool

-- Whole non-negative values, at which the examples run.
abbrev pub whole : Number
whole = record {
  N = ℕ;
  of_ℕ = λ n. n;
  add = ◌+◌;
  sub = ◌-◌;
  mul = ◌*◌;
  div = ◌/◌;
  abs = λ a. a;
  lt_n = ltb;
  le_n = leb;
  eq_n = eqb;
}
