-- ===== src/Common/Result.antt =====
-- Code that may raise: a value or the exception. `do` blocks use `>>=` and `>>` of this module.
use mathlib.Core.Path.{◌≡◌, refl}
use mathlib.Core.Bool.{Bool, true, false}
use mathlib.Core.Option.{Option, none, some}

pub data Result (E A : Type 0) : Type 0 where
  ok : A → Result E A
  err : E → Result E A

module _ {E : Type 0} where
  -- The exception goes past what follows.
  infixl 5 ◌>>=◌ ◌>>◌
  abbrev pub ◌>>=◌ : {A B : Type 0} → Result E A → (A → Result E B) → Result E B
  err e >>= next = err e
  ok a >>= next = next a

  abbrev pub ◌>>◌ : {B : Type 0} → Result E (Unit {0}) → Result E B → Result E B
  first >> next = first >>= λ _. next

  -- `if bad: raise e`
  abbrev pub raise_if : Bool → E → Result E (Unit {0})
  raise_if true e = err e
  raise_if false e = ok tt

  abbrev pub or_raise : {A : Type 0} → Option A → E → Result E A
  or_raise none e = err e
  or_raise (some a) e = ok a

  -- What a run without an exception went through.
  pub >>=-eq-ok :
      {A B : Type 0} {b : B} (first : Result E A) (next : A → Result E B)
      → first >>= next ≡ ok b
      → (a : A) × (first ≡ ok a) × (next a ≡ ok b)
  >>=-eq-ok (err e) next went = cc
  >>=-eq-ok (ok a) next went = (a, refl, went)

  pub raise_if-eq-ok :
      {B : Type 0} {x : B} (bad : Bool) (e : E) (next : Result E B)
      → raise_if bad e >> next ≡ ok x
      → (bad ≡ false) × (next ≡ ok x)
  raise_if-eq-ok false e next went = (refl, went)
  raise_if-eq-ok true e next went = cc
