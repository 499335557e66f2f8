-- ===== src/Common/Checked.antt =====
-- The `do` blocks of long validations. Sequencing is shut here, so that a proof takes a block apart
-- by the rules for it.
use openlaps.Common.Result.{Result, ok, err}
use mathlib.Core.Path.{◌≡◌, refl, subst}
use mathlib.Core.Bool.{Bool, true, false}

infixl 5 ◌>>=◌ ◌>>◌
unfoldable pub ◌>>=◌ : {E A B : Type 0} → Result E A → (A → Result E B) → Result E B
ok a >>= next = next a
err e >>= next = err e

unfoldable pub ◌>>◌ : {E B : Type 0} → Result E (Unit {0}) → Result E B → Result E B
ok u >> next = next
err e >> next = err e

-- `if bad: raise e`
unfoldable pub raise_if : {E : Type 0} → Bool → E → Result E (Unit {0})
raise_if true e = err e
raise_if false e = ok tt

-- The value, if there is one, satisfies the predicate.
pub record Ensures {E A : Type 0} (P : A → Type 0) (r : Result E A) : Type 0 where
  pub holds : (a : A) → r ≡ ok a → P a

module _ {E B : Type 0} {P : B → Type 0} where
  pub Ensures->>= :
      {A : Type 0} (first : Result E A) (next : A → Result E B)
      → ((a : A) → first ≡ ok a → Ensures P (next a))
      → Ensures P (first >>= next)
  unfolding ◌>>=◌
  Ensures->>= (ok a) next h = h a refl
  Ensures->>= (err e) next h = record { holds = λ b q. cc q }

  pub Ensures-raise_if :
      (bad : Bool) (e : E) (next : Result E B)
      → (bad ≡ false → Ensures P next)
      → Ensures P (raise_if bad e >> next)
  unfolding ◌>>◌ raise_if
  Ensures-raise_if false e next h = h refl
  Ensures-raise_if true e next h = record { holds = λ b q. cc q }

  pub Ensures-ok : (a : B) → P a → Ensures {E = E} P (ok a)
  Ensures-ok a p = record { holds = λ b q. let same : a ≡ b = cc q in subst P same p }

  pub Ensures-err : (e : E) → Ensures P (err e)
  Ensures-err e = record { holds = λ b q. cc q }
