-- ===== src/Common/Text/Strip.antt =====
-- Laws of `strip`.
use openlaps.Common.Tests.{Bool-cases}
use openlaps.Common.Text.{Text, is_space, lstrip, rcons, rstrip, strip}
use mathlib.Core.Path.{◌≡◌, refl, ap}
use mathlib.Core.Logic.{inl, inr}
use mathlib.Core.Bool.{false}
use mathlib.Core.List.{[], ◌∷◌, ◌++◌}
use Prim.Native.Nat.{ℕ}

-- No code point of the text is white space.
abbrev pub HasNoSpace : Text → Type 0
HasNoSpace [] = Unit
HasNoSpace (c ∷ s) = (is_space c ≡ false) × HasNoSpace s

-- The text is empty or starts with another character than white space.
abbrev Starts : Text → Type 0
Starts [] = Unit
Starts (c ∷ s) = is_space c ≡ false

lstrip-Starts : (s : Text) → Starts (lstrip s)
unfolding lstrip
lstrip-Starts [] = tt
lstrip-Starts (c ∷ s) = elim (Bool-cases (is_space c)) [
  | inl e ↦ rw e (lstrip-Starts s)
  | inr e ↦ rw e e
]

lstrip_of_Starts : (s : Text) → Starts s → lstrip s ≡ s
unfolding lstrip
lstrip_of_Starts [] h = refl
lstrip_of_Starts (c ∷ s) h = rw h

rcons-Starts : (c : ℕ) (t : Text) → is_space c ≡ false → Starts (rcons c t)
rcons-Starts c [] h = rw h h
rcons-Starts c (d ∷ u) h = h

rstrip-Starts : (s : Text) → Starts s → Starts (rstrip s)
unfolding rstrip
rstrip-Starts [] h = tt
rstrip-Starts (c ∷ s) h = rcons-Starts c (rstrip s) h

rstrip-rcons : (c : ℕ) (t : Text) → rstrip t ≡ t → rstrip (rcons c t) ≡ rcons c t
unfolding rstrip
rstrip-rcons c [] h = elim (Bool-cases (is_space c)) [ inl e ↦ rw e | inr e ↦ rw e (rw e) ]
rstrip-rcons c (d ∷ t) h = ap (rcons c) h

rstrip-rstrip : (s : Text) → rstrip (rstrip s) ≡ rstrip s
unfolding rstrip
rstrip-rstrip [] = refl
rstrip-rstrip (c ∷ s) = rstrip-rcons c (rstrip s) (rstrip-rstrip s)

-- Stripping twice is stripping once.
pub strip-strip : (s : Text) → strip (strip s) ≡ strip s
unfolding strip
strip-strip s =
    rw (lstrip_of_Starts (rstrip (lstrip s)) (rstrip-Starts (lstrip s) (lstrip-Starts s)))
      (rstrip-rstrip (lstrip s))

HasNoSpace-rstrip : (s : Text) → HasNoSpace s → rstrip s ≡ s
unfolding rstrip
HasNoSpace-rstrip [] h = refl
HasNoSpace-rstrip (c ∷ []) h = rw h.0
HasNoSpace-rstrip (c ∷ d ∷ s) h = ap (rcons c) (HasNoSpace-rstrip (d ∷ s) h.1)

HasNoSpace-Starts : (s : Text) → HasNoSpace s → Starts s
HasNoSpace-Starts [] h = tt
HasNoSpace-Starts (c ∷ s) h = h.0

pub strip_of_HasNoSpace : (s : Text) → HasNoSpace s → strip s ≡ s
unfolding strip
strip_of_HasNoSpace s h = rw (lstrip_of_Starts s (HasNoSpace-Starts s h)) (HasNoSpace-rstrip s h)

pub HasNoSpace-append : (s t : Text) → HasNoSpace s → HasNoSpace t → HasNoSpace (s ++ t)
HasNoSpace-append [] t h k = k
HasNoSpace-append (c ∷ s) t h k = (h.0, HasNoSpace-append s t h.1 k)
