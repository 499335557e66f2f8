-- ===== src/Ingest/Distinct.antt =====
-- Sequences of messages: those of a list are distinct, are in it, and lie above or up to a bound.
use openlaps.Common.{
  ℕ, ◌≤◌, ◌<◌, ◌≡◌, refl, false, ◌||◌, List, [], ◌∷◌, ◌++◌, eqb_iff, All, arith, nat_eq,
}
use openlaps.Registry.{contains}
use openlaps.Ingest.Rows.{pair_eq_instance}

abbrev pub Distinct : List ℕ → Type 0
Distinct [] = Unit
Distinct (x ∷ xs) = (contains x xs ≡ false) × Distinct xs

pub contains-append :
    (n : ℕ) (xs ys : List ℕ) → contains n (xs ++ ys) ≡ (contains n xs || contains n ys)
contains-append n [] ys = refl
contains-append n (x ∷ xs) ys = ground (arith, contains-append n xs ys)

pub Distinct-append :
    (xs ys : List ℕ)
    → Distinct xs
    → Distinct ys
    → All (λ x. contains x ys ≡ false) xs
    → Distinct (xs ++ ys)
Distinct-append [] ys h k apart = k
Distinct-append (x ∷ xs) ys (h, hs) k (a, apart) =
    (ground (arith, contains-append x xs ys, h, a), Distinct-append xs ys hs k apart)

pub contains-above : (c n : ℕ) (xs : List ℕ) → n ≤ c → All (λ x. c < x) xs → contains n xs ≡ false
contains-above c n [] le h = refl
contains-above c n (x ∷ xs) le (h, hs) = ground (arith, contains-above c n xs le hs, eqb_iff x n)

pub All-above :
    (c : ℕ) (xs ys : List ℕ)
    → All (λ x. x ≤ c) xs
    → All (λ y. c < y) ys
    → All (λ x. contains x ys ≡ false) xs
All-above c [] ys h k = tt
All-above c (x ∷ xs) ys (h, hs) k = (contains-above c x ys h k, All-above c xs ys hs k)

pub All-new :
    (n : ℕ) (xs : List ℕ) → contains n xs ≡ false → All (λ x. contains x (n ∷ []) ≡ false) xs
All-new n [] h = tt
All-new n (x ∷ xs) h =
    (ground (arith, h, eqb_iff x n, eqb_iff n x), All-new n xs (ground (arith, h)))

pub All-le : (c d : ℕ) (xs : List ℕ) → c ≤ d → All (λ x. x ≤ c) xs → All (λ x. x ≤ d) xs
All-le c d [] le h = tt
All-le c d (x ∷ xs) le (h, hs) = (omega arith, All-le c d xs le hs)

pub All-lt : (c d : ℕ) (xs : List ℕ) → c ≤ d → All (λ x. d < x) xs → All (λ x. c < x) xs
All-lt c d [] le h = tt
All-lt c d (x ∷ xs) le (h, hs) = (omega arith, All-lt c d xs le hs)
