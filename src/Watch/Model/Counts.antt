-- ===== src/Watch/Model/Counts.antt =====
-- The observations in the bins, counted before and after the table is made of them.
use openlaps.Common.{
  ℕ, suc, ◌+◌, ◌≡◌, refl, String, false, Option, none, some, List, [], ◌∷◌, ◌++◌, length,
  length-append, ◌==◌, string_eq, arith, Bool-cases, Option-cases, inl, inr,
}
use openlaps.Common.Dict.{Dict, lookup, insert, lookup-insert}
use openlaps.Common.Number.{Number}
use openlaps.Watch.{Stats, Maths}
use openlaps.Watch.Model.{append_to, tabulate}

module _ {N : Type 0} where
  -- The observations in all bins, and those that the table stands on.
  abbrev pub binned : Dict String (List N) → ℕ
  binned [] = 0
  binned ((key, values) ∷ bins) = length values + binned bins

  abbrev pub tabled : Dict String (Stats N) → ℕ
  tabled [] = 0
  tabled ((key, stats) ∷ table) = stats.count + tabled table

module _ {V : Type 0} where
  -- No key stands twice.
  abbrev pub Distinct : Dict String V → Type 0
  Distinct [] = Unit
  Distinct ((k, v) ∷ d) = (lookup k d ≡ none) × Distinct d

  pub lookup-insert-none :
      (k j : String) (v : V) (d : Dict String V)
      → j == k ≡ false
      → lookup j d ≡ none
      → lookup j (insert k v d) ≡ none
  lookup-insert-none k j v d ne h =
      ground (arith, ne, h, lookup-insert k j v d, string_eq.same_iff k j, string_eq.same_iff j k)

  pub insert-Distinct :
      (k : String) (v : V) (d : Dict String V) → Distinct d → Distinct (insert k v d)
  unfolding insert lookup
  insert-Distinct k v [] h = (refl, tt)
  insert-Distinct k v ((j, w) ∷ d) (h, hs) = elim (Bool-cases (j == k)) [
    | inl e ↦ rw e (h, hs)
    | inr e ↦ rw e (lookup-insert-none k j v d e h, insert-Distinct k v d hs)
  ]

module _ {N : Type 0} where
  size : Option (List N) → ℕ
  size none = 0
  size (some values) = length values

  binned-insert :
      (k : String) (values : List N) (d : Dict String (List N))
      → binned (insert k values d) + size (lookup k d) ≡ binned d + length values
  unfolding insert lookup size
  binned-insert k values [] = omega arith
  binned-insert k values ((j, ws) ∷ d) = elim (Bool-cases (j == k)) [
    | inl e ↦ rw e (omega arith)
    | inr e ↦ rw e (omega (arith, binned-insert k values d))
  ]

  pub binned-append_to :
      (k : String) (v : N) (d : Dict String (List N)) → binned (append_to k v d) ≡ suc (binned d)
  unfolding append_to size
  binned-append_to k v d = elim (Option-cases (lookup k d)) [
    | inl e ↦
        let h : binned (insert k (v ∷ []) d) + 0 ≡ binned d + 1 =
          rw (e, size) at (binned-insert k (v ∷ []) d) in
        rw e (omega (arith, h))
    | inr (values, e) ↦
        let h : binned (insert k (values ++ v ∷ []) d) + length values
            ≡ binned d + length (values ++ v ∷ []) =
          rw (e, size) at (binned-insert k (values ++ v ∷ []) d) in
        rw e (omega (arith, h, length-append values (v ∷ [])))
  ]

  pub append_to-Distinct :
      (k : String) (v : N) (d : Dict String (List N)) → Distinct d → Distinct (append_to k v d)
  unfolding append_to
  append_to-Distinct k v d h = insert-Distinct k _ d h

  tabled-insert :
      (k : String) (stats : Stats N) (d : Dict String (Stats N))
      → lookup k d ≡ none
      → tabled (insert k stats d) ≡ stats.count + tabled d
  unfolding insert lookup
  tabled-insert k stats [] h = refl
  tabled-insert k stats ((j, w) ∷ d) h = elim (Bool-cases (j == k)) [
    | inl e ↦ absurd (let q : some w ≡ none = rw e at h in cc q)
    | inr e ↦
        let h' : lookup k d ≡ none = rw e at h in rw e (omega (arith, tabled-insert k stats d h'))
  ]

  -- No key of the bins is one of the table.
  abbrev pub Apart : Dict String (List N) → Dict String (Stats N) → Type 0
  Apart [] table = Unit
  Apart ((k, values) ∷ bins) table = (lookup k table ≡ none) × Apart bins table

  pub Apart-nil : (bins : Dict String (List N)) → Apart bins []
  unfolding lookup
  Apart-nil [] = tt
  Apart-nil ((k, values) ∷ bins) = (refl, Apart-nil bins)

  Apart-insert :
      (k : String) (stats : Stats N) (bins : Dict String (List N)) (table : Dict String (Stats N))
      → lookup k bins ≡ none
      → Apart bins table
      → Apart bins (insert k stats table)
  unfolding lookup
  Apart-insert k stats [] table e h = tt
  Apart-insert k stats ((j, values) ∷ bins) table e (h, hs) = elim (Bool-cases (j == k)) [
    | inl q ↦ absurd (let z : some values ≡ none = rw q at e in cc z)
    | inr q ↦
        let e' : lookup k bins ≡ none = rw q at e in
        (lookup-insert-none k j stats table q h, Apart-insert k stats bins table e' hs)
  ]

module _ (number : Number) (maths : Maths number.N) where
  open number use {N}

  pub tabled-tabulate :
      (bins : Dict String (List N)) (table : Dict String (Stats N))
      → Distinct bins
      → Apart bins table
      → tabled (tabulate number maths bins table) ≡ binned bins + tabled table
  unfolding tabulate
  tabled-tabulate [] table d a = omega arith
  tabled-tabulate ((k, values) ∷ bins) table (d, ds) (a, as') = omega (
    arith,
    tabled-tabulate bins _ ds (Apart-insert k _ bins table d as'),
    tabled-insert k _ table a,
  )
