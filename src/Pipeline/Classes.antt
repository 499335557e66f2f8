-- ===== src/Pipeline/Classes.antt =====
-- The pending samples of a batcher, seen by source class.
use mathlib.Core.List.{append_assoc, append-nil}
use openlaps.Common.{
  ◌≡◌, ◌∙◌, refl, sym, ap, String, true, false, none, some, List, [], ◌∷◌, ◌++◌, All, All-append,
  if◌then◌else◌, ◌==◌, string_eq, nat_eq, arith, Bool-cases, inl, inr,
}
use openlaps.Common.Dict.{Dict, lookup}
use openlaps.Batcher.{push}

module _ {A : Type 0} where
  -- Everything that is listed under a class.
  abbrev pub under : String → Dict String (List A) → List A
  under c [] = []
  under c ((k, items) ∷ rest) =
      let others = under c rest in if k == c then items ++ others else others

  abbrev pub IsDistinct : Dict String (List A) → Type 0
  IsDistinct [] = Unit
  IsDistinct ((k, items) ∷ rest) = (lookup k rest ≡ none) × IsDistinct rest

  under-absent : (c : String) (d : Dict String (List A)) → lookup c d ≡ none → under c d ≡ []
  unfolding lookup
  under-absent c [] h = refl
  under-absent c ((k, items) ∷ rest) h = elim (Bool-cases (k == c)) [
    | inl e ↦ absurd (let q : some items ≡ none = rw e at h in cc q)
    | inr e ↦ rw e (under-absent c rest (rw e at h))
  ]

  lookup-push_ne :
      (j k : String) (x : A) (d : Dict String (List A))
      → lookup j d ≡ none
      → j == k ≡ false
      → lookup j (push k x d) ≡ none
  unfolding lookup push
  lookup-push_ne j k x [] h ne = ground (arith, string_eq.same_iff j k, string_eq.same_iff k j)
  lookup-push_ne j k x ((i, items) ∷ rest) h ne = ground (
    arith,
    string_eq.same_iff j k,
    string_eq.same_iff i k,
    string_eq.same_iff i j,
    lookup-push_ne j k x rest,
  )

  pub push-IsDistinct :
      (k : String) (x : A) (d : Dict String (List A)) → IsDistinct d → IsDistinct (push k x d)
  unfolding push lookup
  push-IsDistinct k x [] h = (refl, tt)
  push-IsDistinct k x ((i, items) ∷ rest) h = elim (Bool-cases (i == k)) [
    | inl e ↦ rw e h
    | inr e ↦ rw e (lookup-push_ne i k x rest h.0 e, push-IsDistinct k x rest h.1)
  ]

  pub under-push :
      (c k : String) (x : A) (d : Dict String (List A))
      → IsDistinct d
      → under c (push k x d) ≡ under c d ++ (if k == c then x ∷ [] else [])
  unfolding push
  under-push c k x [] h = elim (Bool-cases (k == c)) [ inl e ↦ rw e | inr e ↦ rw e ]
  under-push c k x ((i, items) ∷ rest) h = elim (Bool-cases (i == k)) [
    | inl e ↦ elim (Bool-cases (i == c)) [
      | inl e' ↦
          let same : k == c ≡ true = ground (arith, string_eq.same_iff i k) in
          let gone : under c rest ≡ [] = under-absent c rest (
            let q : i ≡ c = (string_eq.same_iff i c).0 e' in
            ap (λ j. lookup j rest) (sym q) ∙ h.0) in
          rw (e, e', same, gone, append-nil items, append-nil (items ++ x ∷ []))
      | inr e' ↦
          let other : k == c ≡ false = ground (arith, string_eq.same_iff i k) in
          rw (e, e', other, append-nil (under c rest))
    ]
    | inr e ↦ elim (Bool-cases (i == c)) [
      | inl e' ↦ rw (e, e', under-push c k x rest h.1, append_assoc items (under c rest))
      | inr e' ↦ rw (e, e') (under-push c k x rest h.1)
    ]
  ]

  -- A predicate of all that is pending.
  abbrev pub AllUnder : (A → Type 0) → Dict String (List A) → Type 0
  AllUnder P [] = Unit
  AllUnder P ((k, items) ∷ rest) = All P items × AllUnder P rest

  pub push-AllUnder :
      (P : A → Type 0) (k : String) (x : A) (d : Dict String (List A))
      → P x
      → AllUnder P d
      → AllUnder P (push k x d)
  unfolding push
  push-AllUnder P k x [] p h = ((p, tt), tt)
  push-AllUnder P k x ((i, items) ∷ rest) p h = elim (Bool-cases (i == k)) [
    | inl e ↦ rw e (All-append P items (x ∷ []) h.0 (p, tt), h.1)
    | inr e ↦ rw e (h.0, push-AllUnder P k x rest p h.1)
  ]
