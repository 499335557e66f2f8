-- ===== src/Pipeline/Sort.antt =====
-- The order in which `flush` takes the staged samples, and the windows that it cuts.
use openlaps.Common.{
  ℕ, ◌+◌, ◌≤◌, ◌<◌, ◌≡◌, refl, ap, false, List, [], ◌∷◌, ◌++◌, ltb, leb, length, All, arith,
  Bool-cases, inl, inr, leb→le, ltb→lt,
}
use openlaps.Pipeline.{Staged, time, insert_staged, sort_staged, take_window}

module _ {N : Type 0} where
  -- Each item is captured no earlier than `since` and than the one before it.
  abbrev pub SortedFrom : ℕ → List (Staged N) → Type 0
  SortedFrom since [] = Unit
  SortedFrom since (item ∷ items) = (since ≤ time item) × SortedFrom (time item) items

  insert_staged-SortedFrom :
      (item : Staged N) (since : ℕ) (items : List (Staged N))
      → SortedFrom since items
      → since ≤ time item
      → SortedFrom since (insert_staged item items)
  insert_staged-SortedFrom item since [] h le = (le, tt)
  insert_staged-SortedFrom item since (next ∷ rest) h le =
      elim (Bool-cases (leb (time item) (time next))) [
        | inl e ↦ rw e (le, (leb→le _ _ e, h.1))
        | inr e ↦ rw e (
          h.0,
          insert_staged-SortedFrom item (time next) rest h.1 (later (time item) (time next) e),
        )
      ]
    where
      later : (a b : ℕ) → leb a b ≡ false → b ≤ a
      later a b q = ground arith

  pub sort_staged-SortedFrom : (items : List (Staged N)) → SortedFrom 0 (sort_staged items)
  unfolding sort_staged
  sort_staged-SortedFrom [] = tt
  sort_staged-SortedFrom (item ∷ items) =
      insert_staged-SortedFrom item 0 (sort_staged items) (sort_staged-SortedFrom items)
        (omega arith)

  pub sort_staged-All :
      (P : Staged N → Type 0) (items : List (Staged N)) → All P items → All P (sort_staged items)
  unfolding sort_staged
  sort_staged-All P [] h = tt
  sort_staged-All P (item ∷ items) (p, h) =
      insert-All item (sort_staged items) p (sort_staged-All P items h)
    where
      insert-All :
          (x : Staged N) (xs : List (Staged N)) → P x → All P xs → All P (insert_staged x xs)
      insert-All x [] q k = (q, tt)
      insert-All x (y ∷ ys) q (r, k) = elim (Bool-cases (leb (time x) (time y))) [
        | inl e ↦ rw e (q, (r, k))
        | inr e ↦ rw e (r, insert-All x ys q k)
      ]

  pub length-sort_staged : (items : List (Staged N)) → length (sort_staged items) ≡ length items
  unfolding sort_staged
  length-sort_staged [] = refl
  length-sort_staged (item ∷ items) =
      omega (arith, length-insert item (sort_staged items), length-sort_staged items)
    where
      length-insert :
          (x : Staged N) (xs : List (Staged N)) → length (insert_staged x xs) ≡ length xs + 1
      length-insert x [] = omega arith
      length-insert x (y ∷ ys) = elim (Bool-cases (leb (time x) (time y))) [
        | inl e ↦ rw e (omega arith)
        | inr e ↦ rw e (omega (arith, length-insert x ys))
      ]

  -- What a window and the rest of the items are.
  pub record IsCut (epoch tick_ns : ℕ) (items : List (Staged N))
      (cut : List (Staged N) × List (Staged N)) : Type 0 where
    pub whole : cut.0 ++ cut.1 ≡ items
    pub fits : All (λ item. (epoch ≤ time item) × (time item < epoch + tick_ns)) cut.0
    pub sorted : SortedFrom epoch cut.1

  pub take_window-IsCut :
      (epoch tick_ns since : ℕ) (items : List (Staged N))
      → epoch ≤ since
      → SortedFrom since items
      → IsCut epoch tick_ns items (take_window epoch tick_ns items)
  unfolding take_window
  take_window-IsCut epoch tick_ns since [] le h = record { whole = refl; fits = tt; sorted = tt }
  take_window-IsCut epoch tick_ns since (item ∷ items) le h =
      let rest = take_window-IsCut epoch tick_ns (time item) items (omega (arith, h.0)) h.1 in
      elim (Bool-cases (ltb (time item) (epoch + tick_ns))) [
        | inl e ↦ rw e (record {
          whole = ap (λ l. item ∷ l) rest.whole;
          fits = ((omega (arith, h.0), ltb→lt _ _ e), rest.fits);
          sorted = rest.sorted;
        })
        | inr e ↦ rw e (record { whole = refl; fits = tt; sorted = (omega (arith, h.0), h.1) })
      ]
