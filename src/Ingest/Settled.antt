-- ===== src/Ingest/Settled.antt =====
-- src/pit/ingest_writer/writer.py: the messages that are settled, and the cursor and the messages that the writer holds.
use openlaps.Common.{
  ℕ, ◌≤◌, ◌<◌, ◌≡◌, refl, true, ◌||◌, List, [], ◌∷◌, leb, max, All, arith, Bool-cases, inl, inr,
  ◌⊎◌, ◌++◌, All-append,
}
use openlaps.Common.Number.{Number}
use openlaps.Common.Result.{Result, ok, err}
use openlaps.Registry.{contains}
use openlaps.Ingest.Rows.{Outside}
use openlaps.Ingest.{
  Message, IngestWriter, Store, Commit, Answer, sequences, landed, lost, unheard, refused, Outcome,
  done, stall, ended, pending_work, commit, retry, write, flush,
}
use openlaps.Ingest.Consume.{Steady}
use openlaps.Ingest.Distinct.{contains-append, All-le}
use openlaps.Ingest.Given.{committed_in, committed_in-append, sequences-append}
use openlaps.Common.{eqb_iff}

module _ {N : Type 0} where
  -- Each of the messages is settled, or is after `n` and all that are before it.
  abbrev pub Fits : (ℕ → Type 0) → ℕ → List (Message N) → Type 0
  Fits P n [] = Unit
  Fits P n (m ∷ ms) = (P m.sequence × Fits P n ms) ⊎ ((n < m.sequence) × Fits P m.sequence ms)

  pub Fits-le :
      (P Q : ℕ → Type 0) (n k : ℕ) (ms : List (Message N))
      → k ≤ n
      → ((s : ℕ) → P s → Q s)
      → Fits P n ms
      → Fits Q k ms
  Fits-le P Q n k [] le grows h = tt
  Fits-le P Q n k (m ∷ ms) le grows (inl (h, hs)) =
      inl (grows m.sequence h, Fits-le P Q n k ms le grows hs)
  Fits-le P Q n k (m ∷ ms) le grows (inr (h, hs)) =
      inr (omega arith, Fits-le P Q m.sequence m.sequence ms (omega arith) grows hs)

  pub Fits-All :
      (P : ℕ → Type 0) (n k : ℕ) (ms : List (Message N))
      → k ≤ n
      → Fits P n ms
      → All (λ m. P m.sequence ⊎ (k < m.sequence)) ms
  Fits-All P n k [] le h = tt
  Fits-All P n k (m ∷ ms) le (inl (h, hs)) = (inl h, Fits-All P n k ms le hs)
  Fits-All P n k (m ∷ ms) le (inr (h, hs)) =
      (inr (omega arith), Fits-All P m.sequence k ms (omega arith) hs)

contains-left : (n : ℕ) (xs ys : List ℕ) → contains n xs ≡ true → contains n (xs ++ ys) ≡ true
contains-left n xs ys h = ground (arith, contains-append n xs ys, h)

contains-right : (n : ℕ) (xs ys : List ℕ) → contains n ys ≡ true → contains n (xs ++ ys) ≡ true
contains-right n xs ys h = ground (arith, contains-append n xs ys, h)

contains-le : (n k : ℕ) (xs : List ℕ) → All (λ x. x ≤ k) xs → contains n xs ≡ true → n ≤ k
contains-le n k [] h e = absurd (cc e)
contains-le n k (x ∷ xs) (h, hs) e = elim (Bool-cases (contains n xs)) [
  | inl q ↦ contains-le n k xs hs q
  | inr q ↦ ground (arith, eqb_iff x n, eqb_iff n x, q, e, h)
]

module _ (number : Number) (outside : Outside number.N) where
  open number use {N}

  abbrev pub committed : Store N → List ℕ
  committed store = committed_in number outside store.commits

  -- The sequence is that of a message that waits for the next flush, or is up to the cursor and was acknowledged or
  -- committed.
  abbrev pub Settled : ℕ → List ℕ → Store N → List ℕ → ℕ → Type 0
  Settled cursor acked store buffered s =
      ((s ≤ cursor) × ((contains s acked ≡ true) ⊎ (contains s (committed store) ≡ true)))
      ⊎ (contains s buffered ≡ true)

  abbrev pub SettledIn : IngestWriter N → ℕ → Type 0
  SettledIn w = Settled w.cursor w.acked w.store w.buffered

  -- The buffer is that of the messages that wait for the next flush, and this covers them.
  pub record Kept (cursor max_seq : ℕ) (pending : List (Message N)) (buffered : List ℕ)
      : Type 0 where
    pub within : cursor ≤ max_seq
    pub same : buffered ≡ sequences pending
    pub seen : All (λ s. s ≤ max_seq) buffered

  abbrev pub KeptIn : IngestWriter N → Type 0
  KeptIn w = Kept w.cursor w.max_seq w.pending w.buffered

  -- The messages that are held are after all that the cursor may come to cover, those that are settled aside.
  abbrev pub IsWaiting : IngestWriter N → Type 0
  IsWaiting w = KeptIn w × Fits (SettledIn w) w.max_seq w.held

  commit-committed :
      (store : Store N) (s : ℕ) (c : Commit N)
      → contains s (committed store) ≡ true
      → contains s (committed_in number outside (store.commits ++ c ∷ [])) ≡ true
  commit-committed store s c h =
      rw (committed_in-append number outside store.commits c)
        (contains-left s (committed store) (sequences c.messages) h)

  advance-Settled :
      {cursor max_seq : ℕ} {pending : List (Message N)} {buffered : List ℕ} (acked : List ℕ)
      (store store' : Store N) (s : ℕ)
      → Kept cursor max_seq pending buffered
      → (contains s (committed store) ≡ true → contains s (committed store') ≡ true)
      → Settled cursor acked store buffered s
      → Settled (max cursor max_seq) (acked ++ sequences pending) store' [] s
  advance-Settled {pending = pending} acked store store' s h grows (inl (le, inl q)) =
      inl (omega arith, inl (contains-left s acked (sequences pending) q))
  advance-Settled acked store store' s h grows (inl (le, inr q)) = inl (omega arith, inr (grows q))
  advance-Settled {max_seq = max_seq} {pending} {buffered} acked store store' s h grows (inr q) =
      let le = contains-le s max_seq buffered h.seen q in
      inl (omega arith, inl (contains-right s acked (sequences pending) (rw h.same at q)))

  advance-Waits :
      {cursor max_seq : ℕ} {pending : List (Message N)} {buffered : List ℕ}
      (held : List (Message N)) (acked : List ℕ) (store store' : Store N)
      → Kept cursor max_seq pending buffered
        × Fits (Settled cursor acked store buffered) max_seq held
      → ((s : ℕ) → contains s (committed store) ≡ true → contains s (committed store') ≡ true)
      → Kept (max cursor max_seq) max_seq [] []
        × Fits (Settled (max cursor max_seq) (acked ++ sequences pending) store' []) max_seq held
  advance-Waits {max_seq = max_seq} held acked store store' (kept, fits) grows = (
    record { within = (let le = kept.within in omega arith); same = refl; seen = tt },
    Fits-le _ _ max_seq max_seq held (omega arith)
        (λ s. advance-Settled acked store store' s kept (grows s)) fits,
  )

  unheard-Waits :
      {cursor max_seq : ℕ} {pending : List (Message N)} {buffered : List ℕ}
      (held : List (Message N)) (acked : List ℕ) (store store' : Store N)
      → Kept cursor max_seq pending buffered
        × Fits (Settled cursor acked store buffered) max_seq held
      → ((s : ℕ) → contains s (committed store) ≡ true → contains s (committed store') ≡ true)
      → Kept cursor max_seq pending buffered
        × Fits (Settled cursor acked store' buffered) max_seq held
  unheard-Waits {cursor = cursor} {max_seq = max_seq} {buffered = buffered} held acked store store'
        (kept, fits) grows =
      (kept, Fits-le _ _ max_seq max_seq held (omega arith) stays fits)
    where
      stays :
          (s : ℕ) → Settled cursor acked store buffered s → Settled cursor acked store' buffered s
      stays s (inl (le, inl q)) = inl (le, inl q)
      stays s (inl (le, inr q)) = inl (le, inr (grows s q))
      stays s (inr q) = inr q

  pub flush-IsWaiting :
      (w : IngestWriter N) (a b : Answer) → IsWaiting w → IsWaiting (flush w a b).0
  unfolding flush write retry
  flush-IsWaiting w a b h = elim (Bool-cases (pending_work w)) [
    | inl e ↦ rw e (go a b)
    | inr e ↦ rw e h
  ]
    where
      go : (a b : Answer) → IsWaiting (write w a b).0
      go landed b =
          advance-Waits w.held w.acked w.store (commit w w.lap_rows w.pit_updates) h
            (λ s. commit-committed w.store s _)
      go lost b = h
      go unheard b =
          unheard-Waits w.held w.acked w.store (commit w w.lap_rows w.pit_updates) h
            (λ s. commit-committed w.store s _)
      go refused landed =
          advance-Waits w.held w.acked w.store (commit w [] []) h
            (λ s. commit-committed w.store s _)
      go refused lost = h
      go refused unheard =
          unheard-Waits w.held w.acked w.store (commit w [] []) h
            (λ s. commit-committed w.store s _)
      go refused refused = advance-Waits w.held w.acked w.store w.store h (λ s q. q)

  pub IsWaiting-Steady : Steady outside IsWaiting
  IsWaiting-Steady = record { apply = λ w r h. h; count = λ w health h. h }

  -- All messages so far are numbered up to `n`, and none is held.
  abbrev pub Up : ℕ → IngestWriter N → Type 0
  Up n w = KeptIn w × (w.max_seq ≤ n) × (w.held ≡ [])

  abbrev pub Settles : IngestWriter N → IngestWriter N → Type 0
  Settles w w' = (s : ℕ) → SettledIn w s → SettledIn w' s

  -- A message that is done with is covered, one that is not is not.
  abbrev pub Covers : IngestWriter N → ℕ → ℕ → Outcome N → Type 0
  Covers w n k (done w') = Up k w' × Settles w w'
  Covers w n k (stall g w') = Up n w' × Settles w w'
  Covers w n k (ended w') = Unit

  abbrev pub WaitingAfter : Outcome N → Type 0
  WaitingAfter (done w) = IsWaiting w
  WaitingAfter (stall g w) = IsWaiting w
  WaitingAfter (ended w) = Unit

  abbrev pub WaitingIn : Result (IngestWriter N) (IngestWriter N) → Type 0
  WaitingIn (ok w) = IsWaiting w
  WaitingIn (err w) = Unit

  pub ack-Settled :
      (cursor n : ℕ) (acked buffered : List ℕ) (store : Store N) (s : ℕ)
      → Settled cursor acked store buffered s
      → Settled cursor (acked ++ n ∷ []) store buffered s
  ack-Settled cursor n acked buffered store s (inl (le, inl q)) =
      inl (le, inl (contains-left s acked (n ∷ []) q))
  ack-Settled cursor n acked buffered store s (inl (le, inr q)) = inl (le, inr q)
  ack-Settled cursor n acked buffered store s (inr q) = inr q

  pub buffer-Settled :
      (cursor n : ℕ) (acked buffered : List ℕ) (store : Store N) (s : ℕ)
      → Settled cursor acked store buffered s
      → Settled cursor acked store (buffered ++ n ∷ []) s
  buffer-Settled cursor n acked buffered store s (inl q) = inl q
  buffer-Settled cursor n acked buffered store s (inr q) = inr (contains-left s buffered (n ∷ []) q)

  pub raise-Kept :
      {cursor max_seq : ℕ} {pending : List (Message N)} {buffered : List ℕ} (n : ℕ)
      → Kept cursor max_seq pending buffered
      → Kept cursor (max max_seq n) pending buffered
  raise-Kept {max_seq = max_seq} {buffered = buffered} n h = record {
    within = (let le = h.within in omega arith);
    same = h.same;
    seen = All-le max_seq (max max_seq n) buffered (omega arith) h.seen;
  }

  pub buffered-Kept :
      {cursor max_seq : ℕ} {pending : List (Message N)} {buffered : List ℕ} (m : Message N)
      → Kept cursor max_seq pending buffered
      → Kept cursor (max max_seq m.sequence) (pending ++ m ∷ []) (buffered ++ m.sequence ∷ [])
  buffered-Kept {pending = pending} {buffered} m h =
      let h' = raise-Kept m.sequence h in
      record {
        within = h'.within;
        same = rw (sequences-append number outside pending (m ∷ []), h.same) refl;
        seen = All-append _ buffered (m.sequence ∷ []) h'.seen (omega arith, tt);
      }

  -- A message that is settled is skipped.
  pub settled-skips :
      (w : IngestWriter N) (m : Message N)
      → SettledIn w m.sequence
      → (leb m.sequence w.cursor || contains m.sequence w.buffered) ≡ true
  settled-skips w m (inl (le, q)) = ground arith
  settled-skips w m (inr q) = ground (arith, q)
