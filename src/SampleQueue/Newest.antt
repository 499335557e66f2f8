-- ===== src/SampleQueue/Newest.antt =====
-- The queue refines an unbounded log: it holds the newest `maxlen` entries of what has been put
-- since the last `drain`, and its counters account for every sample.
use openlaps.Common.{
  ℕ, zero, suc, ◌+◌, ◌-◌, ◌≤◌, ◌<◌, ◌≡◌, refl, sym, ap, ap₂, ◌∙◌, List, [], ◌∷◌, ◌++◌, leb, length,
  drop, length-append, length-drop, drop-append, drop-nil, arith, Bool-cases, inl, inr, leb→le,
  false,
}
use openlaps.SampleQueue.{SampleQueue, Call, puts, drains, popleft, put, drain, run}

module _ {A : Type 0} where
  abbrev pub newest : ℕ → List A → List A
  newest n log = drop (length log - n) log

  -- The same calls on a log that forgets nothing between two drains.
  abbrev pub log_run : ℕ → List A → List (Call A) → List (List A)
  log_run maxlen log [] = []
  log_run maxlen log (puts x ∷ calls) = log_run maxlen (log ++ x ∷ []) calls
  log_run maxlen log (drains ∷ calls) = newest maxlen log ∷ log_run maxlen [] calls

  abbrev pub put_count : List (Call A) → ℕ
  put_count [] = 0
  put_count (puts x ∷ calls) = suc (put_count calls)
  put_count (drains ∷ calls) = put_count calls

  abbrev pub total : List (List A) → ℕ
  total [] = 0
  total (xs ∷ xss) = length xs + total xss

  popleft-drop : (k : ℕ) (xs : List A) → popleft (drop k xs) ≡ drop (suc k) xs
  popleft-drop zero [] = refl
  popleft-drop zero (x ∷ xs) = refl
  popleft-drop (suc k) [] = refl
  popleft-drop (suc k) (x ∷ xs) = popleft-drop k xs

  -- The queue of a collector: room for one sample at least, and full at most.
  pub record Holds (q : SampleQueue A) (log : List A) : Type 0 where
    pub room : 0 < q.maxlen
    pub holds : q.queue ≡ newest q.maxlen log

  newest-full :
      (n : ℕ) (log : List A) (x : A)
      → 0 < n
      → n ≤ length (newest n log)
      → popleft (newest n log) ++ x ∷ [] ≡ newest n (log ++ x ∷ [])
  newest-full n log x pos full =
      let fits : n ≤ length log = omega (arith, length-drop (length log - n) log) in
      let e : length (log ++ x ∷ []) - n ≡ suc (length log - n) =
        omega (arith, length-append log (x ∷ [])) in
      rw (e, popleft-drop (length log - n) log)
        (sym (drop-append (suc (length log - n)) log (x ∷ []) (omega arith)))

  newest-room :
      (n : ℕ) (log : List A) (x : A)
      → length (newest n log) < n
      → newest n log ++ x ∷ [] ≡ newest n (log ++ x ∷ [])
  newest-room n log x h =
      let fits : length log < n = omega (arith, length-drop (length log - n) log) in
      let e : length (log ++ x ∷ []) - n ≡ 0 = omega (arith, length-append log (x ∷ [])) in
      let e' : length log - n ≡ 0 = omega arith in rw (e, e')

  put-Holds :
      (q : SampleQueue A) (log : List A) (x : A) → Holds q log → Holds (put q x) (log ++ x ∷ [])
  unfolding put
  put-Holds q log x h = elim (Bool-cases (leb q.maxlen (length q.queue))) [
    | inl full ↦ rw full (record {
      room = h.room;
      holds = rw h.holds (newest-full q.maxlen log x h.room (rw h.holds at (leb→le _ _ full)));
    })
    | inr room ↦ rw room (record {
      room = h.room;
      holds = rw h.holds (newest-room q.maxlen log x (rw h.holds at (not_full q.maxlen _ room)));
    })
  ]
    where
      not_full : (n m : ℕ) → leb n m ≡ false → m < n
      not_full n m e = ground arith

  -- From a queue that holds the newest part of a log, any calls of `put` and `drain`, in any order,
  -- return what the log would: each `drain` the newest `maxlen` samples put since the one before,
  -- in the order in which they came.
  pub run-log_run :
      (q : SampleQueue A) (log : List A) (calls : List (Call A))
      → Holds q log
      → (run q calls).1 ≡ log_run q.maxlen log calls
  unfolding run put
  run-log_run q log [] h = refl
  run-log_run q log (puts x ∷ calls) h =
      run-log_run (put q x) (log ++ x ∷ []) calls (put-Holds q log x h)
      ∙ ap (λ n. log_run n (log ++ x ∷ []) calls) (maxlen-put q x)
    where
      maxlen-put : (q : SampleQueue A) (x : A) → (put q x).maxlen ≡ q.maxlen
      maxlen-put q x = ground arith
  run-log_run q log (drains ∷ calls) h = ap₂ ◌∷◌ h.holds (
      run-log_run (drain q).0 [] calls
        (record { room = h.room; holds = sym (drop-nil (0 - q.maxlen)) }))

  length-popleft : (xs : List A) → 0 < length xs → suc (length (popleft xs)) ≡ length xs
  length-popleft [] h = absurd (omega arith)
  length-popleft (x ∷ xs) h = refl

  put-count :
      (q : SampleQueue A) (x : A)
      → 0 < q.maxlen
      → (length (put q x).queue + (put q x).dropped ≡ suc (length q.queue + q.dropped))
        × (length q.queue ≤ q.maxlen → length (put q x).queue ≤ q.maxlen)
        × ((put q x).maxlen ≡ q.maxlen)
  unfolding put
  put-count q x pos = ground (
    arith,
    length-append q.queue (x ∷ []),
    length-append (popleft q.queue) (x ∷ []),
    length-popleft q.queue,
  )

  -- Nothing is lost without being counted: for a queue with a positive `maxlen` that it does not
  -- exceed, after any calls, what was put and what was there is, in number, what the drains
  -- returned, what is still queued, and the growth of the drop counter; and the queue still does
  -- not exceed `maxlen`.
  pub run-count :
      (q : SampleQueue A) (calls : List (Call A))
      → 0 < q.maxlen
      → length q.queue ≤ q.maxlen
      → (put_count calls + length q.queue + q.dropped
          ≡ total (run q calls).1 + length (run q calls).0.queue + (run q calls).0.dropped)
        × (length (run q calls).0.queue ≤ q.maxlen)
  unfolding run
  run-count q [] pos fits = (omega arith, fits)
  run-count q (puts x ∷ calls) pos fits =
      let c = put-count q x pos in
      let ih = run-count (put q x) calls (omega arith) (omega arith) in (omega arith, omega arith)
  run-count q (drains ∷ calls) pos fits =
      let ih = run-count (drain q).0 calls pos (omega arith) in (omega arith, omega arith)
