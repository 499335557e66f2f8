-- ===== src/Publisher/Accounting.antt =====
-- Bytes, bounds and counters of the publisher: every batch that was submitted is buffered, pending,
-- published or counted as dropped.
use mathlib.Core.List.{reverse, reverse-cons}
use openlaps.Common.{
  ℕ, suc, ◌+◌, ◌-◌, ◌≤◌, ◌<◌, ◌≡◌, ◌⊎◌, refl, ap, ◌∙◌, List, [], ◌∷◌, ◌++◌, ltb, length,
  length-append, arith, Bool-cases, ltb→lt, inl, inr, false, sym, subst,
}
use openlaps.Publisher.{
  QueuedBatch, Publisher, Kept, Event, submitted, fills, acked, failed, shed_front, shed_back,
  submit, first_submit, or_else, fill_one, fill_window, on_ack, bytes_of, requeue, step, run,
}

bytes_of-append : (xs ys : List QueuedBatch) → bytes_of (xs ++ ys) ≡ bytes_of xs + bytes_of ys
bytes_of-append [] ys = omega arith
bytes_of-append (x ∷ xs) ys = omega (arith, bytes_of-append xs ys)

bytes_of-reverse : (xs : List QueuedBatch) → bytes_of (reverse xs) ≡ bytes_of xs
bytes_of-reverse [] = refl
bytes_of-reverse (x ∷ xs) = omega (
  arith,
  ap bytes_of (reverse-cons x xs),
  bytes_of-append (reverse xs) (x ∷ []),
  bytes_of-reverse xs,
)

pub length-reverse {ℓ} : {A : Type ℓ} (xs : List A) → length (reverse xs) ≡ length xs
length-reverse [] = refl
length-reverse (x ∷ xs) =
    omega
      (arith, ap length (reverse-cons x xs), length-append (reverse xs) (x ∷ []), length-reverse xs)

-- What shedding from a buffer of `n` batches leaves: the byte count stays exact, each batch is there
-- or counted, and the budget is met unless one batch alone exceeds it.
record IsShed (budget n drops : ℕ) (k : Kept) : Type 0 where
  exact : k.bytes ≡ bytes_of k.buffer
  counted : length k.buffer + k.drops ≡ n + drops
  bounded : (k.bytes ≤ budget) ⊎ (length k.buffer ≤ 1)

shed_front-IsShed :
    (budget : ℕ) (xs : List QueuedBatch) (drops : ℕ)
    → IsShed budget (length xs) drops (shed_front budget xs (bytes_of xs) drops)
unfolding shed_front
shed_front-IsShed budget [] drops = omega arith
shed_front-IsShed budget (x ∷ []) drops = omega arith
shed_front-IsShed budget (x ∷ y ∷ rest) drops =
    let e : bytes_of (x ∷ y ∷ rest) - x.size ≡ bytes_of (y ∷ rest) = omega arith in
    let ih : IsShed budget (length (y ∷ rest)) (drops + 1)
        (shed_front budget (y ∷ rest) (bytes_of (x ∷ y ∷ rest) - x.size) (drops + 1)) =
      rw e (shed_front-IsShed budget (y ∷ rest) (drops + 1)) in
    elim (Bool-cases (ltb budget (bytes_of (x ∷ y ∷ rest)))) [
      | inl over ↦
          rw over
            (record { exact = ih.exact; counted = omega (arith, ih.counted); bounded = ih.bounded })
      | inr within ↦
          rw within
            (record { exact = refl; counted = refl; bounded = inl (not_over budget _ within) })
    ]
  where
    not_over : (n m : ℕ) → ltb n m ≡ false → m ≤ n
    not_over n m h = ground arith

shed_back-IsShed :
    (budget : ℕ) (xs : List QueuedBatch) (drops : ℕ)
    → IsShed budget (length xs) drops (shed_back budget xs (bytes_of xs) drops)
unfolding shed_back
shed_back-IsShed budget xs drops =
    let k : Kept = shed_front budget (reverse xs) (bytes_of xs) drops in
    let s : IsShed budget (length (reverse xs)) drops k =
      subst
        (λ b. IsShed budget (length (reverse xs)) drops (shed_front budget (reverse xs) b drops))
        (bytes_of-reverse xs) (shed_front-IsShed budget (reverse xs) drops) in
    record {
      exact = s.exact ∙ sym (bytes_of-reverse k.buffer);
      counted = omega (arith, s.counted, length-reverse xs, length-reverse k.buffer);
      bounded = rw (length-reverse k.buffer) s.bounded;
    }

-- What holds of a publisher between two locked sections.
pub record IsAccounted (p : Publisher) : Type 0 where
  pub bytes : p.buffer_bytes ≡ bytes_of p.buffer
  pub bounded : (p.buffer_bytes ≤ p.buffer_budget) ⊎ (length p.buffer ≤ 1)
  pub windowed : length p.pending ≤ p.window
  pub oldest : p.oldest_pending_mono_ns ≡ first_submit p.pending

abbrev pub held : Publisher → ℕ
held p = length p.buffer + length p.pending + p.publish_drops + p.published

-- The operation keeps the invariant and the limits, and takes in `n` batches.
record Takes (n : ℕ) (p q : Publisher) : Type 0 where
  accounted : IsAccounted q
  count : held q ≡ n + held p
  window : q.window ≡ p.window
  budget : q.buffer_budget ≡ p.buffer_budget

submit-Takes : (p : Publisher) (item : QueuedBatch) → IsAccounted p → Takes 1 p (submit p item)
unfolding submit
submit-Takes p item h =
    let xs : List QueuedBatch = p.buffer ++ item ∷ [] in
    let e : p.buffer_bytes + item.size ≡ bytes_of xs =
      omega (arith, h.bytes, bytes_of-append p.buffer (item ∷ [])) in
    let s : IsShed p.buffer_budget (length xs) p.publish_drops
        (shed_front p.buffer_budget xs (p.buffer_bytes + item.size) p.publish_drops) =
      rw e (shed_front-IsShed p.buffer_budget xs p.publish_drops) in
    record {
      accounted = record {
        bytes = s.exact;
        bounded = s.bounded;
        windowed = h.windowed;
        oldest = h.oldest;
      };
      count = omega (arith, s.counted, length-append p.buffer (item ∷ []));
      window = refl;
      budget = refl;
    }

requeue-Takes : (p : Publisher) → IsAccounted p → Takes 0 p (requeue p)
unfolding requeue
requeue-Takes p h =
    let xs : List QueuedBatch = p.pending ++ p.buffer in
    let e : p.buffer_bytes + bytes_of p.pending ≡ bytes_of xs =
      omega (arith, h.bytes, bytes_of-append p.pending p.buffer) in
    let s : IsShed p.buffer_budget (length xs) p.publish_drops
        (shed_back p.buffer_budget xs (p.buffer_bytes + bytes_of p.pending) p.publish_drops) =
      rw e (shed_back-IsShed p.buffer_budget xs p.publish_drops) in
    record {
      accounted = record {
        bytes = s.exact;
        bounded = s.bounded;
        windowed = omega arith;
        oldest = refl;
      };
      count = omega (arith, s.counted, length-append p.pending p.buffer);
      window = refl;
      budget = refl;
    }

on_ack-Takes :
    (p : Publisher) (xs : List QueuedBatch)
    → p.pending ≡ xs
    → IsAccounted p
    → Takes 0 p (on_ack p xs)
unfolding on_ack
on_ack-Takes p [] e h = record { accounted = h; count = omega arith; window = refl; budget = refl }
on_ack-Takes p (x ∷ xs) e h =
    let l : length p.pending ≡ suc (length xs) = ap length e in
    record {
      accounted = record {
        bytes = h.bytes;
        bounded = h.bounded;
        windowed = omega (arith, h.windowed);
        oldest = refl;
      };
      count = omega arith;
      window = refl;
      budget = refl;
    }

first_submit-append :
    (xs : List QueuedBatch) (item : QueuedBatch)
    → or_else (first_submit xs) item.submit_mono_ns ≡ first_submit (xs ++ item ∷ [])
first_submit-append [] item = refl
first_submit-append (x ∷ xs) item = refl

fill_one-Takes :
    (p : Publisher) (x : QueuedBatch) (xs : List QueuedBatch)
    → p.buffer ≡ x ∷ xs
    → length p.pending < p.window
    → IsAccounted p
    → Takes 0 p (fill_one p x xs)
unfolding fill_one
fill_one-Takes p x xs e room h =
    let b : bytes_of p.buffer ≡ x.size + bytes_of xs = ap bytes_of e in
    let l : length p.buffer ≡ suc (length xs) = ap length e in
    let a : length (p.pending ++ x ∷ []) ≡ length p.pending + 1 =
      length-append p.pending (x ∷ []) in
    record {
      accounted = record {
        bytes = omega (arith, h.bytes);
        bounded = fewer p.buffer_bytes (length p.buffer) h.bounded (omega arith);
        windowed = omega arith;
        oldest = ap (λ o. or_else o x.submit_mono_ns) h.oldest ∙ first_submit-append p.pending x;
      };
      count = omega arith;
      window = refl;
      budget = refl;
    }
  where
    fewer :
        (m l : ℕ)
        → (m ≤ p.buffer_budget) ⊎ (l ≤ 1)
        → l ≡ suc (length xs)
        → (m - x.size ≤ p.buffer_budget) ⊎ (length xs ≤ 1)
    fewer m l (inl f) e' = inl (omega arith)
    fewer m l (inr f) e' = inr (omega arith)

Takes-trans : {n m : ℕ} {p q r : Publisher} → Takes n p q → Takes m q r → Takes (m + n) p r
Takes-trans t u = record {
  accounted = u.accounted;
  count = omega (arith, t.count, u.count);
  window = u.window ∙ t.window;
  budget = u.budget ∙ t.budget;
}

Takes-refl : {p : Publisher} → IsAccounted p → Takes 0 p p
Takes-refl h = record { accounted = h; count = omega arith; window = refl; budget = refl }

fill_window-Takes :
    (p : Publisher) (xs : List QueuedBatch)
    → p.buffer ≡ xs
    → IsAccounted p
    → Takes 0 p (fill_window p xs)
unfolding fill_window
fill_window-Takes p [] e h = Takes-refl h
fill_window-Takes p (x ∷ xs) e h = elim (Bool-cases (ltb (length p.pending) p.window)) [
  | inl room ↦ rw room (fill_one-Takes p x xs e (ltb→lt _ _ room) h)
  | inr full ↦ rw full (Takes-refl h)
]

abbrev pub arrivals : List Event → ℕ
arrivals [] = 0
arrivals (submitted item ∷ es) = suc (arrivals es)
arrivals (fills ∷ es) = arrivals es
arrivals (acked ∷ es) = arrivals es
arrivals (failed ∷ es) = arrivals es

step-Takes : (p : Publisher) (e : Event) → IsAccounted p → Takes (arrivals (e ∷ [])) p (step p e)
unfolding step
step-Takes p (submitted item) h = submit-Takes p item h
step-Takes p fills h = fill_window-Takes p p.buffer refl h
step-Takes p acked h = on_ack-Takes p p.pending refl h
step-Takes p failed h = requeue-Takes p h

run-Takes : (p : Publisher) (es : List Event) → IsAccounted p → Takes (arrivals es) p (run p es)
unfolding run
run-Takes p [] h = Takes-refl h
run-Takes p (e ∷ es) h =
    let one = step-Takes p e h in
    let rest = run-Takes (step p e) es one.accounted in
    record {
      accounted = rest.accounted;
      count = omega (arith, rest.count, one.count, arrivals-cons e es);
      window = rest.window ∙ one.window;
      budget = rest.budget ∙ one.budget;
    }
  where
    arrivals-cons :
        (e : Event) (es : List Event) → arrivals (e ∷ es) ≡ arrivals (e ∷ []) + arrivals es
    arrivals-cons (submitted item) es = omega arith
    arrivals-cons fills es = omega arith
    arrivals-cons acked es = omega arith
    arrivals-cons failed es = omega arith

-- These hold after any events if they hold before, whatever arrives, is acknowledged or fails, in any
-- order: the byte counter is the size of what is buffered, the buffer meets its budget unless it is
-- down to one batch, no more than `window` publishes are pending, and the oldest pending time is
-- that of the first of them.
pub run-IsAccounted : (p : Publisher) (es : List Event) → IsAccounted p → IsAccounted (run p es)
run-IsAccounted p es h = (run-Takes p es h).accounted

-- From a publisher whose counters are right, no batch is lost uncounted: what is buffered, pending,
-- dropped and published grows by the number of batches submitted, exactly.
pub held-run :
    (p : Publisher) (es : List Event) → IsAccounted p → held (run p es) ≡ arrivals es + held p
held-run p es h = (run-Takes p es h).count
