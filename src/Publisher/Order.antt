-- ===== src/Publisher/Order.antt =====
-- The order of delivery: what the loop has counted as published, then what is pending, then what is buffered, is what
-- was submitted, in that order, less what was shed. The loop awaits the publishes in order; JetStream may have stored
-- later ones too when one fails, and sees these again with the same message id.
use mathlib.Core.List.{
  reverse, reverse-cons, reverse-reverse, append_assoc, append-nil, Sublist, Sublistᴰ,
  sublist-append_left,
}
use mathlib.Core.Logic.{∥∥₁_elim}
use mathlib.Core.List.Sublist
use openlaps.Common.{
  ℕ, ◌+◌, ◌-◌, ◌≡◌, refl, sym, ap, subst, ◌∙◌, List, [], ◌∷◌, ◌++◌, ltb, length, Bool-cases, inl,
  inr,
}
use openlaps.Publisher.{
  QueuedBatch, Publisher, Event, submitted, fills, acked, failed, shed_front, shed_back, submit,
  fill_one, fill_window, on_ack, requeue, step, run,
}

module _ {A : Type 0} where
  reverse-sublistᴰ : {xs ys : List A} → Sublistᴰ xs ys → Sublist (reverse xs) (reverse ys)
  reverse-sublistᴰ Sublistᴰ.slnil = Sublist.refl []
  reverse-sublistᴰ (Sublistᴰ.cons {a} {l₁} {l₂} h) =
      rw (reverse-cons a l₂)
        (Sublist.trans (reverse-sublistᴰ h) (sublist-append_left (reverse l₂) (a ∷ [])))
  reverse-sublistᴰ (Sublistᴰ.cons-cons {a} {b} {l₁} {l₂} e h) =
      rw (reverse-cons a l₁, reverse-cons b l₂, e)
        (Sublist.append (reverse-sublistᴰ h) (Sublist.refl (b ∷ [])))

  reverse-sublist : {xs ys : List A} → Sublist xs ys → Sublist (reverse xs) (reverse ys)
  reverse-sublist h = ∥∥₁_elim h squash₁ reverse-sublistᴰ

shed_front-sublist :
    (budget : ℕ) (xs : List QueuedBatch) (bytes drops : ℕ)
    → Sublist (shed_front budget xs bytes drops).buffer xs
unfolding shed_front
shed_front-sublist budget [] bytes drops = Sublist.refl []
shed_front-sublist budget (x ∷ []) bytes drops = Sublist.refl (x ∷ [])
shed_front-sublist budget (x ∷ y ∷ rest) bytes drops = elim (Bool-cases (ltb budget bytes)) [
  | inl over ↦
      rw over (Sublist.cons x (shed_front-sublist budget (y ∷ rest) (bytes - x.size) (drops + 1)))
  | inr within ↦ rw within (Sublist.refl _)
]

shed_back-sublist :
    (budget : ℕ) (xs : List QueuedBatch) (bytes drops : ℕ)
    → Sublist (shed_back budget xs bytes drops).buffer xs
unfolding shed_back
shed_back-sublist budget xs bytes drops =
    subst (Sublist _) (reverse-reverse xs)
      (reverse-sublist (shed_front-sublist budget (reverse xs) bytes drops))

same : {xs ys : List QueuedBatch} → xs ≡ ys → Sublist xs ys
same {xs} e = subst (Sublist xs) e (Sublist.refl xs)

-- The publishes not yet acknowledged, in the order in which they are to be.
abbrev pub queued : Publisher → List QueuedBatch
queued p = p.pending ++ p.buffer

fill_one-queued :
    (p : Publisher) (x : QueuedBatch) (xs : List QueuedBatch)
    → p.buffer ≡ x ∷ xs
    → queued (fill_one p x xs) ≡ queued p
unfolding fill_one
fill_one-queued p x xs e = append_assoc p.pending (x ∷ []) xs ∙ ap (λ l. p.pending ++ l) (sym e)

fill_window-queued :
    (p : Publisher) (xs : List QueuedBatch) → p.buffer ≡ xs → queued (fill_window p xs) ≡ queued p
unfolding fill_window
fill_window-queued p [] e = refl
fill_window-queued p (x ∷ xs) e = elim (Bool-cases (ltb (length p.pending) p.window)) [
  | inl room ↦ rw room (fill_one-queued p x xs e)
  | inr full ↦ rw full
]

abbrev pub head_only : List QueuedBatch → List QueuedBatch
head_only [] = []
head_only (x ∷ xs) = x ∷ []

-- What an event brings, and what the loop takes off the window as published.
abbrev pub brought : Event → List QueuedBatch
brought (submitted item) = item ∷ []
brought fills = []
brought acked = []
brought failed = []

abbrev pub confirmed : Publisher → Event → List QueuedBatch
confirmed p acked = head_only p.pending
confirmed p fills = []
confirmed p failed = []
confirmed p (submitted item) = []

abbrev pub brought_by : List Event → List QueuedBatch
brought_by [] = []
brought_by (e ∷ es) = brought e ++ brought_by es

abbrev pub confirmed_by : Publisher → List Event → List QueuedBatch
confirmed_by p [] = []
confirmed_by p (e ∷ es) = confirmed p e ++ confirmed_by (step p e) es

on_ack-queued :
    (p : Publisher) (xs : List QueuedBatch)
    → p.pending ≡ xs
    → head_only xs ++ queued (on_ack p xs) ≡ queued p
unfolding on_ack
on_ack-queued p [] e = refl
on_ack-queued p (x ∷ xs) e = ap (λ l. l ++ p.buffer) (sym e)

step-sublist :
    (p : Publisher) (e : Event)
    → Sublist (confirmed p e ++ queued (step p e)) (queued p ++ brought e)
unfolding step
step-sublist p (submitted item) =
    unfold submit in
    rw (append_assoc p.pending p.buffer (item ∷ []))
      (Sublist.append (Sublist.refl p.pending) (shed_front-sublist p.buffer_budget _ _ _))
step-sublist p fills = rw (append-nil (queued p)) (same (fill_window-queued p p.buffer refl))
step-sublist p acked = rw (append-nil (queued p)) (same (on_ack-queued p p.pending refl))
step-sublist p failed =
    rw (append-nil (queued p)) (unfold requeue in shed_back-sublist p.buffer_budget (queued p) _ _)

-- From any state and through any events, the batches that the loop counts as published, followed by those still pending
-- and those still buffered, are a subsequence of those that were waiting and then submitted: none is counted as
-- published twice, none of them overtakes another, whatever fails and is retried. What JetStream stored of later
-- publishes before an earlier one failed does not count as published: these are published again.
pub run-sublist :
    (p : Publisher) (es : List Event)
    → Sublist (confirmed_by p es ++ queued (run p es)) (queued p ++ brought_by es)
unfolding run
run-sublist p [] = rw (append-nil (queued p)) (Sublist.refl (queued p))
run-sublist p (e ∷ es) = rw (append_assoc (confirmed p e) (confirmed_by (step p e) es)) (
    Sublist.trans (Sublist.append (Sublist.refl (confirmed p e)) (run-sublist (step p e) es)) (
      rw (← append_assoc (confirmed p e), ← append_assoc (queued p))
        (Sublist.append (step-sublist p e) (Sublist.refl (brought_by es)))))
