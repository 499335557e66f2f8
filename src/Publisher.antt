-- ===== src/Publisher.antt =====
-- src/agent/publisher.py: the buffer and the window of unacknowledged publishes of
-- `JetStreamPublisher`. Each locked section is one operation; the loop thread and the callers of
-- `submit` interleave them, so a history is a list of events. The loop awaits the first pending publish:
-- `acked` where it returns, `failed` where it raises. `pending` is the queue that `_send_loop` holds.
pub mod Accounting
pub mod Order
mod Examples
use mathlib.Core.List.{reverse}
use openlaps.Common.{
  ℕ, suc, ◌+◌, ◌-◌, String, Bool, Option, none, some, List, [], ◌∷◌, ◌++◌, ltb, length,
  if◌then◌else◌,
}

-- `size` is the length of the payload, which the buffer reads and nothing else.
pub record QueuedBatch : Type 0 where
  pub subject : String
  pub size : ℕ
  pub msg_id : String
  pub submit_mono_ns : ℕ

pub record Publisher : Type 0 where
  pub window : ℕ
  pub buffer_budget : ℕ
  pub buffer : List QueuedBatch
  pub buffer_bytes : ℕ
  pub oldest_pending_mono_ns : Option ℕ
  pub publish_drops : ℕ
  pub published : ℕ
  pub pending : List QueuedBatch

-- What is left of a buffer from which batches are shed, and the two counters.
pub record Kept : Type 0 where
  pub buffer : List QueuedBatch
  pub bytes : ℕ
  pub drops : ℕ

-- `while self._buffer_bytes > self._buffer_budget and len(self._buffer) > 1:` with `popleft`.
unfoldable pub shed_front : ℕ → List QueuedBatch → ℕ → ℕ → Kept
shed_front budget [] bytes drops = record { buffer = []; bytes = bytes; drops = drops }
shed_front budget (x ∷ []) bytes drops = record { buffer = x ∷ []; bytes = bytes; drops = drops }
shed_front budget (x ∷ y ∷ rest) bytes drops =
    let shorter = shed_front budget (y ∷ rest) (bytes - x.size) (drops + 1) in
    if ltb budget bytes
    then shorter
    else record { buffer = x ∷ y ∷ rest; bytes = bytes; drops = drops }

-- The same loop with `pop`, from the other end.
unfoldable pub shed_back : ℕ → List QueuedBatch → ℕ → ℕ → Kept
unfolding shed_front
shed_back budget buffer bytes drops =
    let kept = shed_front budget (reverse buffer) bytes drops in
    record { buffer = reverse kept.buffer; bytes = kept.bytes; drops = kept.drops }

unfoldable pub submit : Publisher → QueuedBatch → Publisher
submit p item =
    let kept =
      shed_front p.buffer_budget (p.buffer ++ item ∷ []) (p.buffer_bytes + item.size)
        p.publish_drops in
    record p { buffer = kept.buffer; buffer_bytes = kept.bytes; publish_drops = kept.drops }

abbrev first_submit : List QueuedBatch → Option ℕ
first_submit [] = none
first_submit (x ∷ xs) = some x.submit_mono_ns

abbrev or_else : Option ℕ → ℕ → Option ℕ
or_else none t = some t
or_else (some u) t = some u

-- One round of `_fill_window`: the first batch moves from the buffer to the window.
unfoldable pub fill_one : Publisher → QueuedBatch → List QueuedBatch → Publisher
fill_one p item rest = record p {
  buffer = rest;
  buffer_bytes = p.buffer_bytes - item.size;
  oldest_pending_mono_ns = or_else p.oldest_pending_mono_ns item.submit_mono_ns;
  pending = p.pending ++ item ∷ [];
}

-- One turn of `while len(pending) < self._window`. The loop makes such turns in a row, and takes the lock in each, so that
-- batches may be submitted between them.
unfoldable pub fill_window : Publisher → List QueuedBatch → Publisher
unfolding fill_one
fill_window p [] = p
fill_window p (item ∷ rest) = if ltb (length p.pending) p.window then fill_one p item rest else p

-- `pending.popleft()` after the first pending publish returned.
unfoldable pub on_ack : Publisher → List QueuedBatch → Publisher
on_ack p [] = p
on_ack p (item ∷ rest) = record p {
  pending = rest;
  published = p.published + 1;
  oldest_pending_mono_ns = first_submit rest;
}

abbrev pub bytes_of : List QueuedBatch → ℕ
bytes_of [] = 0
bytes_of (x ∷ xs) = x.size + bytes_of xs

-- `_requeue`: every pending batch goes back to the front of the buffer, in order.
unfoldable pub requeue : Publisher → Publisher
unfolding shed_back
requeue p =
    let kept =
      shed_back p.buffer_budget (p.pending ++ p.buffer) (p.buffer_bytes + bytes_of p.pending)
        p.publish_drops in
    record p {
      buffer = kept.buffer;
      buffer_bytes = kept.bytes;
      publish_drops = kept.drops;
      pending = [];
      oldest_pending_mono_ns = none;
    }

-- A batch arrives; the loop moves one into the window; the first pending publish is acknowledged or fails.
pub data Event : Type 0 where
  submitted : QueuedBatch → Event
  fills acked failed : Event

unfoldable pub step : Publisher → Event → Publisher
unfolding submit fill_window on_ack requeue
step p (submitted item) = submit p item
step p fills = fill_window p p.buffer
step p acked = on_ack p p.pending
step p failed = requeue p

unfoldable pub run : Publisher → List Event → Publisher
unfolding step
run p [] = p
run p (e ∷ es) = run (step p e) es

unfoldable pub publish_lag_since : Publisher → Option ℕ
publish_lag_since p = elim p.oldest_pending_mono_ns [
  | some t ↦ some t
  | none ↦ first_submit p.buffer
]
