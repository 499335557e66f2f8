-- ===== src/Pipeline.antt =====
-- src/agent/pipeline.py: staged samples are cut into tick windows and batched. The timing and fusion
-- applications and the map from source references stand outside; `wall_clock` is the clock.
pub mod Sort
pub mod Classes
pub mod Encode
pub mod Flush
mod Examples
use openlaps.Common.{
  ℕ, zero, suc, ◌+◌, String, Bool, true, false, Option, none, some, List, [], ◌∷◌, ◌++◌, ltb, leb,
  length, if◌then◌else◌,
}
use openlaps.Common.Dict.{Dict}
use openlaps.Common.Number.{Number}
use openlaps.Common.Result.{Result, ok, err, ◌>>=◌}
use openlaps.Samples.{Sample}
use openlaps.Batcher.{
  Batcher, Conversion, SampleBatch, Error, key_error, type_error, value_error, overflow_error, add,
  tick,
}

-- What `ingest` stages: the source class, the channel and the sample.
pub record Staged (N : Type 0) : Type 0 where
  pub source_class : String
  pub channel_id : ℕ
  pub sample : Sample N

-- `payload` is the message that is serialized.
pub record TickBatch (N : Type 0) : Type 0 where
  pub source_class : String
  pub payload : SampleBatch N
  pub epoch_unix_ms : ℕ
  pub epoch_mono_ns : ℕ
  -- The source class and the epoch that `msg_id` joins by a colon.
  pub msg_id : String × ℕ

pub record Pipeline (N : Type 0) : Type 0 where
  pub batcher : Batcher N
  pub tick_ns : ℕ
  pub staged : List (Staged N)
  pub encode_failures : ℕ

module _ {N : Type 0} where
  abbrev pub time : Staged N → ℕ
  time item = item.sample.t_mono_ns

  -- `list.sort` by the time of capture, which is stable.
  abbrev pub insert_staged : Staged N → List (Staged N) → List (Staged N)
  insert_staged item [] = item ∷ []
  insert_staged item (next ∷ rest) =
      let later = insert_staged item rest in
      if leb (time item) (time next) then item ∷ next ∷ rest else next ∷ later

  unfoldable pub sort_staged : List (Staged N) → List (Staged N)
  sort_staged [] = []
  sort_staged (item ∷ items) = insert_staged item (sort_staged items)

  -- The inner loop: the items up to the first that is a tick or more after the epoch, and the rest.
  unfoldable pub take_window : ℕ → ℕ → List (Staged N) → List (Staged N) × List (Staged N)
  take_window epoch tick_ns [] = ([], [])
  take_window epoch tick_ns (item ∷ items) =
      let (window, rest) = take_window epoch tick_ns items in
      if ltb (time item) (epoch + tick_ns) then (item ∷ window, rest) else ([], item ∷ items)

  unfoldable pub add_all : Batcher N → List (Staged N) → Result Error (Batcher N)
  unfolding add
  add_all batcher [] = ok batcher
  add_all batcher (item ∷ items) = do
    batcher' ← add batcher item.source_class item.channel_id item.sample
    add_all batcher' items

  unfoldable pub batches_of : ℕ → ℕ → Dict String (SampleBatch N) → List (TickBatch N)
  batches_of unix_ms mono_ns [] = []
  batches_of unix_ms mono_ns ((source_class, payload) ∷ emitted) =
      record {
        source_class = source_class;
        payload = payload;
        epoch_unix_ms = unix_ms;
        epoch_mono_ns = mono_ns;
        msg_id = (source_class, unix_ms);
      }
      ∷ batches_of unix_ms mono_ns emitted

  -- The outcome of a tick: its batches and the failures to count; other exceptions pass.
  abbrev pub collect :
      ℕ → ℕ → Result Error (Dict String (SampleBatch N)) → Result Error (List (TickBatch N) × ℕ)
  collect unix_ms mono_ns (ok emitted) = ok (batches_of unix_ms mono_ns emitted, 0)
  collect unix_ms mono_ns (err type_error) = ok ([], 1)
  collect unix_ms mono_ns (err value_error) = ok ([], 1)
  collect unix_ms mono_ns (err e) = err e

module _ (number : Number) (conversion : Conversion number.N) (wall_clock : ℕ → ℕ) where
  open number use {N}

  abbrev pub Flushed : Type 0
  Flushed = Batcher N × List (TickBatch N) × ℕ

  -- One window: the batcher after its tick, the batches and the failures.
  unfoldable pub flush_window : Batcher N → ℕ → List (Staged N) → Result Error Flushed
  unfolding add_all tick batches_of
  flush_window batcher epoch window = do
    filled ← add_all batcher window
    let unix_ms = wall_clock epoch
    let ticked = tick number conversion filled unix_ms epoch
    collected ← collect unix_ms epoch ticked.1
    ok (ticked.0, collected.0, collected.1)

  -- The outer loop; each window takes its first item, so the number of items is enough fuel.
  unfoldable pub flush_windows : ℕ → Batcher N → ℕ → List (Staged N) → Result Error Flushed
  unfolding take_window flush_window
  flush_windows zero batcher tick_ns items = ok (batcher, [], 0)
  flush_windows (suc fuel) batcher tick_ns [] = ok (batcher, [], 0)
  flush_windows (suc fuel) batcher tick_ns (first ∷ items) = do
    let cut = take_window (time first) tick_ns (first ∷ items)
    one ← flush_window batcher (time first) cut.0
    more ← flush_windows fuel one.0 tick_ns cut.1
    ok (more.0, one.1 ++ more.1, one.2 + more.2)

  unfoldable pub flush : Pipeline N → Result Error (Pipeline N × List (TickBatch N))
  unfolding flush_windows sort_staged
  flush p = do
    flushed ← flush_windows (length p.staged) p.batcher p.tick_ns (sort_staged p.staged)
    ok (
      record p {
        batcher = flushed.0;
        staged = [];
        encode_failures = p.encode_failures + flushed.2;
      },
      flushed.1,
    )
