-- ===== src/Ingest.antt =====
-- src/pit/ingest_writer/writer.py: from the messages of the stream to committed rows. A message carries what protobuf
-- parses of its data, `none` where it raises. The store is what its transactions have committed.
pub mod Rows
pub mod Consume
pub mod Distinct
pub mod Given
pub mod Once
pub mod Settled
pub mod Waiting
mod Examples
use openlaps.Common.{
  ℕ, ◌+◌, String, Bool, true, false, not, ◌&&◌, ◌||◌, Option, none, some, List, [], ◌∷◌, ◌++◌, leb,
  ltb, max, length, if◌then◌else◌, ◌==◌, string_eq, map,
}
use Prim.Native.String.{◌++◌ as join}
use openlaps.Common.Dict.{Dict, insert}
use openlaps.Common.Number.{Number}
use openlaps.Common.Result.{Result, ok, err}
use openlaps.Laps.{Conversion, LapRow, PitStatusUpdate, LapMaterialiser}
use openlaps.Registry.{
  ChannelRegistry, SampleBatch, Decoded, decoded, rejected, unknown_registry_seq,
  bad_format_version, RegistryCache, contains, add_registry, known, decode_batch, new_cache,
}
use openlaps.Ingest.Rows.{
  SampleRow, BatchRows, Keys, Outside, Folded, rows_from_batch, materialise_laps,
}

pub record Message (N : Type 0) : Type 0 where
  pub sequence : ℕ
  pub header : Option String
  pub subject : String
  pub registry : Option (ChannelRegistry N)
  pub batch : Option (SampleBatch N)

pub record WriterSettings : Type 0 where
  pub vehicle_id : String
  pub batch_rows : ℕ
  pub max_buffered_rows : ℕ

-- What one transaction wrote, and the messages that waited for it.
pub record Commit (N : Type 0) : Type 0 where
  pub rows : List (SampleRow N)
  pub laps : List (LapRow N)
  pub pit_updates : List PitStatusUpdate
  pub messages : List (Message N)

pub record Store (N : Type 0) : Type 0 where
  pub cursor : ℕ
  pub commits : List (Commit N)

-- The counters of `HealthState` that the writer keeps; its clocks, its rates and its copies of other counters are left
-- out.
pub record Health : Type 0 where
  pub messages_skipped : ℕ
  pub registries : ℕ
  pub batches : ℕ
  pub samples_dropped : ℕ
  pub unresolved_channels : ℕ
  pub unknown_seq_stalls : ℕ
  pub stalled : Bool
  pub flushes : ℕ
  pub rows_written : ℕ
  pub last_stream_seq : ℕ
  pub laps_written : ℕ
  pub sectors_written : ℕ
  pub laps_dropped : ℕ
  pub db_errors : ℕ
  pub data_errors : ℕ
  pub dropped_flushes : ℕ

pub record IngestWriter (N : Type 0) : Type 0 where
  pub cache : RegistryCache N
  pub laps : LapMaterialiser N
  pub keys : Keys
  pub cursor : ℕ
  pub max_seq : ℕ
  pub rows : List (SampleRow N)
  pub lap_rows : List (LapRow N)
  pub pit_updates : List PitStatusUpdate
  pub pending : List (Message N)
  pub buffered : List ℕ
  pub held : List (Message N)
  pub paused : Bool
  pub health : Health
  pub store : Store N
  -- The sequences that were acknowledged to the server.
  pub acked : List ℕ

-- How a transaction ends: committed, `OperationalError` with nothing committed, `OperationalError` although it was
-- committed (the connection died before the answer came), or another `Error` of the database.
pub data Answer : Type 0 where
  landed lost unheard refused : Answer

-- A message is done with, or refers to a registry that is not known, or an exception ends the process.
pub data Outcome (N : Type 0) : Type 0 where
  done : IngestWriter N → Outcome N
  stall : ℕ → IngestWriter N → Outcome N
  ended : IngestWriter N → Outcome N

abbrev is_empty : {A : Type 0} → List A → Bool
is_empty [] = true
is_empty (x ∷ xs) = false

module _ {N : Type 0} where
  -- What holds of the writer in each of the outcomes.
  abbrev pub OnOutcome : (IngestWriter N → Type 0) → Outcome N → Type 0
  OnOutcome P (done w) = P w
  OnOutcome P (stall g w) = P w
  OnOutcome P (ended w) = P w

  abbrev pub OnResult :
      (IngestWriter N → Type 0) → Result (IngestWriter N) (IngestWriter N) → Type 0
  OnResult P (ok w) = P w
  OnResult P (err w) = P w

  unfoldable pub sectors_in : List (LapRow N) → ℕ
  sectors_in [] = 0
  sectors_in (lap ∷ laps) = length lap.sectors + sectors_in laps

  abbrev pub sequences : List (Message N) → List ℕ
  sequences [] = []
  sequences (m ∷ ms) = m.sequence ∷ sequences ms

  unfoldable pub is_registry : String → Message N → Bool
  is_registry vehicle_id m =
      let by_subject = m.subject == join (join "tele." vehicle_id) ".catalog" in
      elim m.header [
        | none ↦ by_subject
        | some header ↦ if header == "" then by_subject else header == "registry"
      ]

  -- `_pending_work`
  abbrev pub pending_work : IngestWriter N → Bool
  pending_work w =
      not (is_empty w.rows && is_empty w.lap_rows && is_empty w.pit_updates)
      || ltb w.cursor w.max_seq

  -- `TimescaleStore.flush`, where it commits: the cursor only moves on.
  abbrev pub commit : IngestWriter N → List (LapRow N) → List PitStatusUpdate → Store N
  commit w laps pit_updates = record {
    cursor = max w.store.cursor w.max_seq;
    commits =
        w.store.commits
        ++ record { rows = w.rows; laps = laps; pit_updates = pit_updates; messages = w.pending }
          ∷ [];
  }

  -- The cursor moves on, the messages are acknowledged, the buffer is empty (`_discard`).
  abbrev pub advance : IngestWriter N → IngestWriter N
  advance w = record w {
    cursor = max w.cursor w.max_seq;
    acked = w.acked ++ sequences w.pending;
    rows = [];
    lap_rows = [];
    pit_updates = [];
    pending = [];
    buffered = [];
    paused = false;
  }

  abbrev count_flush : IngestWriter N → Health
  count_flush w = record w.health {
    flushes = w.health.flushes + 1;
    rows_written = w.health.rows_written + length w.rows;
    last_stream_seq = max w.health.last_stream_seq (max w.cursor w.max_seq);
  }

  abbrev count_laps : List (LapRow N) → Health → Health
  count_laps laps health = record health {
    laps_written = health.laps_written + length laps;
    sectors_written = health.sectors_written + sectors_in laps;
  }

  abbrev drop_laps : List (LapRow N) → Health → Health
  drop_laps laps health = record health { laps_dropped = health.laps_dropped + length laps }

  abbrev count_error : IngestWriter N → IngestWriter N
  count_error w = record w { health = record w.health { db_errors = w.health.db_errors + 1 } }

  -- The flush without its laps, after the database has refused it with them.
  unfoldable pub retry : IngestWriter N → Answer → IngestWriter N × Bool
  unfolding sectors_in
  retry w landed = (
    advance (record w { store = commit w [] []; health = drop_laps w.lap_rows (count_flush w) }),
    true,
  )
  retry w lost = (count_error w, false)
  retry w unheard = (count_error (record w { store = commit w [] [] }), false)
  retry w refused = (
    advance (record w {
      health =
          drop_laps w.lap_rows (record w.health { dropped_flushes = w.health.dropped_flushes + 1 });
    }),
    false,
  )

  unfoldable pub write : IngestWriter N → Answer → Answer → IngestWriter N × Bool
  unfolding retry sectors_in
  write w landed second = (
    advance (record w {
      store = commit w w.lap_rows w.pit_updates;
      health = count_laps w.lap_rows (count_flush w);
    }),
    true,
  )
  write w lost second = (count_error w, false)
  write w unheard second =
      (count_error (record w { store = commit w w.lap_rows w.pit_updates }), false)
  write w refused second =
      retry (record w { health = record w.health { data_errors = w.health.data_errors + 1 } })
        second

  -- `_flush`; the answers are those of the transaction and of the one without laps.
  unfoldable pub flush : IngestWriter N → Answer → Answer → IngestWriter N × Bool
  unfolding write
  flush w first second = if pending_work w then write w first second else (w, true)
