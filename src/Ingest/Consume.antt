-- ===== src/Ingest/Consume.antt =====
-- src/pit/ingest_writer/writer.py: the consumption of messages, turn by turn, and what a restart keeps.
use openlaps.Common.{
  ℕ, ◌+◌, ◌<◌, ◌≡◌, arith, Bool-cases, Option-cases, inl, inr, Bool, true, false, ◌||◌, Option,
  none, some, List, [], ◌∷◌, ◌++◌, leb, max, length, if◌then◌else◌, if-both,
}
use openlaps.Common.Dict.{Dict, insert}
use openlaps.Common.Number.{Number}
use openlaps.Common.Result.{Result, ok, err}
use openlaps.Laps.{Conversion}
use openlaps.Registry.{
  ChannelRegistry, SampleBatch, Decoded, decoded, rejected, unknown_registry_seq,
  bad_format_version, RegistryCache, contains, add_registry, known, decode_batch, new_cache,
}
use openlaps.Ingest.Rows.{
  Keys, pair_eq_instance, BatchRows, Outside, Folded, rows_from_batch, materialise_laps,
}
use openlaps.Ingest.{
  Message, WriterSettings, Health, Store, IngestWriter, Answer, Outcome, done, stall, ended,
  is_registry, flush,
}

-- One turn of the loop: what a fetch gives if there is one (`none` where it fails), whether the flush is due, how its
-- transactions end, and what a scan of the catalog finds.
pub record Turn (N : Type 0) : Type 0 where
  pub fetched : Option (List (Message N))
  pub due : Bool
  pub first : Answer
  pub second : Answer
  pub scanned : List (ChannelRegistry N)

-- A turn of the loop, the flush at the end of the loop, or the process is killed and started again, whose scan finds
-- these registries.
pub data Event (N : Type 0) : Type 0 where
  turns : Turn N → Event N
  stops : Answer → Answer → Event N
  restarts : List (ChannelRegistry N) → Event N

abbrev no_health : Health
no_health = record {
  messages_skipped = 0;
  registries = 0;
  batches = 0;
  samples_dropped = 0;
  unresolved_channels = 0;
  unknown_seq_stalls = 0;
  stalled = false;
  flushes = 0;
  rows_written = 0;
  last_stream_seq = 0;
  laps_written = 0;
  sectors_written = 0;
  laps_dropped = 0;
  db_errors = 0;
  data_errors = 0;
  dropped_flushes = 0;
}

module _ {N : Type 0} (outside : Outside N) where
  abbrev pub add_keys : ℕ → Dict ℕ ℕ → Keys → Keys
  add_keys registry_seq [] keys = keys
  add_keys registry_seq ((wire_id, channel_key) ∷ more) keys =
      add_keys registry_seq more (insert (registry_seq, wire_id) channel_key keys)

  abbrev pub record_registry :
      IngestWriter N → ChannelRegistry N → Option (Dict ℕ ℕ) → IngestWriter N
  record_registry w registry recorded = record w {
    keys = elim recorded [ none ↦ w.keys | some ids ↦ add_keys registry.registry_seq ids w.keys ];
    cache = elim recorded [ none ↦ w.cache | some ids ↦ add_registry w.cache registry ];
  }

  -- `_apply_registry`, which tries until the database has it or the writer is stopped.
  abbrev pub apply_registry : IngestWriter N → ChannelRegistry N → IngestWriter N
  apply_registry w registry = record_registry w registry (outside.upsert_registry registry)

  unfoldable pub scan_registries : IngestWriter N → List (ChannelRegistry N) → IngestWriter N
  unfolding insert add_registry
  scan_registries w [] = w
  scan_registries w (registry ∷ found) = scan_registries (apply_registry w registry) found

  -- `_recover_registry`
  unfoldable pub recover_registry : IngestWriter N → ℕ → List (ChannelRegistry N) → IngestWriter N
  unfolding scan_registries known
  recover_registry w registry_seq found =
      let w' = scan_registries w found in
      if known w'.cache registry_seq
      then record w' { health = record w'.health { stalled = false } }
      else w'

  -- A property that keeps when a registry is applied and when a counter changes.
  pub record Steady (P : IngestWriter N → Type 0) : Type 0 where
    pub apply : (w : IngestWriter N) (r : ChannelRegistry N) → P w → P (apply_registry w r)
    pub count : (w : IngestWriter N) (health : Health) → P w → P (record w { health = health })

  module _ (P : IngestWriter N → Type 0) (steady : Steady P) where
    pub scan-steady :
        (w : IngestWriter N) (found : List (ChannelRegistry N)) → P w → P (scan_registries w found)
    unfolding scan_registries
    scan-steady w [] h = h
    scan-steady w (r ∷ found) h = scan-steady (apply_registry w r) found (steady.apply w r h)

    pub recover-steady :
        (w : IngestWriter N) (g : ℕ) (found : List (ChannelRegistry N))
        → P w
        → P (recover_registry w g found)
    unfolding recover_registry
    recover-steady w g found h =
        let w' = scan_registries w found in
        let k = scan-steady w found h in
        if-both P (known w'.cache g) _ w' (steady.count w' (record w'.health { stalled = false }) k)
          k

module _ (number : Number) (conversion : Conversion number.N) (outside : Outside number.N)
    (settings : WriterSettings) where
  open number use {N}

  abbrev ack : Message N → IngestWriter N → IngestWriter N
  ack m w = record w { acked = w.acked ++ m.sequence ∷ [] }

  abbrev pub skip : Message N → IngestWriter N → IngestWriter N
  skip m w =
      ack m
        (record w { health = record w.health { messages_skipped = w.health.messages_skipped + 1 } })

  abbrev pub take_registry : IngestWriter N → Message N → Option (ChannelRegistry N) → Outcome N
  take_registry w m none = ended w
  take_registry w m (some registry) = done (
      ack m (record (apply_registry outside w registry) {
        health = record w.health { registries = w.health.registries + 1 };
      }))

  abbrev pub buffer : IngestWriter N → Message N → BatchRows N → Option (Folded N) → Outcome N
  buffer w m converted none = ended w
  buffer w m converted (some f) = done (record w {
    rows = w.rows ++ converted.rows;
    laps = f.laps;
    lap_rows = f.lap_rows;
    pit_updates = f.pit_updates;
    pending = w.pending ++ m ∷ [];
    buffered = w.buffered ++ m.sequence ∷ [];
    max_seq = max w.max_seq m.sequence;
    health = record w.health {
      batches = w.health.batches + 1;
      samples_dropped = w.health.samples_dropped + converted.dropped;
      unresolved_channels = w.health.unresolved_channels + converted.unresolved;
    };
  })

  -- The batch and its laps join the next flush; an exception that leaves `rows_from_batch` ends the process.
  abbrev pub convert : IngestWriter N → Message N → Option (BatchRows N) → Outcome N
  convert w m none = ended w
  convert w m (some converted) = buffer w m converted (
      materialise_laps number outside conversion converted.lap_events
        (record { laps = w.laps; lap_rows = w.lap_rows; pit_updates = w.pit_updates }))

  abbrev pub take_batch : IngestWriter N → Message N → ℕ → RegistryCache N → Decoded N → Outcome N
  take_batch w m registry_seq cache (rejected unknown_registry_seq) =
      stall registry_seq (record w { cache = cache })
  take_batch w m registry_seq cache (rejected bad_format_version) =
      done (ack m (record w { cache = cache; max_seq = max w.max_seq m.sequence }))
  take_batch w m registry_seq cache (decoded batch) =
      convert (record w { cache = cache }) m
        (rows_from_batch number outside batch.registry_seq batch.samples w.keys)

  -- `_handle`
  unfoldable pub handle : IngestWriter N → Message N → Outcome N
  unfolding decode_batch add_registry insert is_registry rows_from_batch materialise_laps
  handle w m =
      if leb m.sequence w.cursor || contains m.sequence w.buffered
      then done (skip m w)
      else if is_registry settings.vehicle_id m
      then take_registry w m m.registry
      else elim m.batch [
        | none ↦ ended w
        | some batch ↦
            let (cache, result) = decode_batch number w.cache batch in
            take_batch w m batch.registry_seq cache result
      ]

  -- A property of what `_handle` does with a message, from its cases.
  pub handle-cases :
      (P : Outcome N → Type 0) (w : IngestWriter N) (m : Message N)
      → P (done (skip m w))
      → P (take_registry w m m.registry)
      → P (ended w)
      → ((batch : SampleBatch N)
          → w.cursor < m.sequence
          → contains m.sequence w.buffered ≡ false
          → m.batch ≡ some batch
          → P (
              take_batch w m batch.registry_seq
                (decode_batch number w.cache batch).0
                (decode_batch number w.cache batch).1))
      → P (handle w m)
  unfolding handle
  handle-cases P w m skipped registry unparsed new =
      elim (Bool-cases (leb m.sequence w.cursor || contains m.sequence w.buffered)) [
        | inl e ↦ rw e skipped
        | inr e ↦ rw e (elim (Bool-cases (is_registry settings.vehicle_id m)) [
          | inl r ↦ rw r registry
          | inr r ↦ rw r (elim (Option-cases m.batch) [
            | inl q ↦ rw q unparsed
            | inr (batch, q) ↦ rw q (new batch (ground (arith, e)) (ground (arith, e)) q)
          ])
        ])
      ]

  abbrev pub stalls : IngestWriter N → List (Message N) → IngestWriter N
  stalls w held = record w {
    held = held;
    health = record w.health {
      unknown_seq_stalls = w.health.unknown_seq_stalls + 1;
      stalled = true;
    };
  }

  -- `_handle_all`: what is before the barrier is committed, the rest is held.
  unfoldable pub handle_all : IngestWriter N → List (Message N) → Answer → Answer → Outcome N
  unfolding handle flush
  handle_all w [] first second = done w
  handle_all w (m ∷ ms) first second = elim (handle w m) [
    | done w' ↦ handle_all w' ms first second
    | stall registry_seq w' ↦ stall registry_seq (flush (stalls w' (m ∷ ms)) first second).0
    | ended w' ↦ ended w'
  ]

  abbrev pub after : Turn N → Outcome N → Result (IngestWriter N) (IngestWriter N)
  after t (done w) =
      ok (
        if leb settings.batch_rows (length w.rows) || t.due
        then (flush w t.first t.second).0
        else w)
  after t (stall registry_seq w) = ok (recover_registry outside w registry_seq t.scanned)
  after t (ended w) = err w

  abbrev pub fetch :
      IngestWriter N → Turn N → Option (List (Message N)) → Result (IngestWriter N) (IngestWriter N)
  fetch w t none = ok w
  fetch w t (some ms) = after t (handle_all w ms t.first t.second)

  abbrev pub next_messages :
      IngestWriter N → Turn N → List (Message N) → Result (IngestWriter N) (IngestWriter N)
  next_messages w t (m ∷ ms) = fetch (record w { held = [] }) t (some (m ∷ ms))
  next_messages w t [] =
      if leb settings.max_buffered_rows (length w.rows)
      then ok (flush (record w { paused = true }) t.first t.second).0
      else fetch w t t.fetched

  -- The body of the loop of `_consume`; `err` where an exception ends the process.
  unfoldable pub turn : IngestWriter N → Turn N → Result (IngestWriter N) (IngestWriter N)
  unfolding handle_all flush recover_registry
  turn w t = next_messages w t w.held

  -- `__init__` and the start of `run`: of the process before, the store and the acknowledgements remain.
  unfoldable pub restart : Store N → List ℕ → List (ChannelRegistry N) → IngestWriter N
  unfolding scan_registries
  restart store acked found =
      scan_registries outside
        (record {
          cache = new_cache;
          laps = record {
            vehicle_id = settings.vehicle_id;
            sectors = [];
            highest_lap_number = none;
            malformed_events = 0;
            laps_materialised = 0;
            sectors_materialised = 0;
            unknown_event_types = [];
            engine_restarts = 0;
          };
          keys = [];
          cursor = store.cursor;
          max_seq = store.cursor;
          rows = [];
          lap_rows = [];
          pit_updates = [];
          pending = [];
          buffered = [];
          held = [];
          paused = false;
          health = no_health;
          store = store;
          acked = acked;
        })
        found

  -- A process that ends is started again.
  unfoldable pub step : IngestWriter N → Event N → IngestWriter N
  unfolding turn restart flush
  step w (restarts found) = restart w.store w.acked found
  step w (stops first second) = (flush w first second).0
  step w (turns t) = elim (turn w t) [ ok w' ↦ w' | err w' ↦ restart w'.store w'.acked t.scanned ]

  unfoldable pub run : IngestWriter N → List (Event N) → IngestWriter N
  unfolding step
  run w [] = w
  run w (e ∷ es) = run (step w e) es
