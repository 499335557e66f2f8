-- ===== src/Lib.antt =====
-- Verification of openlaps.
--
-- openlaps is telemetry for endurance racing. On the car, collectors put samples into bounded
-- queues (src/agent/queues.py); the agent's pipeline drains them, filters them by exception
-- (src/core/rbe.py), cuts them into ticks (src/agent/pipeline.py), encodes each tick by
-- source class (src/core/batcher.py) and hands batches to a publisher that buffers them for JetStream
-- (src/agent/publisher.py); the timing engine (src/timing/timing_core.py) turns GPS points into
-- sector and lap events. In the pit, services read the
-- streams. A cache of registries decodes the batches (src/pit/registry_cache.py), a limiter thins
-- out the live gauges (src/pit/live_decoder/limiter.py), and the ingest writer
-- commits decoded rows with its cursor (src/pit/ingest_writer/writer.py) and makes lap rows of the
-- timing events (src/pit/ingest_writer/laps.py). Session control keeps the session and the
-- driver stints (src/pit/session_control/state.py) and validates the race plan
-- (src/pit/session_control/plan.py). The timing feed reads the circuit's timing from chained
-- packets (src/pit/timing_feed/framing.py) and keeps the standings of the field
-- (src/pit/timing_feed/model.py), the notifier keeps a book of the alerts that fire
-- (src/pit/notifier/alerts.py), the watch service scores each second of a car against what it has
-- learned (src/pit/watch), and the strategy service projects fuel, stops and driver time
-- (src/pit/strategy/model.py).
--
-- Files:
--   Common       what the modules share: tests and case splits, lists, dictionaries in insertion
--                order, texts as code points, JSON values, results that may be an exception, and
--                numbers as a parameter
--   Samples      src/core/samples.py: `Sample` and its values
--   Rbe          src/core/rbe.py: `accept` is `RbeFilter.accept`, of `accept_first` and
--                `accept_next`; `record_sent` is `_record`
--   Batcher      src/core/batcher.py: `add` and `tick` of `Batcher`, with `encode_value`
--   Pipeline     src/agent/pipeline.py: `Pipeline.flush`, of `take_window` and `flush_window`
--   SampleQueue  src/agent/queues.py: `put`, `drain` and `init` of `SampleQueue`
--   Publisher    src/agent/publisher.py: `submit`, `fill_window` (one turn of the loop of
--                `_fill_window`), `requeue`
--                (`_requeue`), `on_ack` and `step` (the rounds of `_send_loop`)
--   Session      src/pit/session_control/state.py: the methods of `SessionState` by their names,
--                `from_dict` in Decode
--   Framing      src/pit/timing_feed/framing.py: `encode_document`, `PacketFramer.feed` with
--                `next_packet` (`_next_packet`) and `chain` (`_chain`)
--   Plan         src/pit/session_control/plan.py: `validate_plan`, of one function per group of fields
--                (Validate)
--   Registry     src/pit/registry_cache.py: `add_registry` and `decode_batch` of `RegistryCache`
--   Laps         src/pit/ingest_writer/laps.py: `observe` of `LapMaterialiser`, of `note_lap`,
--                `buffer_sector` and `complete_lap` (Observe)
--   Ingest       src/pit/ingest_writer/writer.py: `rows_from_batch` (Rows), `flush` (`_flush`, of `write` and
--                `retry`), `handle`, `handle_all` and `turn` (`_handle`, `_handle_all`, `_consume`; Consume); it
--                runs the cache of Registry and the materialiser of Laps. A transaction ends in one of four ways
--                (`Answer`), one of them that it commits and is not heard of
--   Limiter      src/pit/live_decoder/limiter.py: the methods of `ConflatingLimiter`; those that
--                read times and rates are in Gauge
--   Alerts       src/pit/notifier/alerts.py: the methods of `AlertBook` by their names
--   Timing       src/timing/timing_core.py: lines and their order (Lines), the crossing of a
--                line (Geometry), the methods of `TimingEngine` (Process)
--   Watch        src/pit/watch/engine.py and monitors.py: what the monitors share (Watch), `Envelope` and
--                `Ratio` (Model), `Counter` and `Drift` by their names, and `WatchEngine` (Engine)
--   Strategy     src/pit/strategy/model.py: `clean_laps` and `_burn` (Burn), `_rebase` and
--                `_fuel_remaining` (Fuel), `_stop_plan` and `_plan_drift` (Stops), the window, driver
--                time and refuel clock (Drivers), `evaluate` (Evaluate and, for its range and window, Window)
--   Field        src/pit/timing_feed/model.py: `_diff` (Diff), the competitors (Competitors), what a leaderboard holds
--                (Documents), `apply_document` and `apply_snapshot` (Apply)
--
-- State is passed explicitly: an operation takes the object's record and returns the new one, with
-- an exception as a value. Where a lock or a single thread makes operations whole, a history is a
-- list of them. Floats, and the numbers of samples, are the type and the operations of
-- `Common.Number`, at which no law is assumed but those that a theorem names. Times that the source
-- keeps as integers are natural numbers.
--
-- Fuel: `Framing.pieces` and `Framing.loop` run on the number of bytes, since each turn takes one byte
-- or ten at least, and `Pipeline.flush_windows` on the number of samples, since a window takes its
-- first. `Strategy.Stops.walk` counts the stops down that `len(stops)` counts up. All other loops are by structure.
--
-- Not modelled: input and output (devices, NATS, HTTP, SQL, files), threads and process start-up,
-- the calculations on floats of fusion and distance, generated protocol code, and the tools.
pub mod Common
pub mod Samples
pub mod Alerts
pub mod Batcher
pub mod Field
pub mod Framing
pub mod Ingest
pub mod Laps
pub mod Limiter
pub mod Pipeline
pub mod Plan
pub mod Publisher
pub mod Rbe
pub mod Registry
pub mod SampleQueue
pub mod Session
pub mod Strategy
pub mod Timing
pub mod Watch
