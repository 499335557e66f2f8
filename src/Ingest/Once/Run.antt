-- ===== src/Ingest/Once/Run.antt =====
-- src/pit/ingest_writer/writer.py: the turns of the writer, with restarts between them.
use openlaps.Common.{
  ◌<◌, ◌≡◌, refl, true, false, ◌||◌, Option, none, some, List, [], ◌∷◌, leb, length, arith, All,
  sym, ap, ◌∙◌, Bool-cases, inl, inr, if-both,
}
use openlaps.Common.Number.{Number}
use openlaps.Common.Result.{Result, ok, err}
use openlaps.Laps.{Conversion}
use openlaps.Registry.{
  SampleBatch, DecodedBatch, RegistryCache, new_cache, Decoded, decoded, rejected,
  unknown_registry_seq, bad_format_version, ChannelRegistry, contains, decode_batch,
}
use openlaps.Ingest.Rows.{BatchRows, Outside, Folded, rows_from_batch}
use openlaps.Ingest.{
  Message, WriterSettings, IngestWriter, Answer, Outcome, done, stall, ended, OnOutcome, OnResult,
  flush,
}
use openlaps.Ingest.Consume.{
  Turn, Event, turns, stops, restarts, buffer, take_registry, take_batch, convert, handle,
  handle-cases, stalls, handle_all, after, fetch, next_messages, turn, restart, step, run,
}
use openlaps.Ingest.Given.{channels_in, decode-same_channels}
use openlaps.Ingest.Once.{
  Gives, nothing, IsOnce, Heard, Knows, flush-IsOnce, apply-IsOnce, Brings, scan-IsOnce,
  recover-IsOnce, skip_max-Once, buffer-Once,
}

module _ (number : Number) (conversion : Conversion number.N) (outside : Outside number.N)
    (settings : WriterSettings) (Given : ChannelRegistry number.N → Type 0) where
  open number use {N}

  abbrev OnceAt : IngestWriter N → Type 0
  OnceAt w = IsOnce number outside Given w

  abbrev BringsAt : Message N → Type 0
  BringsAt m = Brings number outside Given m

  -- The message is none that is committed or buffered.
  abbrev IsNew : IngestWriter N → Message N → Type 0
  IsNew w m = (w.cursor < m.sequence) × (contains m.sequence w.buffered ≡ false)

  buffer-IsOnce :
      (w : IngestWriter N) (m : Message N) (converted : BatchRows N) (o : Option (Folded N))
      → OnceAt w
      → IsNew w m
      → Gives number outside Given m converted.rows
      → OnOutcome OnceAt (buffer number conversion outside settings w m converted o)
  buffer-IsOnce w m converted none h new gives = h
  buffer-IsOnce w m converted (some f) h (above, absent) gives =
      (buffer-Once number outside Given m h.0 above absent gives, h.1, h.2)

  Knows-Knows :
      (w : IngestWriter N) (cache : RegistryCache N)
      → cache.channels ≡ w.cache.channels
      → Knows number outside Given w.cache.channels w.keys
      → Knows number outside Given cache.channels w.keys
  Knows-Knows w cache same h = record {
    log = h.log;
    given = h.given;
    same_channels = same ∙ h.same_channels;
    same_keys = h.same_keys;
  }

  convert-IsOnce :
      (w : IngestWriter N) (m : Message N) (batch : SampleBatch N) (d : DecodedBatch N)
      (cache : RegistryCache N) (o : Option (BatchRows N))
      → OnceAt w
      → IsNew w m
      → m.batch ≡ some batch
      → (decode_batch number w.cache batch).1 ≡ decoded d
      → cache.channels ≡ w.cache.channels
      → rows_from_batch number outside d.registry_seq d.samples w.keys ≡ o
      → OnOutcome OnceAt
          (convert number conversion outside settings (record w { cache = cache }) m o)
  convert-IsOnce w m batch d cache none h new carries e same q =
      (h.0, Knows-Knows w cache same h.1, h.2)
  convert-IsOnce w m batch d cache (some converted) h new carries e same q =
      let known = h.1 in
      let logged = record new_cache { channels = channels_in number outside known.log } in
      buffer-IsOnce (record w { cache = cache }) m converted _
        (h.0, Knows-Knows w cache same known, h.2) new
        (record {
          batch = batch;
          result = d;
          log = known.log;
          given = known.given;
          carries = carries;
          decodes =
              sym (decode-same_channels number outside w.cache logged batch known.same_channels).0
              ∙ e;
          converted = converted;
          converts =
              ap (rows_from_batch number outside d.registry_seq d.samples) (sym known.same_keys)
              ∙ q;
          gives = refl;
        })

  take_batch-IsOnce :
      (w : IngestWriter N) (m : Message N) (batch : SampleBatch N) (result : Decoded N)
      (cache : RegistryCache N)
      → OnceAt w
      → IsNew w m
      → m.batch ≡ some batch
      → (decode_batch number w.cache batch).1 ≡ result
      → cache.channels ≡ w.cache.channels
      → OnOutcome OnceAt
          (take_batch number conversion outside settings w m batch.registry_seq cache result)
  take_batch-IsOnce w m batch (rejected unknown_registry_seq) cache h new carries e same =
      (h.0, Knows-Knows w cache same h.1, h.2)
  take_batch-IsOnce w m batch (rejected bad_format_version) cache h new carries e same =
      (skip_max-Once number outside Given m.sequence h.0, Knows-Knows w cache same h.1, h.2)
  take_batch-IsOnce w m batch (decoded d) cache h new carries e same =
      convert-IsOnce w m batch d cache _ h new carries e same refl

  take_registry-IsOnce :
      (w : IngestWriter N) (m : Message N) (o : Option (ChannelRegistry N))
      → BringsAt m
      → m.registry ≡ o
      → OnceAt w
      → OnOutcome OnceAt (take_registry number conversion outside settings w m o)
  take_registry-IsOnce w m none brings q h = h
  take_registry-IsOnce w m (some r) brings q h =
      apply-IsOnce number outside Given w r (brings r q) h

  handle-IsOnce :
      (w : IngestWriter N) (m : Message N)
      → BringsAt m
      → OnceAt w
      → OnOutcome OnceAt (handle number conversion outside settings w m)
  handle-IsOnce w m brings h =
      handle-cases number conversion outside settings (OnOutcome OnceAt) w m h
        (take_registry-IsOnce w m m.registry brings refl h) h
        (λ batch above absent q.
          take_batch-IsOnce w m batch _ _ h (above, absent) q refl
            (decode-same_channels number outside w.cache w.cache batch refl).1)

  handle_all-IsOnce :
      (w : IngestWriter N) (ms : List (Message N)) (a b : Answer)
      → Heard a
      → Heard b
      → All BringsAt ms
      → OnceAt w
      → OnOutcome OnceAt (handle_all number conversion outside settings w ms a b)
  unfolding handle_all
  handle_all-IsOnce w [] a b heard heard' brings h = h
  handle_all-IsOnce w (m ∷ ms) a b heard heard' (one, brings) h =
      go (handle number conversion outside settings w m) (handle-IsOnce w m one h)
        (λ w' k. handle_all-IsOnce w' ms a b heard heard' brings k)
    where
      go :
          (o : Outcome N)
          → OnOutcome OnceAt o
          → ((w' : IngestWriter N)
              → OnceAt w'
              → OnOutcome OnceAt (handle_all number conversion outside settings w' ms a b))
          → OnOutcome OnceAt (elim o [
            | done w' ↦ handle_all number conversion outside settings w' ms a b
            | stall g w' ↦
                stall g (flush (stalls number conversion outside settings w' (m ∷ ms)) a b).0
            | ended w' ↦ ended w'
          ])
      go (done w') k rest = rest w' k
      go (stall g w') k rest =
          flush-IsOnce number outside Given (stalls number conversion outside settings w' (m ∷ ms))
            a b heard heard' (k.0, k.1, (one, brings))
      go (ended w') k rest = k

  -- No transaction of the event was committed without an answer, and the registries that it brings were given.
  abbrev pub IsFair : Event N → Type 0
  IsFair (turns t) =
      Heard t.first
      × Heard t.second
      × All Given t.scanned
      × ((ms : List (Message N)) → t.fetched ≡ some ms → All (Brings number outside Given) ms)
  IsFair (stops a b) = Heard a × Heard b
  IsFair (restarts found) = All Given found

  after-IsOnce :
      (t : Turn N) (o : Outcome N)
      → IsFair (turns t)
      → OnOutcome OnceAt o
      → OnResult OnceAt (after number conversion outside settings t o)
  after-IsOnce t (done w) fair h =
      if-both OnceAt (leb settings.batch_rows (length w.rows) || t.due) _ w
        (flush-IsOnce number outside Given w t.first t.second fair.0 fair.1 h) h
  after-IsOnce t (stall g w) fair h = recover-IsOnce number outside Given w g t.scanned fair.2 h
  after-IsOnce t (ended w) fair h = h

  fetch-IsOnce :
      (w : IngestWriter N) (t : Turn N) (o : Option (List (Message N)))
      → IsFair (turns t)
      → ((ms : List (Message N)) → o ≡ some ms → All BringsAt ms)
      → OnceAt w
      → OnResult OnceAt (fetch number conversion outside settings w t o)
  fetch-IsOnce w t none fair brings h = h
  fetch-IsOnce w t (some ms) fair brings h =
      after-IsOnce t (handle_all number conversion outside settings w ms t.first t.second) fair
        (handle_all-IsOnce w ms t.first t.second fair.0 fair.1 (brings ms refl) h)

  next-IsOnce :
      (w : IngestWriter N) (t : Turn N) (held : List (Message N))
      → w.held ≡ held
      → IsFair (turns t)
      → OnceAt w
      → OnResult OnceAt (next_messages number conversion outside settings w t held)
  next-IsOnce w t (m ∷ ms) q fair h =
      fetch-IsOnce (record w { held = [] }) t (some (m ∷ ms)) fair
        (λ ms' e. let same : w.held ≡ ms' = cc (q, e) in rw same at h.2) (h.0, h.1, tt)
  next-IsOnce w t [] q fair h = elim (Bool-cases (leb settings.max_buffered_rows (length w.rows))) [
    | inl e ↦ rw e (
        flush-IsOnce number outside Given (record w { paused = true }) t.first t.second fair.0
          fair.1 h)
    | inr e ↦ rw e (fetch-IsOnce w t t.fetched fair fair.3 h)
  ]

  restart-IsOnce :
      (w : IngestWriter N) (found : List (ChannelRegistry N))
      → All Given found
      → OnceAt w
      → OnceAt (restart number conversion outside settings w.store w.acked found)
  unfolding restart
  restart-IsOnce w found given h = scan-IsOnce number outside Given _ found given (
    record {
      behind = omega arith;
      within = omega arith;
      committed = h.0.committed;
      distinct = h.0.distinct;
      ahead = tt;
      seen = tt;
      same = refl;
      apart = tt;
      filled = nothing;
      written = h.0.written;
    },
    record { log = []; given = tt; same_channels = refl; same_keys = refl },
    tt,
  )

  step-IsOnce :
      (w : IngestWriter N) (e : Event N)
      → IsFair e
      → OnceAt w
      → OnceAt (step number conversion outside settings w e)
  unfolding step turn
  step-IsOnce w (restarts found) fair h = restart-IsOnce w found fair h
  step-IsOnce w (stops a b) heard h = flush-IsOnce number outside Given w a b heard.0 heard.1 h
  step-IsOnce w (turns t) fair h = go _ (next-IsOnce w t w.held refl fair h)
    where
      go :
          (r : Result (IngestWriter N) (IngestWriter N))
          → OnResult OnceAt r
          → OnceAt (elim r [
            | ok w' ↦ w'
            | err w' ↦ restart number conversion outside settings w'.store w'.acked t.scanned
          ])
      go (ok w') k = k
      go (err w') k = restart-IsOnce w' t.scanned fair.2 k

  -- Through turns, stops and restarts in any order, whatever is delivered, late or again, and however transactions end,
  -- except that one commits and its answer is lost: no message is committed twice, those that wait are after the cursor
  -- and not committed, and the rows of each commit are those of its messages in order, each as it is decoded and given
  -- its channel keys by a list of registries, of those alone that the stream or the catalog brought.
  pub run-IsOnce :
      (w : IngestWriter N) (es : List (Event N))
      → IsOnce number outside Given w
      → All IsFair es
      → IsOnce number outside Given (run number conversion outside settings w es)
  unfolding run
  run-IsOnce w [] h fair = h
  run-IsOnce w (e ∷ es) h (one, fair) =
      run-IsOnce (step number conversion outside settings w e) es (step-IsOnce w e one h) fair
