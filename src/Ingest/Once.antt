-- ===== src/Ingest/Once.antt =====
-- src/pit/ingest_writer/writer.py: the rows of a message are committed at most once, whatever is delivered again.
pub mod Run
use openlaps.Common.{if-both}
use openlaps.Ingest.Consume.{scan_registries, recover_registry}
use openlaps.Common.{
  ℕ, ◌≤◌, ◌<◌, ◌≡◌, refl, sym, ap, false, Option, none, some, List, [], ◌∷◌, ◌++◌, max, All,
  All-append, arith, Bool-cases, inl, inr, ◌≢◌, ◌∙◌, Option-cases, nat_eq,
}
use openlaps.Common.Number.{Number}
use openlaps.Registry.{
  SampleBatch, DecodedBatch, decoded, ChannelRegistry, contains, decode_batch, known, Channel,
  by_id, new_cache, add_registry,
}
use openlaps.Ingest.Rows.{pair_eq_instance, SampleRow, BatchRows, Keys, Outside, rows_from_batch}
use openlaps.Common.Dict.{Dict, insert}
use openlaps.Ingest.Consume.{record_registry, apply_registry}
use openlaps.Ingest.{
  Message, Commit, Store, IngestWriter, Answer, landed, lost, unheard, refused, sequences,
  pending_work, retry, write, flush,
}
use openlaps.Ingest.Consume.{scan_registries, recover_registry, apply_registry}
use openlaps.Ingest.Distinct.{Distinct, Distinct-append, All-above, All-new, All-le}
use openlaps.Ingest.Given.{
  channels_in, with_keys, with_upserted, keys_in, committed_in, sequences-append,
  committed_in-append, add_keys-with_keys,
}

-- A transaction that was committed was heard of.
abbrev pub Heard : Answer → Type 0
Heard a = a ≢ unheard

module _ (number : Number) (outside : Outside number.N)
    (Given : ChannelRegistry number.N → Type 0) where
  open number use {N}

  -- The rows are those of the batch of the message, decoded and with the channel keys of a log of registries, in which
  -- its generation is.
  pub record Gives (m : Message N) (rows : List (SampleRow N)) : Type 0 where
    pub batch : SampleBatch N
    pub result : DecodedBatch N
    pub log : List (ChannelRegistry N)
    pub given : All Given log
    pub carries : m.batch ≡ some batch
    pub decodes :
        (decode_batch number
          (record new_cache { channels = channels_in number outside log })
          batch).1
        ≡ decoded result
    pub converted : BatchRows N
    pub converts :
        rows_from_batch number outside result.registry_seq result.samples
          (keys_in number outside log)
        ≡ some converted
    pub gives : rows ≡ converted.rows

  pub record Knows (channels : Dict ℕ (Dict ℕ (Channel N))) (keys : Keys) : Type 0 where
    pub log : List (ChannelRegistry N)
    pub given : All Given log
    pub same_channels : channels ≡ channels_in number outside log
    pub same_keys : keys ≡ keys_in number outside log

  pub data Filled : List (Message N) → List (SampleRow N) → Type 0 where
    nothing : Filled [] []
    more :
        {ms : List (Message N)} {rows new : List (SampleRow N)} (m : Message N)
        → Filled ms rows
        → Gives m new
        → Filled (ms ++ m ∷ []) (rows ++ new)

  -- No sequence is committed twice, none that is buffered was, and all rows are those of their messages.
  pub record Once (cursor max_seq : ℕ) (pending : List (Message N)) (buffered : List ℕ)
      (rows : List (SampleRow N)) (store : Store N) : Type 0 where
    pub behind : store.cursor ≤ cursor
    pub within : cursor ≤ max_seq
    pub committed : All (λ s. s ≤ store.cursor) (committed_in number outside store.commits)
    pub distinct : Distinct (committed_in number outside store.commits)
    pub ahead : All (λ s. cursor < s) (sequences pending)
    pub seen : All (λ s. s ≤ max_seq) (sequences pending)
    pub same : buffered ≡ sequences pending
    pub apart : Distinct (sequences pending)
    pub filled : Filled pending rows
    pub written : All (λ (c : Commit N). Filled c.messages c.rows) store.commits

  -- A registry that the message carries was given.
  abbrev pub Brings : Message N → Type 0
  Brings m = (r : ChannelRegistry N) → m.registry ≡ some r → Given r

  abbrev pub IsOnce : IngestWriter N → Type 0
  IsOnce w =
      Once w.cursor w.max_seq w.pending w.buffered w.rows w.store
      × Knows w.cache.channels w.keys
      × All Brings w.held

  advance-Once :
      {cursor max_seq : ℕ} {pending : List (Message N)} {buffered : List ℕ}
      {rows : List (SampleRow N)} {store store' : Store N}
      → Once cursor max_seq pending buffered rows store
      → store'.cursor ≤ max cursor max_seq
      → All (λ s. s ≤ store'.cursor) (committed_in number outside store'.commits)
      → Distinct (committed_in number outside store'.commits)
      → All (λ (c : Commit N). Filled c.messages c.rows) store'.commits
      → Once (max cursor max_seq) max_seq [] [] [] store'
  advance-Once h behind committed distinct written = record {
    behind = behind;
    within = (let le = h.within in omega arith);
    committed = committed;
    distinct = distinct;
    ahead = tt;
    seen = tt;
    same = refl;
    apart = tt;
    filled = nothing;
    written = written;
  }

  drop-Once :
      {cursor max_seq : ℕ} {pending : List (Message N)} {buffered : List ℕ}
      {rows : List (SampleRow N)} {store : Store N}
      → Once cursor max_seq pending buffered rows store
      → Once (max cursor max_seq) max_seq [] [] [] store
  drop-Once h = advance-Once h (let le = h.behind in omega arith) h.committed h.distinct h.written

  commit-Once :
      {cursor max_seq : ℕ} {pending : List (Message N)} {buffered : List ℕ}
      {rows : List (SampleRow N)} {store : Store N} (c : Commit N)
      → Once cursor max_seq pending buffered rows store
      → c.messages ≡ pending
      → c.rows ≡ rows
      → Once
          (max cursor max_seq)
          max_seq
          []
          []
          []
          (record { cursor = max store.cursor max_seq; commits = store.commits ++ c ∷ [] })
  commit-Once {cursor} {max_seq} {pending} {buffered} {rows} {store} c h p q =
      let before = committed_in number outside store.commits in
      let joined : committed_in number outside (store.commits ++ c ∷ [])
          ≡ before ++ sequences pending =
        rw (sym p) (committed_in-append number outside store.commits c) in
      advance-Once h (let le = h.behind in let le' = h.within in omega arith)
        (rw joined (
          All-append _ before (sequences pending)
            (All-le store.cursor (max store.cursor max_seq) before (omega arith) h.committed)
            (All-le max_seq (max store.cursor max_seq) (sequences pending) (omega arith) h.seen)))
        (rw joined (
          Distinct-append before (sequences pending) h.distinct h.apart (
            All-above cursor before (sequences pending)
              (All-le store.cursor cursor before h.behind h.committed) h.ahead)))
        (All-append _ store.commits (c ∷ []) h.written (rw (p, q) h.filled, tt))

  retry-IsOnce : (w : IngestWriter N) (a : Answer) → Heard a → IsOnce w → IsOnce (retry w a).0
  unfolding retry
  retry-IsOnce w landed heard h = (commit-Once _ h.0 refl refl, h.1, h.2)
  retry-IsOnce w lost heard h = h
  retry-IsOnce w unheard heard h = absurd (heard refl)
  retry-IsOnce w refused heard h = (drop-Once h.0, h.1, h.2)

  write-IsOnce :
      (w : IngestWriter N) (a b : Answer) → Heard a → Heard b → IsOnce w → IsOnce (write w a b).0
  unfolding write
  write-IsOnce w landed b heard heard' h = (commit-Once _ h.0 refl refl, h.1, h.2)
  write-IsOnce w lost b heard heard' h = h
  write-IsOnce w unheard b heard heard' h = absurd (heard refl)
  write-IsOnce w refused b heard heard' h = retry-IsOnce _ b heard' h

  pub flush-IsOnce :
      (w : IngestWriter N) (a b : Answer) → Heard a → Heard b → IsOnce w → IsOnce (flush w a b).0
  unfolding flush
  flush-IsOnce w a b heard heard' h = elim (Bool-cases (pending_work w)) [
    | inl e ↦ rw e (write-IsOnce w a b heard heard' h)
    | inr e ↦ rw e h
  ]

  record-IsOnce :
      (w : IngestWriter N) (r : ChannelRegistry N) (o : Option (Dict ℕ ℕ))
      → outside.upsert_registry r ≡ o
      → Given r
      → IsOnce w
      → IsOnce (record_registry outside w r o)
  unfolding add_registry
  record-IsOnce w r none q given h = h
  record-IsOnce w r (some ids) q given (once, knows, brings) = (
    once,
    record {
      log = r ∷ knows.log;
      given = (given, knows.given);
      same_channels = ap (insert r.registry_seq (by_id [] r.channels)) knows.same_channels;
      same_keys =
          add_keys-with_keys number outside r.registry_seq ids w.keys
          ∙ ap (with_keys number outside r.registry_seq ids) knows.same_keys
          ∙ ap
              (λ o.
                with_upserted number outside r.registry_seq o (keys_in number outside knows.log))
              (sym q);
    },
    brings,
  )

  pub apply-IsOnce :
      (w : IngestWriter N) (r : ChannelRegistry N)
      → Given r
      → IsOnce w
      → IsOnce (apply_registry outside w r)
  apply-IsOnce w r given h = record-IsOnce w r (outside.upsert_registry r) refl given h

  pub scan-IsOnce :
      (w : IngestWriter N) (found : List (ChannelRegistry N))
      → All Given found
      → IsOnce w
      → IsOnce (scan_registries outside w found)
  unfolding scan_registries
  scan-IsOnce w [] given h = h
  scan-IsOnce w (r ∷ found) (one, given) h =
      scan-IsOnce (apply_registry outside w r) found given (apply-IsOnce w r one h)

  pub recover-IsOnce :
      (w : IngestWriter N) (g : ℕ) (found : List (ChannelRegistry N))
      → All Given found
      → IsOnce w
      → IsOnce (recover_registry outside w g found)
  unfolding recover_registry
  recover-IsOnce w g found given h =
      let w' = scan_registries outside w found in
      let k = scan-IsOnce w found given h in if-both IsOnce (known w'.cache g) _ w' k k

  pub skip_max-Once :
      {cursor max_seq : ℕ} {pending : List (Message N)} {buffered : List ℕ}
      {rows : List (SampleRow N)} {store : Store N} (n : ℕ)
      → Once cursor max_seq pending buffered rows store
      → Once cursor (max max_seq n) pending buffered rows store
  skip_max-Once {cursor} {max_seq} {pending} n h = record {
    behind = h.behind;
    within = (let le = h.within in omega arith);
    committed = h.committed;
    distinct = h.distinct;
    ahead = h.ahead;
    seen = All-le max_seq (max max_seq n) (sequences pending) (omega arith) h.seen;
    same = h.same;
    apart = h.apart;
    filled = h.filled;
    written = h.written;
  }

  pub buffer-Once :
      {cursor max_seq : ℕ} {pending : List (Message N)} {buffered : List ℕ}
      {rows new : List (SampleRow N)} {store : Store N} (m : Message N)
      → Once cursor max_seq pending buffered rows store
      → cursor < m.sequence
      → contains m.sequence buffered ≡ false
      → Gives m new
      → Once cursor
          (max max_seq m.sequence)
          (pending ++ m ∷ [])
          (buffered ++ m.sequence ∷ [])
          (rows ++ new)
          store
  buffer-Once {cursor} {max_seq} {pending} {buffered} m h above absent gives =
      let h' = skip_max-Once m.sequence h in
      let snoc : sequences (pending ++ m ∷ []) ≡ sequences pending ++ m.sequence ∷ [] =
        sequences-append number outside pending (m ∷ []) in
      record {
        behind = h'.behind;
        within = h'.within;
        committed = h'.committed;
        distinct = h'.distinct;
        ahead = rw snoc (All-append _ (sequences pending) (m.sequence ∷ []) h'.ahead (above, tt));
        seen =
            rw snoc (All-append _ (sequences pending) (m.sequence ∷ []) h'.seen (omega arith, tt));
        same = rw (snoc, h.same);
        apart = rw snoc (
            Distinct-append (sequences pending) (m.sequence ∷ []) h.apart (refl, tt)
              (All-new m.sequence (sequences pending) (rw h.same at absent)));
        filled = more m h.filled gives;
        written = h.written;
      }
