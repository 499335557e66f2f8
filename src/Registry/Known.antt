-- ===== src/Registry/Known.antt =====
-- The cache against the log of the registries that were added, the newest first.
use openlaps.Common.{
  ℕ, ◌≡◌, ◌∙◌, refl, ap, ap₂, true, false, not, Option, none, some, List, [], ◌∷◌, eqb_iff,
  if◌then◌else◌, ◌==◌, nat_eq, arith, Bool-cases, Option-cases, inl, inr,
}
use openlaps.Common.Dict.{lookup, lookup-insert}
use openlaps.Common.Number.{Number}
use openlaps.Registry.{
  Channel, ChannelRegistry, SampleBatch, Decoded, decoded, rejected, unknown_registry_seq,
  bad_format_version, RegistryCache, contains, add_to, discard, is_supported, by_id, add_registry,
  decode_samples, decode_batch,
}

contains-discard :
    (n m : ℕ) (ms : List ℕ)
    → contains m (discard n ms) ≡ true
    → (n == m ≡ false) × (contains m ms ≡ true)
contains-discard n m [] h = cc h
contains-discard n m (k ∷ ms) h = elim (Bool-cases (k == n)) [
  | inl e ↦ let rest = contains-discard n m ms (rw e at h) in (rest.0, ground (arith, rest.1))
  | inr e ↦ elim (Bool-cases (k == m)) [
    | inl e' ↦ (ground (arith, eqb_iff n m, eqb_iff k n, eqb_iff k m), rw e')
    | inr e' ↦ let rest = contains-discard n m ms (rw (e, e') at h) in (rest.0, rw e' rest.1)
  ]
]

contains-add_to :
    (n m : ℕ) (ms : List ℕ) → contains m (add_to n ms) ≡ true → contains m ms ≡ false → n ≡ m
contains-add_to n m ms h k = elim (Bool-cases (contains n ms)) [
  | inl e ↦ absurd (let c : contains m ms ≡ true = rw e at h in cc (c, k))
  | inr e ↦ elim (Bool-cases (n == m)) [
    | inl q ↦ (eqb_iff n m).0 q
    | inr q ↦ absurd (let c : contains m ms ≡ true = rw (e, q) at h in cc (c, k))
  ]
]

module _ {N : Type 0} where
  -- The newest registry of a generation.
  abbrev pub find : ℕ → List (ChannelRegistry N) → Option (ChannelRegistry N)
  find seq [] = none
  find seq (r ∷ log) = if r.registry_seq == seq then some r else find seq log

  abbrev pub channels_of : Option (ChannelRegistry N) → Option (List (ℕ × Channel N))
  channels_of none = none
  channels_of (some r) = some (by_id [] r.channels)

  -- The cache holds the channels of the newest registry of each generation in the log, and none that it
  -- lacks is noted as unknown.
  pub record Holds (cache : RegistryCache N) (log : List (ChannelRegistry N)) : Type 0 where
    pub channels : (seq : ℕ) → lookup seq cache.channels ≡ channels_of (find seq log)
    pub unknown : (seq : ℕ) → contains seq cache.unknown_seqs ≡ true → find seq log ≡ none

  add_registry-Holds :
      (cache : RegistryCache N) (log : List (ChannelRegistry N)) (r : ChannelRegistry N)
      → Holds cache log
      → Holds (add_registry cache r) (r ∷ log)
  unfolding add_registry
  add_registry-Holds cache log r h = record {
    channels = λ seq. elim (Bool-cases (r.registry_seq == seq)) [
      | inl e ↦ rw (e, lookup-insert r.registry_seq seq (by_id [] r.channels) cache.channels, e)
      | inr e ↦
          rw (e, lookup-insert r.registry_seq seq (by_id [] r.channels) cache.channels, e)
            (h.channels seq)
    ];
    unknown = λ seq c.
        let gone = contains-discard r.registry_seq seq cache.unknown_seqs c in
        rw gone.0 (h.unknown seq gone.1);
  }

module _ (num : Number) where
  open num use {N}

  -- What a batch is decoded to, given the registry of its generation.
  abbrev pub verdict : Option (ChannelRegistry N) → SampleBatch N → Decoded N
  verdict found batch =
      if not (is_supported batch.format_version) then rejected bad_format_version else elim found [
        | none ↦ rejected unknown_registry_seq
        | some r ↦ decoded (record {
          registry_seq = batch.registry_seq;
          epoch_unix_ms = batch.batch_epoch_unix_ms;
          epoch_mono_ns = batch.batch_epoch_mono_ns;
          samples =
              decode_samples num batch.batch_epoch_unix_ms (by_id [] r.channels) batch.samples;
        })
      ]

  decode_batch-verdict :
      (cache : RegistryCache N) (log : List (ChannelRegistry N)) (batch : SampleBatch N)
      → Holds cache log
      → (decode_batch num cache batch).1 ≡ verdict (find batch.registry_seq log) batch
  unfolding decode_batch
  decode_batch-verdict cache log batch h = elim (Bool-cases (is_supported batch.format_version)) [
    | inl e ↦ elim (Option-cases (find batch.registry_seq log)) [
      | inl q ↦
          let miss : lookup batch.registry_seq cache.channels ≡ none =
            h.channels batch.registry_seq ∙ ap channels_of q in
          rw (e, q, miss)
      | inr (r, q) ↦
          let hit : lookup batch.registry_seq cache.channels ≡ some (by_id [] r.channels) =
            h.channels batch.registry_seq ∙ ap channels_of q in
          rw (e, q, hit)
    ]
    | inr e ↦ rw e
  ]

  decode_batch-Holds :
      (cache : RegistryCache N) (log : List (ChannelRegistry N)) (batch : SampleBatch N)
      → Holds cache log
      → Holds (decode_batch num cache batch).0 log
  unfolding decode_batch
  decode_batch-Holds cache log batch h = elim (Bool-cases (is_supported batch.format_version)) [
    | inl e ↦ elim (Option-cases (find batch.registry_seq log)) [
      | inl q ↦
          let miss : lookup batch.registry_seq cache.channels ≡ none =
            h.channels batch.registry_seq ∙ ap channels_of q in
          rw (e, miss)
            (record {
              channels = h.channels;
              unknown = λ seq c. elim (Bool-cases (contains seq cache.unknown_seqs)) [
                | inl old ↦ h.unknown seq old
                | inr new ↦
                    let same = contains-add_to batch.registry_seq seq cache.unknown_seqs c new in
                    rw (← same) q
              ];
            })
      | inr (r, q) ↦
          let hit : lookup batch.registry_seq cache.channels ≡ some (by_id [] r.channels) =
            h.channels batch.registry_seq ∙ ap channels_of q in
          rw (e, hit) h
    ]
    | inr e ↦ rw e (record { channels = h.channels; unknown = h.unknown })
  ]

-- A registry or a batch of the stream.
pub data Message (N : Type 0) : Type 0 where
  registry : ChannelRegistry N → Message N
  batch : SampleBatch N → Message N

module _ (num : Number) where
  open num use {N}

  -- The cache after the messages, and what the batches among them were decoded to.
  unfoldable pub run : RegistryCache N → List (Message N) → RegistryCache N × List (Decoded N)
  unfolding add_registry decode_batch
  run cache [] = (cache, [])
  run cache (registry r ∷ messages) = run (add_registry cache r) messages
  run cache (batch b ∷ messages) =
      let (cache', one) = decode_batch num cache b in
      let (cache'', more) = run cache' messages in (cache'', one ∷ more)

  -- The log after the messages, and the verdicts by it.
  abbrev pub log_after : List (ChannelRegistry N) → List (Message N) → List (ChannelRegistry N)
  log_after log [] = log
  log_after log (registry r ∷ messages) = log_after (r ∷ log) messages
  log_after log (batch b ∷ messages) = log_after log messages

  abbrev pub verdicts : List (ChannelRegistry N) → List (Message N) → List (Decoded N)
  verdicts log [] = []
  verdicts log (registry r ∷ messages) = verdicts (r ∷ log) messages
  verdicts log (batch b ∷ messages) =
      verdict num (find b.registry_seq log) b ∷ verdicts log messages

  -- From a cache that holds a log, any stream of registries and batches is decoded as the log says:
  -- each batch by the newest registry of its generation before it, and refused just where its version
  -- is not supported or its generation was not seen. The cache holds the longer log afterwards; in
  -- particular no generation that was seen is still noted as unknown.
  pub run-verdicts :
      (cache : RegistryCache N) (log : List (ChannelRegistry N)) (messages : List (Message N))
      → Holds cache log
      → ((run cache messages).1 ≡ verdicts log messages)
        × Holds (run cache messages).0 (log_after log messages)
  unfolding run
  run-verdicts cache log [] h = (refl, h)
  run-verdicts cache log (registry r ∷ messages) h =
      run-verdicts (add_registry cache r) (r ∷ log) messages (add_registry-Holds cache log r h)
  run-verdicts cache log (batch b ∷ messages) h =
      let rest =
        run-verdicts (decode_batch num cache b).0 log messages
          (decode_batch-Holds num cache log b h) in
      (ap₂ (λ a l. a ∷ l) (decode_batch-verdict num cache log b h) rest.0, rest.1)
