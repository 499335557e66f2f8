-- ===== src/Ingest/Given.antt =====
-- src/pit/ingest_writer/writer.py: what a process that was given some registries knows, and the sequences it commits.
use mathlib.Core.List.{append-nil, append_assoc}
use openlaps.Common.{
  ℕ, ◌≡◌, refl, sym, ap, Option, none, some, List, [], ◌∷◌, ◌++◌, Bool-cases, inl, inr, ◌∙◌, not,
  Option-cases, nat_eq,
}
use openlaps.Common.Number.{Number}
use openlaps.Registry.{
  SampleBatch, RegistryCache, ChannelRegistry, decode_batch, Channel, by_id, is_supported,
}
use openlaps.Ingest.Rows.{pair_eq_instance, Keys, Outside}
use openlaps.Common.Dict.{Dict, lookup, insert}
use openlaps.Ingest.Consume.{add_keys}
use openlaps.Ingest.{Message, Commit, sequences}

module _ (number : Number) (outside : Outside number.N) where
  open number use {N}

  -- The cache and the channel keys of a process that was given these registries, the newest first.
  abbrev pub channels_in : List (ChannelRegistry N) → Dict ℕ (Dict ℕ (Channel N))
  channels_in [] = []
  channels_in (r ∷ log) = insert r.registry_seq (by_id [] r.channels) (channels_in log)

  abbrev pub with_keys : ℕ → Dict ℕ ℕ → Keys → Keys
  with_keys registry_seq [] keys = keys
  with_keys registry_seq ((wire_id, channel_key) ∷ ids) keys =
      with_keys registry_seq ids (insert (registry_seq, wire_id) channel_key keys)

  abbrev pub with_upserted : ℕ → Option (Dict ℕ ℕ) → Keys → Keys
  with_upserted registry_seq none keys = keys
  with_upserted registry_seq (some ids) keys = with_keys registry_seq ids keys

  abbrev pub keys_in : List (ChannelRegistry N) → Keys
  keys_in [] = []
  keys_in (r ∷ log) = with_upserted r.registry_seq (outside.upsert_registry r) (keys_in log)

  abbrev pub committed_in : List (Commit N) → List ℕ
  committed_in [] = []
  committed_in (c ∷ cs) = sequences c.messages ++ committed_in cs

  pub sequences-append :
      (xs ys : List (Message N)) → sequences (xs ++ ys) ≡ sequences xs ++ sequences ys
  sequences-append [] ys = refl
  sequences-append (x ∷ xs) ys = ap (λ l. x.sequence ∷ l) (sequences-append xs ys)

  pub committed_in-append :
      (cs : List (Commit N)) (c : Commit N)
      → committed_in (cs ++ c ∷ []) ≡ committed_in cs ++ sequences c.messages
  committed_in-append [] c = append-nil (sequences c.messages)
  committed_in-append (d ∷ cs) c =
      rw (committed_in-append cs c)
        (sym (append_assoc (sequences d.messages) (committed_in cs) (sequences c.messages)))

  pub add_keys-with_keys :
      (registry_seq : ℕ) (ids : Dict ℕ ℕ) (keys : Keys)
      → add_keys outside registry_seq ids keys ≡ with_keys registry_seq ids keys
  add_keys-with_keys registry_seq [] keys = refl
  add_keys-with_keys registry_seq ((wire_id, channel_key) ∷ ids) keys =
      add_keys-with_keys registry_seq ids (insert (registry_seq, wire_id) channel_key keys)

  -- What a cache decodes is up to its channels, and decoding leaves these.
  pub decode-same_channels :
      (cache other : RegistryCache N) (batch : SampleBatch N)
      → cache.channels ≡ other.channels
      → ((decode_batch number cache batch).1 ≡ (decode_batch number other batch).1)
        × ((decode_batch number cache batch).0.channels ≡ cache.channels)
  unfolding decode_batch
  decode-same_channels cache other batch same =
      elim (Bool-cases (not (is_supported batch.format_version))) [
        | inl e ↦ rw e (refl, refl)
        | inr e ↦ elim (Option-cases (lookup batch.registry_seq cache.channels)) [
          | inl q ↦
              let q' : lookup batch.registry_seq other.channels ≡ none =
                ap (lookup batch.registry_seq) (sym same) ∙ q in
              rw (e, q, q') (refl, refl)
          | inr (channels, q) ↦
              let q' : lookup batch.registry_seq other.channels ≡ some channels =
                ap (lookup batch.registry_seq) (sym same) ∙ q in
              rw (e, q, q') (refl, refl)
        ]
      ]
