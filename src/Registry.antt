-- ===== src/Registry.antt =====
-- src/pit/registry_cache.py: the registries that were seen and the decoding of batches with them.
-- Messages are those that protobuf parsed; sets are lists of which only membership is read.
pub mod Known
mod Examples
use openlaps.Common.{
  ℕ, ◌+◌, String, Bool, true, false, not, ◌||◌, Option, none, some, List, [], ◌∷◌, ◌++◌, eqb,
  if◌then◌else◌, ◌==◌, nat_eq,
}
use openlaps.Common.Dict.{Dict, lookup, insert}
use openlaps.Common.Number.{Number}

pub record Channel (N : Type 0) : Type 0 where
  pub id : ℕ
  pub name : String
  pub scale : N
  pub offset : N

pub record ChannelRegistry (N : Type 0) : Type 0 where
  pub registry_seq : ℕ
  pub channels : List (Channel N)

-- What `getattr(sample, kind)` may be; `absent` where the `oneof` is not set.
pub data Value (N : Type 0) : Type 0 where
  number : N → Value N
  flag : Bool → Value N
  words : String → Value N
  absent : Value N

pub record WireSample (N : Type 0) : Type 0 where
  pub channel_id : ℕ
  pub t_offset_us : ℕ
  pub value : Value N

pub record SampleBatch (N : Type 0) : Type 0 where
  pub registry_seq : ℕ
  pub batch_epoch_unix_ms : ℕ
  pub batch_epoch_mono_ns : ℕ
  pub format_version : ℕ
  pub samples : List (WireSample N)

pub record DecodedSample (N : Type 0) : Type 0 where
  pub capture_unix_ms : N
  pub channel : Channel N
  pub value : Value N

pub record DecodedBatch (N : Type 0) : Type 0 where
  pub registry_seq : ℕ
  pub epoch_unix_ms : ℕ
  pub epoch_mono_ns : ℕ
  pub samples : List (DecodedSample N)

pub data Reject : Type 0 where
  unknown_registry_seq bad_format_version : Reject

-- A decoded batch, or the reason why there is none.
pub data Decoded (N : Type 0) : Type 0 where
  decoded : DecodedBatch N → Decoded N
  rejected : Reject → Decoded N

pub record RegistryCache (N : Type 0) : Type 0 where
  pub registries : Dict ℕ (ChannelRegistry N)
  pub channels : Dict ℕ (Dict ℕ (Channel N))
  pub unknown_seqs : List ℕ
  pub bad_versions : List ℕ
  pub unknown_seq_batches : ℕ
  pub bad_version_batches : ℕ

abbrev pub contains : ℕ → List ℕ → Bool
contains n [] = false
contains n (m ∷ ms) = m == n || contains n ms

-- `s.add(n)` and `s.discard(n)`
abbrev pub add_to : ℕ → List ℕ → List ℕ
add_to n ms = if contains n ms then ms else n ∷ ms

abbrev pub discard : ℕ → List ℕ → List ℕ
discard n [] = []
discard n (m ∷ ms) = let rest = discard n ms in if m == n then rest else m ∷ rest

-- `SUPPORTED_FORMAT_VERSIONS`
abbrev pub is_supported : ℕ → Bool
is_supported version = eqb version 0 || eqb version 1

module _ {N : Type 0} where
  abbrev pub new_cache : RegistryCache N
  new_cache = record {
    registries = [];
    channels = [];
    unknown_seqs = [];
    bad_versions = [];
    unknown_seq_batches = 0;
    bad_version_batches = 0;
  }

  -- `{channel.id: channel for channel in registry.channels}`, from what is there already.
  unfoldable pub by_id : Dict ℕ (Channel N) → List (Channel N) → Dict ℕ (Channel N)
  unfolding insert
  by_id d [] = d
  by_id d (channel ∷ channels) = by_id (insert channel.id channel d) channels

  unfoldable pub add_registry : RegistryCache N → ChannelRegistry N → RegistryCache N
  unfolding by_id insert
  add_registry cache registry = record cache {
    registries = insert registry.registry_seq registry cache.registries;
    channels = insert registry.registry_seq (by_id [] registry.channels) cache.channels;
    unknown_seqs = discard registry.registry_seq cache.unknown_seqs;
  }

  unfoldable pub known : RegistryCache N → ℕ → Bool
  unfolding lookup
  known cache seq = elim (lookup seq cache.channels) [ none ↦ false | some _ ↦ true ]

module _ (num : Number) where
  open num use {N, of_ℕ, add, mul, div, eq_n}

  -- Physical values of fixed-point channels; other values are left as they are.
  unfoldable pub physical : Channel N → Value N → Value N
  physical channel (number n) =
      if eq_n channel.scale (of_ℕ 0)
      then number n
      else number (add (mul n channel.scale) channel.offset)
  physical channel value = value

  unfoldable pub decode_sample : ℕ → Channel N → WireSample N → DecodedSample N
  unfolding physical
  decode_sample epoch_unix_ms channel sample = record {
    capture_unix_ms = add (of_ℕ epoch_unix_ms) (div (of_ℕ sample.t_offset_us) (of_ℕ 1_000));
    channel = channel;
    value = physical channel sample.value;
  }

  -- Samples of channels that the registry lacks are left out.
  unfoldable pub decode_samples :
      ℕ → Dict ℕ (Channel N) → List (WireSample N) → List (DecodedSample N)
  unfolding decode_sample lookup
  decode_samples epoch_unix_ms channels [] = []
  decode_samples epoch_unix_ms channels (sample ∷ samples) =
      let rest = decode_samples epoch_unix_ms channels samples in
      elim (lookup sample.channel_id channels) [
        | none ↦ rest
        | some channel ↦ decode_sample epoch_unix_ms channel sample ∷ rest
      ]

  unfoldable pub decode_batch : RegistryCache N → SampleBatch N → RegistryCache N × Decoded N
  unfolding decode_samples
  decode_batch cache batch =
      if not (is_supported batch.format_version)
      then (
        record cache {
          bad_version_batches = cache.bad_version_batches + 1;
          bad_versions = add_to batch.format_version cache.bad_versions;
        },
        rejected bad_format_version,
      )
      else elim (lookup batch.registry_seq cache.channels) [
        | none ↦ (
          record cache {
            unknown_seq_batches = cache.unknown_seq_batches + 1;
            unknown_seqs = add_to batch.registry_seq cache.unknown_seqs;
          },
          rejected unknown_registry_seq,
        )
        | some channels ↦ (
          cache,
          decoded (record {
            registry_seq = batch.registry_seq;
            epoch_unix_ms = batch.batch_epoch_unix_ms;
            epoch_mono_ns = batch.batch_epoch_mono_ns;
            samples = decode_samples batch.batch_epoch_unix_ms channels batch.samples;
          }),
        )
      ]
