-- ===== src/Registry/Examples.antt =====
-- A batch before its registry, after it, and after the generation was sent again with another scale.
use openlaps.Common.{ℕ, ◌≡◌, refl, List, [], ◌∷◌, nat_eq}
use openlaps.Common.Dict.{lookup, insert}
use openlaps.Common.Number.{whole}
use openlaps.Registry.{
  ChannelRegistry, SampleBatch, Value, number, DecodedSample, Decoded, decoded, rejected, new_cache,
  by_id, add_registry, decode_batch, decode_samples, decode_sample, physical,
}
use openlaps.Registry.Known.{
  Holds, Message, registry, batch, run, verdicts, log_after, run-verdicts,
}

abbrev registry_with : ℕ → ChannelRegistry ℕ
registry_with scale = record {
  registry_seq = 3;
  channels = record { id = 1; name = "rpm"; scale = scale; offset = 5 } ∷ [];
}

abbrev batch_of : ℕ → SampleBatch ℕ
batch_of version = record {
  registry_seq = 3;
  batch_epoch_unix_ms = 1000;
  batch_epoch_mono_ns = 0;
  format_version = version;
  samples =
      record { channel_id = 1; t_offset_us = 4000; value = number 7 }
      ∷ record { channel_id = 2; t_offset_us = 4000; value = number 7 }
      ∷ [];
}

abbrev stream : List (Message ℕ)
stream =
    batch (batch_of 1)
    ∷ registry (registry_with 10)
    ∷ batch (batch_of 1)
    ∷ batch (batch_of 2)
    ∷ registry (registry_with 0)
    ∷ batch (batch_of 0)
    ∷ []

-- What a reader sees of a decoded batch.
abbrev brief : Decoded ℕ → List (ℕ × Value ℕ)
brief (rejected r) = []
brief (decoded b) = briefs b.samples
  where
    briefs : List (DecodedSample ℕ) → List (ℕ × Value ℕ)
    briefs [] = []
    briefs (s ∷ ss) = (s.capture_unix_ms, s.value) ∷ briefs ss

abbrev all_brief : List (Decoded ℕ) → List (List (ℕ × Value ℕ))
all_brief [] = []
all_brief (d ∷ ds) = brief d ∷ all_brief ds

stream_brief :
    all_brief (run whole new_cache stream).1
    ≡ [] ∷ ((1004, number 75) ∷ []) ∷ [] ∷ ((1004, number 7) ∷ []) ∷ []
unfolding run add_registry decode_batch decode_samples decode_sample physical by_id lookup insert
stream_brief = refl

new_cache-Holds : Holds {N = ℕ} new_cache []
unfolding lookup
new_cache-Holds = record { channels = λ seq. refl; unknown = λ seq c. refl }

run-verdicts_example :
    ((run whole new_cache stream).1 ≡ verdicts whole [] stream)
    × Holds (run whole new_cache stream).0 (log_after whole [] stream)
run-verdicts_example = run-verdicts whole new_cache [] stream new_cache-Holds
