-- ===== src/Pipeline/Examples.antt =====
-- Three samples of two classes that a slow pipeline staged, over two ticks.
use openlaps.Common.{ℕ, ◌≡◌, refl, String, true, List, [], ◌∷◌, nat_eq, string_eq, arith, ltb}
use openlaps.Common.Dict.{lookup}
use openlaps.Common.Int.{pos}
use openlaps.Common.Number.{whole}
use openlaps.Common.Result.{ok}
use openlaps.Samples.{num}
use openlaps.Batcher.{Conversion, ChannelPolicy, double, boolean, d, b, encode_value}
use openlaps.Pipeline.{Pipeline, Staged, TickBatch, flush, sort_staged}
use openlaps.Pipeline.Encode.{IsEncodable, Match, Carries, staged_in, sent_in}
use openlaps.Pipeline.Flush.{flush_complete}

abbrev plain : Conversion ℕ
plain = record {
  to_float = λ n. ok n;
  single = λ n. n;
  rounded = λ n. ok (pos n);
  is_int = λ n. true;
  is_integer = λ n. true;
  to_int = pos;
  fits_i = λ n. true;
  fits_u = λ n. ltb n 1_000_000;
  fits_s = λ t. true;
}

abbrev rpm : ChannelPolicy ℕ
rpm = record { name = "rpm"; value_type = double; scale = 0; offset = 0 }

abbrev brake : ChannelPolicy ℕ
brake = record { name = "brake"; value_type = boolean; scale = 0; offset = 0 }

abbrev staged_at : String → ℕ → ℕ → Staged ℕ
staged_at c k t = record {
  source_class = c;
  channel_id = k;
  sample = record { source_ref = "can0"; t_mono_ns = t; t_wall_ms = 0; value = num 1 };
}

abbrev slow : Pipeline ℕ
slow = record {
  batcher = record {
    registry_seq = 1;
    policies_by_id = (7, rpm) ∷ (8, brake) ∷ [];
    tick_ns = 20_000_000;
    pending = [];
  };
  tick_ns = 20_000_000;
  staged =
      staged_at "can" 8 45_000_000 ∷ staged_at "can" 7 1_000_000 ∷ staged_at "gps" 7 2_000_000 ∷ [];
  encode_failures = 0;
}

rpm_can : IsEncodable whole plain slow.batcher.policies_by_id (staged_at "can" 7 1_000_000)
unfolding lookup encode_value
rpm_can = record { policy = rpm; known = refl; wire = d 1; encodes = refl }

rpm_gps : IsEncodable whole plain slow.batcher.policies_by_id (staged_at "gps" 7 2_000_000)
unfolding lookup encode_value
rpm_gps = record { policy = rpm; known = refl; wire = d 1; encodes = refl }

brake_can : IsEncodable whole plain slow.batcher.policies_by_id (staged_at "can" 8 45_000_000)
unfolding lookup encode_value
brake_can = record { policy = brake; known = refl; wire = b true; encodes = refl }

flush_complete_example :
    (batches : List (TickBatch ℕ)) × (flush whole plain (λ t. t) slow
      ≡ ok (record slow { staged = [] }, batches))
    × ((c : String)
        → Match
            (Carries whole plain slow.batcher.policies_by_id)
            (sent_in c batches)
            (staged_in c (sort_staged slow.staged)))
flush_complete_example =
    flush_complete whole plain (λ t. t) slow refl refl (omega arith)
      (brake_can, (rpm_can, (rpm_gps, tt)))
