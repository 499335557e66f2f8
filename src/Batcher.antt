-- ===== src/Batcher.antt =====
-- src/core/batcher.py: samples gathered by source class and encoded at each tick. A batch is the message
-- before `SerializeToString`. `Conversion` is what Python and protobuf do with numbers.
use openlaps.Common.{
  ℕ, ◌+◌, ◌-◌, ◌*◌, ◌/◌, String, Bool, true, false, not, ◌&&◌, ◌||◌, none, some, List, [], ◌∷◌,
  ◌++◌, ltb, leb, if◌then◌else◌, ◌==◌, nat_eq, string_eq,
}
use openlaps.Common.Dict.{Dict, lookup}
use openlaps.Common.Int.{ℤ, pos, negsuc}
use openlaps.Common.Number.{Number}
use openlaps.Common.Result.{Result, ok, err, ◌>>=◌, ◌>>◌, raise_if, or_raise}
use openlaps.Samples.{Sample, SampleValue, num, bool, str}

pub data Error : Type 0 where
  key_error type_error value_error overflow_error : Error

pub data ValueType : Type 0 where
  unspecified double int64 boolean string float uint : ValueType

pub record ChannelPolicy (N : Type 0) : Type 0 where
  pub name : String
  pub value_type : ValueType
  pub scale : N
  pub offset : N

-- `float(v)`; a value as a `float` field keeps it; `round(v)`; the tests of `int`; the ranges of the
-- integer fields; the strings that UTF-8 can write, which a string field takes.
pub record Conversion (N : Type 0) : Type 0 where
  pub to_float : N → Result Error N
  pub single : N → N
  pub rounded : N → Result Error ℤ
  pub is_int : N → Bool
  pub is_integer : N → Bool
  pub to_int : N → ℤ
  pub fits_i : ℤ → Bool
  pub fits_u : ℕ → Bool
  pub fits_s : String → Bool

-- The `oneof value`.
pub data WireValue (N : Type 0) : Type 0 where
  d : N → WireValue N
  f : N → WireValue N
  i : ℤ → WireValue N
  u : ℕ → WireValue N
  b : Bool → WireValue N
  s : String → WireValue N

pub record WireSample (N : Type 0) : Type 0 where
  pub channel_id : ℕ
  pub t_offset_us : ℕ
  pub value : WireValue N

pub record SampleBatch (N : Type 0) : Type 0 where
  pub registry_seq : ℕ
  pub batch_epoch_unix_ms : ℕ
  pub batch_epoch_mono_ns : ℕ
  pub format_version : ℕ
  pub samples : List (WireSample N)

pub record Batcher (N : Type 0) : Type 0 where
  pub registry_seq : ℕ
  pub policies_by_id : Dict ℕ (ChannelPolicy N)
  pub tick_ns : ℕ
  pub pending : Dict String (List (ℕ × Sample N))

-- `pending[source_class].append(item)` on a `defaultdict(list)`.
unfoldable pub push : {A : Type 0} → String → A → Dict String (List A) → Dict String (List A)
push source_class item [] = (source_class, item ∷ []) ∷ []
push source_class item ((k, items) ∷ rest) =
    if k == source_class
    then (k, items ++ item ∷ []) ∷ rest
    else (k, items) ∷ push source_class item rest

module _ {N : Type 0} where
  -- `__init__`
  unfoldable pub new_batcher : ℕ → Dict ℕ (ChannelPolicy N) → ℕ → Result Error (Batcher N)
  new_batcher registry_seq policies tick_ms = do
    raise_if (not (leb 10 tick_ms && leb tick_ms 50)) value_error
    ok (record {
      registry_seq = registry_seq;
      policies_by_id = policies;
      tick_ns = tick_ms * 1_000_000;
      pending = [];
    })

  unfoldable pub add : Batcher N → String → ℕ → Sample N → Result Error (Batcher N)
  unfolding push lookup
  add batcher source_class channel_id sample = elim (lookup channel_id batcher.policies_by_id) [
    | none ↦ err key_error
    | some _ ↦
        ok (record batcher { pending = push source_class (channel_id, sample) batcher.pending })
  ]

module _ (number : Number) (conversion : Conversion number.N) where
  open number use {N, of_ℕ, sub, div, eq_n}

  -- The numeric value of a sample, where it is no bool.
  abbrev numeric : SampleValue N → Result Error N
  numeric (num n) = ok n
  numeric _ = err type_error

  abbrev unscaled : N → Result Error ℤ
  unscaled n =
      if conversion.is_int n || conversion.is_integer n
      then ok (conversion.to_int n)
      else err type_error

  abbrev wire_int : N → ChannelPolicy N → Result Error ℤ
  wire_int n policy =
      if eq_n policy.scale (of_ℕ 0)
      then unscaled n
      else conversion.rounded (div (sub n policy.offset) policy.scale)

  abbrev as_int64 : ℤ → Result Error (WireValue N)
  as_int64 n = do raise_if (not (conversion.fits_i n)) value_error; ok (i n)

  abbrev as_uint : ℤ → Result Error (WireValue N)
  as_uint (negsuc n) = err value_error
  as_uint (pos n) = do raise_if (not (conversion.fits_u n)) value_error; ok (u n)

  abbrev as_bool : SampleValue N → Result Error (WireValue N)
  as_bool (bool v) = ok (b v)
  as_bool (num n) =
      if eq_n n (of_ℕ 0)
      then ok (b false)
      else if eq_n n (of_ℕ 1)
      then ok (b true)
      else err type_error
  as_bool (str t) = err type_error

  abbrev as_string : SampleValue N → Result Error (WireValue N)
  as_string (str t) = do raise_if (not (conversion.fits_s t)) value_error; ok (s t)
  as_string _ = err type_error

  abbrev encode_as : ValueType → SampleValue N → ChannelPolicy N → Result Error (WireValue N)
  encode_as double value policy = do n ← numeric value; x ← conversion.to_float n; ok (d x)
  encode_as float value policy = do
    n ← numeric value
    x ← conversion.to_float n
    ok (f (conversion.single x))
  encode_as int64 value policy = do n ← numeric value; k ← wire_int n policy; as_int64 k
  encode_as uint value policy = do n ← numeric value; k ← wire_int n policy; as_uint k
  encode_as boolean value policy = as_bool value
  encode_as string value policy = as_string value
  encode_as unspecified value policy = err value_error

  unfoldable pub encode_value : SampleValue N → ChannelPolicy N → Result Error (WireValue N)
  encode_value value policy = encode_as policy.value_type value policy

  -- One turn of the inner loop of `tick`.
  unfoldable pub encode_sample : Batcher N → ℕ → ℕ × Sample N → Result Error (WireSample N)
  unfolding encode_value lookup
  encode_sample batcher epoch (channel_id, sample) = do
    raise_if (not (leb epoch sample.t_mono_ns && ltb sample.t_mono_ns (epoch + batcher.tick_ns)))
        value_error
    policy ← or_raise (lookup channel_id batcher.policies_by_id) key_error
    value ← encode_value sample.value policy
    ok (record {
      channel_id = channel_id;
      t_offset_us = (sample.t_mono_ns - epoch) / 1_000;
      value = value;
    })

  unfoldable pub encode_samples :
      Batcher N → ℕ → List (ℕ × Sample N) → Result Error (List (WireSample N))
  unfolding encode_sample
  encode_samples batcher epoch [] = ok []
  encode_samples batcher epoch (item ∷ items) = do
    sample ← encode_sample batcher epoch item
    samples ← encode_samples batcher epoch items
    ok (sample ∷ samples)

  abbrev pub batch_of : Batcher N → ℕ → ℕ → List (WireSample N) → SampleBatch N
  batch_of batcher unix_ms mono_ns samples = record {
    registry_seq = batcher.registry_seq;
    batch_epoch_unix_ms = unix_ms;
    batch_epoch_mono_ns = mono_ns;
    format_version = 1;
    samples = samples;
  }

  unfoldable pub encode_classes :
      Batcher N
      → ℕ
      → ℕ
      → Dict String (List (ℕ × Sample N))
      → Result Error (Dict String (SampleBatch N))
  unfolding encode_samples
  encode_classes batcher unix_ms mono_ns [] = ok []
  encode_classes batcher unix_ms mono_ns ((source_class, items) ∷ rest) = do
    samples ← encode_samples batcher mono_ns items
    emitted ← encode_classes batcher unix_ms mono_ns rest
    ok ((source_class, batch_of batcher unix_ms mono_ns samples) ∷ emitted)

  -- The pending samples are consumed, whether they can be encoded or not.
  unfoldable pub tick : Batcher N → ℕ → ℕ → Batcher N × Result Error (Dict String (SampleBatch N))
  unfolding encode_classes
  tick batcher unix_ms mono_ns =
      (record batcher { pending = [] }, encode_classes batcher unix_ms mono_ns batcher.pending)
