-- ===== src/Pipeline/Encode.antt =====
-- The batches of one tick have the samples that were pending.
use mathlib.Core.List.{append_assoc}
use openlaps.Common.{
  ℕ, ◌+◌, ◌-◌, ◌*◌, ◌/◌, arith, ◌≤◌, ◌<◌, ◌≡◌, refl, String, some, List, [], ◌∷◌, ◌++◌, All, le→leb,
  lt→ltb, if◌then◌else◌, ◌==◌, string_eq, nat_eq, Bool-cases, inl, inr,
}
use openlaps.Common.Dict.{Dict, lookup}
use openlaps.Common.Number.{Number}
use openlaps.Common.Result.{ok}
use openlaps.Samples.{Sample}
use openlaps.Batcher.{
  Batcher, Conversion, WireSample, WireValue, SampleBatch, ChannelPolicy, encode_value,
  encode_sample, encode_samples, encode_classes, batch_of,
}
use openlaps.Pipeline.{Staged, TickBatch, time, batches_of}
use openlaps.Pipeline.Classes.{under, AllUnder}

-- The lists are as long as each other, and related one by one.
pub data Match {A B : Type 0} (R : A → B → Type 0) : List A → List B → Type 0 where
  none : Match R [] []
  both :
      {x : A} {y : B} {xs : List A} {ys : List B}
      → R x y
      → Match R xs ys
      → Match R (x ∷ xs) (y ∷ ys)

pub Match-append :
    {A B : Type 0} {R : A → B → Type 0} {xs xs' : List A} {ys ys' : List B}
    → Match R xs ys
    → Match R xs' ys'
    → Match R (xs ++ xs') (ys ++ ys')
Match-append none k = k
Match-append (both r h) k = both r (Match-append h k)

module _ {N : Type 0} where
  -- The staged samples of a class with their channels, in order.
  abbrev pub staged_in : String → List (Staged N) → List (ℕ × Sample N)
  staged_in c [] = []
  staged_in c (item ∷ items) =
      let rest = staged_in c items in
      if item.source_class == c then (item.channel_id, item.sample) ∷ rest else rest

  abbrev pub with_epoch : ℕ → List (WireSample N) → List (ℕ × WireSample N)
  with_epoch epoch [] = []
  with_epoch epoch (w ∷ ws) = (epoch, w) ∷ with_epoch epoch ws

  -- The samples in the batches of a class, in order, each with the epoch of its batch.
  abbrev pub sent_in : String → List (TickBatch N) → List (ℕ × WireSample N)
  sent_in c [] = []
  sent_in c (batch ∷ batches) =
      let rest = sent_in c batches in
      if batch.source_class == c
      then with_epoch batch.payload.batch_epoch_mono_ns batch.payload.samples ++ rest
      else rest

  pub staged_in-append :
      (c : String) (xs ys : List (Staged N))
      → staged_in c (xs ++ ys) ≡ staged_in c xs ++ staged_in c ys
  staged_in-append c [] ys = refl
  staged_in-append c (x ∷ xs) ys = elim (Bool-cases (x.source_class == c)) [
    | inl e ↦ rw (e, staged_in-append c xs ys)
    | inr e ↦ rw (e, staged_in-append c xs ys)
  ]

  pub sent_in-append :
      (c : String) (xs ys : List (TickBatch N))
      → sent_in c (xs ++ ys) ≡ sent_in c xs ++ sent_in c ys
  sent_in-append c [] ys = refl
  sent_in-append c (x ∷ xs) ys = elim (Bool-cases (x.source_class == c)) [
    | inl e ↦ rw (
      e,
      sent_in-append c xs ys,
      append_assoc (with_epoch x.payload.batch_epoch_mono_ns x.payload.samples),
    )
    | inr e ↦ rw (e, sent_in-append c xs ys)
  ]

module _ (number : Number) (conversion : Conversion number.N) where
  open number use {N}

  -- The channel has a policy by which the value can be encoded.
  pub record IsEncodable (policies : Dict ℕ (ChannelPolicy N)) (item : Staged N) : Type 0 where
    pub policy : ChannelPolicy N
    pub known : lookup item.channel_id policies ≡ some policy
    pub wire : WireValue N
    pub encodes : encode_value number conversion item.sample.value policy ≡ ok wire

  -- The wire sample is the sample of the channel: its value by the channel's policy, and its time, to a microsecond.
  pub record Carries (policies : Dict ℕ (ChannelPolicy N)) (sent : ℕ × WireSample N)
      (staged : ℕ × Sample N) : Type 0 where
    pub same_channel : sent.1.channel_id ≡ staged.0
    pub policy : ChannelPolicy N
    pub known : lookup staged.0 policies ≡ some policy
    pub value : encode_value number conversion staged.1.value policy ≡ ok sent.1.value
    pub from : sent.0 + sent.1.t_offset_us * 1_000 ≤ staged.1.t_mono_ns
    pub before : staged.1.t_mono_ns < sent.0 + (sent.1.t_offset_us + 1) * 1_000

  -- The batcher encodes the pending sample at this epoch.
  abbrev pub Fits : Batcher N → ℕ → ℕ × Sample N → Type 0
  Fits batcher epoch (k, sample) =
      (w : WireSample N) × (encode_sample number conversion batcher epoch (k, sample) ≡ ok w)
      × Carries batcher.policies_by_id (epoch, w) (k, sample)

  pub item-Fits :
      (batcher : Batcher N) (epoch : ℕ) (item : Staged N)
      → IsEncodable batcher.policies_by_id item
      → epoch ≤ time item
      → time item < epoch + batcher.tick_ns
      → Fits batcher epoch (item.channel_id, item.sample)
  unfolding encode_sample
  item-Fits batcher epoch item e from before = (
    record {
      channel_id = item.channel_id;
      t_offset_us = (time item - epoch) / 1_000;
      value = e.wire;
    },
    rw (le→leb epoch (time item) from, lt→ltb (time item) (epoch + batcher.tick_ns) before)
        (rw e.known (rw e.encodes)),
    record {
      same_channel = refl;
      policy = e.policy;
      known = e.known;
      value = e.encodes;
      from = omega arith;
      before = omega arith;
    },
  )

  encode_samples-Match :
      (batcher : Batcher N) (epoch : ℕ) (items : List (ℕ × Sample N))
      → All (Fits batcher epoch) items
      → (ws : List (WireSample N)) × (encode_samples number conversion batcher epoch items ≡ ok ws)
        × Match (Carries batcher.policies_by_id) (with_epoch epoch ws) items
  unfolding encode_samples
  encode_samples-Match batcher epoch [] h = ([], refl, none)
  encode_samples-Match batcher epoch ((k, sample) ∷ items) ((w, e, q), h) =
      let rest = encode_samples-Match batcher epoch items h in
      (w ∷ rest.0, rw (e, rest.1), both q rest.2)

  pub encode_classes-Match :
      (batcher : Batcher N) (unix_ms epoch : ℕ) (d : Dict String (List (ℕ × Sample N)))
      → AllUnder (Fits batcher epoch) d
      → (emitted : Dict String (SampleBatch N)) × (encode_classes number conversion batcher unix_ms
            epoch d
          ≡ ok emitted)
        × ((c : String)
            → Match
                (Carries batcher.policies_by_id)
                (sent_in c (batches_of unix_ms epoch emitted))
                (under c d))
  unfolding encode_classes batches_of
  encode_classes-Match batcher unix_ms epoch [] h = ([], refl, λ c. none)
  encode_classes-Match batcher unix_ms epoch ((k, items) ∷ d) h =
      let one = encode_samples-Match batcher epoch items h.0 in
      let rest = encode_classes-Match batcher unix_ms epoch d h.1 in
      (
        (k, batch_of number conversion batcher unix_ms epoch one.0) ∷ rest.0,
        rw (one.1, rest.1),
        λ c. elim (Bool-cases (k == c)) [
          | inl e ↦ rw e (Match-append one.2 (rest.2 c))
          | inr e ↦ rw e (rest.2 c)
        ],
      )
