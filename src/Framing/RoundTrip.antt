-- ===== src/Framing/RoundTrip.antt =====
-- What the encoder writes, the framer reads back.
use mathlib.Core.List.{append_assoc}
use openlaps.Common.{
  ℕ, zero, suc, ◌+◌, ◌≤◌, ◌<◌, ◌≡◌, refl, ap, ◌∙◌, true, false, ◌||◌, some, List, [], ◌∷◌, ◌++◌,
  eqb, ltb, length, take, drop, take-append-drop, length-take, length-drop, length-append, arith,
}
use openlaps.Common.Result.{ok}
use openlaps.Framing.{
  Bytes, PacketFramer, fresh, is_id, terminal, max_payload, max_document_bytes, encode_parts,
  encode_all, encode_document, pieces, decode_payload, join, follows_on, prepend, feed,
}
use openlaps.Framing.Codec.{packet_bytes}
use openlaps.Framing.Chain.{
  InChain, next_packet_id-is_id, feed-packet, follows_on-next, feed-last, chain-middle,
  encode_packet-short,
}

abbrev AllShort : List Bytes → Type 0
AllShort [] = Unit
AllShort (p ∷ ps) = (length p ≤ max_payload) × AllShort ps

abbrev Sent : PacketFramer → List Bytes → ℕ → ℕ → Type 0
Sent f parts previous current =
    (bytes : Bytes) × (encode_parts parts previous current ≡ ok bytes)
    × (feed f bytes ≡ (fresh, ok (decode_payload (join (f.parts ++ parts)) ∷ [])))

feed-encode_parts :
    (part : Bytes) (parts : List Bytes) (f : PacketFramer) (previous current : ℕ)
    → InChain f previous current
    → AllShort (part ∷ parts)
    → f.size + length (join (part ∷ parts)) ≤ max_document_bytes
    → Sent f (part ∷ parts) previous current
unfolding encode_parts
feed-encode_parts part [] f previous current h short fits =
    let next = next_packet_id-is_id current h.id in
    (
      packet_bytes part previous terminal,
      rw (encode_packet-short part previous terminal short.0) (rw next.1),
      feed-last f previous part h.empty h.expects short.0 (omega (arith, length-append part [])),
    )
feed-encode_parts part (more ∷ parts) f previous current h short fits =
    let next = next_packet_id-is_id current h.id in
    let l : length (join (part ∷ more ∷ parts)) ≡ length part + length (join (more ∷ parts)) =
      length-append part (join (more ∷ parts)) in
    let g : PacketFramer = record {
      buffer = [];
      parts = f.parts ++ part ∷ [];
      size = f.size + length part;
      expect_previous = current;
      last_following = some current;
    } in
    let inside : InChain g current next.0 = record {
      empty = refl;
      expects = refl;
      id = next.2;
      order = follows_on-next current next.0 next.1;
    } in
    let sent : Sent g (more ∷ parts) current next.0 =
      feed-encode_parts more parts g current next.0 inside short.1 (omega arith) in
    (
      packet_bytes part previous current ++ sent.0,
      rw (encode_packet-short part previous current short.0) (rw next.1 (rw sent.1)),
      feed-packet f _ part sent.0 previous current [] h.empty short.0
            (chain-middle f previous current part sent.0 h (omega arith)) refl
          ∙ ap (prepend []) sent.2
          ∙ ap (λ d. (fresh, ok (decode_payload (join d) ∷ [])))
              (append_assoc f.parts (part ∷ []) (more ∷ parts)),
    )

pieces-AllShort :
    (fuel chunk : ℕ) (data_ : Bytes) → chunk ≤ max_payload → AllShort (pieces fuel chunk data_)
unfolding pieces
pieces-AllShort zero chunk data_ h = tt
pieces-AllShort (suc fuel) chunk [] h = tt
pieces-AllShort (suc fuel) chunk (b ∷ bs) h =
    (omega (arith, length-take chunk (b ∷ bs)), pieces-AllShort fuel chunk (drop chunk (b ∷ bs)) h)

join-pieces :
    (fuel chunk : ℕ) (data_ : Bytes)
    → 0 < chunk
    → length data_ ≤ fuel
    → join (pieces fuel chunk data_) ≡ data_
unfolding pieces
join-pieces zero chunk [] pos h = refl
join-pieces zero chunk (b ∷ bs) pos h = absurd (omega arith)
join-pieces (suc fuel) chunk [] pos h = refl
join-pieces (suc fuel) chunk (b ∷ bs) pos h =
    ap (λ l. take chunk (b ∷ bs) ++ l)
      (join-pieces fuel chunk (drop chunk (b ∷ bs)) pos (omega (arith, length-drop chunk (b ∷ bs))))
    ∙ take-append-drop chunk (b ∷ bs)

feed-encode_all :
    (parts : List Bytes) (first_id : ℕ)
    → is_id first_id ≡ true
    → AllShort parts
    → length (join parts) ≤ max_document_bytes
    → (bytes : Bytes) × (encode_all parts first_id ≡ ok bytes)
      × (feed fresh bytes ≡ (fresh, ok (decode_payload (join parts) ∷ [])))
unfolding encode_all
feed-encode_all [] first_id id short fits = (
  packet_bytes [] terminal terminal,
  encode_packet-short [] terminal terminal (omega arith),
  feed-last fresh terminal [] refl refl (omega arith) (omega arith),
)
feed-encode_all (part ∷ []) first_id id short fits = (
  packet_bytes part terminal terminal,
  encode_packet-short part terminal terminal short.0,
  feed-last fresh terminal part refl refl short.0 (omega (arith, length-append part [])),
)
feed-encode_all (part ∷ more ∷ parts) first_id id short fits =
    feed-encode_parts part (more ∷ parts) fresh terminal first_id
      (record { empty = refl; expects = refl; id = id; order = unfold follows_on in refl }) short
      (omega arith)

-- For a chunk size that the encoder accepts, a first id of the cycle and a document within the
-- framer's limit, encoding succeeds, and a fresh framer that is fed the bytes returns that one
-- document, decoded, and is fresh again.
pub feed-encode_document :
    (data_ : Bytes) (chunk first_id : ℕ)
    → 0 < chunk
    → chunk ≤ max_payload
    → is_id first_id ≡ true
    → length data_ ≤ max_document_bytes
    → (bytes : Bytes) × (encode_document data_ chunk first_id ≡ ok bytes)
      × (feed fresh bytes ≡ (fresh, ok (decode_payload data_ ∷ [])))
unfolding encode_document
feed-encode_document data_ chunk first_id pos small id fits =
    let parts : List Bytes = pieces (length data_) chunk data_ in
    let whole : join parts ≡ data_ = join-pieces (length data_) chunk data_ pos (omega arith) in
    let lw : length (join parts) ≡ length data_ = ap length whole in
    let all =
      feed-encode_all parts first_id id (pieces-AllShort (length data_) chunk data_ small)
        (omega arith) in
    (
      all.0,
      rw (accepted chunk pos small) all.1,
      all.2 ∙ ap (λ d. (fresh, ok (decode_payload d ∷ []))) whole,
    )
  where
    accepted : (c : ℕ) → 0 < c → c ≤ max_payload → eqb c 0 || ltb max_payload c ≡ false
    accepted c p q = ground arith
