-- ===== src/Framing/Chain.antt =====
-- One packet of a chain as the framer meets it, and the cycle of the ids.
use mathlib.Core.List.{append-nil}
use openlaps.Common.{
  ℕ, zero, suc, ◌+◌, ◌%◌, ◌≤◌, ◌<◌, ◌≡◌, refl, sym, ap, ◌∙◌, Bool, true, false, ◌&&◌, Option, none,
  some, List, [], ◌∷◌, ◌++◌, eqb, eqb_iff, ltb, length, get_or, length-append, arith, Bool-cases,
  Option-cases, inl, inr,
}
use openlaps.Common.Result.{ok}
use openlaps.Common.Text.{Text}
use openlaps.Framing.{
  Bytes, Packet, PacketFramer, fresh, ids, index_of, is_id, next_packet_id, terminal, max_payload,
  max_document_bytes, encode_packet, decode_payload, join, chain, complete, check_following,
  follows_on, prepend, loop, feed,
}
use openlaps.Framing.Codec.{packet_bytes, next_packet-packet_bytes}
use openlaps.Framing.Pieces.{turn-advanced, loop-fuel, loop-advanced}

-- A test that holds of every number below a bound.
every : (ℕ → Bool) → ℕ → Bool
every p zero = true
every p (suc bound) = every p bound && p bound

every-holds : (p : ℕ → Bool) (bound i : ℕ) → i < bound → every p bound ≡ true → p i ≡ true
unfolding every
every-holds p zero i lt h = absurd (omega arith)
every-holds p (suc bound) i lt h = ground (arith, every-holds p bound i)

index-lt : (c : ℕ) (xs : Bytes) (n i : ℕ) → index_of c xs n ≡ some i → i < n + length xs
index-lt c [] n i h = cc
index-lt c (x ∷ xs) n i h = elim (Bool-cases (eqb x c)) [
  | inl e ↦ let same : some n ≡ some i = rw e at h in let same' : n ≡ i = cc same in omega arith
  | inr e ↦
      let rest : index_of c xs (n + 1) ≡ some i = rw e at h in
      omega (arith, index-lt c xs (n + 1) i rest)
]

next_is_id : every (λ i. is_id (get_or ids ((i + 1) % length ids) 0)) 52 ≡ true
unfolding every
next_is_id = refl

-- The successor of an id is an id.
pub next_packet_id-is_id :
    (c : ℕ) → is_id c ≡ true → (n : ℕ) × (next_packet_id c ≡ ok n) × (is_id n ≡ true)
unfolding next_packet_id
next_packet_id-is_id c h = elim (Option-cases (index_of c ids 0)) [
  | inl e ↦ absurd (not_id (index_of c ids 0) e h)
  | inr (i, e) ↦ (
    get_or ids ((i + 1) % length ids) 0,
    rw (e, next_packet_id),
    every-holds (λ i. is_id (get_or ids ((i + 1) % length ids) 0)) 52 i (index-lt c ids 0 i e)
        next_is_id,
  )
]
  where
    not_id :
        (o : Option ℕ)
        → o ≡ none
        → elim o as (λ _. Bool) [ none ↦ false | some _ ↦ true ] ≡ true
        → ⊥
    not_id o e k = ground arith

id-ne-terminal : (c : ℕ) → is_id c ≡ true → eqb c terminal ≡ false
id-ne-terminal c h = elim (Bool-cases (eqb c terminal)) [
  | inl e ↦
      let same : c ≡ terminal = (eqb_iff c terminal).0 e in
      let no : is_id terminal ≡ true = rw same at h in cc no
  | inr e ↦ e
]

-- One packet at the front of what an empty buffer receives.
pub feed-packet :
    (f g : PacketFramer) (payload rest : Bytes) (previous following : ℕ) (docs : List Text)
    → f.buffer ≡ []
    → length payload ≤ max_payload
    → chain
        (record f { buffer = rest })
        (record { previous = previous; following = following; payload = payload })
      ≡ ok (g, docs)
    → g.buffer ≡ rest
    → feed f (packet_bytes payload previous following ++ rest)
      ≡ prepend docs (feed (record g { buffer = [] }) rest)
unfolding feed
feed-packet f g payload rest previous following docs e h c b =
    let whole : Bytes = packet_bytes payload previous following ++ rest in
    let lg : length g.buffer ≡ length rest = ap length b in
    let lw : length whole ≡ 10 + length (payload ++ rest) = omega arith in
    let lp : length (payload ++ rest) ≡ length payload + length rest = length-append payload rest in
    ap (λ l. loop (suc (length l + length whole)) (record f { buffer = l ++ whole })) e
    ∙ loop-advanced (0 + length whole) (record f { buffer = whole }) g docs
        (turn-advanced (record f { buffer = whole }) g _ rest docs
          (next_packet-packet_bytes payload previous following rest h) c)
    ∙ ap (prepend docs) (
        loop-fuel (0 + length whole) (suc (0 + length rest)) g (omega arith) (omega arith)
        ∙ ap (λ l. loop (suc (0 + length rest)) (record g { buffer = l })) b)

not_lt : (n m : ℕ) → m ≤ n → ltb n m ≡ false
not_lt n m k = ground arith

-- The framer in the middle of a document whose last packet named `previous` as the next id; `current`
-- is the id that the sender uses next.
pub record InChain (f : PacketFramer) (previous current : ℕ) : Type 0 where
  pub empty : f.buffer ≡ []
  pub expects : f.expect_previous ≡ previous
  pub id : is_id current ≡ true
  pub order : follows_on f.last_following current ≡ ok tt

abbrev pub packet : Bytes → ℕ → ℕ → Packet
packet payload previous following = record {
  previous = previous;
  following = following;
  payload = payload;
}

pub chain-middle :
    (f : PacketFramer) (previous current : ℕ) (payload rest : Bytes)
    → InChain f previous current
    → f.size + length payload ≤ max_document_bytes
    → chain (record f { buffer = rest }) (packet payload previous current)
      ≡ ok (
        record {
          buffer = rest;
          parts = f.parts ++ payload ∷ [];
          size = f.size + length payload;
          expect_previous = current;
          last_following = some current;
        },
        [],
      )
unfolding chain check_following complete
chain-middle f previous current payload rest h fits =
    rw (h.expects, (eqb_iff previous previous).1 refl)
      (rw (id-ne-terminal current h.id)
        (rw h.id (rw h.order (rw (not_lt max_document_bytes (f.size + length payload) fits)))))

chain-last :
    (f : PacketFramer) (previous : ℕ) (payload rest : Bytes)
    → f.expect_previous ≡ previous
    → f.size + length payload ≤ max_document_bytes
    → chain (record f { buffer = rest }) (packet payload previous terminal)
      ≡ ok (record fresh { buffer = rest }, decode_payload (join (f.parts ++ payload ∷ [])) ∷ [])
unfolding chain check_following complete
chain-last f previous payload rest e fits =
    rw (e, (eqb_iff previous previous).1 refl)
      (rw (not_lt max_document_bytes (f.size + length payload) fits))

pub encode_packet-short :
    (payload : Bytes) (previous following : ℕ)
    → length payload ≤ max_payload
    → encode_packet payload previous following ≡ ok (packet_bytes payload previous following)
unfolding encode_packet
encode_packet-short payload previous following h = rw (not_lt max_payload (length payload) h)

pub follows_on-next :
    (last next : ℕ) → next_packet_id last ≡ ok next → follows_on (some last) next ≡ ok tt
unfolding follows_on
follows_on-next last next e = rw e (rw ((eqb_iff next next).1 refl))

feed-nothing : feed fresh [] ≡ (fresh, ok [])
unfolding feed
feed-nothing = refl

pub feed-last :
    (f : PacketFramer) (previous : ℕ) (payload : Bytes)
    → f.buffer ≡ []
    → f.expect_previous ≡ previous
    → length payload ≤ max_payload
    → f.size + length payload ≤ max_document_bytes
    → feed f (packet_bytes payload previous terminal)
      ≡ (fresh, ok (decode_payload (join (f.parts ++ payload ∷ [])) ∷ []))
feed-last f previous payload b e short fits =
    ap (feed f) (sym (append-nil (packet_bytes payload previous terminal)))
    ∙ feed-packet f (record fresh { buffer = [] }) payload [] previous terminal
        (decode_payload (join (f.parts ++ payload ∷ [])) ∷ []) b short
        (chain-last f previous payload [] e fits) refl
    ∙ ap (prepend (decode_payload (join (f.parts ++ payload ∷ [])) ∷ [])) feed-nothing
