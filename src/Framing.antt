-- ===== src/Framing.antt =====
-- src/pit/timing_feed/framing.py: packets and documents of the timing feed, over bytes as numbers.
-- A packet is the magic, five digits of length, two ids and the payload.
pub mod Utf8
pub mod Codec
pub mod Pieces
pub mod Chain
pub mod RoundTrip
mod Examples
use Utf8.{decode_utf8}
use openlaps.Common.{
  ℕ, zero, suc, ◌+◌, ◌-◌, ◌*◌, ◌/◌, ◌%◌, Bool, true, false, not, ◌&&◌, ◌||◌, Option, none, some,
  List, [], ◌∷◌, ◌++◌, eqb, leb, ltb, length, take, drop, get_or, get_elem?, if◌then◌else◌,
}
use openlaps.Common.Result.{Result, ok, err, ◌>>=◌, ◌>>◌, raise_if}
use openlaps.Common.Text.{Text, codes, text_beq}

abbrev pub Bytes : Type 0
Bytes = List ℕ

abbrev pub magic : Bytes
magic = codes "!@#"

abbrev pub header_len : ℕ
header_len = 10

abbrev pub max_payload : ℕ
max_payload = 99_999

abbrev pub terminal : ℕ
terminal = b'='

abbrev pub ids : Bytes
ids = codes "ABCDEFGHIJKLMNOPQRSTUVWXYZabcdefghijklmnopqrstuvwxyz"

abbrev pub max_document_bytes : ℕ
max_document_bytes = 4 * 1024 * 1024

-- The `PacketError`s, and the `ValueError`s of the encoder.
pub data Error : Type 0 where
  bad_magic bad_length broken_chain bad_id too_long : Error
  payload_too_long bad_chunk : Error

-- `_IDS.index(c)`, counted from `n`.
abbrev pub index_of : ℕ → Bytes → ℕ → Option ℕ
index_of c [] n = none
index_of c (x ∷ xs) n = if eqb x c then some n else index_of c xs (n + 1)

unfoldable pub next_packet_id : ℕ → Result Error ℕ
next_packet_id id = elim (index_of id ids 0) [
  | none ↦ err bad_id
  | some index ↦ ok (get_or ids ((index + 1) % length ids) 0)
]

-- `f"{n:05d}"` for a number of at most five digits.
abbrev pub five_digits : ℕ → Bytes
five_digits n =
    (48 + n / 10_000 % 10)
    ∷ (48 + n / 1_000 % 10)
    ∷ (48 + n / 100 % 10)
    ∷ (48 + n / 10 % 10)
    ∷ (48 + n % 10)
    ∷ []

unfoldable pub encode_packet : Bytes → ℕ → ℕ → Result Error Bytes
encode_packet payload previous following = do
  raise_if (ltb max_payload (length payload)) payload_too_long
  ok (magic ++ (five_digits (length payload) ++ (previous ∷ following ∷ payload)))

-- `[data[i : i + chunk] for i in range(0, len(data), chunk)]`; each piece takes `chunk` bytes, so
-- the number of bytes is enough fuel.
unfoldable pub pieces : ℕ → ℕ → Bytes → List Bytes
pieces zero chunk data_ = []
pieces (suc fuel) chunk [] = []
pieces (suc fuel) chunk (b ∷ bs) = take chunk (b ∷ bs) ∷ pieces fuel chunk (drop chunk (b ∷ bs))

-- The loop over the parts of a document of several packets.
unfoldable pub encode_parts : List Bytes → ℕ → ℕ → Result Error Bytes
unfolding encode_packet next_packet_id
encode_parts [] previous current = ok []
encode_parts (part ∷ []) previous current = do
  packet ← encode_packet part previous terminal
  next ← next_packet_id current
  ok packet
encode_parts (part ∷ more ∷ parts) previous current = do
  packet ← encode_packet part previous current
  next ← next_packet_id current
  rest ← encode_parts (more ∷ parts) current next
  ok (packet ++ rest)

-- `or [b""]`, and the document of one part.
unfoldable pub encode_all : List Bytes → ℕ → Result Error Bytes
unfolding encode_parts
encode_all [] first_id = encode_packet [] terminal terminal
encode_all (part ∷ []) first_id = encode_packet part terminal terminal
encode_all (part ∷ more ∷ parts) first_id = encode_parts (part ∷ more ∷ parts) terminal first_id

unfoldable pub encode_document : Bytes → ℕ → ℕ → Result Error Bytes
unfolding encode_all pieces
encode_document data_ chunk first_id = do
  raise_if (eqb chunk 0 || ltb max_payload chunk) bad_chunk
  encode_all (pieces (length data_) chunk data_) first_id

-- UTF-8, or Latin-1, where each byte is its code point.
unfoldable pub decode_payload : Bytes → Text
unfolding decode_utf8
decode_payload data_ = elim (decode_utf8 data_) [ some text ↦ text | none ↦ data_ ]

pub record PacketFramer : Type 0 where
  pub buffer : Bytes
  pub parts : List Bytes
  pub size : ℕ
  pub expect_previous : ℕ
  pub last_following : Option ℕ

-- `__init__` and `reset`.
abbrev pub fresh : PacketFramer
fresh = record {
  buffer = [];
  parts = [];
  size = 0;
  expect_previous = terminal;
  last_following = none;
}

pub record Packet : Type 0 where
  pub previous : ℕ
  pub following : ℕ
  pub payload : Bytes

abbrev pub is_digits : Bytes → Bool
is_digits [] = true
is_digits (c ∷ cs) = (leb 48 c && leb c 57) && is_digits cs

abbrev pub int_from : ℕ → Bytes → ℕ
int_from n [] = n
int_from n (c ∷ cs) = int_from (10 * n + (c - 48)) cs

-- `_next_packet`: the first packet and the bytes behind it, or `none` where more bytes are needed.
unfoldable pub next_packet : Bytes → Result Error (Option (Packet × Bytes))
next_packet buffer =
    if ltb (length buffer) header_len
    then ok none
    else if not (text_beq (take 3 buffer) magic)
    then err bad_magic
    else let digits = take 5 (drop 3 buffer) in
      if not (is_digits digits)
      then err bad_length
      else let size = int_from 0 digits in
        if ltb (length buffer) (header_len + size)
        then ok none
        else ok (
            some (
              record {
                previous = get_or buffer 8 0;
                following = get_or buffer 9 0;
                payload = take size (drop header_len buffer);
              },
              drop (header_len + size) buffer,
            ))

abbrev pub is_id : ℕ → Bool
is_id c = elim (index_of c ids 0) [ none ↦ false | some _ ↦ true ]

-- The id follows on from the last one of the chain, where there is one.
unfoldable pub follows_on : Option ℕ → ℕ → Result Error (Unit {0})
unfolding next_packet_id
follows_on none following = ok tt
follows_on (some last) following = do
  next ← next_packet_id last
  raise_if (not (eqb following next)) broken_chain

unfoldable pub check_following : Option ℕ → ℕ → Result Error (Unit {0})
unfolding follows_on
check_following last following =
    if eqb following terminal
    then ok tt
    else do raise_if (not (is_id following)) bad_id; follows_on last following

abbrev pub join : List Bytes → Bytes
join [] = []
join (p ∷ ps) = p ++ join ps

-- The framer after a payload was added, and the document that it completed.
unfoldable pub complete : PacketFramer → Packet → List Bytes → ℕ → PacketFramer × List Text
unfolding decode_payload
complete f p parts size =
    if eqb p.following terminal
    then (
      record {
        buffer = f.buffer;
        parts = [];
        size = 0;
        expect_previous = terminal;
        last_following = none;
      },
      decode_payload (join parts) ∷ [],
    )
    else (
      record {
        buffer = f.buffer;
        parts = parts;
        size = size;
        expect_previous = p.following;
        last_following = some p.following;
      },
      [],
    )

unfoldable pub chain : PacketFramer → Packet → Result Error (PacketFramer × List Text)
unfolding check_following complete
chain f p = do
  raise_if (not (eqb p.previous f.expect_previous)) broken_chain
  check_following f.last_following p.following
  let parts = f.parts ++ p.payload ∷ []
  let size = f.size + length p.payload
  raise_if (ltb max_document_bytes size) too_long
  ok (complete f p parts size)

-- One turn of the loop of `feed`: `none` where it ends.
unfoldable pub turn : PacketFramer → Result Error (Option (PacketFramer × List Text))
unfolding next_packet chain
turn f = do
  found ← next_packet f.buffer
  elim found [
    | none ↦ ok none
    | some (packet, rest) ↦ do r ← chain (record f { buffer = rest }) packet; ok (some r)
  ]

abbrev pub Fed : Type 0
Fed = PacketFramer × Result Error (List Text)

abbrev pub prepend : List Text → Fed → Fed
prepend docs (f, ok more) = (f, ok (docs ++ more))
prepend docs (f, err e) = (f, err e)

-- What a turn leads to; `rest` is the loop from there on. An error leaves the framer reset.
abbrev pub proceed :
    PacketFramer → Result Error (Option (PacketFramer × List Text)) → (PacketFramer → Fed) → Fed
proceed f (err e) rest = (fresh, err e)
proceed f (ok none) rest = (f, ok [])
proceed f (ok (some (g, docs))) rest = prepend docs (rest g)

-- The loop: each turn takes ten bytes at least from the buffer.
unfoldable pub loop : ℕ → PacketFramer → Fed
unfolding turn
loop zero f = (f, ok [])
loop (suc fuel) f = proceed f (turn f) (loop fuel)

unfoldable pub feed : PacketFramer → Bytes → Fed
unfolding loop
feed f data_ = loop (suc (length f.buffer + length data_)) (record f { buffer = f.buffer ++ data_ })
