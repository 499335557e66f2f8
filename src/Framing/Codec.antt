-- ===== src/Framing/Codec.antt =====
-- One packet: what the encoder writes is what the reader finds, whatever bytes follow.
use openlaps.Common.{
  ℕ, ◌+◌, ◌/◌, ◌%◌, ◌≤◌, ◌<◌, ◌≡◌, ◌&&◌, ap, ap₂, ◌∙◌, Bool, true, false, not, Option, none, some,
  ◌∷◌, ◌++◌, leb, ltb, length, take, drop, get_or, length-append, length-drop, drop-append,
  drop-add, take-append, get_or-append, take-append_length, drop-append_length, if◌then◌else◌,
  arith, ◌⊎◌, inl, inr,
}
use openlaps.Common.Result.{Result, ok, err}
use openlaps.Common.Text.{text_beq}
use openlaps.Framing.{
  Bytes, Error, bad_magic, bad_length, Packet, magic, header_len, max_payload, five_digits,
  int_from, is_digits, next_packet,
}

-- The bytes of a packet whose payload is not too long.
abbrev pub packet_bytes : Bytes → ℕ → ℕ → Bytes
packet_bytes payload previous following =
    magic ++ (five_digits (length payload) ++ (previous ∷ following ∷ payload))

digit_ok : (n : ℕ) → n < 10 → leb 48 (48 + n) && leb (48 + n) 57 ≡ true
digit_ok n h = ground arith

five_digits_ok : (n : ℕ) → is_digits (five_digits n) ≡ true
five_digits_ok n = rw (
  digit_ok (n / 10_000 % 10) (omega arith),
  digit_ok (n / 1_000 % 10) (omega arith),
  digit_ok (n / 100 % 10) (omega arith),
  digit_ok (n / 10 % 10) (omega arith),
  digit_ok (n % 10) (omega arith),
)

not_lt : (n m : ℕ) → m ≤ n → ltb n m ≡ false
not_lt n m h = ground arith

int-five_digits : (n : ℕ) → n ≤ max_payload → int_from 0 (five_digits n) ≡ n
int-five_digits n h = omega arith

pub next_packet-packet_bytes :
    (payload : Bytes) (previous following : ℕ) (rest : Bytes)
    → length payload ≤ max_payload
    → next_packet (packet_bytes payload previous following ++ rest)
      ≡ ok (some (record { previous = previous; following = following; payload = payload }, rest))
unfolding next_packet
next_packet-packet_bytes payload previous following rest h =
    let n : ℕ = length payload in
    let buffer : Bytes = packet_bytes payload previous following ++ rest in
    let l : length buffer ≡ 10 + length (payload ++ rest) = omega arith in
    let size : int_from 0 (five_digits n) ≡ n = int-five_digits n h in
    rw (not_lt (length buffer) header_len (omega arith)) (
      rw (five_digits_ok n) (
        rw size (
          rw (not_lt (length buffer) (header_len + n) (omega (arith, length-append payload rest))) (
            rw (
              drop-add header_len n buffer,
              take-append_length payload rest,
              drop-append_length payload rest,
            )))))

abbrev digits_of : Bytes → Bytes
digits_of x = take 5 (drop 3 x)

abbrev size_of : Bytes → ℕ
size_of x = int_from 0 (digits_of x)

abbrev packet_at : Bytes → Packet
packet_at x = record {
  previous = get_or x 8 0;
  following = get_or x 9 0;
  payload = take (size_of x) (drop header_len x);
}

-- A whole packet stands at the front of the buffer.
record Stands (x : Bytes) : Type 0 where
  long : header_len ≤ length x
  magical : text_beq (take 3 x) magic ≡ true
  numeric : is_digits (digits_of x) ≡ true
  fits : header_len + size_of x ≤ length x

next_packet-Stands :
    (x : Bytes)
    → Stands x
    → next_packet x ≡ ok (some (packet_at x, drop (header_len + size_of x) x))
unfolding next_packet
next_packet-Stands x s =
    rw (not_lt (length x) header_len s.long)
      (rw s.magical (rw s.numeric (rw (not_lt (length x) (header_len + size_of x) s.fits))))

-- The tests of `next_packet`, in order, on their results.
abbrev select : Bool → Bool → Bool → Bool → Packet → Bytes → Result Error (Option (Packet × Bytes))
select short magical numeric partial p rest =
    if short
    then ok none
    else if not magical
    then err bad_magic
    else if not numeric
    then err bad_length
    else if partial
    then ok none
    else ok (some (p, rest))

select-some :
    (a b c d : Bool) (q p : Packet) (r rest : Bytes)
    → select a b c d q r ≡ ok (some (p, rest))
    → (a ≡ false) × (b ≡ true) × (c ≡ true) × (d ≡ false) × (q ≡ p) × (r ≡ rest)
select-some a b c d q p r rest h = ground arith

select-err :
    (a b c d : Bool) (q : Packet) (r : Bytes) {e : Error}
    → select a b c d q r ≡ err e
    → (a ≡ false)
      × (((b ≡ false) × (e ≡ bad_magic)) ⊎ ((b ≡ true) × (c ≡ false) × (e ≡ bad_length)))
select-err a b c d q r h = ground arith

not_ltb : (n m : ℕ) → ltb n m ≡ false → m ≤ n
not_ltb n m h = ground arith

Stands-next_packet :
    (x rest : Bytes) (p : Packet)
    → next_packet x ≡ ok (some (p, rest))
    → Stands x × (packet_at x ≡ p) × (drop (header_len + size_of x) x ≡ rest)
unfolding next_packet
Stands-next_packet x rest p h =
    let s =
      select-some (ltb (length x) header_len) (text_beq (take 3 x) magic) (is_digits (digits_of x))
        (ltb (length x) (header_len + size_of x)) (packet_at x) p (drop (header_len + size_of x) x)
        rest h in
    (
      record { long = not_ltb _ _ s.0; magical = s.1; numeric = s.2; fits = not_ltb _ _ s.3 },
      s.4,
      s.5,
    )

pub length-next_packet :
    (x : Bytes) (p : Packet) (rest : Bytes)
    → next_packet x ≡ ok (some (p, rest))
    → length rest + 10 ≤ length x
length-next_packet x p rest h =
    let s = Stands-next_packet x rest p h in
    omega (arith, ap length s.2, length-drop (header_len + size_of x) x, s.0.fits)

-- The header reads the same with more bytes behind it.
digits-append : (x b : Bytes) → header_len ≤ length x → digits_of (x ++ b) ≡ digits_of x
digits-append x b h =
    ap (take 5) (drop-append 3 x b (omega arith))
    ∙ take-append 5 (drop 3 x) b (omega (arith, length-drop 3 x))

packet_at-append : (x b : Bytes) → Stands x → packet_at (x ++ b) ≡ packet_at x
packet_at-append x b s =
    let size : size_of (x ++ b) ≡ size_of x = ap (int_from 0) (digits-append x b s.long) in
    let payload : take (size_of (x ++ b)) (drop header_len (x ++ b))
        ≡ take (size_of x) (drop header_len x) =
      ap₂ take size (drop-append header_len x b s.long)
      ∙ take-append (size_of x) (drop header_len x) b
          (omega (arith, length-drop header_len x, s.fits)) in
    λ i. record {
      previous = get_or-append x b 8 0 (omega (arith, s.long)) i;
      following = get_or-append x b 9 0 (omega (arith, s.long)) i;
      payload = payload i;
    }

-- A reader that found a packet, or an error, finds the same with more bytes behind it.
pub next_packet-append :
    (x b : Bytes) (p : Packet) (rest : Bytes)
    → next_packet x ≡ ok (some (p, rest))
    → next_packet (x ++ b) ≡ ok (some (p, rest ++ b))
next_packet-append x b p rest h =
    let (s, e, r) = Stands-next_packet x rest p h in
    let size : size_of (x ++ b) ≡ size_of x = ap (int_from 0) (digits-append x b s.long) in
    let stands : Stands (x ++ b) = record {
      long = omega (arith, s.long, length-append x b);
      magical = rw (take-append 3 x b (omega (arith, s.long))) s.magical;
      numeric = rw (digits-append x b s.long) s.numeric;
      fits = rw size (omega (arith, s.fits, length-append x b));
    } in
    let same : packet_at (x ++ b) ≡ p = packet_at-append x b s ∙ e in
    let behind : drop (header_len + size_of (x ++ b)) (x ++ b) ≡ rest ++ b =
      ap (λ n. drop (header_len + n) (x ++ b)) size
      ∙ drop-append (header_len + size_of x) x b s.fits
      ∙ ap (λ l. l ++ b) r in
    next_packet-Stands (x ++ b) stands ∙ (λ i. ok (some (same i, behind i)))

pub next_packet-append_err :
    (x b : Bytes) (e : Error) → next_packet x ≡ err e → next_packet (x ++ b) ≡ err e
unfolding next_packet
next_packet-append_err x b e h =
    let s =
      select-err (ltb (length x) header_len) (text_beq (take 3 x) magic) (is_digits (digits_of x))
        (ltb (length x) (header_len + size_of x)) (packet_at x) (drop (header_len + size_of x) x)
        h in
    let long : header_len ≤ length x = not_ltb _ _ s.0 in
    rw (not_lt (length (x ++ b)) header_len (omega (arith, length-append x b))) (
      rw (take-append 3 x b (omega arith)) (elim s.1 [
        | inl (unmagical, same) ↦ rw (unmagical, same)
        | inr (magical, unnumeric, same) ↦
            rw magical (rw (digits-append x b long) (rw (unnumeric, same)))
      ]))
