-- ===== src/Framing/Utf8.antt =====
-- `bytes.decode("utf-8")`, which is strict: overlong forms, surrogates and values beyond the last
-- code point are refused.
use openlaps.Common.{
  ℕ, ◌+◌, ◌-◌, ◌*◌, Option, none, some, List, [], ◌∷◌, leb, ltb, eqb, ◌&&◌, if◌then◌else◌,
}
use mathlib.Core.Option

-- `need` more bytes complete a code point, the next of them between `low` and `high`.
record Partial : Type 0 where
  need : ℕ
  low : ℕ
  high : ℕ
  value : ℕ

abbrev start : Partial
start = record { need = 0; low = 128; high = 191; value = 0 }

abbrev lead : ℕ → ℕ → ℕ → ℕ → Option Partial
lead need low high value = some (record { need = need; low = low; high = high; value = value })

-- The first byte of a code point of several bytes.
first_byte : ℕ → Option Partial
first_byte b =
    if ltb b 194
    then none
    else if ltb b 224
    then lead 1 128 191 (b - 192)
    else if eqb b 224
    then lead 2 160 191 0
    else if eqb b 237
    then lead 2 128 159 13
    else if ltb b 240
    then lead 2 128 191 (b - 224)
    else if eqb b 240
    then lead 3 144 191 0
    else if ltb b 244
    then lead 3 128 191 (b - 240)
    else if eqb b 244
    then lead 3 128 143 4
    else none

decode_from : Partial → List ℕ → Option (List ℕ)
unfolding first_byte
decode_from p [] = if eqb p.need 0 then some [] else none
decode_from p (b ∷ bs) =
    let ascii = Option.map (λ t. b ∷ t) (decode_from start bs) in
    let multi : Option (List ℕ) = elim (first_byte b) [ none ↦ none | some q ↦ decode_from q bs ] in
    let value = 64 * p.value + (b - 128) in
    let last = Option.map (λ t. value ∷ t) (decode_from start bs) in
    let more =
      decode_from (record { need = p.need - 1; low = 128; high = 191; value = value }) bs in
    if eqb p.need 0
    then (if ltb b 128 then ascii else multi)
    else if leb p.low b && leb b p.high
    then (if eqb p.need 1 then last else more)
    else none

unfoldable pub decode_utf8 : List ℕ → Option (List ℕ)
unfolding decode_from
decode_utf8 = decode_from start
