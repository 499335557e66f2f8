-- ===== src/Framing/Examples.antt =====
-- A document of two packets, cut in the middle of the second header, and broken streams.
use openlaps.Common.{◌≡◌, refl, some, [], ◌∷◌, ◌++◌, arith}
use openlaps.Common.Result.{ok, err}
use openlaps.Common.Text.{codes}
use openlaps.Framing.{
  Bytes, PacketFramer, fresh, broken_chain, encode_document, feed, prepend, decode_payload,
}
use openlaps.Framing.Pieces.{feed-append}
use openlaps.Framing.RoundTrip.{feed-encode_document}

abbrev stream : Bytes
stream = codes "!@#00003=Zabc!@#00002Z=de"

two_packets : encode_document (codes "abcde") 3 b'Z' ≡ ok stream
unfolding encode_document
two_packets = refl

-- The framer after fifteen bytes of the stream.
abbrev half : PacketFramer
half = record {
  buffer = codes "!@";
  parts = codes "abc" ∷ [];
  size = 3;
  expect_previous = b'Z';
  last_following = some b'Z';
}

half_fed : feed fresh (codes "!@#00003=Zabc!@") ≡ (half, ok [])
unfolding feed
half_fed = refl

latin_1 : decode_payload (233 ∷ []) ≡ 233 ∷ []
unfolding decode_payload
latin_1 = refl

utf_8 : decode_payload (195 ∷ 169 ∷ []) ≡ 233 ∷ []
unfolding decode_payload
utf_8 = refl

wrong_order : feed fresh (codes "!@#00001=Ax!@#00001ACy") ≡ (fresh, err broken_chain)
unfolding feed
wrong_order = refl

feed-append_example :
    feed fresh (codes "!@#00003=Zabc!@" ++ codes "#00002Z=de")
    ≡ prepend [] (feed half (codes "#00002Z=de"))
feed-append_example =
    feed-append fresh half (codes "!@#00003=Zabc!@") (codes "#00002Z=de") [] half_fed

feed-encode_document_example :
    (bytes : Bytes) × (encode_document (codes "abcde") 3 b'Z' ≡ ok bytes)
    × (feed fresh bytes ≡ (fresh, ok (decode_payload (codes "abcde") ∷ [])))
feed-encode_document_example =
    feed-encode_document (codes "abcde") 3 b'Z' (omega arith) (omega arith) refl (omega arith)
