-- ===== src/Handshake/Tests.antt =====
-- A header as two nodes exchange it, and the theorems at it.
use xc_ros.Prelude.{◌≡◌, ◌≢◌, refl, [], ◌∷◌, ◌++◌, arith}
use xc_ros.Prelude.Text.{Text, codes, same}
use xc_ros.Prelude.Str.{has, strip, before, after}
use xc_ros.Prelude.Dict.{Dict, insert, has_key}
use xc_ros.Prelude.Result.{ok, err}
use xc_ros.Handshake.{
  Bytes, out_of_fuel, unicode_decode, pack, unpack, add_line, encode_field, encode_fields,
  encode_ros_handshake_header, decode_field, decode_fields, decode_ros_handshake_header,
}
use xc_ros.Handshake.Utf8.{encode_utf8, decode_utf8}
use xc_ros.Handshake.Roundtrip.{decode-encode}
use xc_ros.Handshake.Total.{decode-ends}
use xc_ros.Handshake.Read.{read_ros_handshake_header}

abbrev header : Dict Text
header = (codes "topic", codes "/chatter") ∷ (codes "type", codes "a=b") ∷ []

abbrev frame : Bytes
frame =
    (30 ∷ 0 ∷ 0 ∷ 0 ∷ [])
    ++ ((14 ∷ 0 ∷ 0 ∷ 0 ∷ [])
        ++ (codes "topic=/chatter" ++ ((8 ∷ 0 ∷ 0 ∷ 0 ∷ []) ++ codes "type=a=b")))

program : Unit {0}
unfolding encode_ros_handshake_header encode_fields encode_field pack encode_utf8
    decode_ros_handshake_header decode_fields decode_field unpack add_line decode_utf8
    read_ros_handshake_header has strip before after insert has_key same
program = tt

encode-header : encode_ros_handshake_header encode_utf8 header ≡ ok frame
unfolding program
encode-header = refl

decode-encode_example : decode_ros_handshake_header decode_utf8 (frame ++ codes "xyz") ≡ ok header
decode-encode_example =
    decode-encode header frame (codes "xyz") (unfold program in ground arith)
      (unfold program in ground arith) encode-header

decode-ends_example :
    decode_ros_handshake_header decode_utf8 (255 ∷ 1 ∷ 0 ∷ 0 ∷ 7 ∷ []) ≢ err out_of_fuel
decode-ends_example = decode-ends (255 ∷ 1 ∷ 0 ∷ 0 ∷ 7 ∷ [])

-- The length prefix counts characters: one that takes two bytes is cut, and decoding fails.
accented :
    (encode_ros_handshake_header encode_utf8 ((codes "k", 233 ∷ []) ∷ [])
      ≡ ok (8 ∷ 0 ∷ 0 ∷ 0 ∷ 3 ∷ 0 ∷ 0 ∷ 0 ∷ b'k' ∷ b'=' ∷ 195 ∷ 169 ∷ []))
    × (decode_ros_handshake_header decode_utf8
          (8 ∷ 0 ∷ 0 ∷ 0 ∷ 3 ∷ 0 ∷ 0 ∷ 0 ∷ b'k' ∷ b'=' ∷ 195 ∷ 169 ∷ [])
        ≡ err unicode_decode)
unfolding program
accented = (refl, refl)

-- Two pieces off the socket, the second with bytes behind the header.
pieces :
    (read_ros_handshake_header decode_utf8
      ((8 ∷ 0 ∷ 0 ∷ 0 ∷ 4 ∷ []) ∷ (0 ∷ 0 ∷ 0 ∷ b'k' ∷ b'=' ∷ b'v' ∷ b'w' ∷ 1 ∷ 2 ∷ []) ∷ [])
      [])
    ≡ ok (record { header = (codes "k", codes "vw") ∷ []; leftovers = 1 ∷ 2 ∷ [] })
unfolding program
pieces = refl
