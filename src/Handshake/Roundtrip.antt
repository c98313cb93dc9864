-- ===== src/Handshake/Roundtrip.antt =====
-- src/ros/roslib/src/roslib/network.py: what is encoded is what is decoded.
use mathlib.Core.List.{append_assoc, append-nil}
use xc_ros.Prelude.{
  ℕ, zero, suc, ◌+◌, ◌≤◌, ◌<◌, ◌≡◌, refl, sym, ◌∙◌, ap, false, [], ◌∷◌, ◌++◌, arith, ltb, lt→ltb,
  length, take, length-append,
}
use xc_ros.Prelude.Text.{Text}
use xc_ros.Prelude.Dict.{Dict, insert, insert-append, IsDistinct}
use xc_ros.Prelude.Result.{Result, ok, >>=-eq-ok}
use xc_ros.Handshake.{
  Error, Bytes, pack, unpack, line_of, encode_field, encode_fields, encode_ros_handshake_header,
  decode_field, decode_fields, decode_ros_handshake_header,
}
use xc_ros.Handshake.Utf8.{encode_utf8, decode_utf8, IsAscii}
use xc_ros.Handshake.Field.{
  IsPlain, add_all, le, pack-eq-ok, unpack-le, encode_field-ascii, decode_field-line,
}

encode_fields-cons :
    (k v : Text) (header : Dict Text) (s : Bytes)
    → IsAscii (line_of k v)
    → encode_fields encode_utf8 ((k, v) ∷ header) ≡ ok s
    → (rest : Bytes) × (encode_fields encode_utf8 header ≡ ok rest)
      × (s ≡ le (length (line_of k v)) ++ (line_of k v ++ rest))
unfolding encode_fields
encode_fields-cons k v header s ascii e =
    let (f, framed, e') = >>=-eq-ok (encode_field encode_utf8 (line_of k v)) e in
    let (rest, tail, whole) = >>=-eq-ok (encode_fields encode_utf8 header) e' in
    (rest, tail, join f rest whole (encode_field-ascii (line_of k v) f ascii framed))
  where
    join :
        (f rest : Bytes)
        → ◌≡◌ {A = Result Error Bytes} (ok (f ++ rest)) (ok s)
        → f ≡ le (length (line_of k v)) ++ line_of k v
        → s ≡ le (length (line_of k v)) ++ (line_of k v ++ rest)
    join f rest whole framed =
        let same : f ++ rest ≡ s = cc in
        sym same ∙ rw framed (append_assoc (le (length (line_of k v))) (line_of k v) rest)

decode_fields-end :
    (bytes : Bytes) (fuel size start : ℕ) (d : Dict Text)
    → size ≤ start
    → decode_fields decode_utf8 (suc fuel) bytes size start d ≡ ok d
unfolding decode_fields
decode_fields-end bytes fuel size start d over = ground arith

decode_fields-next :
    (bytes : Bytes) (fuel size start start' : ℕ) (d d' : Dict Text)
    → start < size
    → decode_field decode_utf8 bytes size start d ≡ ok (start', d')
    → decode_fields decode_utf8 (suc fuel) bytes size start d
      ≡ decode_fields decode_utf8 fuel bytes size start' d'
unfolding decode_fields
decode_fields-next bytes fuel size start start' d d' more e = rw (lt→ltb start size more, e)

regroup :
    (pre n f rest extra : Bytes)
    → (pre ++ (n ++ (f ++ (rest ++ extra))) ≡ pre ++ ((n ++ (f ++ rest)) ++ extra))
      × (pre ++ (n ++ (f ++ (rest ++ extra))) ≡ (pre ++ (n ++ f)) ++ (rest ++ extra))
regroup pre n f rest extra = (simp append_assoc, simp append_assoc)

-- The prefix of the whole header.
decode-framed :
    (s extra : Bytes)
    → decode_ros_handshake_header decode_utf8 (le (length s) ++ (s ++ extra))
      ≡ decode_fields decode_utf8 (length s + 4) (le (length s) ++ (s ++ extra)) (length s + 4) 4 []
unfolding decode_ros_handshake_header
decode-framed s extra = rw (read_size, in_bounds)
  where
    read_size : unpack (take 4 (le (length s) ++ (s ++ extra))) ≡ ok (length s)
    read_size = unpack-le (length s)

    in_bounds : ltb (length (le (length s) ++ (s ++ extra))) (length s + 4) ≡ false
    in_bounds = ground (arith, length-append s extra)

add_all-distinct :
    (header d : Dict Text) → IsDistinct (d ++ header) → add_all header d ≡ d ++ header
add_all-distinct [] d h = sym (append-nil d)
add_all-distinct ((k, v) ∷ header) d h =
    let step = insert-append k v d header h in
    let regrouped = append_assoc d ((k, v) ∷ []) header in
    rw step (add_all-distinct header (d ++ (k, v) ∷ []) (rw regrouped h) ∙ regrouped)

-- The loop over what was encoded: it adds every line and stops at the end of the header.
decode_fields-encode :
    (header : Dict Text) (pre s extra bytes : Bytes) (fuel size start : ℕ) (d : Dict Text)
    → IsPlain header
    → encode_fields encode_utf8 header ≡ ok s
    → bytes ≡ pre ++ (s ++ extra)
    → start ≡ length pre
    → size ≡ length pre + length s
    → length s < fuel
    → decode_fields decode_utf8 fuel bytes size start d ≡ ok (add_all header d)
decode_fields-encode header pre s extra bytes zero size start d plain e whole at_pre total fuelled =
    absurd (omega arith)
decode_fields-encode [] pre s extra bytes (suc fuel) size start d plain e whole at_pre total
      fuelled =
    decode_fields-end bytes fuel size start d (omega (arith, ap length no_bytes))
  where
    no_bytes : s ≡ []
    no_bytes = unfold encode_fields in cc
decode_fields-encode ((k, v) ∷ header) pre s extra bytes (suc fuel) size start d plain e whole
      at_pre total fuelled =
    let (rest, tail, framed) = encode_fields-cons k v header s plain.0 e in
    let n = le (length (line_of k v)) in
    let f = line_of k v in
    let (inner, outer) = regroup pre n f rest extra in
    let whole' : bytes ≡ pre ++ (n ++ (f ++ (rest ++ extra))) = whole ∙ rw framed (sym inner) in
    let sizes : length s ≡ 4 + length f + length rest =
      rw framed (omega (arith, length-append f rest)) in
    decode_fields-next bytes fuel size start (length pre + length f + 4) d (insert k v d)
      (omega arith)
      (rw (whole', at_pre)
        (decode_field-line pre k v (rest ++ extra) size d plain.0 plain.1 plain.2 (omega arith)))
    ∙ decode_fields-encode header (pre ++ (n ++ f)) rest extra bytes fuel size
        (length pre + length f + 4) (insert k v d) plain.3 tail (whole' ∙ outer)
        (omega (arith, length-append pre (n ++ f))) (omega (arith, length-append pre (n ++ f)))
        (omega arith)

-- A header that `encode_ros_handshake_header` encodes is what `decode_ros_handshake_header` returns,
-- whatever bytes follow it.
pub decode-encode :
    (header : Dict Text) (bytes extra : Bytes)
    → IsPlain header
    → IsDistinct header
    → encode_ros_handshake_header encode_utf8 header ≡ ok bytes
    → decode_ros_handshake_header decode_utf8 (bytes ++ extra) ≡ ok header
unfolding encode_ros_handshake_header
decode-encode header bytes extra plain distinct e =
    let (s, fields, e') = >>=-eq-ok (encode_fields encode_utf8 header) e in
    let (n, packed, e'') = >>=-eq-ok (pack (length s)) e' in
    let framed : n ++ s ≡ bytes = cc in
    let bytes_eq : bytes ++ extra ≡ le (length s) ++ (s ++ extra) =
      rw (sym framed, pack-eq-ok (length s) n packed) in
    rw bytes_eq (
      decode-framed s extra
      ∙ decode_fields-encode header (le (length s)) s extra _ (length s + 4) (length s + 4) 4 []
          plain fields refl refl (omega arith) (omega arith)
      ∙ ap ok (add_all-distinct header [] distinct))
