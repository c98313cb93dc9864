-- ===== src/Handshake/Field.antt =====
-- src/ros/roslib/src/roslib/network.py: one field of an encoded header.
use xc_ros.Prelude.{
  ℕ, ◌+◌, ◌-◌, ◌/◌, ◌%◌, ◌≤◌, ◌<◌, ◌≡◌, refl, ◌∙◌, ap, false, [], ◌∷◌, ◌++◌, arith, ltb, ◌==◌,
  length, take, drop, drop-append, take-append,
}
use xc_ros.Prelude.Text.{Text}
use xc_ros.Prelude.Str.{has, strip, before-append, after-append, has-append}
use xc_ros.Prelude.Dict.{Dict, insert}
use xc_ros.Prelude.Result.{Result, ok, >>=-eq-ok}
use xc_ros.Handshake.{
  Error, Bytes, pack, unpack, line_of, add_line, encode_field, decode_field, read_line,
}
use xc_ros.Handshake.Utf8.{encode_utf8, decode_utf8, IsAscii, encode_utf8-ascii, decode_utf8-ascii}

-- A header that the format can carry: ASCII texts, and keys that hold no `=` and no white space at
-- their ends.
abbrev pub IsPlain : Dict Text → Type 0
IsPlain [] = Unit
IsPlain ((k, v) ∷ header) =
    IsAscii (line_of k v) × (has b'=' k ≡ false) × (strip k ≡ k) × IsPlain header

-- the dictionary that the decoder builds, line by line
abbrev pub add_all : Dict Text → Dict Text → Dict Text
add_all [] d = d
add_all ((k, v) ∷ header) d = add_all header (insert k v d)

-- the four bytes of a length
abbrev pub le : ℕ → Bytes
le n = (n % 256) ∷ (n / 256 % 256) ∷ (n / 65536 % 256) ∷ (n / 16777216) ∷ []

pub pack-eq-ok : (n : ℕ) (b : Bytes) → pack n ≡ ok b → b ≡ le n
unfolding pack
pack-eq-ok n b h = ground arith

pub unpack-le : (n : ℕ) → unpack (le n) ≡ ok n
unfolding unpack
unpack-le n = ap ok (omega arith)

pub add_line-line_of :
    (k v : Text) (d : Dict Text)
    → has b'=' k ≡ false
    → strip k ≡ k
    → add_line (line_of k v) d ≡ ok (insert k v d)
unfolding add_line has
add_line-line_of k v d free trimmed =
    rw
      (
        has-append b'=' k (b'=' ∷ v),
        free,
        before-append b'=' k v free,
        after-append b'=' k v free,
        trimmed,
      )
      refl

-- A field of ASCII text is its length and the text.
pub encode_field-ascii :
    (f : Text) (s : Bytes) → IsAscii f → encode_field encode_utf8 f ≡ ok s → s ≡ le (length f) ++ f
unfolding encode_field
encode_field-ascii f s h e =
    let (n, packed, rest) = >>=-eq-ok (pack (length f)) e in
    frame n (pack-eq-ok (length f) n packed) (rw (encode_utf8-ascii f h) at rest)
  where
    frame :
        (n : Bytes)
        → n ≡ le (length f)
        → ◌≡◌ {A = Result Error Bytes} (ok (n ++ f)) (ok s)
        → s ≡ le (length f) ++ f
    frame n same_n same_s = cc

-- The body of the loop at a field: `start` moves behind it and its line is read.
pub decode_field-frame :
    (pre f rest : Bytes) (size : ℕ) (d : Dict Text)
    → 0 < length f
    → length pre + 4 + length f ≤ size
    → decode_field decode_utf8 (pre ++ (le (length f) ++ (f ++ rest))) size (length pre) d
      ≡ read_line decode_utf8 (length pre + length f + 4) f d
unfolding decode_field
decode_field-frame pre f rest size d some_text fits =
    rw (read_length, not_empty, in_bounds, read_text)
  where
    frames : Bytes
    frames = le (length f) ++ (f ++ rest)

    read_length : unpack (take 4 (drop (length pre) (pre ++ frames))) ≡ ok (length f)
    read_length =
        ap (λ (l : Bytes). unpack (take 4 l)) (drop-append pre frames (length pre) 0 (omega arith))
        ∙ unpack-le (length f)

    not_empty : (length f == 0) ≡ false
    not_empty = ground arith

    in_bounds : ltb size (length pre + length f + 4) ≡ false
    in_bounds = ground arith

    read_text : take (length f) (drop (length pre + length f + 4 - length f) (pre ++ frames)) ≡ f
    read_text =
        ap (take (length f))
          (drop-append pre frames (length pre + length f + 4 - length f) 4 (omega arith))
        ∙ take-append f rest (length f) refl

-- the same, down to the dictionary
pub decode_field-line :
    (pre k v : Text) (rest : Bytes) (size : ℕ) (d : Dict Text)
    → IsAscii (line_of k v)
    → has b'=' k ≡ false
    → strip k ≡ k
    → length pre + 4 + length (line_of k v) ≤ size
    → decode_field decode_utf8
        (pre ++ (le (length (line_of k v)) ++ (line_of k v ++ rest)))
        size
        (length pre)
        d
      ≡ ok (length pre + length (line_of k v) + 4, insert k v d)
decode_field-line pre k v rest size d ascii free trimmed fits =
    decode_field-frame pre (line_of k v) rest size d (some_text k) fits
    ∙ rw (decode_utf8-ascii (line_of k v) ascii, add_line-line_of k v d free trimmed)
  where
    some_text : (k : Text) → 0 < length (line_of k v)
    some_text [] = omega arith
    some_text (c ∷ k) = omega arith
