-- ===== src/Handshake.antt =====
-- src/ros/roslib/src/roslib/network.py: the handshake header, in the Python 3 form of the code.
pub mod Utf8
pub mod Field
pub mod Roundtrip
pub mod Total
pub mod Read
mod Tests
use xc_ros.Prelude.{
  ℕ, zero, suc, ◌+◌, ◌-◌, ◌*◌, ◌/◌, ◌%◌, ◌^◌, Bool, true, false, List, [], ◌∷◌, ◌++◌, Option, none,
  some, ltb, ◌==◌, length, take, drop, if◌then◌else◌,
}
use xc_ros.Prelude.Text.{Text}
use xc_ros.Prelude.Str.{has, before, after, strip}
use xc_ros.Prelude.Dict.{Dict, insert}
use xc_ros.Prelude.Result.{Result, ok, err, ◌>>=◌}

pub data Error : Type 0 where
  -- `struct.error`, from `pack` and from `unpack`
  struct_error : Error
  -- the codec's errors
  unicode_encode unicode_decode : Error
  -- the ROSHandshakeExceptions
  incomplete zero_length invalid_length invalid_line terminated : Error
  -- the model's loop ran out of rounds
  out_of_fuel : Error

abbrev pub Bytes : Type 0
Bytes = List ℕ

-- `struct.pack('<I', n)` and `struct.unpack('<I', b)`
unfoldable pub pack : ℕ → Result Error Bytes
pack n =
    if ltb n (2 ^ 32)
    then ok ((n % 256) ∷ (n / 256 % 256) ∷ (n / 65536 % 256) ∷ (n / 16777216) ∷ [])
    else err struct_error

unfoldable pub unpack : Bytes → Result Error ℕ
unpack (a ∷ b ∷ c ∷ d ∷ []) = ok (a + 256 * b + 65536 * c + 16777216 * d)
unpack _ = err struct_error

-- "%s=%s" % (k, v)
abbrev pub line_of : Text → Text → Text
line_of k v = k ++ (b'=' ∷ v)

-- `key = line[:idx]`, `value = line[idx+1:]`, `d[key.strip()] = value`
unfoldable pub add_line : Text → Dict Text → Result Error (Dict Text)
add_line line d =
    if has b'=' line
    then ok (insert (strip (before b'=' line)) (after b'=' line) d)
    else err invalid_line

-- The text codec of `str.encode` and `bytes.decode`: `Utf8` has it.
module _ (encode_text : Text → Result Error Bytes) where
  -- one field: the length of the text, counted in characters, and the encoded text
  unfoldable pub encode_field : Text → Result Error Bytes
  encode_field f = do n ← pack (length f); bytes ← encode_text f; ok (n ++ bytes)

  unfoldable pub encode_fields : Dict Text → Result Error Bytes
  encode_fields [] = ok []
  encode_fields ((k, v) ∷ header) = do
    f ← encode_field (line_of k v)
    rest ← encode_fields header
    ok (f ++ rest)

  unfoldable pub encode_ros_handshake_header : Dict Text → Result Error Bytes
  encode_ros_handshake_header header = do s ← encode_fields header; n ← pack (length s); ok (n ++ s)

module _ (decode_text : Bytes → Result Error Text) where
  abbrev pub read_line : ℕ → Bytes → Dict Text → Result Error (ℕ × Dict Text)
  read_line start line d = do text ← decode_text line; d' ← add_line text d; ok (start, d')

  -- The body of the `while` loop: the new `start` and dictionary.
  unfoldable pub decode_field : Bytes → ℕ → ℕ → Dict Text → Result Error (ℕ × Dict Text)
  decode_field header_str size start d = do
    field_size ← unpack (take 4 (drop start header_str))
    let start' = start + field_size + 4
    let line = take field_size (drop (start' - field_size) header_str)
    if field_size == 0
        then err zero_length
        else (if ltb size start' then err invalid_length else read_line start' line d)

  -- `while start < size`, on fuel
  unfoldable pub decode_fields : ℕ → Bytes → ℕ → ℕ → Dict Text → Result Error (Dict Text)
  decode_fields zero header_str size start d = err out_of_fuel
  decode_fields (suc fuel) header_str size start d =
      let next = decode_field header_str size start d >>= λ (start', d').
      decode_fields fuel header_str size start' d' in
      if ltb start size then next else ok d

  -- Each round moves `start` on by five at least, so `size` rounds are enough.
  unfoldable pub decode_ros_handshake_header : Bytes → Result Error (Dict Text)
  decode_ros_handshake_header header_str = do
    n ← unpack (take 4 header_str)
    let size = n + 4
    if ltb (length header_str) size then err incomplete else decode_fields size header_str size 4 []
