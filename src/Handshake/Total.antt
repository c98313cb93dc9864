-- ===== src/Handshake/Total.antt =====
-- src/ros/roslib/src/roslib/network.py: decoding ends on every input.
use xc_ros.Prelude.{
  ℕ, zero, suc, ◌+◌, ◌-◌, ◌<◌, ◌≡◌, ◌≢◌, ap, Bool, true, false, [], arith, ltb, ltb→lt, length,
  take, drop, ◌==◌, if◌then◌else◌, Bool-cases, inl, inr,
}
use xc_ros.Prelude.Text.{Text}
use xc_ros.Prelude.Dict.{Dict}
use xc_ros.Prelude.Str.{has}
use xc_ros.Prelude.Result.{Result, ok, err, ◌>>=◌}
use xc_ros.Handshake.Utf8.{decode_utf8, decode_utf8-error}
use xc_ros.Handshake.{
  Error, Bytes, out_of_fuel, unicode_decode, incomplete, zero_length, invalid_length, invalid_line,
  unpack, add_line, read_line, decode_field, decode_fields, decode_ros_handshake_header,
}

unpack-fuel : (b : Bytes) → unpack b ≢ err out_of_fuel
unfolding unpack
unpack-fuel b h = ground arith

-- A round either fails for a reason of the format, or moves on by more than four bytes.
abbrev Advances : ℕ → Result Error (ℕ × Dict Text) → Type 0
Advances start (ok (start', d)) = start + 4 < start'
Advances start (err e) = e ≢ out_of_fuel

not_zero : (n : ℕ) → (suc n == 0) ≡ false
not_zero n = ground arith

err-injective : {A : Type 0} {e e' : Error} → ◌≡◌ {A = Result Error A} (err e) (err e') → e ≡ e'
err-injective h = cc

module _ (decode_text : Bytes → Result Error Text)
    (decodes : (b : Bytes) → decode_text b ≢ err out_of_fuel) where
  read_line-Advances :
      (start : ℕ) (n : ℕ) (line : Bytes) (d : Dict Text)
      → start + 4 < n
      → Advances start (read_line decode_text n line d)
  unfolding add_line
  read_line-Advances start n line d more = split (decode_text line) (decodes line)
    where
      added :
          (b : Bool) (d' : Dict Text)
          → Advances start ((if b then ok d' else err invalid_line) >>= λ d''. ok (n, d''))
      added true d' = more
      added false d' = λ e. cc

      split :
          (r : Result Error Text)
          → r ≢ err out_of_fuel
          → Advances start (do text ← r; d' ← add_line text d; ok (n, d'))
      split (ok text) h = added (has b'=' text) _
      split (err e) h = λ same. h (ap err same)

  decode_field-Advances :
      (bytes : Bytes) (size start : ℕ) (d : Dict Text)
      → Advances start (decode_field decode_text bytes size start d)
  unfolding decode_field
  decode_field-Advances bytes size start d =
      split (unpack (take 4 (drop start bytes))) (unpack-fuel (take 4 (drop start bytes)))
    where
      bounded :
          (n : ℕ) (over : Bool)
          → n ≢ 0
          → Advances start (
              if over
              then err invalid_length
              else read_line decode_text
                  (start + n + 4)
                  (take n (drop (start + n + 4 - n) bytes))
                  d)
      bounded n true h = λ e. cc
      bounded n false h = read_line-Advances start (start + n + 4) _ d (omega arith)

      split :
          (r : Result Error ℕ)
          → r ≢ err out_of_fuel
          → Advances start (
              r >>= λ n.
              if n == 0
              then err zero_length
              else (if ltb size (start + n + 4)
                  then err invalid_length
                  else read_line decode_text
                      (start + n + 4)
                      (take n (drop (start + n + 4 - n) bytes))
                      d))
      split (err e) h = λ same. h (ap err same)
      split (ok zero) h = λ e. cc
      split (ok (suc n)) h =
          rw (not_zero n) (bounded (suc n) (ltb size (start + suc n + 4)) (λ e. cc))

  -- Fuel for the bytes that are left, and for the last test, is enough.
  decode_fields-fuel :
      (fuel : ℕ) (bytes : Bytes) (size start : ℕ) (d : Dict Text)
      → size < start + fuel
      → 0 < fuel
      → decode_fields decode_text fuel bytes size start d ≢ err out_of_fuel
  unfolding decode_fields
  decode_fields-fuel zero bytes size start d h some_fuel = absurd (omega arith)
  decode_fields-fuel (suc fuel) bytes size start d h some_fuel =
      elim (Bool-cases (ltb start size)) [
        | inl more ↦ rw more (
            next (ltb→lt start size more)
              (λ start' d'. decode_fields-fuel fuel bytes size start' d')
              (decode_field decode_text bytes size start d)
              (decode_field-Advances bytes size start d))
        | inr over ↦ rw over (λ e. cc)
      ]
    where
      next :
          start < size
          → ((start' : ℕ) (d' : Dict Text)
              → size < start' + fuel
              → 0 < fuel
              → decode_fields decode_text fuel bytes size start' d' ≢ err out_of_fuel)
          → (r : Result Error (ℕ × Dict Text)) → Advances start r
          → (r >>= λ (start', d'). decode_fields decode_text fuel bytes size start' d')
            ≢ err out_of_fuel
      next more ih (ok (start', d')) on = ih start' d' (omega arith) (omega arith)
      next more ih (err e) on = λ same. on (err-injective same)

  decode-fuel :
      (header_str : Bytes) → decode_ros_handshake_header decode_text header_str ≢ err out_of_fuel
  unfolding decode_ros_handshake_header
  decode-fuel header_str = split (unpack (take 4 header_str)) (unpack-fuel (take 4 header_str))
    where
      checked :
          (n : ℕ) (b : Bool)
          → (if b
              then err incomplete
              else decode_fields decode_text (n + 4) header_str (n + 4) 4 [])
            ≢ err out_of_fuel
      checked n true = λ e. cc
      checked n false =
          decode_fields-fuel (n + 4) header_str (n + 4) 4 [] (omega arith) (omega arith)

      split :
          (r : Result Error ℕ)
          → r ≢ err out_of_fuel
          → (r >>= λ n.
              if ltb (length header_str) (n + 4)
              then err incomplete
              else decode_fields decode_text (n + 4) header_str (n + 4) 4 [])
            ≢ err out_of_fuel
      split (ok n) h = checked n (ltb (length header_str) (n + 4))
      split (err e) h = λ same. h (ap err (err-injective same))

-- Decoding ends on every input: the loop's fuel is never used up.
pub decode-ends :
    (header_str : Bytes) → decode_ros_handshake_header decode_utf8 header_str ≢ err out_of_fuel
decode-ends = decode-fuel decode_utf8 λ b e. codec_error (decode_utf8-error b out_of_fuel e)
  where
    codec_error : out_of_fuel ≡ unicode_decode → ⊥
    codec_error e = cc
