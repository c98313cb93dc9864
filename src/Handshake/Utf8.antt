-- ===== src/Handshake/Utf8.antt =====
-- src/ros/roslib/src/roslib/network.py: the UTF-8 codec that `str.encode` and `bytes.decode` apply to
-- a line of the handshake header.
use xc_ros.Prelude.{
  ℕ, ◌+◌, ◌-◌, ◌*◌, ◌/◌, ◌%◌, ◌≡◌, refl, Bool, true, false, not, ◌&&◌, [], ◌∷◌, ◌++◌, ltb, leb,
  if◌then◌else◌,
}
use xc_ros.Prelude.Text.{Text}
use xc_ros.Prelude.Result.{Result, ok, err, ◌>>=◌}
use xc_ros.Handshake.{Error, unicode_encode, unicode_decode, Bytes}

-- the code points that have no encoding: the surrogates
abbrev is_surrogate : ℕ → Bool
is_surrogate c = leb 0xd800 c && leb c 0xdfff

unfoldable pub encode_char : ℕ → Result Error Bytes
encode_char c =
    if ltb c 0x80
    then ok (c ∷ [])
    else (if ltb c 0x800
        then ok ((0xc0 + c / 64) ∷ (0x80 + c % 64) ∷ [])
        else (if is_surrogate c
            then err unicode_encode
            else (if ltb c 0x10000
                then ok ((0xe0 + c / 4096) ∷ (0x80 + c / 64 % 64) ∷ (0x80 + c % 64) ∷ [])
                else ok (
                    (0xf0 + c / 262144)
                    ∷ (0x80 + c / 4096 % 64)
                    ∷ (0x80 + c / 64 % 64)
                    ∷ (0x80 + c % 64)
                    ∷ []))))

unfoldable pub encode_utf8 : Text → Result Error Bytes
unfolding encode_char
encode_utf8 [] = ok []
encode_utf8 (c ∷ s) = do b ← encode_char c; rest ← encode_utf8 s; ok (b ++ rest)

-- the payload of a continuation byte
abbrev is_continuation : ℕ → Bool
is_continuation b = leb 0x80 b && ltb b 0xc0

abbrev two_bytes : ℕ → ℕ → Result Error ℕ
two_bytes a b =
    if leb 0xc2 a && ltb a 0xe0 && is_continuation b
    then ok ((a - 0xc0) * 64 + (b - 0x80))
    else err unicode_decode

-- neither overlong nor a surrogate
abbrev three_bytes : ℕ → ℕ → ℕ → Result Error ℕ
three_bytes a b c =
    let v = (a - 0xe0) * 4096 + (b - 0x80) * 64 + (c - 0x80) in
    if leb 0xe0 a
      && ltb a 0xf0
      && is_continuation b
      && is_continuation c
      && leb 0x800 v
      && not (is_surrogate v)
    then ok v
    else err unicode_decode

abbrev four_bytes : ℕ → ℕ → ℕ → ℕ → Result Error ℕ
four_bytes a b c d =
    let v = (a - 0xf0) * 262144 + (b - 0x80) * 4096 + (c - 0x80) * 64 + (d - 0x80) in
    if leb 0xf0 a
      && ltb a 0xf5
      && is_continuation b
      && is_continuation c
      && is_continuation d
      && leb 0x10000 v
      && leb v 0x10ffff
    then ok v
    else err unicode_decode

-- a first byte that starts a longer sequence decides how many bytes are read
abbrev cons_ok : Result Error ℕ → Result Error Text → Result Error Text
cons_ok r s = do c ← r; t ← s; ok (c ∷ t)

unfoldable pub decode_utf8 : Bytes → Result Error Text
decode_utf8 [] = ok []
decode_utf8 (a ∷ []) = if ltb a 0x80 then ok (a ∷ []) else err unicode_decode
decode_utf8 (a ∷ b ∷ []) =
    let one = cons_ok (ok a) (decode_utf8 (b ∷ [])) in
    if ltb a 0x80 then one else cons_ok (two_bytes a b) (ok [])
decode_utf8 (a ∷ b ∷ c ∷ []) =
    let one = cons_ok (ok a) (decode_utf8 (b ∷ c ∷ [])) in
    let two = cons_ok (two_bytes a b) (decode_utf8 (c ∷ [])) in
    if ltb a 0x80 then one else (if ltb a 0xe0 then two else cons_ok (three_bytes a b c) (ok []))
decode_utf8 (a ∷ b ∷ c ∷ d ∷ s) =
    let one = cons_ok (ok a) (decode_utf8 (b ∷ c ∷ d ∷ s)) in
    let two = cons_ok (two_bytes a b) (decode_utf8 (c ∷ d ∷ s)) in
    let three = cons_ok (three_bytes a b c) (decode_utf8 (d ∷ s)) in
    let four = cons_ok (four_bytes a b c d) (decode_utf8 s) in
    if ltb a 0x80 then one else (if ltb a 0xe0 then two else (if ltb a 0xf0 then three else four))

-- Texts of ASCII characters.
abbrev pub IsAscii : Text → Type 0
IsAscii [] = Unit
IsAscii (c ∷ s) = (ltb c 0x80 ≡ true) × IsAscii s

pub encode_utf8-ascii : (s : Text) → IsAscii s → encode_utf8 s ≡ ok s
unfolding encode_utf8
encode_utf8-ascii [] h = refl
encode_utf8-ascii (c ∷ s) h = rw (h.0, encode_utf8-ascii s h.1)

pub decode_utf8-ascii : (s : Text) → IsAscii s → decode_utf8 s ≡ ok s
unfolding decode_utf8
decode_utf8-ascii [] h = refl
decode_utf8-ascii (a ∷ []) h = rw h.0
decode_utf8-ascii (a ∷ b ∷ []) h = rw (h.0, decode_utf8-ascii (b ∷ []) h.1)
decode_utf8-ascii (a ∷ b ∷ c ∷ []) h = rw (h.0, decode_utf8-ascii (b ∷ c ∷ []) h.1)
decode_utf8-ascii (a ∷ b ∷ c ∷ d ∷ s) h = rw (h.0, decode_utf8-ascii (b ∷ c ∷ d ∷ s) h.1)

-- The decoder's only error is its own.
record Undecoded {ℓ} {A : Type ℓ} (r : Result Error A) : Type ℓ where
  at : (e : Error) → r ≡ err e → e ≡ unicode_decode

ok-Undecoded {ℓ} : {A : Type ℓ} (a : A) → Undecoded (ok a)
ok-Undecoded a = record { at = λ e h. cc }

err-Undecoded : Undecoded {A = ℕ} (err unicode_decode)
err-Undecoded = record { at = λ e h. cc }

err_text-Undecoded : Undecoded {A = Text} (err unicode_decode)
err_text-Undecoded = record { at = λ e h. cc }

cons_ok-Undecoded :
    (r : Result Error ℕ) (t : Result Error Text)
    → Undecoded r
    → Undecoded t
    → Undecoded (cons_ok r t)
cons_ok-Undecoded (ok c) (ok s) h k = ok-Undecoded (c ∷ s)
cons_ok-Undecoded (ok c) (err e) h k = record { at = λ x p. k.at x (cc) }
cons_ok-Undecoded (err e) t h k = record { at = λ x p. h.at x (cc) }

if-Undecoded {ℓ} :
    {A : Type ℓ} (b : Bool) (x y : Result Error A)
    → Undecoded x
    → Undecoded y
    → Undecoded (if b then x else y)
if-Undecoded true x y h k = h
if-Undecoded false x y h k = k

two_bytes-Undecoded : (a b : ℕ) → Undecoded (two_bytes a b)
two_bytes-Undecoded a b = if-Undecoded _ _ _ (ok-Undecoded _) err-Undecoded

three_bytes-Undecoded : (a b c : ℕ) → Undecoded (three_bytes a b c)
three_bytes-Undecoded a b c = if-Undecoded _ _ _ (ok-Undecoded _) err-Undecoded

four_bytes-Undecoded : (a b c d : ℕ) → Undecoded (four_bytes a b c d)
four_bytes-Undecoded a b c d = if-Undecoded _ _ _ (ok-Undecoded _) err-Undecoded

decode_utf8-Undecoded : (b : Bytes) → Undecoded (decode_utf8 b)
unfolding decode_utf8
decode_utf8-Undecoded [] = ok-Undecoded []
decode_utf8-Undecoded (a ∷ []) = if-Undecoded _ _ _ (ok-Undecoded (a ∷ [])) err_text-Undecoded
decode_utf8-Undecoded (a ∷ b ∷ []) =
    if-Undecoded _ _ _
      (cons_ok-Undecoded (ok a) _ (ok-Undecoded a) (decode_utf8-Undecoded (b ∷ [])))
      (cons_ok-Undecoded _ _ (two_bytes-Undecoded a b) (ok-Undecoded []))
decode_utf8-Undecoded (a ∷ b ∷ c ∷ []) =
    if-Undecoded _ _ _
      (cons_ok-Undecoded (ok a) _ (ok-Undecoded a) (decode_utf8-Undecoded (b ∷ c ∷ [])))
      (if-Undecoded _ _ _
        (cons_ok-Undecoded _ _ (two_bytes-Undecoded a b) (decode_utf8-Undecoded (c ∷ [])))
        (cons_ok-Undecoded _ _ (three_bytes-Undecoded a b c) (ok-Undecoded [])))
decode_utf8-Undecoded (a ∷ b ∷ c ∷ d ∷ s) =
    if-Undecoded _ _ _
      (cons_ok-Undecoded (ok a) _ (ok-Undecoded a) (decode_utf8-Undecoded (b ∷ c ∷ d ∷ s)))
      (if-Undecoded _ _ _
        (cons_ok-Undecoded _ _ (two_bytes-Undecoded a b) (decode_utf8-Undecoded (c ∷ d ∷ s)))
        (if-Undecoded _ _ _
          (cons_ok-Undecoded _ _ (three_bytes-Undecoded a b c) (decode_utf8-Undecoded (d ∷ s)))
          (cons_ok-Undecoded _ _ (four_bytes-Undecoded a b c d) (decode_utf8-Undecoded s))))

pub decode_utf8-error : (b : Bytes) (e : Error) → decode_utf8 b ≡ err e → e ≡ unicode_decode
decode_utf8-error b = (decode_utf8-Undecoded b).at
