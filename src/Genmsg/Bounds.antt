-- ===== src/Genmsg/Bounds.antt =====
-- src/genmsg/src/genmsg/msg_loader.py: the range of an integer constant.
use xc_ros.Prelude.{
  ℕ, ◌-◌, ◌^◌, ◌≤◌, ◌≡◌, refl, sym, subst, ◌⊎◌, inl, inr, Bool, true, false, [], ◌∷◌, none, some,
  ltb, if◌then◌else◌, arith,
}
use xc_ros.Prelude.Text.{Text, codes, same, same_iff, mem}
use xc_ros.Prelude.Int.{ℤ, pos, negsuc, ◌-ℤ◌}
use xc_ros.Prelude.Result.{ok, err}
use xc_ros.Genmsg.{invalid_msg_spec}
use xc_ros.Genmsg.Types.{int_of}
use xc_ros.Genmsg.Constants.{Builtins, int, bits_of, is_unsigned, bounded, convert_constant_value}

-- Whether an integer of `b` bits can have the value, in two's complement if it is signed.
abbrev pub fits : Bool → ℕ → ℤ → Bool
fits true b (pos n) = ltb n (2 ^ b)
fits true b (negsuc n) = false
fits false b (pos n) = ltb n (2 ^ (b - 1))
fits false b (negsuc n) = ltb n (2 ^ (b - 1))

-- What the table of bits lacks is not one of its types.
differs :
    (u t : Text) {b : ℕ}
    → bits_of u ≡ none
    → bits_of t ≡ some b
    → (same u t ≡ false) × (same t u ≡ false)
differs u t h e = (ground (arith, same_iff u t), ground (arith, same_iff t u))

no_bits :
    (bits_of (codes "float32") ≡ none)
    × (bits_of (codes "float64") ≡ none)
    × (bits_of (codes "string") ≡ none)
unfolding bits_of mem same
no_bits = (refl, refl, refl)

integral :
    (t : Text) {b : ℕ}
    → bits_of t ≡ some b
    → (mem t (codes "float32" ∷ codes "float64" ∷ []) ≡ false) × (same t (codes "string") ≡ false)
unfolding mem
integral t e = (
  rw ((differs (codes "float32") t no_bits.0 e).0, (differs (codes "float64") t no_bits.1 e).0)
      refl,
  (differs (codes "string") t no_bits.2 e).1,
)

narrow : (t : Text) {b : ℕ} → bits_of t ≡ some b → b ≤ 32 → ((b ≡ 8) ⊎ (b ≡ 16)) ⊎ (b ≡ 32)
unfolding bits_of
narrow t e h = ground arith

module _ (builtins : Builtins) where
  abbrev Fits : Text → ℕ → ℤ → Type 0
  Fits t b n =
      bounded builtins t b (some n)
      ≡ (if fits (is_unsigned t) b n then ok (int n) else err invalid_msg_spec)

  bounds_8 : (t : Text) (n : ℤ) → Fits t 8 n
  unfolding ◌-ℤ◌
  bounds_8 t (pos n) = ground arith
  bounds_8 t (negsuc n) = ground arith

  bounds_16 : (t : Text) (n : ℤ) → Fits t 16 n
  unfolding ◌-ℤ◌
  bounds_16 t (pos n) = ground arith
  bounds_16 t (negsuc n) = ground arith

  bounds_32 : (t : Text) (n : ℤ) → Fits t 32 n
  unfolding ◌-ℤ◌
  bounds_32 t (pos n) = ground arith
  bounds_32 t (negsuc n) = ground arith

  bounded-eq : (t : Text) (b : ℕ) (n : ℤ) → ((b ≡ 8) ⊎ (b ≡ 16)) ⊎ (b ≡ 32) → Fits t b n
  bounded-eq t b n (inl (inl e)) = subst (λ w. Fits t w n) (sym e) (bounds_8 t n)
  bounded-eq t b n (inl (inr e)) = subst (λ w. Fits t w n) (sym e) (bounds_16 t n)
  bounded-eq t b n (inr e) = subst (λ w. Fits t w n) (sym e) (bounds_32 t n)

  -- An integer constant of at most 32 bits is taken exactly if its type has the value, and refused
  -- as an invalid specification otherwise.
  pub convert_constant_value-fits :
      (t val : Text) {b : ℕ} {n : ℤ}
      → bits_of t ≡ some b
      → b ≤ 32
      → int_of builtins.unicode val ≡ some n
      → convert_constant_value builtins t val
        ≡ (if fits (is_unsigned t) b n then ok (int n) else err invalid_msg_spec)
  unfolding convert_constant_value
  convert_constant_value-fits t val {b = b} {n = n} e h k =
      rw (integral t e).0 (rw ((integral t e).1, e, k) (bounded-eq t b n (narrow t e h)))
