-- ===== src/Message/Typing.antt =====
-- src/genpy/src/genpy/message.py: `check_type` against a typing relation.
use native.Mathlib.Nat.{one-le-pow}
use xc_ros.Prelude.{
  ℕ, suc, ◌-◌, ◌^◌, ◌<◌, ◌≡◌, refl, ap, subst, ◌↔◌, ◌⊎◌, inl, inr, Bool, true, false, ◌&&◌, ◌||◌,
  List, [], ◌∷◌, arith, Bool-cases,
}
use xc_ros.Prelude.Text.{Text, codes, same_iff, mem}
use xc_ros.Prelude.Int.{ℤ, pos, negsuc, ◌-ℤ◌, ltb_ℤ, eqb_ℤ}
use xc_ros.Prelude.Result.{Result, ok, err}
use xc_ros.Rostime.{TVal}
use xc_ros.Message.{
  Error, serialization_error, Value, int, float, bool, str, bytes, time, duration, list, tuple,
  message, Values, nil, cons, Slots, end, slot, Kind, signed, unsigned, boolean, unchecked, string,
  time_kind, duration_kind, array, unopened, named, kind_of, check, is_ascii, in_signed,
  in_unsigned, names_match, header_types, is_byte_type, then_check, check_kind, check_values,
  check_slots, check_type,
}

-- The integers of `w` bits in two's complement, but for the least one.
abbrev pub IsSigned : ℕ → ℤ → Type 0
IsSigned w (pos n) = n < 2 ^ (w - 1)
IsSigned w (negsuc n) = suc n < 2 ^ (w - 1)

abbrev pub IsUnsigned : ℕ → ℤ → Type 0
IsUnsigned w (pos n) = n < 2 ^ w
IsUnsigned w (negsuc n) = ⊥

abbrev pub IsAscii : Text → Type 0
IsAscii [] = Unit
IsAscii (c ∷ s) = (c < 128) × IsAscii s

-- Which messages a named type takes: those of the type itself, and every header for a header.
pub data Names : Text → Text → Type 0 where
  itself : {type : Text} → mem type header_types ≡ false → Names type type
  header :
      {type field_type : Text}
      → mem type header_types ≡ true
      → mem field_type (codes "Header" ∷ header_types) ≡ true
      → Names type field_type

module _ (F : Type 0) (is_bit : F → Bool) where
  -- The typing relation of field values.
  mutual
    pub data HasKind : Kind → Value F → Type 0 where
      signed_int : {w : ℕ} {n : ℤ} → IsSigned w n → HasKind (signed w) (int n)
      unsigned_int : {w : ℕ} {n : ℤ} → IsUnsigned w n → HasKind (unsigned w) (int n)
      bool_bool : (b : Bool) → HasKind boolean (bool b)
      bool_zero : {n : ℤ} → n ≡ pos 0 → HasKind boolean (int n)
      bool_one : {n : ℤ} → n ≡ pos 1 → HasKind boolean (int n)
      bool_float : {x : F} → is_bit x ≡ true → HasKind boolean (float x)
      any : (v : Value F) → HasKind unchecked v
      ascii : {s : Text} → IsAscii s → HasKind string (str s)
      raw : (b : List ℕ) → HasKind string (bytes b)
      a_time : (t : TVal) → HasKind time_kind (time t)
      a_duration : (t : TVal) → HasKind duration_kind (duration t)
      byte_string :
          {base : Text} (s : Text) → is_byte_type base ≡ true → HasKind (array base) (str s)
      a_list :
          {base : Text} {vs : Values F} → AllHave (kind_of base) vs → HasKind (array base) (list vs)
      a_tuple :
          {base : Text} {vs : Values F}
          → AllHave (kind_of base) vs
          → HasKind (array base) (tuple vs)
      a_message :
          {type field_type : Text} {slots : Slots F}
          → Names type field_type
          → SlotsHave slots
          → HasKind (named field_type) (message type slots)

    pub data AllHave : Kind → Values F → Type 0 where
      no_values : {k : Kind} → AllHave k nil
      one_more :
          {k : Kind} {v : Value F} {vs : Values F}
          → HasKind k v
          → AllHave k vs
          → AllHave k (cons v vs)

    pub data SlotsHave : Slots F → Type 0 where
      no_slots : SlotsHave end
      next_slot :
          {name type : Text} {v : Value F} {slots : Slots F}
          → HasKind (kind_of type) v
          → SlotsHave slots
          → SlotsHave (slot name type v slots)

  check-passes : (b : Bool) → check b ≡ ok tt → b ≡ true
  check-passes true e = refl
  check-passes false e = cc

  both_ok : (a b : Result Error (Unit {0})) → then_check a b ≡ ok tt → (a ≡ ok tt) × (b ≡ ok tt)
  both_ok (ok tt) b e = (refl, e)
  both_ok (err x) b e = absurd (cc)

  in_signed-IsSigned : (w : ℕ) (n : ℤ) → in_signed w n ≡ true → IsSigned w n
  unfolding ◌-ℤ◌
  in_signed-IsSigned w (pos n) e = ground arith
  in_signed-IsSigned w (negsuc n) e = ground arith

  IsSigned-in_signed : (w : ℕ) (n : ℤ) → IsSigned w n → in_signed w n ≡ true
  unfolding ◌-ℤ◌
  IsSigned-in_signed w (pos n) h = ground arith
  IsSigned-in_signed w (negsuc n) h = ground arith

  in_unsigned-IsUnsigned : (w : ℕ) (n : ℤ) → in_unsigned w n ≡ true → IsUnsigned w n
  in_unsigned-IsUnsigned w (pos n) e = ground arith
  in_unsigned-IsUnsigned w (negsuc n) e = ground arith

  IsUnsigned-in_unsigned : (w : ℕ) (n : ℤ) → IsUnsigned w n → in_unsigned w n ≡ true
  IsUnsigned-in_unsigned w (pos n) h = ground arith
  IsUnsigned-in_unsigned w (negsuc n) h = absurd h

  is_ascii-IsAscii : (s : Text) → is_ascii s ≡ true → IsAscii s
  unfolding is_ascii
  is_ascii-IsAscii [] e = tt
  is_ascii-IsAscii (c ∷ s) e = (ground arith, is_ascii-IsAscii s (ground arith))

  IsAscii-is_ascii : (s : Text) → IsAscii s → is_ascii s ≡ true
  unfolding is_ascii
  IsAscii-is_ascii [] h = refl
  IsAscii-is_ascii (c ∷ s) h = ground (arith, IsAscii-is_ascii s)

  names_match-Names :
      (type field_type : Text) → names_match type field_type ≡ true → Names type field_type
  names_match-Names type field_type e = elim (Bool-cases (mem type header_types)) [
    | inl of_header ↦ header of_header (rw of_header at e)
    | inr other ↦ subst (Names type) ((same_iff type field_type).0 (rw other at e)) (itself other)
  ]

  Names-names_match :
      {type field_type : Text} → Names type field_type → names_match type field_type ≡ true
  Names-names_match {type = type} (itself h) = ground (arith, same_iff type type)
  Names-names_match (header h k) = rw (h, k) refl

  bit_cases : (n : ℤ) → eqb_ℤ n (pos 0) || eqb_ℤ n (pos 1) ≡ true → (n ≡ pos 0) ⊎ (n ≡ pos 1)
  bit_cases (pos n) e = ground arith
  bit_cases (negsuc n) e = ground arith

  mutual
    unfolding check_kind

    sound : (k : Kind) (v : Value F) → check_kind F is_bit k v ≡ ok tt → HasKind k v
    sound (signed w) (int n) e = signed_int (in_signed-IsSigned w n (check-passes _ e))
    sound (unsigned w) (int n) e = unsigned_int (in_unsigned-IsUnsigned w n (check-passes _ e))
    sound boolean (bool b) e = bool_bool b
    sound boolean (int n) e = elim (bit_cases n (check-passes _ e)) [
      | inl z ↦ bool_zero z
      | inr o ↦ bool_one o
    ]
    sound boolean (float x) e = bool_float (check-passes _ e)
    sound unchecked v e = any v
    sound string (str s) e = ascii (is_ascii-IsAscii s (check-passes _ e))
    sound string (bytes b) e = raw b
    sound time_kind (time t) e = a_time t
    sound duration_kind (duration t) e = a_duration t
    sound (array base) (str s) e = byte_string s (check-passes _ e)
    sound (array base) (list vs) e = a_list (all_sound (kind_of base) vs e)
    sound (array base) (tuple vs) e = a_tuple (all_sound (kind_of base) vs e)
    sound unopened v e = absurd (cc)
    sound (named t) (message type slots) e =
        let (names, rest) = both_ok (check (names_match type t)) (check_slots F is_bit slots) e in
        a_message (names_match-Names type t (check-passes _ names)) (slots_sound slots rest)
    sound k v e = absurd (cc)

    all_sound : (k : Kind) (vs : Values F) → check_values F is_bit k vs ≡ ok tt → AllHave k vs
    all_sound k nil e = no_values
    all_sound k (cons v vs) e =
        let (first, others) = both_ok (check_kind F is_bit k v) (check_values F is_bit k vs) e in
        one_more (sound k v first) (all_sound k vs others)

    slots_sound : (slots : Slots F) → check_slots F is_bit slots ≡ ok tt → SlotsHave slots
    slots_sound end e = no_slots
    slots_sound (slot name type v slots) e =
        let (first, others) =
          both_ok (check_kind F is_bit (kind_of type) v) (check_slots F is_bit slots) e in
        next_slot (sound (kind_of type) v first) (slots_sound slots others)

  mutual
    unfolding check_kind

    complete : {k : Kind} {v : Value F} → HasKind k v → check_kind F is_bit k v ≡ ok tt
    complete (signed_int {w = w} {n = n} h) = ap check (IsSigned-in_signed w n h)
    complete (unsigned_int {w = w} {n = n} h) = ap check (IsUnsigned-in_unsigned w n h)
    complete (bool_bool b) = refl
    complete (bool_zero e) = rw e refl
    complete (bool_one e) = rw e refl
    complete (bool_float h) = rw h refl
    complete (any v) = refl
    complete (ascii {s = s} h) = ap check (IsAscii-is_ascii s h)
    complete (raw b) = refl
    complete (a_time t) = refl
    complete (a_duration t) = refl
    complete (byte_string s h) = ap check h
    complete (a_list h) = all_complete h
    complete (a_tuple h) = all_complete h
    complete (a_message names h) = rw (Names-names_match names) (slots_complete h)

    all_complete : {k : Kind} {vs : Values F} → AllHave k vs → check_values F is_bit k vs ≡ ok tt
    all_complete no_values = refl
    all_complete (one_more h hs) = rw (complete h) (all_complete hs)

    slots_complete : {slots : Slots F} → SlotsHave slots → check_slots F is_bit slots ≡ ok tt
    slots_complete no_slots = refl
    slots_complete (next_slot h hs) = rw (complete h) (slots_complete hs)

  -- `check_type` passes exactly the values that have the type.
  pub check_type_iff :
      (field_type : Text) (v : Value F)
      → (check_type F is_bit field_type v ≡ ok tt) ↔ HasKind (kind_of field_type) v
  unfolding check_type
  check_type_iff field_type v = (sound (kind_of field_type) v, λ h. complete h)

  least_refused :
      (maxval : ℕ)
      → 0 < maxval
      → ltb_ℤ (negsuc (maxval - 1)) (pos maxval)
          && ltb_ℤ (pos 0 -ℤ pos maxval) (negsuc (maxval - 1))
        ≡ false
  unfolding ◌-ℤ◌
  least_refused maxval h = ground arith

  -- The least value of a signed type, which its width allows, does not pass.
  pub check_type-least :
      (field_type : Text) (w : ℕ)
      → kind_of field_type ≡ signed w
      → check_type F is_bit field_type (int (negsuc (2 ^ (w - 1) - 1))) ≡ err serialization_error
  unfolding check_type check_kind
  check_type-least field_type w e =
      rw e (ap check (least_refused (2 ^ (w - 1)) (one-le-pow (w - 1) 2 (omega arith))))
