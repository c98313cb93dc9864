-- ===== src/Message.antt =====
-- src/genpy/src/genpy/message.py: values of fields, and `check_type`.
pub mod Typing
pub mod Construct
mod Tests
use xc_ros.Prelude.{
  ℕ, ◌-◌, ◌^◌, Bool, true, false, not, ◌&&◌, ◌||◌, List, [], ◌∷◌, Option, none, some, leb, ltb,
  ◌==◌, if◌then◌else◌,
}
use xc_ros.Prelude.Text.{Text, codes, same, mem}
use xc_ros.Prelude.Int.{ℤ, pos, ◌-ℤ◌, ltb_ℤ, eqb_ℤ}
use xc_ros.Prelude.Str.{has, before}
use xc_ros.Prelude.Dict.{Dict, lookup}
use xc_ros.Prelude.Result.{Result, ok, err}
use xc_ros.Names.{ends_with}
use xc_ros.Rostime.{TVal}
use xc_ros.StructPattern.Code.{simple_types_dict}

pub data Error : Type 0 where
  serialization_error value_error : Error

-- A Python value as far as the module tells values apart. `F` is the type of floats.
mutual
  pub data Value (F : Type 0) : Type 0 where
    nothing : Value F
    int : ℤ → Value F
    float : F → Value F
    bool : Bool → Value F
    str : Text → Value F
    bytes : List ℕ → Value F
    time : TVal → Value F
    duration : TVal → Value F
    list : Values F → Value F
    tuple : Values F → Value F
    message : Text → Slots F → Value F

  pub data Values (F : Type 0) : Type 0 where
    nil : Values F
    cons : Value F → Values F → Values F

  -- The slots of a message: the name and the type of each, and its value.
  pub data Slots (F : Type 0) : Type 0 where
    end : Slots F
    slot : Text → Text → Value F → Slots F → Slots F

-- `_widths`
abbrev pub widths : Dict ℕ
widths =
    (codes "byte", 8)
    ∷ (codes "char", 8)
    ∷ (codes "int8", 8)
    ∷ (codes "uint8", 8)
    ∷ (codes "int16", 16)
    ∷ (codes "uint16", 16)
    ∷ (codes "int32", 32)
    ∷ (codes "uint32", 32)
    ∷ (codes "int64", 64)
    ∷ (codes "uint64", 64)
    ∷ []

-- `_widths[t]` for a type that is there
abbrev pub width : Text → ℕ
width t = elim (lookup t widths) [ none ↦ 0 | some w ↦ w ]

-- The branch of `check_type` that a type takes, with what the branch reads off the type.
pub data Kind : Type 0 where
  signed : ℕ → Kind
  unsigned : ℕ → Kind
  boolean : Kind
  -- a simple type that no branch checks
  unchecked : Kind
  string : Kind
  time_kind : Kind
  duration_kind : Kind
  -- with the base type
  array : Text → Kind
  -- a closing bracket and no opening one
  unopened : Kind
  named : Text → Kind

abbrev pub signed_types : List Text
signed_types = codes "byte" ∷ codes "int8" ∷ codes "int16" ∷ codes "int32" ∷ codes "int64" ∷ []

abbrev pub unsigned_types : List Text
unsigned_types =
    codes "char" ∷ codes "uint8" ∷ codes "uint16" ∷ codes "uint32" ∷ codes "uint64" ∷ []

abbrev pub is_simple : Text → Bool
is_simple t = elim (lookup t simple_types_dict) [ none ↦ false | some p ↦ true ]

abbrev pub simple_kind : Text → Kind
simple_kind t =
    if mem t signed_types
    then signed (width t)
    else (if mem t unsigned_types
        then unsigned (width t)
        else (if same t (codes "bool") then boolean else unchecked))

abbrev pub array_kind : Text → Kind
array_kind t = if has b'[' t then array (before b'[' t) else unopened

unfoldable pub kind_of : Text → Kind
kind_of t =
    if is_simple t
    then simple_kind t
    else (if same t (codes "string")
        then string
        else (if same t (codes "time")
            then time_kind
            else (if same t (codes "duration")
                then duration_kind
                else (if ends_with b']' t then array_kind t else named t))))

abbrev pub check : Bool → Result Error (Unit {0})
check true = ok tt
check false = err serialization_error

-- `field_val.encode('ascii')` passes.
unfoldable pub is_ascii : Text → Bool
is_ascii [] = true
is_ascii (c ∷ s) = ltb c 128 && is_ascii s

-- `int(math.pow(2, w))`, which is exact.
abbrev pub in_signed : ℕ → ℤ → Bool
in_signed w n = let maxval = pos (2 ^ (w - 1)) in ltb_ℤ n maxval && ltb_ℤ (pos 0 -ℤ maxval) n

abbrev pub in_unsigned : ℕ → ℤ → Bool
in_unsigned w n = not (ltb_ℤ n (pos 0)) && ltb_ℤ n (pos (2 ^ w))

abbrev pub header_types : List Text
header_types = codes "std_msgs/Header" ∷ codes "roslib/Header" ∷ []

-- Whether a message of the first type may stand for the second.
abbrev pub names_match : Text → Text → Bool
names_match type field_type =
    if mem type header_types
    then mem field_type (codes "Header" ∷ header_types)
    else same type field_type

abbrev pub is_byte_type : Text → Bool
is_byte_type t = mem t (codes "char" ∷ codes "uint8" ∷ [])

abbrev pub then_check : Result Error (Unit {0}) → Result Error (Unit {0}) → Result Error (Unit {0})
then_check (ok _) next = next
then_check (err e) next = err e

-- Python compares the floats 0.0 and 1.0 equal to 0 and 1: `is_bit` tells them.
module _ (F : Type 0) (is_bit : F → Bool) where
  unfoldable mutual
    -- `check_type` behind its choice of a branch; the names of fields only serve the error's text.
    pub check_kind : Kind → Value F → Result Error (Unit {0})
    check_kind (signed w) (int n) = check (in_signed w n)
    check_kind (unsigned w) (int n) = check (in_unsigned w n)
    check_kind boolean (bool b) = ok tt
    check_kind boolean (int n) = check (eqb_ℤ n (pos 0) || eqb_ℤ n (pos 1))
    check_kind boolean (float x) = check (is_bit x)
    check_kind unchecked v = ok tt
    check_kind string (str s) = check (is_ascii s)
    check_kind string (bytes b) = ok tt
    check_kind time_kind (time t) = ok tt
    check_kind duration_kind (duration t) = ok tt
    check_kind (array base) (str s) = check (is_byte_type base)
    check_kind (array base) (list vs) = check_values (kind_of base) vs
    check_kind (array base) (tuple vs) = check_values (kind_of base) vs
    check_kind unopened v = err value_error
    check_kind (named t) (message type slots) =
        then_check (check (names_match type t)) (check_slots slots)
    check_kind k v = err serialization_error

    pub check_values : Kind → Values F → Result Error (Unit {0})
    check_values k nil = ok tt
    check_values k (cons v vs) = then_check (check_kind k v) (check_values k vs)

    pub check_slots : Slots F → Result Error (Unit {0})
    check_slots end = ok tt
    check_slots (slot name type v slots) =
        then_check (check_kind (kind_of type) v) (check_slots slots)

  unfoldable pub check_type : Text → Value F → Result Error (Unit {0})
  check_type field_type v = check_kind (kind_of field_type) v
