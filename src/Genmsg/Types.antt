-- ===== src/Genmsg/Types.antt =====
-- src/genmsg/src/genmsg/msgs.py: message types, and their legality.
use xc_ros.Prelude.{
  ℕ, ◌+◌, ◌-◌, ◌*◌, Bool, true, false, not, ◌&&◌, List, [], ◌∷◌, ◌++◌, Option, none, some, ◌==◌,
  leb, if◌then◌else◌, length, drop,
}
use xc_ros.Prelude.Text.{Text, codes, same, mem}
use xc_ros.Prelude.Int.{ℤ, pos, ◌-ℤ◌}
use xc_ros.Prelude.Str.{has, strip, before}
use xc_ros.Prelude.Str.Split.{split_on}
use xc_ros.Prelude.Result.{Result, ok, err}
use xc_ros.Names.{sep, ends_with, drop_last}
use xc_ros.Genmsg.{Error, value_error, Unicode, is_legal_resource_name}

-- `PRIMITIVE_TYPES` and `BUILTIN_TYPES`
abbrev pub primitive_types : List Text
primitive_types =
    codes "int8"
    ∷ codes "uint8"
    ∷ codes "int16"
    ∷ codes "uint16"
    ∷ codes "int32"
    ∷ codes "uint32"
    ∷ codes "int64"
    ∷ codes "uint64"
    ∷ codes "float32"
    ∷ codes "float64"
    ∷ codes "string"
    ∷ codes "bool"
    ∷ codes "char"
    ∷ codes "byte"
    ∷ []

abbrev pub builtin_types : List Text
builtin_types = primitive_types ++ (codes "time" ∷ codes "duration" ∷ [])

abbrev pub header : Text
header = codes "Header"

abbrev pub header_full_name : Text
header_full_name = codes "std_msgs/Header"

unfoldable pub is_builtin : Text → Bool
is_builtin msg_type_name = mem msg_type_name builtin_types

unfoldable pub is_valid_constant_type : Text → Bool
is_valid_constant_type x = mem x primitive_types

unfoldable pub is_header_type : Text → Bool
is_header_type msg_type = mem msg_type (header ∷ header_full_name ∷ codes "roslib/Header" ∷ [])

-- `msg_type[:msg_type.find('[')]` where there is a bracket
unfoldable pub bare_msg_type : Text → Text
bare_msg_type msg_type = before b'[' msg_type

unfoldable pub resolve_type : Text → Text → Text
resolve_type msg_type package_context =
    let bt = bare_msg_type msg_type in
    if is_builtin bt
    then msg_type
    else (if same bt header
        then header_full_name
        else (if has sep msg_type then msg_type else package_context ++ (sep ∷ msg_type)))

-- base type, whether it is an array, and the array's length
pub record Parsed : Type 0 where
  pub base_type : Text
  pub is_array : Bool
  pub array_len : Option ℤ

-- A character of a number as `int` reads it.
pub data Symbol : Type 0 where
  digit : ℕ → Symbol
  underscore : Symbol
  foreign : Symbol

module _ (unicode : Unicode) where
  abbrev beyond_ascii : ℕ → Symbol
  beyond_ascii c = elim (unicode.decimal c) [ none ↦ foreign | some d ↦ digit d ]

  abbrev pub symbol : ℕ → Symbol
  symbol c =
      if leb b'0' c && leb c b'9'
      then digit (c - b'0')
      else (if c == b'_' then underscore else (if leb 128 c then beyond_ascii c else foreign))

  -- Underscores stand singly between digits; `ready` is set behind a digit.
  unfoldable pub number : ℕ → Bool → Text → Option ℕ
  number acc ready [] = if ready then some acc else none
  number acc ready (c ∷ s) = elim (symbol c) [
    | digit d ↦ number (acc * 10 + d) true s
    | underscore ↦ if ready then number acc false s else none
    | foreign ↦ none
  ]

  abbrev negated : Option ℕ → Option ℤ
  negated none = none
  negated (some n) = some (pos 0 -ℤ pos n)

  abbrev posed : Option ℕ → Option ℤ
  posed none = none
  posed (some n) = some (pos n)

  abbrev signed : Text → Option ℤ
  signed [] = none
  signed (c ∷ s) =
      if c == b'-'
      then negated (number 0 false s)
      else posed (number 0 false (if c == b'+' then s else c ∷ s))

  -- `int(text)`, with `none` for its ValueError
  unfoldable pub int_of : Text → Option ℤ
  unfolding number
  int_of s = signed (strip s)

  abbrev pub of_dimension : Text → Option ℤ → Result Error Parsed
  of_dimension base none = err value_error
  of_dimension base (some n) = ok (record { base_type = base; is_array = true; array_len = some n })

  -- the parts around the first bracket
  abbrev pub of_splits : Text → List Text → Result Error Parsed
  of_splits msg_type (base ∷ dimension ∷ []) =
      if ends_with b']' msg_type && ends_with b'[' (drop_last msg_type)
      then ok
          (record { base_type = drop_last (drop_last msg_type); is_array = true; array_len = none })
      else of_dimension base (int_of (drop_last dimension))
  of_splits msg_type splits = err value_error

  unfoldable pub parse_type : Text → Result Error Parsed
  parse_type [] = err value_error
  parse_type (c ∷ s) =
      let msg_type = c ∷ s in
      if has b'[' msg_type
      then of_splits msg_type (split_on b'[' msg_type)
      else ok (record { base_type = msg_type; is_array = false; array_len = none })

  abbrev is_number : Text → Bool
  is_number s = elim (int_of s) [ none ↦ false | some n ↦ true ]

  -- The automaton over the indices: `true` is its state 1, an open bracket.
  abbrev next_state : Bool → ℕ → Option Bool
  next_state false c = if c == b'[' then some true else none
  next_state true c =
      if c == b']' then some false else (if is_number (c ∷ []) then some true else none)

  unfoldable pub are_indices : Bool → Text → Bool
  are_indices state [] = not state
  are_indices state (c ∷ s) = elim (next_state state c) [
    | none ↦ false
    | some next ↦ are_indices next s
  ]

  unfoldable pub is_valid_msg_type : Text → Bool
  is_valid_msg_type [] = false
  is_valid_msg_type (c ∷ s) =
      let x = c ∷ s in
      let base = bare_msg_type x in
      length x == length (strip x)
      && is_legal_resource_name unicode base
      && are_indices false (drop (length base) x)
