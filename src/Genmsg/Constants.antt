-- ===== src/Genmsg/Constants.antt =====
-- src/genmsg/src/genmsg/msg_loader.py and msgs.py: constants.
use xc_ros.Prelude.{
  ℕ, ◌+◌, ◌-◌, ◌^◌, Bool, false, ◌||◌, List, [], ◌∷◌, Option, none, some, ◌==◌, leb, if◌then◌else◌,
  length, take, drop, map,
}
use xc_ros.Prelude.Text.{Text, codes, same, mem}
use xc_ros.Prelude.Int.{ℤ, pos, ◌-ℤ◌, ltb_ℤ}
use xc_ros.Prelude.Str.{has, strip, before}
use xc_ros.Prelude.Str.Split.{split_on, join, non_empty}
use xc_ros.Prelude.Result.{Result, ok, err, ◌>>=◌}
use xc_ros.Genmsg.{Error, invalid_msg_spec, value_error, index_error, Unicode}
use xc_ros.Genmsg.Types.{is_valid_constant_type, int_of}

-- The `float` of a text and the truth of the literal that a text holds, or an exception.
pub record Builtins : Type 1 where
  pub F : Type 0
  pub unicode : Unicode
  pub float_of : Text → Option F
  pub literal_truth : Text → Option Bool

pub data Value {ℓ} (F : Type ℓ) : Type ℓ where
  float : F → Value F
  string : Text → Value F
  int : ℤ → Value F
  bool : Bool → Value F

pub record Constant {ℓ} (F : Type ℓ) : Type ℓ where
  pub type : Text
  pub name : Text
  pub val : Value F
  pub val_text : Text

-- `Constant.__init__`, which strips the name
abbrev pub new_constant {ℓ} : {F : Type ℓ} → Text → Text → Value F → Text → Constant F
new_constant type name val val_text = record {
  type = type;
  name = strip name;
  val = val;
  val_text = val_text;
}

-- `bits`
unfoldable pub bits_of : Text → Option ℕ
bits_of field_type =
    if mem field_type (codes "int8" ∷ codes "uint8" ∷ codes "byte" ∷ codes "char" ∷ [])
    then some 8
    else (if mem field_type (codes "int16" ∷ codes "uint16" ∷ [])
        then some 16
        else (if mem field_type (codes "int32" ∷ codes "uint32" ∷ [])
            then some 32
            else (if mem field_type (codes "int64" ∷ codes "uint64" ∷ []) then some 64 else none)))

-- `int(math.pow(2, w)-1)`: a double has 53 bits, and beyond them the difference is rounded to `2^w`.
abbrev pub pow_minus_one : ℕ → ℕ
pow_minus_one w = if leb w 53 then 2 ^ w - 1 else 2 ^ w

abbrev pub begins_with_u : Text → Bool
begins_with_u [] = false
begins_with_u (c ∷ s) = c == b'u'

abbrev pub is_unsigned : Text → Bool
is_unsigned field_type = begins_with_u field_type || same field_type (codes "char")

abbrev pub upper_of : Text → ℕ → ℤ
upper_of field_type b =
    if is_unsigned field_type then pos (pow_minus_one b) else pos (pow_minus_one (b - 1))

abbrev pub lower_of : Text → ℕ → ℤ
lower_of field_type b =
    if is_unsigned field_type then pos 0 else pos 0 -ℤ pos (pow_minus_one (b - 1)) -ℤ pos 1

-- `s.find(c)`
unfoldable pub find : ℕ → Text → Option ℕ
find c s = if has c s then some (length (before c s)) else none

abbrev behind_find : Option ℕ → ℕ
behind_find none = 0
behind_find (some i) = i + 1

-- A slice up to -1 leaves the last character out.
abbrev up_to_find : Text → Option ℕ → Text
up_to_find s none = take (length s - 1) s
up_to_find s (some i) = take i s

-- the name and the value of a string constant, which has no comment
unfoldable pub string_parts : Text → Text × Text
unfolding find
string_parts orig_line =
    let idx = find b'=' orig_line in
    (
      drop (behind_find (find b' ' orig_line)) (up_to_find orig_line idx),
      drop (behind_find idx) orig_line,
    )

abbrev pair_of : List Text → Result Error (Text × Text)
pair_of (name ∷ val ∷ []) = ok (name, val)
pair_of splits = err invalid_msg_spec

-- `_strip_comments`
unfoldable pub strip_comments : Text → Text
strip_comments line = strip (before b'#' line)

-- `[s for s in [x.strip() for x in clean_line.split(" ")] if s]`
unfoldable pub words : Text → List Text
words line = non_empty (map strip (split_on b' ' line))

module _ (builtins : Builtins) where
  abbrev F : Type 0
  F = builtins.F

  -- the bounds check of an integer of `b` bits
  abbrev pub bounded : Text → ℕ → Option ℤ → Result Error (Value F)
  bounded field_type b none = err value_error
  bounded field_type b (some n) =
      if ltb_ℤ (upper_of field_type b) n || ltb_ℤ n (lower_of field_type b)
      then err invalid_msg_spec
      else ok (int n)

  abbrev float_value : Option F → Result Error (Value F)
  float_value none = err value_error
  float_value (some x) = ok (float x)

  abbrev bool_value : Option Bool → Result Error (Value F)
  bool_value none = err value_error
  bool_value (some b) = ok (bool b)

  abbrev other_value : Text → Text → Result Error (Value F)
  other_value field_type val =
      if same field_type (codes "bool")
      then bool_value (builtins.literal_truth val)
      else err invalid_msg_spec

  unfoldable pub convert_constant_value : Text → Text → Result Error (Value F)
  convert_constant_value field_type val =
      if mem field_type (codes "float32" ∷ codes "float64" ∷ [])
      then float_value (builtins.float_of val)
      else (if same field_type (codes "string")
          then ok (string (strip val))
          else elim (bits_of field_type) [
            | none ↦ other_value field_type val
            | some b ↦ bounded field_type b (int_of builtins.unicode val)
          ])

  -- Any exception of the conversion becomes one of the specification.
  abbrev converted : Text → Text → Text → Result Error (Value F) → Result Error (Constant F)
  converted field_type name val (err e) = err invalid_msg_spec
  converted field_type name val (ok v) = ok (new_constant field_type name v (strip val))

  abbrev constant_of : Text → List Text → Result Error (Constant F)
  constant_of orig_line [] = err index_error
  constant_of orig_line (field_type ∷ splits) =
      let parts =
        if same field_type (codes "string")
        then ok (string_parts orig_line)
        else pair_of (map strip (split_on b'=' (join b' ' splits))) in
      if is_valid_constant_type field_type
      then parts
        >>= (λ (name, val). converted field_type name val (convert_constant_value field_type val))
      else err invalid_msg_spec

  unfoldable pub load_constant_line : Text → Result Error (Constant F)
  unfolding strip_comments words
  load_constant_line orig_line = constant_of orig_line (words (strip_comments orig_line))
