-- ===== src/Genmsg/Spec.antt =====
-- src/genmsg/src/genmsg/msgs.py: fields and specifications.
use xc_ros.Prelude.{
  Bool, true, false, not, ◌&&◌, List, [], ◌∷◌, Option, ◌==◌, if◌then◌else◌, length,
}
use xc_ros.Prelude.Text.{Text, codes, same, mem}
use xc_ros.Prelude.Int.{ℤ}
use xc_ros.Prelude.Result.{Result, ok, err, ◌>>=◌}
use xc_ros.Genmsg.{Error, invalid_msg_spec, assertion_error, Unicode, package_resource_name}
use xc_ros.Genmsg.Types.{parse_type, is_header_type, is_builtin, header_full_name}
use xc_ros.Genmsg.Constants.{Constant}

pub record Field : Type 0 where
  pub name : Text
  pub type : Text
  pub base_type : Text
  pub is_array : Bool
  pub array_len : Option ℤ
  pub is_header : Bool
  pub is_builtin : Bool

pub record MsgSpec {ℓ} (F : Type ℓ) : Type ℓ where
  pub types : List Text
  pub names : List Text
  pub constants : List (Constant F)
  pub header_present : Bool
  pub text : Text
  pub full_name : Text
  pub short_name : Text
  pub pkg : Text
  pub parsed_fields : List Field

-- `Field.__init__`
unfoldable pub new_field : Unicode → Text → Text → Result Error Field
new_field unicode name type = do
  parsed ← parse_type unicode type
  ok (record {
    name = name;
    type = type;
    base_type = parsed.base_type;
    is_array = parsed.is_array;
    array_len = parsed.array_len;
    is_header = is_header_type type;
    is_builtin = is_builtin parsed.base_type;
  })

-- the fields of the zipped names and types; their errors become one of the specification
unfoldable pub new_fields : Unicode → List Text → List Text → Result Error (List Field)
new_fields unicode [] types = ok []
new_fields unicode (name ∷ names) [] = ok []
new_fields unicode (name ∷ names) (type ∷ types) =
    let others = new_fields unicode names types in
    elim (new_field unicode name type) [
      | err e ↦ err invalid_msg_spec
      | ok field ↦ others >>= λ fields. ok (field ∷ fields)
    ]

-- `len(set(names)) == len(names)`
unfoldable pub are_distinct : List Text → Bool
are_distinct [] = true
are_distinct (name ∷ names) = not (mem name names) && are_distinct names

abbrev begins_with_header : List Text → List Text → Bool
begins_with_header (type ∷ types) (name ∷ names) =
    same type header_full_name && same name (codes "header")
begins_with_header types names = false

abbrev pub or_else : Text → Text → Text
or_else [] other = other
or_else (c ∷ s) other = c ∷ s

module _ {ℓ} {F : Type ℓ} where
  abbrev pub with_fields :
      List Text → List Text → List (Constant F) → Text → Text → Text → Text → List Field → MsgSpec F
  with_fields types names constants text full_name pkg short_name fields = record {
    types = types;
    names = names;
    constants = constants;
    header_present = begins_with_header types names;
    text = text;
    full_name = full_name;
    short_name = short_name;
    pkg = pkg;
    parsed_fields = fields;
  }

  -- `MsgSpec.__init__`
  unfoldable pub new_spec :
      Unicode
      → List Text
      → List Text
      → List (Constant F)
      → Text
      → Text
      → Text
      → Text
      → Result Error (MsgSpec F)
  new_spec unicode types names constants text full_name pkg short_name = do
    (alt_pkg, alt_short_name) ← package_resource_name full_name
    let spec = new_fields unicode names types >>= λ fields. ok (
        with_fields types names constants text full_name (or_else pkg alt_pkg)
          (or_else short_name alt_short_name) fields)
    if not (are_distinct names)
        then err invalid_msg_spec
        else (if length types == length names then spec else err assertion_error)
