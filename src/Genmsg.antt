-- ===== src/Genmsg.antt =====
-- src/genmsg/src/genmsg/names.py and base.py: resource names, and what the package raises.
pub mod Types
pub mod Constants
pub mod Spec
pub mod Context
pub mod Loader
pub mod Bounds
pub mod Sound
pub mod Arrays
pub mod Depends
pub mod Reach
pub mod Registry
pub mod Parsing
pub mod Search
pub mod Gentools
mod Tests
use xc_ros.Prelude.{
  ℕ, Bool, true, false, not, ◌&&◌, ◌||◌, List, [], ◌∷◌, ◌++◌, Option, none, some, ◌==◌, leb,
  if◌then◌else◌,
}
use xc_ros.Prelude.Text.{Text, same}
use xc_ros.Prelude.Str.{has, strip, before}
use xc_ros.Prelude.Str.Split.{split_on, behind_last}
use xc_ros.Prelude.Result.{Result, ok, err}
use xc_ros.Names.{sep, rest}

pub data Error : Type 0 where
  invalid_msg_spec value_error key_error index_error assertion_error generation_error msg_not_found
        io_error :
      Error
  -- not an exception: the fuel of a recursion is used up
  out_of_fuel : Error

-- What Python's `re` and `int` know of the code points from 128 on: whether `\w` matches one, and its
-- value as a decimal digit.
pub record Unicode : Type 0 where
  pub word : ℕ → Bool
  pub decimal : ℕ → Option ℕ

-- the trailing separators of a text that has no white space at its ends
unfoldable pub strip_seps : Text → Text
strip_seps [] = []
strip_seps (c ∷ s) =
    let rest = strip_seps s in
    elim rest [ [] ↦ if c == sep then [] else c ∷ [] | d ∷ t ↦ c ∷ d ∷ t ]

unfoldable pub normalize_package_context : Text → Text
normalize_package_context package_context = strip_seps (strip package_context)

-- `my_pkg` is `None` unless given.
unfoldable pub resource_name : Text → Text → Option Text → Text
resource_name res_pkg_name name none = res_pkg_name ++ (sep ∷ name)
resource_name res_pkg_name name (some my_pkg) =
    if same res_pkg_name my_pkg then name else res_pkg_name ++ (sep ∷ name)

unfoldable pub resource_name_base : Text → Text
resource_name_base name = behind_last sep name

unfoldable pub resource_name_package : Text → Option Text
resource_name_package name = if has sep name then some (before sep name) else none

abbrev pub pair_of : List Text → Result Error (Text × Text)
pair_of (pkg ∷ name ∷ []) = ok (pkg, name)
pair_of parts = err value_error

unfoldable pub package_resource_name : Text → Result Error (Text × Text)
package_resource_name name = if has sep name then pair_of (split_on sep name) else ok ([], name)

abbrev pub is_letter : ℕ → Bool
is_letter c = (leb b'A' c && leb c b'Z') || (leb b'a' c && leb c b'z')

-- `'//' in name`
unfoldable pub has_double : Text → Bool
has_double [] = false
has_double (c ∷ []) = false
has_double (c ∷ d ∷ s) = (c == sep && d == sep) || has_double (d ∷ s)

module _ (unicode : Unicode) where
  -- `\w`
  abbrev pub is_word : ℕ → Bool
  is_word c =
      is_letter c || (leb b'0' c && leb c b'9') || c == b'_' || (leb 128 c && unicode.word c)

  unfoldable pub all_words : Text → Bool
  all_words [] = true
  all_words (c ∷ s) = is_word c && all_words s

  unfoldable pub all_words_or_seps : Text → Bool
  all_words_or_seps [] = true
  all_words_or_seps (c ∷ s) = (is_word c || c == sep) && all_words_or_seps s

  -- The match is the whole name exactly if every character is legal.
  unfoldable pub is_legal_resource_name : Text → Bool
  unfolding all_words_or_seps has_double
  is_legal_resource_name [] = false
  is_legal_resource_name (c ∷ s) = is_letter c && all_words_or_seps s && not (has_double (c ∷ s))

  unfoldable pub is_legal_resource_base_name : Text → Bool
  unfolding all_words
  is_legal_resource_base_name [] = false
  is_legal_resource_base_name (c ∷ s) = is_letter c && all_words s
