-- ===== src/Names/Legal.antt =====
-- src/ros/roslib/src/roslib/names.py: resource names, and which names are legal.
use xc_ros.Prelude.{
  ℕ, ◌≡◌, refl, Bool, true, false, not, ◌&&◌, ◌||◌, List, [], ◌∷◌, ◌++◌, Option, none, some, arith,
  ◌==◌, ltb, leb, if◌then◌else◌, length,
}
use xc_ros.Prelude.Text.{Text, same}
use xc_ros.Prelude.Str.{has, before}
use xc_ros.Prelude.Str.Split.{split_on, behind_last}
use xc_ros.Prelude.Result.{Result, ok, err}
use xc_ros.Names.{Error, value_error, sep, private_mark}

-- `my_pkg` is `None` unless given.
unfoldable pub resource_name : Text → Text → Option Text → Text
resource_name res_pkg_name name none = res_pkg_name ++ (sep ∷ name)
resource_name res_pkg_name name (some my_pkg) =
    if same res_pkg_name my_pkg then name else res_pkg_name ++ (sep ∷ name)

unfoldable pub resource_name_base : Text → Text
resource_name_base name = behind_last sep name

unfoldable pub resource_name_package : Text → Option Text
resource_name_package name = if has sep name then some (before sep name) else none

abbrev two_parts : List Text → Result Error (Text × Text)
two_parts (pkg ∷ name ∷ []) = ok (pkg, name)
two_parts parts = err value_error

unfoldable pub package_resource_name : Text → Result Error (Text × Text)
package_resource_name name = if has sep name then two_parts (split_on sep name) else ok ([], name)

-- `[A-Za-z]`
abbrev pub is_alpha : ℕ → Bool
is_alpha c = (leb b'A' c && leb c b'Z') || (leb b'a' c && leb c b'z')

-- `'//' in name`
unfoldable pub has_double_sep : Text → Bool
has_double_sep [] = false
has_double_sep (c ∷ []) = false
has_double_sep (c ∷ d ∷ s) = (c == sep && d == sep) || has_double_sep (d ∷ s)

-- Whether `\w` matches a code point from 128 on is the parameter.
module _ (word : ℕ → Bool) where
  abbrev pub in_word : ℕ → Bool
  in_word c = is_alpha c || (leb b'0' c && leb c b'9') || c == b'_' || (leb 128 c && word c)

  -- `[\w_]*` and `[\w_\/]*` on a whole text
  unfoldable pub all_word : Text → Bool
  all_word [] = true
  all_word (c ∷ s) = in_word c && all_word s

  unfoldable pub all_word_or_sep : Text → Bool
  all_word_or_sep [] = true
  all_word_or_sep (c ∷ s) = (in_word c || c == sep) && all_word_or_sep s

  unfoldable pub is_legal_resource_name : Text → Bool
  is_legal_resource_name [] = false
  is_legal_resource_name (c ∷ s) = is_alpha c && all_word_or_sep s && not (has_double_sep (c ∷ s))

  -- The empty name is legal, as it resolves to the namespace.
  unfoldable pub is_legal_name : Text → Bool
  is_legal_name [] = true
  is_legal_name (c ∷ s) =
      (c == private_mark || c == sep || is_alpha c)
      && all_word_or_sep s
      && not (has_double_sep (c ∷ s))

  unfoldable pub is_legal_base_name : Text → Bool
  is_legal_base_name [] = false
  is_legal_base_name (c ∷ s) = is_alpha c && all_word s

  -- The source matches it with the pattern of base names, which is the same.
  unfoldable pub is_legal_resource_base_name : Text → Bool
  is_legal_resource_base_name [] = false
  is_legal_resource_base_name (c ∷ s) = is_alpha c && all_word s

  unfoldable pub is_safe_name : Text → Bool
  is_safe_name [] = false
  is_safe_name (c ∷ s) = not (ltb 255 (length (c ∷ s))) && is_legal_resource_name (c ∷ s)

  word-lem : (s : Text) → all_word s ≡ true → (all_word_or_sep s ≡ true) × (has sep s ≡ false)
  unfolding all_word all_word_or_sep has
  word-lem [] h = (refl, refl)
  word-lem (c ∷ s) h = (ground (arith, word-lem s), ground (arith, word-lem s))

  double-has : (s : Text) → has sep s ≡ false → has_double_sep s ≡ false
  unfolding has has_double_sep
  double-has [] h = refl
  double-has (c ∷ []) h = refl
  double-has (c ∷ d ∷ s) h = ground (arith, double-has (d ∷ s))

  -- A legal base name has no separator, and is a legal name both of the graph and of a resource.
  pub is_legal_base_name_lem :
      (name : Text)
      → is_legal_base_name name ≡ true
      → (has sep name ≡ false) × (is_legal_name name ≡ true) × (is_legal_resource_name name ≡ true)
  unfolding is_legal_base_name is_legal_name is_legal_resource_name
  is_legal_base_name_lem [] h = absurd (cc)
  is_legal_base_name_lem (c ∷ s) h = (
    free,
    ground (arith, double-has (c ∷ s) free, word-lem s),
    ground (arith, double-has (c ∷ s) free, word-lem s),
  )
    where
      free : has sep (c ∷ s) ≡ false
      free = unfold has in ground (arith, word-lem s)
