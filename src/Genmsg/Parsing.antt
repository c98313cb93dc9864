-- ===== src/Genmsg/Parsing.antt =====
-- src/genmsg/src/genmsg/names.py and msgs.py: parsing names and types.
use xc_ros.Prelude.{ℕ, ◌≡◌, refl, true, false, ◌||◌, List, [], ◌∷◌, ◌++◌, none, some, arith}
use xc_ros.Prelude.Text.{Text, same}
use xc_ros.Prelude.Str.{has, before-append}
use xc_ros.Prelude.Str.Split.{behind_last, split_on-append, split_on-free}
use xc_ros.Prelude.Result.{ok}
use xc_ros.Names.{sep}
use xc_ros.Genmsg.{
  Unicode, package_resource_name, resource_name, resource_name_base, resource_name_package,
  is_legal_resource_base_name,
}
use xc_ros.Genmsg.Types.{bare_msg_type, is_builtin, header_full_name}
use xc_ros.Genmsg.Loader.{load_field_line, qualified, field_of}
use xc_ros.Genmsg.Constants.{words, strip_comments}

has-cons_sep : (c : ℕ) (s t : Text) → has c (s ++ (c ∷ t)) ≡ true
unfolding has
has-cons_sep c [] t = ground arith
has-cons_sep c (d ∷ s) t = ground (arith, has-cons_sep c s t)

behind_last-free : (c : ℕ) (s : Text) → has c s ≡ false → behind_last c s ≡ s
unfolding behind_last has
behind_last-free c [] h = refl
behind_last-free c (d ∷ s) h = ground arith

behind_last-append : (c : ℕ) (s t : Text) → has c t ≡ false → behind_last c (s ++ (c ∷ t)) ≡ t
unfolding behind_last has
behind_last-append c [] t h = ground (arith, behind_last-free c t)
behind_last-append c (d ∷ s) t h = ground (arith, behind_last-append c s t, has-cons_sep c s t)

-- A package and a name without separators come back out of the resource name that they make, as a
-- pair and each by its own function.
pub package_resource_name-resource_name :
    (pkg name : Text)
    → has sep pkg ≡ false
    → has sep name ≡ false
    → (package_resource_name (resource_name pkg name none) ≡ ok (pkg, name))
      × (resource_name_base (resource_name pkg name none) ≡ name)
      × (resource_name_package (resource_name pkg name none) ≡ some pkg)
unfolding package_resource_name resource_name resource_name_base resource_name_package
package_resource_name-resource_name pkg name h k = (
  rw (has-cons_sep sep pkg name, split_on-append sep pkg name h, split_on-free sep name k) refl,
  behind_last-append sep pkg name k,
  rw (has-cons_sep sep pkg name, before-append sep pkg name h) refl,
)

header_has : has sep header_full_name ≡ true
unfolding has
header_has = refl

qualified-has :
    (pkg t : Text)
    → same pkg [] ≡ false
    → is_builtin (bare_msg_type (qualified pkg t)) || has sep (qualified pkg t) ≡ true
unfolding qualified
qualified-has [] t h = absurd (unfold same in cc)
qualified-has (c ∷ s) t h = ground (arith, header_has, has-cons_sep sep (c ∷ s) t)

field_of-is_legal :
    (unicode : Unicode) (pkg : Text) (splits : List Text) {t name : Text}
    → same pkg [] ≡ false
    → field_of unicode pkg splits ≡ ok (t, name)
    → (is_legal_resource_base_name unicode name ≡ true)
      × (is_builtin (bare_msg_type t) || has sep t ≡ true)
field_of-is_legal unicode pkg [] h e = absurd (cc)
field_of-is_legal unicode pkg (a ∷ []) h e = absurd (cc)
field_of-is_legal unicode pkg (a ∷ b ∷ []) {t = t} {name = name} h e =
    ground (arith, qualified-has pkg a)
field_of-is_legal unicode pkg (a ∷ b ∷ c ∷ more) h e = absurd (cc)

-- In a package, a field that is read has a legal name, and its type is built in or names its package.
pub load_field_line-is_legal :
    (unicode : Unicode) (line pkg : Text) {t name : Text}
    → same pkg [] ≡ false
    → load_field_line unicode line pkg ≡ ok (t, name)
    → (is_legal_resource_base_name unicode name ≡ true)
      × (is_builtin (bare_msg_type t) || has sep t ≡ true)
unfolding load_field_line
load_field_line-is_legal unicode line pkg h e =
    field_of-is_legal unicode pkg (words (strip_comments line)) h e
