-- ===== src/Names/Tests.antt =====
-- Names as a node uses them, and the theorems at them.
use xc_ros.Prelude.{◌≡◌, refl, List, [], ◌∷◌, true, false}
use xc_ros.Prelude.Text.{Text, codes, same}
use xc_ros.Prelude.Str.{has, strip, lstrip, rstrip, is_space}
use xc_ros.Prelude.Str.Split.{split_on, join, non_empty, up_to_last}
use xc_ros.Prelude.Dict.{Dict, insert, lookup}
use xc_ros.Prelude.Result.{ok, err}
use xc_ros.Names.{
  value_error, is_global, ends_with, drop_last, make_global_ns, namespace, ns_join,
  canonicalize_name, resolved, resolve_name,
}
use xc_ros.Names.Canonical.{IsTidy, parts_of, canonicalize_name_lem}
use xc_ros.Names.Resolve.{is_global-resolve_name}
use xc_ros.Names.Legal.{
  is_legal_name, is_legal_resource_name, is_safe_name, all_word_or_sep, has_double_sep,
  package_resource_name,
}
use xc_ros.Names.Environment.{
  behind, get_ros_namespace, make_caller_id, split_remap, add_mappings, load_mappings, replace,
  anonymous_name,
}

program : Unit {0}
unfolding has strip lstrip rstrip is_space split_on join non_empty up_to_last insert lookup same
    ends_with drop_last make_global_ns namespace ns_join canonicalize_name resolved resolve_name
    behind get_ros_namespace make_caller_id split_remap add_mappings load_mappings replace
    anonymous_name
program = tt

canonical : canonicalize_name (codes "//arm///joint/") ≡ codes "/arm/joint"
unfolding program
canonical = refl

canonicalize_name_lem_example :
    (parts_of (canonicalize_name (codes "//arm///joint/")) ≡ parts_of (codes "//arm///joint/"))
    × (is_global (canonicalize_name (codes "//arm///joint/")) ≡ is_global (codes "//arm///joint/"))
    × IsTidy (canonicalize_name (codes "//arm///joint/"))
    × (canonicalize_name (canonicalize_name (codes "//arm///joint/"))
        ≡ canonicalize_name (codes "//arm///joint/"))
canonicalize_name_lem_example = canonicalize_name_lem (codes "//arm///joint/")

abbrev table : Dict Text
table = (codes "/ns/scan", codes "/laser") ∷ []

resolutions :
    (resolve_name (codes "scan") (codes "/ns/node") table ≡ codes "/laser")
    × (resolve_name (codes "odom") (codes "/ns/node") table ≡ codes "/ns/odom")
    × (resolve_name (codes "~gain") (codes "/ns/node") table ≡ codes "/ns/node/gain")
    × (resolve_name [] (codes "/ns/node") table ≡ codes "/ns/")
unfolding program
resolutions = (refl, refl, refl, refl)

is_global-resolve_name_example :
    is_global (resolve_name (codes "~gain") (codes "/ns/node") table) ≡ true
is_global-resolve_name_example =
    is_global-resolve_name (codes "~gain") (codes "/ns/node") table refl (refl, tt)

private_ns : make_global_ns (codes "~robot") ≡ err value_error
unfolding program
private_ns = refl

caller :
    make_caller_id [] (codes "-v" ∷ codes "__ns:=robot" ∷ []) (codes "node")
    ≡ ok (codes "/robot/node/")
unfolding program
caller = refl

abbrev command_line : List Text
command_line =
    codes "a:= b" ∷ codes "_p:=1" ∷ codes "__name:=n" ∷ codes "x:=y:=z" ∷ codes "c:=" ∷ []

mappings : load_mappings command_line ≡ (codes "a", codes "b") ∷ (codes "__name", codes "n") ∷ []
unfolding program
mappings = refl

legality :
    (is_legal_name (λ c. false) (codes "~gain/p") ≡ true)
    × (is_legal_name (λ c. false) (codes "a//b") ≡ false)
    × (is_legal_name (λ c. false) (codes "a-b") ≡ false)
    × (is_safe_name (λ c. false) (codes "pkg/Type") ≡ true)
    × (package_resource_name (codes "a/b/c") ≡ err value_error)
unfolding program is_legal_name is_safe_name is_legal_resource_name all_word_or_sep has_double_sep
    package_resource_name
legality = (refl, refl, refl, refl, refl)
