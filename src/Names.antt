-- ===== src/Names.antt =====
-- src/ros/roslib/src/roslib/names.py: names of the ROS graph.
pub mod Environment
pub mod Legal
pub mod Canonical
pub mod Resolve
mod Tests
use xc_ros.Prelude.{
  ℕ, Bool, true, false, not, ◌&&◌, ◌||◌, List, [], ◌∷◌, ◌++◌, Option, none, some, ◌==◌, ltb, length,
  map, if◌then◌else◌,
}
use xc_ros.Prelude.Text.{Text, codes, same}
use xc_ros.Prelude.Str.{has, strip}
use xc_ros.Prelude.Str.Split.{cons_head, split_on, join, non_empty, up_to_last}
use xc_ros.Prelude.Dict.{Dict, insert, lookup}
use xc_ros.Prelude.Result.{Result, ok, err, ◌>>=◌}

pub data Error : Type 0 where
  value_error : Error

-- `SEP` and `PRIV_NAME`
abbrev pub sep : ℕ
sep = b'/'

abbrev pub private_mark : ℕ
private_mark = b'~'

-- `name and name[0] == c`, as a test
abbrev pub begins_with : ℕ → Text → Bool
begins_with c [] = false
begins_with c (d ∷ s) = d == c

-- `name[-1] == c`, for a name that is not empty
unfoldable pub ends_with : ℕ → Text → Bool
ends_with c [] = false
ends_with c (d ∷ []) = d == c
ends_with c (d ∷ e ∷ s) = ends_with c (e ∷ s)

-- `name[:-1]`
unfoldable pub drop_last : Text → Text
drop_last [] = []
drop_last (d ∷ []) = []
drop_last (d ∷ e ∷ s) = d ∷ drop_last (e ∷ s)

abbrev pub is_global : Text → Bool
is_global = begins_with sep

abbrev pub is_private : Text → Bool
is_private = begins_with private_mark

unfoldable pub make_global_ns : Text → Result Error Text
make_global_ns name =
    let absolute = if is_global name then name else sep ∷ name in
    if is_private name
    then err value_error
    else ok (if ends_with sep absolute then absolute else absolute ++ sep ∷ [])

-- `text or SEP`
abbrev pub or_sep : Text → Text
or_sep [] = sep ∷ []
or_sep (c ∷ s) = c ∷ s

unfoldable pub namespace : Text → Text
namespace [] = sep ∷ []
namespace (c ∷ s) =
    let name = c ∷ s in
    or_sep (up_to_last sep (if ends_with sep name then drop_last name else name))

-- a relative name behind a namespace that is not `~`
abbrev join_ns : Text → Text → Text
join_ns [] name = name
join_ns (c ∷ s) name = if ends_with sep (c ∷ s) then (c ∷ s) ++ name else (c ∷ s) ++ (sep ∷ name)

unfoldable pub ns_join : Text → Text → Text
ns_join ns name =
    if is_private name || is_global name
    then name
    else (if same ns (private_mark ∷ []) then private_mark ∷ name else join_ns ns name)

unfoldable pub canonicalize_name : Text → Text
canonicalize_name [] = []
canonicalize_name (c ∷ s) =
    let parts = join sep (non_empty (split_on sep (c ∷ s))) in
    if same (c ∷ s) (sep ∷ []) then c ∷ s else (if c == sep then sep ∷ parts else parts)

-- `remappings[name]` where it is there; no remappings are an empty table
abbrev pub remapped : Dict Text → Text → Text
remapped remappings name = elim (lookup name remappings) [ none ↦ name | some to ↦ to ]

-- `name[1:]`
abbrev pub rest : Text → Text
rest [] = []
rest (c ∷ s) = s

-- a canonical name, before the remappings
unfoldable pub resolved : Text → Text → Text
resolved ns name =
    if is_global name
    then name
    else (if is_private name
        then canonicalize_name (ns ++ (sep ∷ rest name))
        else namespace ns ++ name)

unfoldable pub resolve_name : Text → Text → Dict Text → Text
resolve_name [] ns remappings = namespace ns
resolve_name (c ∷ s) ns remappings = remapped remappings (resolved ns (canonicalize_name (c ∷ s)))
