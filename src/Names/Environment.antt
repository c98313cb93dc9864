-- ===== src/Names/Environment.antt =====
-- src/ros/roslib/src/roslib/names.py: names out of the command line and the environment.
use xc_ros.Prelude.{
  ℕ, ◌≡◌, refl, sym, subst, inl, inr, Bool, true, false, not, ◌&&◌, List, [], ◌∷◌, ◌++◌, arith,
  ◌==◌, if◌then◌else◌, Bool-cases, Option, none, some, map,
}
use xc_ros.Prelude.Text.{Text, codes, same, same_iff}
use xc_ros.Prelude.Str.{has, strip}
use xc_ros.Prelude.Str.Split.{cons_head}
use xc_ros.Prelude.Dict.{Dict, lookup, insert}
use xc_ros.Prelude.Result.{Result, ◌>>=◌}
use xc_ros.Names.{Error, sep, make_global_ns, ns_join}

-- `s[len(p):]` if `s.startswith(p)`
unfoldable pub behind : Text → Text → Option Text
behind [] s = some s
behind (c ∷ p) [] = none
behind (c ∷ p) (d ∷ s) = if d == c then behind p s else none

-- `env.get('ROS_NAMESPACE', GLOBALNS)`
abbrev pub environment_ns : Dict Text → Text
environment_ns env = elim (lookup (codes "ROS_NAMESPACE") env) [ none ↦ sep ∷ [] | some ns ↦ ns ]

-- the first argument that sets the namespace, or else the environment
unfoldable pub get_ros_namespace : Dict Text → List Text → Result Error Text
get_ros_namespace env [] = make_global_ns (environment_ns env)
get_ros_namespace env (a ∷ argv) = elim (behind (codes "__ns:=") a) [
  | none ↦ get_ros_namespace env argv
  | some ns ↦ make_global_ns ns
]

unfoldable pub make_caller_id : Dict Text → List Text → Text → Result Error Text
make_caller_id env argv name =
    get_ros_namespace env argv >>= (λ ns. make_global_ns (ns_join ns name))

-- `arg.split(REMAP)`
unfoldable pub split_remap : Text → List Text
split_remap [] = [] ∷ []
split_remap (c ∷ []) = (c ∷ []) ∷ []
split_remap (c ∷ d ∷ s) =
    let behind_mark = split_remap s in
    let rest = split_remap (d ∷ s) in
    if c == b':' && d == b'=' then [] ∷ behind_mark else cons_head c rest

-- `len(src) > 1 and src[0] == '_' and src[1] != '_'`
abbrev pub is_assignment : Text → Bool
is_assignment [] = false
is_assignment (c ∷ []) = false
is_assignment (c ∷ d ∷ s) = c == b'_' && not (d == b'_')

abbrev pub is_empty : Text → Bool
is_empty [] = true
is_empty (c ∷ s) = false

-- one argument, stripped; any other number of parts is reported and skipped
abbrev pub add_parts : List Text → Dict Text → Dict Text
add_parts (src ∷ dst ∷ []) mappings =
    if not (is_empty src) && not (is_empty dst) && not (is_assignment src)
    then insert src dst mappings
    else mappings
add_parts parts mappings = mappings

-- without the mark the argument is one part
abbrev pub add_mapping : Text → Dict Text → Dict Text
add_mapping arg mappings = add_parts (map strip (split_remap arg)) mappings

unfoldable pub add_mappings : List Text → Dict Text → Dict Text
add_mappings [] mappings = mappings
add_mappings (arg ∷ argv) mappings = add_mappings argv (add_mapping arg mappings)

unfoldable pub load_mappings : List Text → Dict Text
load_mappings argv = add_mappings argv []

-- `s.replace(a, b)` on characters
unfoldable pub replace : ℕ → ℕ → Text → Text
replace a b [] = []
replace a b (c ∷ s) = (if c == a then b else c) ∷ replace a b s

-- The host's name and the decimal forms of the process id and of the random number come from outside.
unfoldable pub anonymous_name : Text → Text → Text → Text → Text
anonymous_name host pid random id = replace b':' b'_' (
    replace b'-' b'_'
      (replace b'.' b'_' (id ++ (b'_' ∷ (host ++ (b'_' ∷ (pid ++ (b'_' ∷ random))))))))

has-replace_self : (a b : ℕ) (s : Text) → (b == a) ≡ false → has a (replace a b s) ≡ false
unfolding has replace
has-replace_self a b [] h = refl
has-replace_self a b (c ∷ s) h = ground (arith, has-replace_self a b s)

has-replace_other :
    (a b c : ℕ) (s : Text) → (b == c) ≡ false → has c s ≡ false → has c (replace a b s) ≡ false
unfolding has replace
has-replace_other a b c [] h k = refl
has-replace_other a b c (d ∷ s) h k = ground (arith, has-replace_other a b c s)

-- An anonymous name has no dot, dash or colon, whatever the host is called.
pub anonymous_name_lem :
    (host pid random id : Text)
    → (has b'.' (anonymous_name host pid random id) ≡ false)
      × (has b'-' (anonymous_name host pid random id) ≡ false)
      × (has b':' (anonymous_name host pid random id) ≡ false)
unfolding anonymous_name
anonymous_name_lem host pid random id = (
  has-replace_other b':' b'_' b'.' dashless refl
      (has-replace_other b'-' b'_' b'.' dotless refl (has-replace_self b'.' b'_' text refl)),
  has-replace_other b':' b'_' b'-' dashless refl (has-replace_self b'-' b'_' dotless refl),
  has-replace_self b':' b'_' dashless refl,
)
  where
    text : Text
    text = id ++ (b'_' ∷ (host ++ (b'_' ∷ (pid ++ (b'_' ∷ random)))))

    dotless : Text
    dotless = replace b'.' b'_' text

    dashless : Text
    dashless = replace b'-' b'_' dotless

-- A key and a value that a remapping may have.
abbrev pub IsMapping : Text → Text → Type 0
IsMapping src dst = (is_empty src ≡ false) × (is_empty dst ≡ false) × (is_assignment src ≡ false)

abbrev pub AllMappings : Dict Text → Type 0
AllMappings [] = Unit
AllMappings ((src, dst) ∷ m) = IsMapping src dst × AllMappings m

insert-AllMappings :
    (src dst : Text) (m : Dict Text)
    → IsMapping src dst
    → AllMappings m
    → AllMappings (insert src dst m)
unfolding insert
insert-AllMappings src dst [] h k = (h, tt)
insert-AllMappings src dst ((j, w) ∷ m) h k = elim (Bool-cases (same j src)) [
  | inl here ↦ rw here (key here, k.1)
  | inr there ↦ rw there (k.0, insert-AllMappings src dst m h k.1)
]
  where
    key : same j src ≡ true → IsMapping j dst
    key here = subst (λ x. IsMapping x dst) (sym ((same_iff j src).0 here)) h

add_parts-AllMappings :
    (parts : List Text) (m : Dict Text) → AllMappings m → AllMappings (add_parts parts m)
add_parts-AllMappings [] m h = h
add_parts-AllMappings (src ∷ []) m h = h
add_parts-AllMappings (src ∷ dst ∷ []) m h =
    elim (Bool-cases (not (is_empty src) && not (is_empty dst) && not (is_assignment src))) [
      | inl legal ↦
          rw legal (insert-AllMappings src dst m (ground arith, ground arith, ground arith) h)
      | inr skipped ↦ rw skipped h
    ]
add_parts-AllMappings (src ∷ dst ∷ more ∷ parts) m h = h

add_mappings-AllMappings :
    (argv : List Text) (m : Dict Text) → AllMappings m → AllMappings (add_mappings argv m)
unfolding add_mappings
add_mappings-AllMappings [] m h = h
add_mappings-AllMappings (arg ∷ argv) m h =
    add_mappings-AllMappings argv (add_mapping arg m)
      (add_parts-AllMappings (map strip (split_remap arg)) m h)

-- Of any command line, the remappings have no empty name and no parameter assignment, whose name
-- begins with one underscore.
pub load_mappings-AllMappings : (argv : List Text) → AllMappings (load_mappings argv)
unfolding load_mappings
load_mappings-AllMappings argv = add_mappings-AllMappings argv [] tt
