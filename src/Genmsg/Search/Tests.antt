-- ===== src/Genmsg/Search/Tests.antt =====
-- A directory of message files, and the theorem at it.
use xc_ros.Prelude.{
  ℕ, ◌≡◌, refl, sym, ap, subst, Bool, true, false, ◌||◌, List, [], ◌∷◌, ◌++◌, Option, none, some,
  arith, if◌then◌else◌,
}
use xc_ros.Prelude.Text.{Text, codes, same, mem}
use xc_ros.Prelude.Int.{◌+ℤ◌, ◌-ℤ◌}
use xc_ros.Prelude.Str.{has, strip, lstrip, rstrip, is_space, before}
use xc_ros.Prelude.Str.Split.{split_on, join, non_empty, behind_last}
use xc_ros.Prelude.Dict.{Dict, insert, lookup, has_key}
use xc_ros.Prelude.Result.{Result, ok, err, >>=-eq-ok, ok_injective}
use xc_ros.Names.{ends_with, drop_last}
use xc_ros.Genmsg.{
  Error, msg_not_found, key_error, package_resource_name, has_double, all_words, all_words_or_seps,
  is_legal_resource_name, is_legal_resource_base_name,
}
use xc_ros.Genmsg.Types.{
  is_builtin, is_header_type, bare_msg_type, resolve_type, number, int_of, parse_type, are_indices,
  is_valid_msg_type,
}
use xc_ros.Genmsg.Constants.{Builtins, strip_comments, words}
use xc_ros.Genmsg.Spec.{MsgSpec, new_field, new_fields, are_distinct, new_spec}
use xc_ros.Genmsg.Context.{
  MsgContext, new_context, register, is_registered, get_registered, set_file, set_depends,
  get_depends,
}
use xc_ros.Genmsg.Loader.{
  qualified, load_field_line, load_line, load_lines, load_spec, load_msg_from_string,
}
use xc_ros.Genmsg.Search.{
  FileSystem, first_file, get_msg_file, load_msg_by_type, load_full_type, full_type,
}
use xc_ros.Genmsg.Search.Ranks.{direct, AllBelow, SpecBelow, Falls, IsRanked}
use xc_ros.Genmsg.Search.Files.{by_type_parts}
use xc_ros.Genmsg.Search.Loading.{Run, fetch, load_type, load_types, load_msg_depends}
use xc_ros.Genmsg.Search.Rules.{Good}
use xc_ros.Genmsg.Search.Ends.{Loaded, load_msg_depends-Good}

abbrev builtins : Builtins
builtins = record {
  F = Unit {0};
  unicode = record { word = λ c. false; decimal = λ c. none };
  float_of = λ s. none;
  literal_truth = λ s. none;
}

-- Every file that is there holds a message of one number.
abbrev disk : FileSystem
disk = record {
  join_path = λ a b. a ++ (b'/' ∷ b);
  is_file = λ path. same path (codes "msg/Point.msg") || same path (codes "other/Level.msg");
  read = λ path. ok (codes "int8 x");
}

abbrev paths : Dict (List Text)
paths = (codes "nav", codes "other" ∷ codes "msg" ∷ []) ∷ []

program : Unit {0}
unfolding same mem ◌+ℤ◌ ◌-ℤ◌ has strip lstrip rstrip is_space before split_on join non_empty
    behind_last insert lookup has_key ends_with drop_last package_resource_name has_double all_words
    all_words_or_seps is_legal_resource_name is_legal_resource_base_name is_builtin is_header_type
    bare_msg_type resolve_type number int_of parse_type are_indices is_valid_msg_type strip_comments
    words new_field new_fields are_distinct new_spec register is_registered get_registered set_file
    set_depends get_depends qualified load_field_line load_line load_lines load_spec
    load_msg_from_string first_file get_msg_file load_full_type load_msg_by_type fetch load_type
    load_types load_msg_depends
program = tt

types_on_disk :
    (full : Text) (spec : MsgSpec builtins.F) (p short : Text)
    → package_resource_name full ≡ ok (p, short)
    → load_spec builtins (codes "int8 x") full ≡ ok spec
    → spec.types ≡ codes "int8" ∷ []
unfolding program
types_on_disk full spec [] short named e =
    ap (λ r. elim r [ ok made ↦ made.types | err x ↦ codes "int8" ∷ [] ]) (sym (rw named at e))
types_on_disk full spec (c ∷ s) short named e =
    ap (λ r. elim r [ ok made ↦ made.types | err x ↦ codes "int8" ∷ [] ]) (sym (rw named at e))

-- The messages on the disk embed none, so one rank serves them all.
abbrev rank : Text → Text → ℕ
rank p b = 0

on_disk-Falls :
    (t : Text) (ctx ctx' : MsgContext builtins.F) (spec : MsgSpec builtins.F)
    → load_msg_by_type disk builtins ctx t paths ≡ ok (ctx', spec)
    → Falls rank t spec
unfolding program
on_disk-Falls t ctx ctx' spec e p b named =
    let (path, loaded, _, _, text, read, made) =
      by_type_parts disk builtins paths ctx ctx' t spec e in
    let made' : load_spec builtins (codes "int8 x") (full_type t) ≡ ok spec =
      subst (λ s. load_spec builtins s (full_type t) ≡ ok spec) (ok_injective text _ (sym read))
        made in
    let ((q, short), full_named, _) = >>=-eq-ok (package_resource_name (full_type t)) made' in
    subst (λ types. AllBelow rank 0 (direct spec.pkg types))
      (sym (types_on_disk (full_type t) spec q short full_named made')) tt

unless_there :
    (there : Bool) (r : Result Error (MsgSpec builtins.F)) {spec : MsgSpec builtins.F}
    → there ≡ false
    → (if there then r else err key_error) ≡ ok spec
    → ⊥
unless_there true r h e = cc
unless_there false r h e = cc

new_context-IsRanked : IsRanked rank (new_context {F = builtins.F})
unfolding program
new_context-IsRanked t spec e =
    let (there, e', outcome) =
      >>=-eq-ok (is_registered (bare_msg_type t) (new_context {F = builtins.F})) e in
    let ((p, b), _, none_there) =
      >>=-eq-ok (package_resource_name (bare_msg_type (bare_msg_type t))) e' in
    absurd (unless_there there _ (sym (ok_injective false there none_there)) outcome)

abbrev pose : MsgSpec builtins.F
pose = record {
  types = codes "Point" ∷ codes "int8" ∷ codes "nav/Point[]" ∷ [];
  names = codes "a" ∷ codes "b" ∷ codes "c" ∷ [];
  constants = [];
  header_present = false;
  text = [];
  full_name = codes "nav/Pose";
  short_name = codes "Pose";
  pkg = codes "nav";
  parsed_fields = [];
}

pose-SpecBelow : SpecBelow rank 1 pose
unfolding program
pose-SpecBelow = (λ p b e. omega arith, (λ p b e. omega arith, tt))

-- What a call returns, and the files it has read.
abbrev outcome_of : Run builtins.F (List Text) → Option (Result Error (List Text) × Dict Text)
outcome_of none = none
outcome_of (some (ctx, depends)) = some (depends, ctx.files)

loads :
    outcome_of (load_msg_depends disk builtins paths 2 new_context pose)
    ≡ some (
      ok (codes "nav/Point" ∷ codes "nav/Point" ∷ []),
      (codes "nav/Point", codes "msg/Point.msg") ∷ [],
    )
unfolding program
loads = refl

not_there :
    outcome_of (
      load_msg_depends disk builtins paths 2 new_context
        (record pose { types = codes "Line" ∷ [] }))
    ≡ some (err msg_not_found, [])
unfolding program
not_there = refl

load_msg_depends-Good_example :
    Good rank
      (Loaded disk builtins paths rank on_disk-Falls new_context pose)
      (load_msg_depends disk builtins paths 2 new_context pose)
load_msg_depends-Good_example =
    load_msg_depends-Good disk builtins paths rank on_disk-Falls 2 1 pose new_context (omega arith)
      pose-SpecBelow new_context-IsRanked
