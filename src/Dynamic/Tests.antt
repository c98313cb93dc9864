-- ===== src/Dynamic/Tests.antt =====
-- src/genpy/src/genpy/dynamic.py: a message that embeds another one, and back from its full text.
use xc_ros.Prelude.{◌≡◌, refl, sym, ◌∙◌, subst, true, false, [], ◌∷◌, none, some, arith}
use xc_ros.Prelude.Text.{Text, codes, same, same_iff, mem}
use xc_ros.Prelude.Int.{◌+ℤ◌, ◌-ℤ◌}
use xc_ros.Prelude.Str.{has, before, after, strip, lstrip, rstrip, is_space}
use xc_ros.Prelude.Str.Split.{split_on, join, non_empty, behind_last}
use xc_ros.Prelude.Str.Substring.{starts, finds, split_from, split_by, replace_from}
use xc_ros.Prelude.Dict.{Dict, lookup, insert, has_key}
use xc_ros.Prelude.Result.{Result, ok, err, ok_injective}
use xc_ros.Names.{ends_with, drop_last}
use xc_ros.Genmsg.{
  Error, generation_error, strip_seps, normalize_package_context, resource_name, resource_name_base,
  resource_name_package, package_resource_name, has_double, all_words, all_words_or_seps,
  is_legal_resource_name, is_legal_resource_base_name,
}
use xc_ros.Genmsg.Types.{
  is_builtin, is_valid_constant_type, is_header_type, bare_msg_type, resolve_type, number, int_of,
  parse_type, are_indices, is_valid_msg_type,
}
use xc_ros.Genmsg.Constants.{
  Builtins, bits_of, convert_constant_value, find, string_parts, strip_comments, words,
  load_constant_line,
}
use xc_ros.Genmsg.Spec.{MsgSpec, new_field, new_fields, are_distinct, new_spec}
use xc_ros.Genmsg.Context.{
  MsgContext, new_context, register, is_registered, get_registered, get_depends,
}
use xc_ros.Genmsg.Depends.{depends_of, get_all_depends}
use xc_ros.Genmsg.Loader.{
  qualified, load_field_line, load_line, load_lines, load_spec, load_msg_from_string,
  create_default,
}
use xc_ros.Genmsg.Gentools.{unique_from, unique_deps, dep_texts, msg, compute_full_text}
use xc_ros.Dynamic.{
  move_header, splits, gen_dyn_name, generate_dynamic_specs, load_deps, register_specs,
  dynamic_specs,
}
use xc_ros.Dynamic.Parts.{has_rule}
use xc_ros.Dynamic.Reads.{IsReadable, AllReadable}
use xc_ros.Dynamic.Roundtrip.{AllFound, dynamic_specs-full_text}

program : Unit {0}
unfolding same mem ◌+ℤ◌ ◌-ℤ◌ has before after strip lstrip rstrip is_space split_on join non_empty
    behind_last starts finds split_from split_by replace_from lookup insert has_key ends_with
    drop_last strip_seps normalize_package_context resource_name resource_name_base
    resource_name_package package_resource_name has_double all_words all_words_or_seps
    is_legal_resource_name is_legal_resource_base_name is_builtin is_valid_constant_type
    is_header_type bare_msg_type resolve_type number int_of parse_type are_indices is_valid_msg_type
    bits_of convert_constant_value find string_parts strip_comments words load_constant_line
    new_field new_fields are_distinct new_spec register is_registered get_registered get_depends
    qualified load_field_line load_line load_lines depends_of get_all_depends load_spec
    load_msg_from_string create_default unique_from unique_deps dep_texts compute_full_text
    move_header splits gen_dyn_name generate_dynamic_specs load_deps register_specs dynamic_specs
    has_rule
program = tt

two_parts :
    splits (
      codes
        "a\n================================================================================\nb")
    ≡ codes "a" ∷ codes "b" ∷ []
two_parts = unfold program in refl

dyn_name : gen_dyn_name (codes "nav") (codes "Pose") ≡ codes "_nav__Pose"
dyn_name = unfold program in refl

header_moves : move_header (codes "roslib/Header h") ≡ codes "std_msgs/Header h"
header_moves = unfold program in refl

abbrev builtins : Builtins
builtins = record {
  F = Unit {0};
  unicode = record { word = λ c. false; decimal = λ c. none };
  float_of = λ s. none;
  literal_truth = λ s. none;
}

no_type : generate_dynamic_specs builtins new_context (codes "int8 x") ≡ err generation_error
no_type = unfold program in refl

abbrev blank : MsgSpec builtins.F
blank = record {
  types = [];
  names = [];
  constants = [];
  header_present = false;
  text = [];
  full_name = [];
  short_name = [];
  pkg = [];
  parsed_fields = [];
}

abbrev or_blank : Result Error (MsgSpec builtins.F) → MsgSpec builtins.F
or_blank (ok spec) = spec
or_blank (err e) = blank

abbrev point : MsgSpec builtins.F
point = or_blank (load_spec builtins (codes "int8 x") (codes "nav/Point"))

abbrev pose : MsgSpec builtins.F
pose = or_blank (load_spec builtins (codes "Point p\nbool b") (codes "nav/Pose"))

abbrev ctx : MsgContext builtins.F
ctx = record {
  registered_packages = (codes "nav", (codes "Point", point) ∷ (codes "Pose", pose) ∷ []) ∷ [];
  files = [];
  dependencies = (codes "nav/Point", []) ∷ (codes "nav/Pose", codes "nav/Point" ∷ []) ∷ [];
}

abbrev full_text : Text
full_text =
    codes
      "Point p\nbool b\n================================================================================\nMSG: nav/Point\nint8 x"

abbrev base : MsgContext builtins.F
base = elim (create_default builtins) [ ok c ↦ c | err e ↦ new_context ]

full_text_is : compute_full_text builtins (λ s. s) 2 ctx (msg pose) ≡ ok full_text
full_text_is = unfold program in refl

point-IsReadable : IsReadable builtins (codes "nav/Point") point
point-IsReadable =
    unfold program in
    record { one_line = refl; stripped = refl; bare = refl; plain = refl; loaded = refl }

pose-IsReadable : IsReadable builtins pose.full_name pose
pose-IsReadable =
    unfold program in
    record { one_line = refl; stripped = refl; bare = refl; plain = refl; loaded = refl }

mem_one : (x d : Text) → mem d (x ∷ []) ≡ true → x ≡ d
unfolding mem
mem_one x d m = ground (arith, same_iff x d)

dependencies-AllReadable : AllReadable builtins ctx (unique_deps (codes "nav/Point" ∷ []))
dependencies-AllReadable d dep m got =
    let is : codes "nav/Point" ≡ d =
      mem_one (codes "nav/Point") d (unfold unique_deps unique_from mem in m) in
    let got_point : get_registered (codes "nav/Point") ctx ≡ ok point = unfold program in refl in
    let same_spec : point ≡ dep =
      ok_injective point dep
        (sym got_point ∙ subst (λ x. get_registered x ctx ≡ ok dep) (sym is) got) in
    subst (λ x. IsReadable builtins x dep) is
      (subst (IsReadable builtins (codes "nav/Point")) same_spec point-IsReadable)

dynamic_specs-full_text_example :
    (specs : Dict (MsgSpec builtins.F)) × (registered : MsgContext builtins.F) × (dynamic_specs
        builtins pose.full_name full_text
      ≡ ok (specs, registered))
    × (lookup pose.full_name specs ≡ some pose)
    × AllFound builtins ctx (unique_deps (codes "nav/Point" ∷ [])) specs
dynamic_specs-full_text_example =
    dynamic_specs-full_text builtins (λ s. s) 2 ctx base pose (codes "nav/Point" ∷ []) full_text
      (unfold program in refl) (unfold program in refl) full_text_is pose-IsReadable
      dependencies-AllReadable (unfold program in refl) (unfold program in refl)
