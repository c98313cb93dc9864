-- ===== src/Genmsg/Tests.antt =====
-- Messages as packages declare them, and the theorems at them.
use xc_ros.Prelude.{ℕ, ◌-◌, ◌≡◌, refl, [], ◌∷◌, none, arith, true, false, ◌||◌, ◌&&◌, if◌then◌else◌}
use xc_ros.Prelude.Text.{Text, codes, same, mem}
use xc_ros.Prelude.Int.{pos, negsuc, ◌+ℤ◌, ◌-ℤ◌}
use xc_ros.Prelude.Str.{has, strip, lstrip, rstrip, is_space, before}
use xc_ros.Prelude.Str.Split.{split_on, join, non_empty, behind_last}
use xc_ros.Prelude.Dict.{insert, lookup, has_key}
use xc_ros.Prelude.Result.{Result, ok, err}
use xc_ros.Names.{sep, ends_with, drop_last}
use xc_ros.Genmsg.{
  Error, invalid_msg_spec, value_error, Unicode, strip_seps, normalize_package_context,
  resource_name, resource_name_base, resource_name_package, package_resource_name, has_double,
  all_words, all_words_or_seps, is_legal_resource_name, is_legal_resource_base_name,
}
use xc_ros.Genmsg.Types.{
  is_builtin, is_valid_constant_type, is_header_type, bare_msg_type, resolve_type, number, int_of,
  parse_type, are_indices, is_valid_msg_type,
}
use xc_ros.Genmsg.Constants.{
  Builtins, int, string, bits_of, convert_constant_value, find, string_parts, strip_comments, words,
  load_constant_line, new_constant,
}
use xc_ros.Genmsg.Spec.{MsgSpec, new_field, new_fields, are_distinct, new_spec}
use xc_ros.Genmsg.Context.{
  MsgContext, new_context, register, is_registered, get_registered, get_depends,
}
use xc_ros.Genmsg.Loader.{
  qualified, load_field_line, split_srv, load_line, load_lines, load_spec, load_msg_from_string,
  load_srv_from_string, create_default,
}
use xc_ros.Genmsg.Bounds.{convert_constant_value-fits}
use xc_ros.Genmsg.Registry.{get_registered-register}
use xc_ros.Genmsg.Parsing.{load_field_line-is_legal}
use xc_ros.Genmsg.Arrays.{parse_type-bare_msg_type}
use xc_ros.Genmsg.Depends.{get_all_depends, IsRanked}
use xc_ros.Genmsg.Reach.{Reaches, IsClosed, Lists, get_all_depends-Lists}
use xc_ros.Genmsg.Sound.{IsSound, load_msg_from_string-IsSound}

program : Unit {0}
unfolding same mem ◌+ℤ◌ ◌-ℤ◌ has strip lstrip rstrip is_space before split_on join non_empty
    behind_last insert lookup has_key ends_with drop_last strip_seps normalize_package_context
    resource_name resource_name_base resource_name_package package_resource_name has_double
    all_words all_words_or_seps is_legal_resource_name is_legal_resource_base_name is_builtin
    is_valid_constant_type is_header_type bare_msg_type resolve_type number int_of parse_type
    are_indices is_valid_msg_type bits_of convert_constant_value find string_parts strip_comments
    words load_constant_line new_field new_fields are_distinct new_spec register is_registered
    get_depends get_registered qualified load_field_line split_srv load_line load_lines load_spec
    load_msg_from_string load_srv_from_string
program = tt

abbrev ascii : Unicode
ascii = record { word = λ c. false; decimal = λ c. none }

abbrev builtins : Builtins
builtins = record { F = Unit {0}; unicode = ascii; float_of = λ s. none; literal_truth = λ s. none }

load_field_line-is_legal_example :
    (is_legal_resource_base_name ascii (codes "poses") ≡ true)
    × (is_builtin (bare_msg_type (codes "nav/Pose[]")) || has sep (codes "nav/Pose[]") ≡ true)
load_field_line-is_legal_example =
    load_field_line-is_legal ascii (codes "Pose[]  poses # visited") (codes "nav")
      (unfold program in refl) (unfold program in refl)

convert_constant_value-fits_example :
    convert_constant_value builtins (codes "int8") (codes " -1_28") ≡ ok (int (negsuc 127))
unfolding same
convert_constant_value-fits_example =
    convert_constant_value-fits builtins (codes "int8") (codes " -1_28") {b = 8} {n = negsuc 127}
      (unfold program in refl) (unfold program in ground arith) (unfold program in refl)

-- The bound of 64 bits is computed in floating point and comes out one too large.
too_large :
    convert_constant_value builtins (codes "uint64") (codes "18446744073709551616")
    ≡ ok (int (pos 18446744073709551616))
unfolding program
too_large = refl

string_constant :
    load_constant_line builtins (codes "string X= a # b ")
    ≡ ok (new_constant (codes "string") (codes "X") (string (codes "a # b")) (codes "a # b"))
unfolding program
string_constant = refl

indices :
    (is_valid_msg_type ascii (codes "int8[2][3]") ≡ true)
    × (parse_type ascii (codes "int8[2][3]") ≡ err value_error)
unfolding program
indices = (refl, refl)

abbrev text : Text
text = codes "Header header\nfloat64[3] p # position\n\nint8 A=-3\n"

abbrev empty_spec : MsgSpec builtins.F
empty_spec = record {
  types = [];
  names = [];
  constants = [];
  header_present = false;
  text = [];
  full_name = codes "nav/Empty";
  short_name = codes "Empty";
  pkg = codes "nav";
  parsed_fields = [];
}

abbrev outcome : Result Error (MsgContext builtins.F × MsgSpec builtins.F)
outcome = load_msg_from_string builtins new_context text (codes "nav/Point")

abbrev loaded : MsgContext builtins.F × MsgSpec builtins.F
loaded = elim outcome [ ok r ↦ r | err e ↦ (new_context, empty_spec) ]

load_msg_from_string-IsSound_example :
    IsSound loaded.1 × (get_registered (codes "nav/Point") loaded.0 ≡ ok loaded.1)
load_msg_from_string-IsSound_example =
    load_msg_from_string-IsSound builtins new_context loaded.0 text (codes "nav/Point") loaded.1
      (unfold program in refl)

loaded_fields :
    (loaded.1.types ≡ codes "std_msgs/Header" ∷ codes "float64[3]" ∷ [])
    × (loaded.1.names ≡ codes "header" ∷ codes "p" ∷ [])
unfolding program
loaded_fields = (refl, refl)

duplicate :
    load_msg_from_string builtins new_context (codes "int8 x\nint16 x") (codes "nav/Two")
    ≡ err invalid_msg_spec
unfolding program
duplicate = refl

abbrev stored : MsgContext builtins.F
stored = elim (register (codes "nav/Empty") empty_spec loaded.0) [ ok c ↦ c | err e ↦ loaded.0 ]

get_registered-register_example : get_registered (codes "nav/Point[]") stored ≡ (
    if same (codes "nav") (codes "nav") && same (codes "Empty") (codes "Point")
    then ok empty_spec
    else get_registered (codes "nav/Point[]") loaded.0)
get_registered-register_example =
    get_registered-register (codes "nav/Empty") (codes "nav/Point[]") empty_spec loaded.0 stored
      (unfold program in refl) (unfold program in refl) (unfold program in refl)

parse_type-bare_msg_type_example :
    (codes "float64" ≡ bare_msg_type (codes "float64[]")) × (true ≡ has b'[' (codes "float64[]"))
parse_type-bare_msg_type_example =
    parse_type-bare_msg_type ascii (codes "float64[]")
      {parsed = record { base_type = codes "float64"; is_array = true; array_len = none }}
      (unfold program in refl)

defaults :
    (elim (create_default builtins) [
      | err e ↦ err e
      | ok ctx ↦ is_registered (codes "duration[]") ctx
    ])
    ≡ ok true
unfolding program create_default
defaults = refl

abbrev graph : MsgContext builtins.F
graph = record new_context {
  dependencies =
      (codes "a", codes "b" ∷ codes "c" ∷ []) ∷ (codes "b", codes "c" ∷ []) ∷ (codes "c", []) ∷ [];
}

-- The names in reverse order, as ranks.
abbrev rank : Text → ℕ
rank [] = 0
rank (c ∷ s) = 100 - c

all_of_a : get_all_depends 4 (codes "a") graph ≡ ok (codes "b" ∷ codes "c" ∷ codes "c" ∷ [])
unfolding program get_all_depends
all_of_a = refl

graph-IsRanked : IsRanked rank graph.dependencies
graph-IsRanked = ((ground arith, (ground arith, tt)), ((ground arith, tt), (tt, tt)))

graph-IsClosed : IsClosed graph.dependencies graph.dependencies
unfolding program
graph-IsClosed = (((codes "c" ∷ [], refl), (([], refl), tt)), ((([], refl), tt), (tt, tt)))

get_all_depends-Lists_example :
    Lists graph.dependencies
      (Reaches graph.dependencies (codes "a"))
      (get_all_depends 4 (codes "a") graph)
get_all_depends-Lists_example =
    get_all_depends-Lists rank graph graph-IsRanked graph-IsClosed 4 (codes "a")
      (codes "b" ∷ codes "c" ∷ []) (ground arith) (unfold program in refl)
