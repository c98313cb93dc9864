-- ===== src/Dynamic.antt =====
-- src/genpy/src/genpy/dynamic.py: the specifications that `generate_dynamic` reads off the full text of
-- a message.
pub mod Parts
pub mod Reads
pub mod Roundtrip
mod Tests
use xc_ros.Prelude.{ℕ, zero, Bool, true, false, not, List, [], ◌∷◌, ◌++◌, drop, if◌then◌else◌}
use xc_ros.Prelude.Text.{Text, codes}
use xc_ros.Prelude.Dict.{Dict, insert}
use xc_ros.Prelude.Str.{has, before, after, strip}
use xc_ros.Prelude.Str.Substring.{starts, split_by, replace_from}
use xc_ros.Prelude.Result.{Result, ok, err, ◌>>=◌}
use xc_ros.Names.{drop_last}
use xc_ros.Genmsg.{Error, generation_error, index_error, package_resource_name}
use xc_ros.Genmsg.Constants.{Builtins}
use xc_ros.Genmsg.Spec.{MsgSpec}
use xc_ros.Genmsg.Context.{MsgContext, register}
use xc_ros.Genmsg.Loader.{load_msg_from_string, create_default}
use xc_ros.Genmsg.Gentools.{separator}

-- `msg_cat.replace('roslib/Header', 'std_msgs/Header')`
unfoldable pub move_header : Text → Text
unfolding replace_from
move_header msg_cat =
    replace_from b'r' (codes "oslib/Header") (codes "std_msgs/Header") zero msg_cat

-- `msg_cat.split('\n'+'='*80+'\n')`
unfoldable pub splits : Text → List Text
unfolding move_header split_by
splits msg_cat = split_by 10 separator (move_header msg_cat)

-- `dep_msg[:line1]` and `dep_msg[line1+1:]`, where `line1` is -1 if there is no line end
abbrev pub first_line : Text → Text
first_line dep_msg = if has 10 dep_msg then before 10 dep_msg else drop_last dep_msg

abbrev pub other_lines : Text → Text
other_lines dep_msg = if has 10 dep_msg then after 10 dep_msg else dep_msg

-- `_gen_dyn_name`
unfoldable pub gen_dyn_name : Text → Text → Text
gen_dyn_name pkg base_type = b'_' ∷ pkg ++ (codes "__" ++ base_type)

module _ (builtins : Builtins) where
  abbrev Spec : Type 0
  Spec = MsgSpec builtins.F

  abbrev pub Read : Type 0
  Read = Text × Spec × MsgContext builtins.F

  abbrev pub load_dep : MsgContext builtins.F → Text → Text → Result Error Read
  load_dep msg_context dep_type text = do
    named ← package_resource_name dep_type
    (registered, dep_spec) ← load_msg_from_string builtins msg_context text dep_type
    ok (dep_type, dep_spec, registered)

  abbrev pub read_lines : MsgContext builtins.F → Text → Text → Result Error Read
  read_lines msg_context msg_line text =
      if starts (codes "MSG: ") msg_line
      then load_dep msg_context (strip (drop 5 msg_line)) text
      else err generation_error

  -- `_generate_dynamic_specs`; loading registers the specification
  unfoldable pub generate_dynamic_specs : MsgContext builtins.F → Text → Result Error Read
  unfolding starts
  generate_dynamic_specs msg_context dep_msg =
      read_lines msg_context (first_line dep_msg) (other_lines dep_msg)

  -- the loop over the dependencies
  unfoldable pub load_deps :
      MsgContext builtins.F → Dict Spec → List Text → Result Error (Dict Spec)
  load_deps msg_context specs [] = ok specs
  load_deps msg_context specs (dep_msg ∷ dep_msgs) = do
    (dep_type, dep_spec, registered) ← generate_dynamic_specs msg_context dep_msg
    load_deps registered (insert dep_type dep_spec specs) dep_msgs

  -- the core message and its dependencies
  abbrev pub load_parts : MsgContext builtins.F → Text → List Text → Result Error (Dict Spec)
  load_parts msg_context core_type [] = err index_error
  load_parts msg_context core_type (core_msg ∷ deps_msgs) = do
    (registered, spec) ← load_msg_from_string builtins msg_context core_msg core_type
    load_deps registered ((core_type, spec) ∷ []) deps_msgs

  unfoldable pub register_specs :
      Dict Spec → MsgContext builtins.F → Result Error (MsgContext builtins.F)
  register_specs [] msg_context = ok msg_context
  register_specs ((t, spec) ∷ specs) msg_context =
      register t spec msg_context >>= register_specs specs

  -- `generate_dynamic` up to the generation of code: the specifications, and the context that has them
  unfoldable pub dynamic_specs : Text → Text → Result Error (Dict Spec × MsgContext builtins.F)
  unfolding splits
  dynamic_specs core_type msg_cat = do
    msg_context ← create_default builtins
    named ← package_resource_name core_type
    specs ← load_parts msg_context core_type (splits msg_cat)
    fresh ← create_default builtins
    registered ← register_specs specs fresh
    ok (specs, registered)
