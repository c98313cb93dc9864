-- ===== src/Genmsg/Loader.antt =====
-- src/genmsg/src/genmsg/msg_loader.py: message and service specifications out of their texts.
use xc_ros.Prelude.{Bool, true, false, not, ◌&&◌, List, [], ◌∷◌, ◌++◌, ◌==◌, if◌then◌else◌}
use xc_ros.Prelude.Text.{Text, codes, same}
use xc_ros.Prelude.Str.{has}
use xc_ros.Prelude.Str.Split.{split_on}
use xc_ros.Prelude.Result.{Result, ok, err, ◌>>=◌}
use xc_ros.Names.{sep}
use xc_ros.Genmsg.{
  Error, invalid_msg_spec, Unicode, package_resource_name, is_legal_resource_base_name,
}
use xc_ros.Genmsg.Types.{bare_msg_type, header, header_full_name, is_builtin, is_valid_msg_type}
use xc_ros.Genmsg.Constants.{Builtins, Constant, strip_comments, words, load_constant_line}
use xc_ros.Genmsg.Spec.{MsgSpec, new_spec}
use xc_ros.Genmsg.Context.{MsgContext, new_context, register}

abbrev is_empty : Text → Bool
is_empty [] = true
is_empty (c ∷ s) = false

-- the type of a field as it is kept
unfoldable pub qualified : Text → Text → Text
qualified package_context field_type =
    if not (is_empty package_context) && not (has sep field_type)
    then (if same field_type header
        then header_full_name
        else (if not (is_builtin (bare_msg_type field_type))
            then package_context ++ (sep ∷ field_type)
            else field_type))
    else (if same field_type header then header_full_name else field_type)

abbrev pub field_of : Unicode → Text → List Text → Result Error (Text × Text)
field_of unicode package_context (field_type ∷ name ∷ []) =
    if not (is_legal_resource_base_name unicode name)
    then err invalid_msg_spec
    else (if not (is_valid_msg_type unicode field_type)
        then err invalid_msg_spec
        else ok (qualified package_context field_type, name))
field_of unicode package_context splits = err invalid_msg_spec

unfoldable pub load_field_line : Unicode → Text → Text → Result Error (Text × Text)
unfolding strip_comments words
load_field_line unicode orig_line package_context =
    field_of unicode package_context (words (strip_comments orig_line))

-- What the loop over the lines has collected, in order of declaration.
pub record Lines {ℓ} (F : Type ℓ) : Type ℓ where
  pub types : List Text
  pub names : List Text
  pub constants : List (Constant F)

abbrev pub no_lines {ℓ} : {F : Type ℓ} → Lines F
no_lines = record { types = []; names = []; constants = [] }

-- `srv` halves: the request and the response, and whether the delimiter has been met
pub record Halves : Type 0 where
  pub text_in : Text
  pub text_out : Text
  pub in_response : Bool

-- `l.startswith('---')`
abbrev starts_response : Text → Bool
starts_response (a ∷ b ∷ c ∷ s) = a == b'-' && b == b'-' && c == b'-'
starts_response line = false

-- the line with its end, written to the current half
abbrev write_line : Text → Halves → Halves
write_line line halves =
    if halves.in_response
    then record halves { text_out = halves.text_out ++ (line ++ 10 ∷ []) }
    else record halves { text_in = halves.text_in ++ (line ++ 10 ∷ []) }

unfoldable pub split_srv : List Text → Halves → Halves
unfolding strip_comments
split_srv [] halves = halves
split_srv (l ∷ lines) halves =
    let line = strip_comments l in
    let halves' =
      if starts_response line
      then record halves { in_response = true }
      else write_line line halves in
    split_srv lines halves'

module _ (builtins : Builtins) where
  abbrev F : Type 0
  F = builtins.F

  abbrev pub add_constant : Text → Lines F → Result Error (Lines F)
  add_constant orig_line lines = do
    constant ← load_constant_line builtins orig_line
    ok (record lines { constants = lines.constants ++ constant ∷ [] })

  abbrev pub add_field : Text → Text → Lines F → Result Error (Lines F)
  add_field package_name orig_line lines = do
    (field_type, name) ← load_field_line builtins.unicode orig_line package_name
    ok (record lines { types = lines.types ++ field_type ∷ []; names = lines.names ++ name ∷ [] })

  -- the body of the loop
  unfoldable pub load_line : Text → Text → Lines F → Result Error (Lines F)
  unfolding strip_comments
  load_line package_name orig_line lines =
      let clean_line = strip_comments orig_line in
      if is_empty clean_line
      then ok lines
      else (if has b'=' clean_line
          then add_constant orig_line lines
          else add_field package_name orig_line lines)

  unfoldable pub load_lines : Text → List Text → Lines F → Result Error (Lines F)
  load_lines package_name [] lines = ok lines
  load_lines package_name (l ∷ ls) lines =
      load_line package_name l lines >>= load_lines package_name ls

  unfoldable pub load_spec : Text → Text → Result Error (MsgSpec F)
  load_spec text full_name = do
    (package_name, short_name) ← package_resource_name full_name
    lines ← load_lines package_name (split_on 10 text) no_lines
    new_spec builtins.unicode lines.types lines.names lines.constants text full_name package_name []

  -- An exception leaves the context as it was, since registering is the last step.
  unfoldable pub load_msg_from_string :
      MsgContext F → Text → Text → Result Error (MsgContext F × MsgSpec F)
  load_msg_from_string msg_context text full_name = do
    spec ← load_spec text full_name
    registered ← register full_name spec msg_context
    ok (registered, spec)

  pub record SrvSpec : Type 0 where
    pub request : MsgSpec F
    pub response : MsgSpec F
    pub text : Text
    pub full_name : Text
    pub short_name : Text
    pub pkg : Text

  -- `SrvSpec.__init__`
  abbrev pub new_srv : MsgSpec F → MsgSpec F → Text → Text → Result Error SrvSpec
  new_srv request response text full_name = do
    (pkg, short_name) ← package_resource_name full_name
    ok (record {
      request = request;
      response = response;
      text = text;
      full_name = full_name;
      short_name = short_name;
      pkg = pkg;
    })

  abbrev load_response :
      Text → Text → Halves → MsgContext F × MsgSpec F → MsgContext F × Result Error SrvSpec
  load_response text full_name halves (ctx, msg_in) =
      elim (load_msg_from_string ctx halves.text_out (full_name ++ codes "Response")) [
        | err e ↦ (ctx, err e)
        | ok (ctx', msg_out) ↦ (ctx', new_srv msg_in msg_out text full_name)
      ]

  -- The context changes even if only the request can be loaded.
  unfoldable pub load_srv_from_string :
      MsgContext F → Text → Text → MsgContext F × Result Error SrvSpec
  unfolding split_srv
  load_srv_from_string msg_context text full_name =
      let halves =
        split_srv (split_on 10 text)
          (record { text_in = []; text_out = []; in_response = false }) in
      elim (load_msg_from_string msg_context halves.text_in (full_name ++ codes "Request")) [
        | err e ↦ (msg_context, err e)
        | ok loaded ↦ load_response text full_name halves loaded
      ]

  -- the builtin messages, which have no package
  unfoldable pub create_default : Result Error (MsgContext F)
  create_default = do
    (with_time, time) ←
        load_msg_from_string new_context (codes "uint32 secs\nuint32 nsecs") (codes "time")
    (with_duration, duration) ←
        load_msg_from_string with_time (codes "int32 secs\nint32 nsecs") (codes "duration")
    ok with_duration
