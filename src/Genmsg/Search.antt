-- ===== src/Genmsg/Search.antt =====
-- src/genmsg/src/genmsg/msg_loader.py: messages and services out of files on a search path.
pub mod Loading
pub mod Ranks
pub mod Files
pub mod Rules
pub mod Fetch
pub mod Ends
mod Tests
use xc_ros.Prelude.{Bool, true, false, List, [], ◌∷◌, ◌++◌, Option, none, some, if◌then◌else◌}
use xc_ros.Prelude.Text.{Text, codes, same}
use xc_ros.Prelude.Dict.{Dict, lookup}
use xc_ros.Prelude.Result.{Result, ok, err, ◌>>=◌}
use xc_ros.Genmsg.{Error, msg_not_found, package_resource_name}
use xc_ros.Genmsg.Types.{header, header_full_name}
use xc_ros.Genmsg.Constants.{Builtins}
use xc_ros.Genmsg.Spec.{MsgSpec}
use xc_ros.Genmsg.Context.{MsgContext, set_file}
use xc_ros.Genmsg.Loader.{SrvSpec, load_msg_from_string, load_srv_from_string}
use xc_ros.Genmsg.Gentools.{ext_msg, ext_srv}

-- `os.path.join`, `os.path.isfile`, and what opening and reading a file comes to
pub record FileSystem : Type 0 where
  pub join_path : Text → Text → Text
  pub is_file : Text → Bool
  pub read : Text → Result Error Text

abbrev full_type : Text → Text
full_type msg_type = if same msg_type header then header_full_name else msg_type

module _ (fs : FileSystem) where
  -- the first of the directories that has the file
  unfoldable pub first_file : Text → List Text → Result Error Text
  first_file name [] = err msg_not_found
  first_file name (path_tmp ∷ paths) =
      let path = fs.join_path path_tmp name in
      let rest = first_file name paths in if fs.is_file path then ok path else rest

  unfoldable pub get_msg_file : Text → Text → Dict (List Text) → Text → Result Error Text
  unfolding first_file
  get_msg_file pkg base_type search_path ext = elim (lookup pkg search_path) [
    | none ↦ err msg_not_found
    | some paths ↦ first_file (base_type ++ ext) paths
  ]

  abbrev pub get_srv_file : Text → Text → Dict (List Text) → Result Error Text
  get_srv_file pkg base_type search_path = get_msg_file pkg base_type search_path ext_srv

  module _ (builtins : Builtins) where
    -- An invalid specification is raised again with the file's path in its text.
    abbrev pub load_msg_from_file :
        MsgContext builtins.F
        → Text
        → Text
        → Result Error (MsgContext builtins.F × MsgSpec builtins.F)
    load_msg_from_file msg_context file_path full_name = do
      text ← fs.read file_path
      load_msg_from_string builtins msg_context text full_name

    -- An exception leaves the context as it was.
    unfoldable load_full_type :
        MsgContext builtins.F
        → Text
        → Dict (List Text)
        → Result Error (MsgContext builtins.F × MsgSpec builtins.F)
    load_full_type msg_context msg_type search_path = do
      (package_name, base_type) ← package_resource_name msg_type
      file_path ← get_msg_file package_name base_type search_path ext_msg
      (loaded, spec) ← load_msg_from_file msg_context file_path msg_type
      ok (set_file msg_type file_path loaded, spec)

    unfoldable pub load_msg_by_type :
        MsgContext builtins.F
        → Text
        → Dict (List Text)
        → Result Error (MsgContext builtins.F × MsgSpec builtins.F)
    unfolding load_full_type
    load_msg_by_type msg_context msg_type search_path =
        load_full_type msg_context (full_type msg_type) search_path

    abbrev with_files :
        Text
        → Text
        → MsgContext builtins.F × Result Error (SrvSpec builtins)
        → MsgContext builtins.F × Result Error (SrvSpec builtins)
    with_files file_path full_name (ctx, err e) = (ctx, err e)
    with_files file_path full_name (ctx, ok spec) = (
      set_file (full_name ++ codes "Response") file_path
          (set_file (full_name ++ codes "Request") file_path ctx),
      ok spec,
    )

    abbrev pub load_srv_from_file :
        MsgContext builtins.F
        → Text
        → Text
        → MsgContext builtins.F × Result Error (SrvSpec builtins)
    load_srv_from_file msg_context file_path full_name = elim (fs.read file_path) [
      | err e ↦ (msg_context, err e)
      | ok text ↦
          with_files file_path full_name (load_srv_from_string builtins msg_context text full_name)
    ]

    abbrev srv_file : Text → Dict (List Text) → Result Error Text
    srv_file srv_type search_path = do
      (package_name, base_type) ← package_resource_name srv_type
      get_srv_file package_name base_type search_path

    unfoldable pub load_srv_by_type :
        MsgContext builtins.F
        → Text
        → Dict (List Text)
        → MsgContext builtins.F × Result Error (SrvSpec builtins)
    load_srv_by_type msg_context srv_type search_path = elim (srv_file srv_type search_path) [
      | err e ↦ (msg_context, err e)
      | ok file_path ↦ load_srv_from_file msg_context file_path srv_type
    ]
