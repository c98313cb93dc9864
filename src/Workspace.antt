-- ===== src/Workspace.antt =====
-- src/catkin/python/catkin/workspace.py: the workspaces on the prefix path, and their source paths.
pub mod Sources
mod Tests
use xc_ros.Prelude.{Bool, true, false, List, [], ◌∷◌, Option, none, some, if◌then◌else◌}
use xc_ros.Prelude.Text.{Text, mem}
use xc_ros.Prelude.Str.Split.{split_on, non_empty}
use xc_ros.Prelude.Result.{Result, ok, err}

-- ValueError, for a folder that is no workspace
pub data Error : Type 0 where
  not_a_workspace : Text → Error

-- the paths that a marker file declares
abbrev pub declared : Text → List Text
declared [] = []
declared (c ∷ content) = split_on b';' (c ∷ content)

-- `marker` reads the file `.catkin` of a folder, `none` if there is none; `realpath` is `os.path`'s.
module _ (marker : Text → Option Text) (realpath : Text → Text) where
  unfoldable pub only_workspaces : List Text → List Text
  only_workspaces [] = []
  only_workspaces (path ∷ paths) =
      let rest = only_workspaces paths in
      elim (marker path) [ none ↦ rest | some content ↦ path ∷ rest ]

  -- on the value of CMAKE_PREFIX_PATH
  unfoldable pub get_workspaces : Option Text → List Text
  unfolding only_workspaces
  get_workspaces none = []
  get_workspaces (some value) = only_workspaces (non_empty (split_on b':' value))

  -- the loop over the declared paths
  unfoldable pub first_of_each : List Text → List Text → List Text
  first_of_each real_source_paths [] = []
  first_of_each real_source_paths (path ∷ paths) =
      let known = first_of_each real_source_paths paths in
      let fresh = first_of_each (realpath path ∷ real_source_paths) paths in
      if mem (realpath path) real_source_paths then known else path ∷ fresh

  unfoldable pub get_source_paths : Text → Result Error (List Text)
  unfolding first_of_each
  get_source_paths workspace = elim (marker workspace) [
    | none ↦ err (not_a_workspace workspace)
    | some content ↦ ok (first_of_each [] (declared content))
  ]
