-- ===== src/Workspace/Tests.antt =====
-- src/catkin/python/catkin/workspace.py: two paths to one folder.
use xc_ros.Prelude.{◌≡◌, refl, true, List, [], ◌∷◌, map, Option, none, some, if◌then◌else◌}
use xc_ros.Prelude.Text.{Text, codes, same, mem}
use xc_ros.Prelude.Str.Split.{split_on, non_empty}
use xc_ros.Prelude.Result.{ok, err}
use xc_ros.Workspace.{
  only_workspaces, get_workspaces, first_of_each, declared, get_source_paths, not_a_workspace,
}
use xc_ros.Workspace.Sources.{AllDistinct, get_source_paths_lem}

program : Unit {0}
unfolding same mem split_on non_empty only_workspaces get_workspaces first_of_each get_source_paths
program = tt

abbrev marker : Text → Option Text
marker path = if same path (codes "/ws") then some (codes "/a;/b;/link") else none

-- /link is a link to /a.
abbrev realpath : Text → Text
realpath path = if same path (codes "/link") then codes "/a" else path

workspaces : get_workspaces marker realpath (some (codes "/opt::/ws")) ≡ codes "/ws" ∷ []
workspaces = unfold program in refl

source_paths : get_source_paths marker realpath (codes "/ws") ≡ ok (codes "/a" ∷ codes "/b" ∷ [])
source_paths = unfold program in refl

no_workspace :
    get_source_paths marker realpath (codes "/opt") ≡ err (not_a_workspace (codes "/opt"))
no_workspace = unfold program in refl

get_source_paths_lem_example :
    (paths : List Text) × (get_source_paths marker realpath (codes "/ws") ≡ ok paths)
    × AllDistinct (map realpath paths)
    × ((p : Text) → mem p paths ≡ true → mem p (declared (codes "/a;/b;/link")) ≡ true)
    × ((p : Text)
        → mem p (declared (codes "/a;/b;/link")) ≡ true
        → mem (realpath p) (map realpath paths) ≡ true)
get_source_paths_lem_example =
    get_source_paths_lem marker realpath (codes "/ws") (codes "/a;/b;/link")
      (unfold program in refl)
