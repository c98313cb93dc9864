-- ===== src/Engine.antt =====
-- src/ros/rosmake/src/rosmake/engine.py: `RosMakeAll`, the order of the packages to build and the
-- outcome of a build.
pub mod Recurse
pub mod Listing
pub mod Sorted
pub mod Drive
pub mod Builds
pub mod Specified
pub mod Outcome
pub mod Results
mod Tests
use xc_ros.Prelude.{
  ℕ, zero, suc, Bool, true, false, List, [], ◌∷◌, ◌++◌, Option, none, some, if◌then◌else◌,
}
use xc_ros.Prelude.Text.{Text, mem}
use xc_ros.Prelude.Result.{Result, ok, err}

-- `sys.exit(-1)` for a package that is not there
pub data Exit : Type 0 where
  missing : Text → Exit

-- The build list, or the exit; `none` is a recursion that the fuel has cut off.
abbrev pub Run : Type 0
Run = Option (Result Exit (List Text))

abbrev pub then_do : Run → (List Text → Run) → Run
then_do none next = none
then_do (some (err e)) next = some (err e)
then_do (some (ok build_list)) next = next build_list

-- a `for` loop of calls that extend the build list
abbrev pub each : (Text → List Text → Run) → List Text → List Text → Run
each visit [] build_list = some (ok build_list)
each visit (d ∷ ds) build_list = then_do (visit d build_list) (each visit ds)

-- `present` is whether `rospack.get_path` finds the package, `get_deps_1` what the dependency
-- tracker answers, and `robust_build` the option of the command line.
module _ (get_deps_1 : Text → List Text) (present : Text → Bool) (robust_build : Bool) where
  unfoldable pub append_present : Text → List Text → Result Exit (List Text)
  append_present p build_list =
      if present p
      then ok (build_list ++ p ∷ [])
      else (if robust_build then ok build_list else err (missing p))

  unfoldable pub build_or_recurse : ℕ → Text → List Text → Run
  build_or_recurse zero p build_list = none
  build_or_recurse (suc fuel) p build_list = elim (mem p build_list) [
    | true ↦ some (ok build_list)
    | false ↦
        then_do (each (build_or_recurse fuel) (get_deps_1 p) build_list)
          (λ l. some (append_present p l))
  ]

  -- the loop of `main` over the required packages
  unfoldable pub list_packages : ℕ → List Text → Run
  list_packages fuel required_packages = each (build_or_recurse fuel) required_packages []

-- `--specified-only`: the packages that the command line names, in build order
unfoldable pub only_specified : List Text → List Text → List Text
only_specified specified_packages [] = []
only_specified specified_packages (pkg ∷ build_list) =
    let rest = only_specified specified_packages build_list in
    if mem pkg specified_packages then pkg ∷ rest else rest
