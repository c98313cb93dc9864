-- ===== src/BuildQueue/Tracker.antt =====
-- src/ros/rosmake/src/rosmake/parallel_build.py: `DependencyTracker`, a cache over rospkg.
use xc_ros.Prelude.{◌≡◌, refl, Bool, true, false, List, [], ◌∷◌, Option, none, some, if◌then◌else◌}
use xc_ros.Prelude.Text.{Text, mem}
use xc_ros.Prelude.Dict.{Dict, lookup, insert}

pub record Tracker : Type 0 where
  pub valid_packages : List Text
  pub deps_1 : Dict (List Text)
  pub deps : Dict (List Text)

-- `DependencyTracker.__init__`
unfoldable pub new_tracker : List Text → Tracker
new_tracker valid_packages = record { valid_packages = valid_packages; deps_1 = []; deps = [] }

unfoldable pub load_fake_deps : Dict (List Text) → Dict (List Text) → Tracker → Tracker
load_fake_deps deps deps1 self = record self { deps = deps; deps_1 = deps1 }

-- the loop that keeps the potential dependencies that are valid packages
unfoldable pub only_valid : List Text → List Text → List Text
only_valid valid_packages [] = []
only_valid valid_packages (p ∷ ps) =
    let rest = only_valid valid_packages ps in if mem p valid_packages then p ∷ rest else rest

-- `rospack.get_depends(package, implicit)`: `none` is its ResourceNotFound.
module _ (get_depends : Text → Bool → Option (List Text)) where
  abbrev pub potential : Option (List Text) → List Text
  potential none = []
  potential (some ds) = ds

  -- what a query of rospkg gives, with no cache
  unfoldable pub direct : Bool → List Text → Text → List Text
  direct implicit valid_packages pkg =
      only_valid valid_packages (potential (get_depends pkg implicit))

-- How `rospack.get_depends` answers a query of the tracker: ResourceNotFound is caught, any other
-- exception is not.
pub data Reply : Type 0 where
  found : List Text → Reply
  not_found : Reply
  raises : Reply

-- What `get_deps_1` and `get_deps` do with the reply; the package has the entry [] by now, which an
-- exception leaves there. `none` is the exception.
abbrev pub answered_1 : Text → Tracker → Reply → Option (List Text) × Tracker
answered_1 pkg self (found ds) =
    let valid = only_valid self.valid_packages ds in
    (some valid, record self { deps_1 = insert pkg valid self.deps_1 })
answered_1 pkg self not_found = (some [], self)
answered_1 pkg self raises = (none, self)

abbrev pub answered : Text → Tracker → Reply → Option (List Text) × Tracker
answered pkg self (found ds) =
    let valid = only_valid self.valid_packages ds in
    (some valid, record self { deps = insert pkg valid self.deps })
answered pkg self not_found = (some [], self)
answered pkg self raises = (none, self)

module _ (get_depends : Text → Bool → Reply) where
  unfoldable pub get_deps_1 : Text → Tracker → Option (List Text) × Tracker
  get_deps_1 pkg self = elim (lookup pkg self.deps_1) [
    | some ds ↦ (some ds, self)
    | none ↦
        answered_1 pkg (record self { deps_1 = insert pkg [] self.deps_1 }) (get_depends pkg false)
  ]

  unfoldable pub get_deps : Text → Tracker → Option (List Text) × Tracker
  get_deps pkg self = elim (lookup pkg self.deps) [
    | some ds ↦ (some ds, self)
    | none ↦ answered pkg (record self { deps = insert pkg [] self.deps }) (get_depends pkg true)
  ]

-- The reply of a rospkg that raises nothing but ResourceNotFound.
abbrev pub reply : Option (List Text) → Reply
reply none = not_found
reply (some ds) = found ds

answered_direct :
    (get_depends : Text → Bool → Option (List Text)) (pkg : Text) (self : Tracker)
    (ds : Option (List Text))
    → ((answered pkg self (reply ds)).0
        ≡ some (only_valid self.valid_packages (potential get_depends ds)))
      × ((answered_1 pkg self (reply ds)).0
          ≡ some (only_valid self.valid_packages (potential get_depends ds)))
unfolding only_valid
answered_direct get_depends pkg self none = (refl, refl)
answered_direct get_depends pkg self (some ds) = (refl, refl)

-- A first query of a package gives the valid ones of what such a rospkg answers.
pub get_deps-direct :
    (get_depends : Text → Bool → Option (List Text)) (pkg : Text) (self : Tracker)
    → lookup pkg self.deps ≡ none
    → lookup pkg self.deps_1 ≡ none
    → ((get_deps (λ p b. reply (get_depends p b)) pkg self).0
        ≡ some (direct get_depends true self.valid_packages pkg))
      × ((get_deps_1 (λ p b. reply (get_depends p b)) pkg self).0
          ≡ some (direct get_depends false self.valid_packages pkg))
unfolding get_deps get_deps_1 direct
get_deps-direct get_depends pkg self h h1 = (
  rw (h, get_deps)
      (answered_direct get_depends pkg (record self { deps = insert pkg [] self.deps })
        (get_depends pkg true)).0,
  rw (h1, get_deps_1)
      (answered_direct get_depends pkg (record self { deps_1 = insert pkg [] self.deps_1 })
        (get_depends pkg false)).1,
)

-- What is kept of an answer: an exception counts as no dependencies.
abbrev pub kept : Option (List Text) → List Text
kept none = []
kept (some ds) = ds
