-- ===== src/Flags.antt =====
-- src/ros/rosmake/src/rosmake/package_stats.py: `PackageFlagTracker`, which markers a package has.
pub mod Platform
pub mod Verdict
pub mod Blacklist
pub mod Checked
pub mod Gives
pub mod Answers
pub mod Decides
pub mod Marks
pub mod Returns
mod Tests
use xc_ros.Prelude.{
  Bool, true, false, not, ◌&&◌, ◌||◌, List, [], ◌∷◌, ◌++◌, Option, none, some, if◌then◌else◌,
}
use xc_ros.Prelude.Text.{Text, same, mem}
use xc_ros.Prelude.Dict.{Dict, lookup, insert}
use xc_ros.Prelude.Result.{Result, ok, err}

-- ResourceNotFound, InvalidManifest and IOError
pub data Error : Type 0 where
  resource_not_found : Text → Error
  invalid_manifest : Text → Error
  io_error : Text → Error

-- What rospkg, the dependency tracker and the file system answer.
pub record World : Type 0 where
  -- `rospack.get_path` finds the package
  pub present : Text → Bool
  -- the marker files ROS_BUILD_BLACKLIST and ROS_BUILD_BLACKLIST_OSX, and Makefile
  pub blacklist_file : Text → Bool
  pub blacklist_osx_file : Text → Bool
  pub makefile : Text → Bool
  -- `rospack.get_manifest(p).is_catkin`; `none` is an exception
  pub is_catkin : Text → Option Bool
  -- `rospack.get_depends_on(p, implicit=True)` and `dependency_tracker.get_deps(p)`
  pub get_depends_on : Text → List Text
  pub get_deps : Text → List Text
  -- the marker ROS_NOBUILD of the package can be written and removed
  pub writable : Text → Bool

-- The tracker, and the packages whose directory has a ROS_NOBUILD.
pub record Flags : Type 0 where
  pub blacklisted : Dict (List Text)
  pub blacklisted_osx : Dict (List Text)
  pub nobuild : List Text
  pub nomakefile : List Text
  pub packages_tested : List Text
  pub build_failed : List Text
  pub nobuild_files : List Text

-- `PackageFlagTracker.__init__`
unfoldable pub new_flags : List Text → Flags
new_flags nobuild_files = record {
  blacklisted = [];
  blacklisted_osx = [];
  nobuild = [];
  nomakefile = [];
  packages_tested = [];
  build_failed = [];
  nobuild_files = nobuild_files;
}

-- `set.add`
unfoldable pub added : Text → List Text → List Text
added x s = if mem x s then s else s ++ x ∷ []

-- `set.remove`
unfoldable pub discarded : Text → List Text → List Text
discarded x [] = []
discarded x (y ∷ s) = let rest = discarded x s in if same y x then rest else y ∷ rest

-- `register_blacklisted` and `register_blacklisted_osx`, on the table that they change
abbrev pub registered : Text → Option (List Text) → List Text
registered blacklisted_package none = blacklisted_package ∷ []
registered blacklisted_package (some ps) = ps ++ blacklisted_package ∷ []

unfoldable pub register_blacklisted : Text → Text → Dict (List Text) → Dict (List Text)
register_blacklisted blacklisted_package dependent_package m =
    insert dependent_package (registered blacklisted_package (lookup dependent_package m)) m

-- `if package in self.blacklisted: return self.blacklisted[package]`, and otherwise `[]`
abbrev pub or_empty : Option (List Text) → List Text
or_empty none = []
or_empty (some ps) = ps

abbrev pub found_in : Text → Dict (List Text) → List Text
found_in p m = or_empty (lookup p m)

-- the loop over the dependent packages
unfoldable pub register_all : Text → List Text → Dict (List Text) → Dict (List Text)
register_all blacklisted_package [] m = m
register_all blacklisted_package (p ∷ ps) m =
    register_all blacklisted_package ps (register_blacklisted blacklisted_package p m)

abbrev pub Outcome : Type 0 → Type 0
Outcome A = Result Error A × Flags

abbrev pub then_do : {A B : Type 0} → Outcome A → (A → Flags → Outcome B) → Outcome B
then_do (err e, s) next = (err e, s)
then_do (ok value, s) next = next value s

module _ (world : World) where
  abbrev pub mark : Bool → Text → Dict (List Text) → Dict (List Text)
  mark true p m = register_all p (p ∷ world.get_depends_on p) m
  mark false p m = m

  -- the part of `_check_package_flags` that follows `get_manifest`
  abbrev pub conclude : Text → Option Bool → Flags → Outcome Unit
  conclude p none s = (err (invalid_manifest p), s)
  conclude p (some catkin) s = (
    ok tt,
    record s {
      nobuild = if catkin then added p s.nobuild else s.nobuild;
      nomakefile = if world.makefile p then s.nomakefile else added p s.nomakefile;
      packages_tested = added p s.packages_tested;
    },
  )

  abbrev pub read_markers : Text → Flags → Flags
  read_markers p s = record s {
    blacklisted = mark (world.blacklist_file p) p s.blacklisted;
    blacklisted_osx = mark (world.blacklist_osx_file p) p s.blacklisted_osx;
    nobuild = if mem p s.nobuild_files then added p s.nobuild else s.nobuild;
  }

  unfoldable pub check_package_flags : Text → Flags → Outcome Unit
  unfolding added register_all
  check_package_flags p s =
      if mem p s.packages_tested
      then (ok tt, s)
      else (if world.present p
          then conclude p (world.is_catkin p) (read_markers p s)
          else (err (resource_not_found p), s))

  -- the loop over the dependencies
  unfoldable pub check_all : List Text → Flags → Outcome Unit
  check_all [] s = (ok tt, s)
  check_all (p ∷ ps) s =
      then_do (if mem p s.packages_tested then (ok tt, s) else check_package_flags p s)
        (λ _. check_all ps)

  unfoldable pub is_blacklisted : Text → Flags → Outcome (List Text)
  is_blacklisted p s =
      then_do (check_package_flags p s) (λ _ s.
        then_do (check_all (world.get_deps p) s) (λ _ s. (ok (found_in p s.blacklisted), s)))

  unfoldable pub is_blacklisted_osx : Text → Flags → Outcome (List Text)
  is_blacklisted_osx p s = then_do (check_package_flags p s) (λ _ s.
      then_do (check_all (world.get_deps p) s) (λ _ s. (ok (found_in p s.blacklisted_osx), s)))

  unfoldable pub has_nobuild : Text → Flags → Outcome Bool
  has_nobuild p s = then_do (check_package_flags p s) (λ _ s. (ok (mem p s.nobuild), s))

  unfoldable pub has_makefile : Text → Flags → Outcome Bool
  has_makefile p s = then_do (check_package_flags p s) (λ _ s. (ok (not (mem p s.nomakefile)), s))

  abbrev pub write_nobuild : Text → Bool → Flags → Outcome Bool
  write_nobuild p true s = (ok true, s)
  write_nobuild p false s =
      if world.writable p
      then (
        ok true,
        record s { nobuild = added p s.nobuild; nobuild_files = added p s.nobuild_files },
      )
      else (err (io_error p), s)

  unfoldable pub add_nobuild : Text → Flags → Outcome Bool
  add_nobuild p s = then_do (has_nobuild p s) (write_nobuild p)

  abbrev pub erase_nobuild : Text → Bool → Flags → Outcome Bool
  erase_nobuild p false s = (ok true, s)
  erase_nobuild p true s =
      if mem p s.nobuild_files && world.writable p
      then (
        ok true,
        record s { nobuild = discarded p s.nobuild; nobuild_files = discarded p s.nobuild_files },
      )
      else (ok false, s)

  unfoldable pub remove_nobuild : Text → Flags → Outcome Bool
  remove_nobuild p s = then_do (has_nobuild p s) (erase_nobuild p)

-- `mark_build_failed`
unfoldable pub mark_build_failed : Text → Flags → Flags
unfolding added
mark_build_failed p s = record s { build_failed = added p s.build_failed }
