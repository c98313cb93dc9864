-- ===== src/Flags/Verdict.antt =====
-- src/ros/rosmake/src/rosmake/package_stats.py: `can_build`.
use xc_ros.Prelude.{Bool, true, false, List, [], ◌∷◌, ◌++◌, if◌then◌else◌}
use xc_ros.Prelude.Text.{Text, mem}
use xc_ros.Prelude.Result.{ok}
use xc_ros.Flags.{World, Flags, Outcome, then_do, is_blacklisted, has_nobuild, has_makefile}

pub data Reason : Type 0 where
  failed_before : List Text → Reason
  blacklist_found : List Text → Reason
  nobuild_found : Reason
  no_makefile : Reason

-- what `can_build` returns: the package can be built, its dependents may go on, and why not
pub record Verdict : Type 0 where
  pub buildable : Bool
  pub output_state : Bool
  pub why : List Reason

-- the failed packages among the dependencies
unfoldable pub previously_failed : List Text → List Text → List Text
previously_failed [] deps = []
previously_failed (p ∷ ps) deps =
    let rest = previously_failed ps deps in if mem p deps then p ∷ rest else rest

abbrev pub failures : List Text → Verdict
failures [] = record { buildable = true; output_state = true; why = [] }
failures (p ∷ ps) = record {
  buildable = false;
  output_state = false;
  why = failed_before (p ∷ ps) ∷ [];
}

abbrev pub with_blacklist : Verdict → List Text → Verdict
with_blacklist v [] = v
with_blacklist v (p ∷ ps) = record v {
  buildable = false;
  why = v.why ++ blacklist_found (p ∷ ps) ∷ [];
}

abbrev pub with_nobuild : Verdict → Bool → Verdict
with_nobuild v false = v
with_nobuild v true = record {
  buildable = false;
  output_state = true;
  why = v.why ++ nobuild_found ∷ [];
}

abbrev pub with_makefile : Verdict → Bool → Verdict
with_makefile v true = v
with_makefile v false = record {
  buildable = false;
  output_state = true;
  why = v.why ++ no_makefile ∷ [];
}

module _ (world : World) where
  abbrev pub ask_blacklist : Bool → Text → Verdict → Flags → Outcome Verdict
  ask_blacklist false p v s = (ok v, s)
  ask_blacklist true p v s =
      then_do (is_blacklisted world p s) (λ found s. (ok (with_blacklist v found), s))

  abbrev pub ask_makefile : Bool → Text → Verdict → Flags → Outcome Verdict
  ask_makefile false p v s = (ok v, s)
  ask_makefile true p v s =
      then_do (has_makefile world p s) (λ has s. (ok (with_makefile v has), s))

  unfoldable pub can_build : Text → Bool → List Text → Bool → Flags → Outcome Verdict
  can_build p use_blacklist failed_packages use_makefile s =
      then_do
        (ask_blacklist use_blacklist p
          (failures (previously_failed failed_packages (world.get_deps p))) s)
        (λ v s.
          then_do (has_nobuild world p s)
            (λ nobuild s. ask_makefile use_makefile p (with_nobuild v nobuild) s))
