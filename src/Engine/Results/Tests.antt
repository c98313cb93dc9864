-- ===== src/Engine/Results/Tests.antt =====
-- src/ros/rosmake/src/rosmake/engine.py: builds of two packages.
use xc_ros.Prelude.{◌≡◌, refl, Bool, true, false, [], ◌∷◌, Option, some, arith, if◌then◌else◌}
use xc_ros.Prelude.Text.{Text, codes, same, same_iff, mem}
use xc_ros.Prelude.Str.Substring.{starts, finds}
use xc_ros.Prelude.Dict.{Dict, lookup, insert}
use xc_ros.Prelude.Int.{pos, negsuc}
use xc_ros.Prelude.Result.{ok}
use xc_ros.Flags.{
  World, new_flags, added, discarded, register_blacklisted, register_all, check_package_flags,
  check_all, is_blacklisted, has_nobuild, has_makefile,
}
use xc_ros.Flags.Verdict.{previously_failed, can_build}
use xc_ros.Flags.Returns.{IsKnown}
use xc_ros.Flags.Checked.{new_flags-IsFaithful}
use xc_ros.BuildQueue.{init, succeeded, return_built}
use xc_ros.Engine.Outcome.{
  Notice, Output, Log, not_true, build, passed, no_rule, interrupted, all_passed, build_passed,
}
use xc_ros.Engine.Results.{build-lookup, build_blocked}

program : Unit {0}
unfolding same mem lookup insert new_flags added discarded register_blacklisted register_all
    check_package_flags check_all is_blacklisted has_nobuild has_makefile previously_failed
    can_build starts finds not_true build all_passed build_passed init succeeded return_built
program = tt

abbrev a : Text
a = codes "a"

abbrev b : Text
b = codes "b"

-- a depends on b.
abbrev world : World
world = record {
  present = λ p. mem p (a ∷ b ∷ []);
  blacklist_file = λ p. false;
  blacklist_osx_file = λ p. false;
  makefile = λ p. true;
  is_catkin = λ p. some false;
  get_depends_on = λ p. if same p b then a ∷ [] else [];
  get_deps = λ p. if same p a then b ∷ [] else [];
  writable = λ p. true;
}

inverse : (x q : Text) → mem q (world.get_depends_on x) ≡ mem x (world.get_deps q)
unfolding mem
inverse x q = ground (arith, same_iff a q, same_iff q a, same_iff b x, same_iff x b)

abbrev shown : Text → Text
shown p = p

abbrev log : Dict Bool → Log
log result = record { result = result; output = []; flags = new_flags [] }

abbrev success : Text → Option Output
success p = some (record { returncode = pos 0; std_out = [] })

abbrev stopped : Text → Option Output
stopped p = some (record { returncode = negsuc 1; std_out = codes "Interrupted by signal 2" })

abbrev no_target : Text → Option Output
no_target p =
    some (record { returncode = pos 2; std_out = codes "make: No rule to make target clean" })

passes : (build world shown false false success b false (log [])).0 ≡ ok (true, passed)
passes = unfold program in refl

is_interrupted :
    (build world shown false false stopped b false (log [])).0 ≡ ok (false, interrupted)
is_interrupted = unfold program in refl

no_rule_passes : (build world shown false false no_target b false (log [])).0 ≡ ok (true, no_rule)
no_rule_passes = unfold program in refl

build-lookup_example :
    (lookup b ((b, true) ∷ []) ≡ some true)
    × ((q : Text) → same b q ≡ false → lookup q ((b, true) ∷ []) ≡ lookup {V = Bool} q [])
unfolding program
build-lookup_example =
    build-lookup world shown false false success b false (log []) (true, passed)
      (build world shown false false success b false (log [])).1 (unfold program in refl)

-- b has failed.
abbrev after_failure : Log
after_failure = log ((b, false) ∷ [])

a_and_b-IsKnown : (q : Text) → mem q (a ∷ b ∷ []) ≡ true → IsKnown world q
a_and_b-IsKnown q m = (m, (false, refl))

deps-IsKnown : (q : Text) → mem q (world.get_deps a) ≡ true → IsKnown world q
unfolding mem
deps-IsKnown q m = a_and_b-IsKnown q (ground arith)

build_blocked_example :
    (notice : Notice) × (t : Log) × (build world shown false false success a false after_failure
      ≡ (ok (false, notice), t))
    × (build world shown false false stopped a false after_failure ≡ (ok (false, notice), t))
build_blocked_example =
    build_blocked world shown false inverse a b after_failure success stopped
      (a_and_b-IsKnown a (unfold program in refl)) deps-IsKnown (new_flags-IsFaithful world [])
      (unfold program in refl) (unfold program in refl) (unfold program in refl) refl

verdict_fails :
    build_passed (return_built b true (init (b ∷ []) true)) ((b, true) ∷ (a, false) ∷ []) ≡ false
verdict_fails = unfold program in refl
