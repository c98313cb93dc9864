-- ===== src/Flags/Tests.antt =====
-- src/ros/rosmake/src/rosmake/package_stats.py: two packages, the second of which is blacklisted.
use xc_ros.Prelude.{◌≡◌, refl, true, false, List, [], ◌∷◌, none, some, arith, if◌then◌else◌}
use xc_ros.Prelude.Text.{Text, codes, same, same_iff, mem}
use xc_ros.Prelude.Dict.{lookup, insert}
use xc_ros.Prelude.Result.{ok, err}
use xc_ros.Flags.{
  World, Flags, new_flags, added, discarded, register_blacklisted, register_all,
  check_package_flags, check_all, is_blacklisted, is_blacklisted_osx, has_nobuild, has_makefile,
  add_nobuild, remove_nobuild, mark_build_failed, resource_not_found,
}
use xc_ros.Flags.Platform.{Platform, platform_supported}
use xc_ros.Flags.Verdict.{previously_failed, can_build, Verdict}
use xc_ros.Flags.Checked.{IsFaithful, new_flags-IsFaithful, stands_still}
use xc_ros.Flags.Answers.{some_of}
use xc_ros.Flags.Returns.{IsKnown, can_build-decides, nobuild_returns}

program : Unit {0}
unfolding platform_supported same mem lookup insert new_flags added discarded register_blacklisted
    register_all check_package_flags check_all is_blacklisted is_blacklisted_osx has_nobuild
    has_makefile add_nobuild remove_nobuild previously_failed can_build mark_build_failed some_of
program = tt

abbrev a : Text
a = codes "a"

abbrev b : Text
b = codes "b"

-- a depends on b, which has a ROS_BUILD_BLACKLIST; both have a Makefile.
abbrev world : World
world = record {
  present = λ p. mem p (a ∷ b ∷ []);
  blacklist_file = λ p. same p b;
  blacklist_osx_file = λ p. false;
  makefile = λ p. true;
  is_catkin = λ p. some false;
  get_depends_on = λ p. if same p b then a ∷ [] else [];
  get_deps = λ p. if same p a then b ∷ [] else [];
  writable = λ p. true;
}

abbrev fresh : Flags
fresh = new_flags []

inverse : (x q : Text) → mem q (world.get_depends_on x) ≡ mem x (world.get_deps q)
unfolding mem
inverse x q = ground (arith, same_iff a q, same_iff q a, same_iff b x, same_iff x b)

blacklisted_by_b : (is_blacklisted world a fresh).0 ≡ ok (b ∷ [])
blacklisted_by_b = unfold program in refl

not_black_for_osx : (is_blacklisted_osx world a fresh).0 ≡ ok []
not_black_for_osx = unfold program in refl

not_there : (has_makefile world (codes "c") fresh).0 ≡ err (resource_not_found (codes "c"))
not_there = unfold program in refl

marked_failed : (mark_build_failed a fresh).build_failed ≡ a ∷ []
marked_failed = unfold program in refl

-- A check that ends in an exception is made again, and registers the package a second time.
abbrev broken : World
broken = record world { is_catkin = λ p. none }

registered_twice :
    (check_package_flags broken b (check_package_flags broken b fresh).1).1.blacklisted
    ≡ (b, b ∷ b ∷ []) ∷ (a, b ∷ b ∷ []) ∷ []
registered_twice = unfold program in refl

deps-IsKnown : (q : Text) → mem q (world.get_deps a) ≡ true → IsKnown world q
unfolding mem
deps-IsKnown q m = (ground arith, (false, refl))

abbrev platforms : List Platform
platforms =
    record { os = codes "ubuntu"; version = codes "9.04" }
    ∷ record { os = codes "ubuntu"; version = codes "9.10" }
    ∷ []

second_version : platform_supported platforms (codes "ubuntu") (codes "9.10") ≡ true
second_version = unfold program in refl

other_version : platform_supported platforms (codes "ubuntu") (codes "10.04") ≡ false
other_version = unfold program in refl

can_build-decides_example :
    (v : Verdict) × (t : Flags) × (can_build world a true [] true fresh ≡ (ok v, t))
    × IsFaithful world t
    × (v.buildable ≡ false)
    × (v.output_state ≡ true)
unfolding program
can_build-decides_example =
    can_build-decides world a true [] true fresh inverse (refl, (false, refl)) deps-IsKnown
      (new_flags-IsFaithful world [])

nobuild_returns_example :
    (t u : Flags) × (add_nobuild world a fresh ≡ (ok true, t))
    × IsFaithful world t
    × (stands_still world t.nobuild_files a ≡ true)
    × (remove_nobuild world a fresh ≡ (ok true, u))
    × IsFaithful world u
    × (stands_still world u.nobuild_files a ≡ false)
nobuild_returns_example =
    nobuild_returns world a fresh (unfold program in (refl, (false, refl))) refl refl
      (new_flags-IsFaithful world [])
