-- ===== src/Engine/Tests.antt =====
-- src/ros/rosmake/src/rosmake/engine.py: the build list of three packages.
use xc_ros.Prelude.{
  ℕ, ◌+◌, ◌*◌, ◌<◌, ◌≡◌, refl, ◌↔◌, Bool, true, false, List, [], ◌∷◌, none, some, Option, arith,
  Bool-cases, inl, inr, length, if◌then◌else◌,
}
use xc_ros.Prelude.Text.{Text, codes, same, same_iff, mem, count, remove}
use xc_ros.Prelude.Dict.{insert, pop, lookup}
use xc_ros.Prelude.Result.{ok, err}
use xc_ros.BuildQueue.{
  is_done, is_completed, succeeded, stop, return_built, attempt, wake, scan, dependencies_met, init,
  given,
}
use xc_ros.BuildQueue.Threads.{start, run, step, act}
use xc_ros.BuildQueue.Complete.{busy_threads}
use xc_ros.BuildQueue.Knows.{all_in}
use xc_ros.BuildQueue.Tracker
use xc_ros.BuildQueue.Tracker.{only_valid}
use xc_ros.BuildQueue.Knows.{IsOrdered}
use xc_ros.Engine.Specified.{only_specified-IsOrdered}
use xc_ros.Engine.{append_present, build_or_recurse, list_packages, only_specified, missing}
use xc_ros.Engine.Recurse.{Reaches, direct, FromOne, Done}
use xc_ros.Engine.Listing.{list_packages-Done}
use xc_ros.Engine.Builds.{required-IsBuilt, listed-progress}
use xc_ros.Engine.Drive.{driven, ticks}

abbrev a : Text
a = codes "a"

abbrev b : Text
b = codes "b"

abbrev c : Text
c = codes "c"

-- a needs b and c, and b needs c.
abbrev needs : Text → List Text
needs p = if same p a then b ∷ c ∷ [] else (if same p b then c ∷ [] else [])

abbrev there : Text → Bool
there p = mem p (a ∷ b ∷ c ∷ [])

abbrev level : Text → ℕ
level p = if same p a then 2 else (if same p b then 1 else 0)

program : Unit {0}
unfolding same mem append_present build_or_recurse list_packages is_done is_completed succeeded stop
    return_built attempt wake scan dependencies_met init start run step act busy_threads insert pop
    lookup remove count only_specified all_in only_valid Tracker.direct
program = tt

level-falls : (p d : Text) → mem d (needs p) ≡ true → level d < level p
level-falls p d m = elim (Bool-cases (same p a)) [
  | inl is_a ↦ unfold mem in ground (arith, same_iff b d, same_iff c d, level_b, level_c)
  | inr other ↦ unfold mem in ground (arith, same_iff c d, level_c)
]
  where
    level_b : level b ≡ 1
    level_b = unfold same in refl

    level_c : level c ≡ 0
    level_c = unfold same in refl

needs-there : (p d : Text) → mem d (needs p) ≡ true → there d ≡ true
unfolding mem
needs-there p d m = ground arith

needs-Reaches : (p x : Text) → mem x (needs p) ≡ true → Reaches needs p x
needs-Reaches p x m = direct m

level_low : (p : Text) → mem p (b ∷ a ∷ []) ≡ true → level p < 3
level_low p m = ground arith

required_there : (p : Text) → mem p (b ∷ a ∷ []) ≡ true → there p ≡ true
unfolding mem
required_there p m = ground arith

list_packages-Done_example :
    Done needs there false (b ∷ a ∷ []) [] (list_packages needs there false 3 (b ∷ a ∷ []))
list_packages-Done_example =
    list_packages-Done needs there false level level-falls needs-there 3 (b ∷ a ∷ []) level_low

required-IsBuilt_example :
    (build_list : List Text) × (list_packages needs there false 3 (b ∷ a ∷ [])
      ≡ some (ok build_list))
    × ((x : Text) → (mem x build_list ≡ true) ↔ FromOne needs there (b ∷ a ∷ []) x)
    × (let s =
          run needs
            (driven (ticks (λ i. i) (3 * length build_list + 2)))
            (start build_list false 1) in
        (s.queue.built ≡ build_list) × (succeeded s.queue ≡ true))
required-IsBuilt_example =
    required-IsBuilt needs needs there false level level-falls needs-there needs-Reaches 3
      (b ∷ a ∷ []) false (λ i. i) 2 level_low required_there

list_of_three : list_packages needs there false 3 (b ∷ a ∷ []) ≡ some (ok (c ∷ b ∷ a ∷ []))
list_of_three = unfold program in refl

listed-progress_example :
    (attempt needs 7 (run needs [] (start (c ∷ b ∷ a ∷ []) false 2)).queue).0 ≡ given c
listed-progress_example =
    listed-progress needs needs there false level level-falls needs-there needs-Reaches 3
      (b ∷ a ∷ []) (c ∷ b ∷ a ∷ []) false 2 [] 7 c (b ∷ a ∷ []) level_low list_of_three
      (unfold program in refl) (unfold program in refl) (inl (unfold program in refl))
      (unfold program in refl)

-- d is not there.
abbrev d : Text
d = codes "d"

exit_for_missing : list_packages needs there false 3 (a ∷ d ∷ []) ≡ some (err (missing d))
exit_for_missing = unfold program in refl

missing_is_skipped : list_packages needs there true 3 (d ∷ b ∷ []) ≡ some (ok (c ∷ b ∷ []))
missing_is_skipped = unfold program in refl

-- a cycle of dependencies does not end
abbrev round : Text → List Text
round p = p ∷ []

cycle_runs_out : list_packages round there false 5 (a ∷ []) ≡ none
cycle_runs_out = unfold program in refl

specified : only_specified (a ∷ c ∷ []) (c ∷ b ∷ a ∷ []) ≡ c ∷ a ∷ []
specified = unfold program in refl

abbrev rospack : Text → Bool → Option (List Text)
rospack p implicit = some (needs p)

known : (x : Text) → mem x (a ∷ c ∷ []) ≡ true → mem x (a ∷ b ∷ c ∷ []) ≡ true
unfolding mem
known x m = ground arith

only_specified-IsOrdered_example :
    IsOrdered
      (Tracker.direct rospack true (a ∷ c ∷ []))
      []
      (only_specified (a ∷ c ∷ []) (c ∷ b ∷ a ∷ []))
only_specified-IsOrdered_example =
    only_specified-IsOrdered rospack (a ∷ b ∷ c ∷ []) (a ∷ c ∷ []) known (c ∷ b ∷ a ∷ [])
      (unfold program in (refl, (refl, (refl, tt))))
