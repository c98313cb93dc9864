-- ===== src/BuildQueue.antt =====
-- src/ros/rosmake/src/rosmake/parallel_build.py: `BuildQueue`, and the dependencies that it asks.
pub mod Threads
pub mod Conserve
pub mod Knows
pub mod Order
pub mod Complete
pub mod Apart
pub mod Progress
pub mod Tracker
pub mod Spec
pub mod Given
pub mod Refines
mod Tests
use xc_ros.Prelude.{
  ℕ, zero, suc, ◌+◌, Bool, true, false, not, ◌&&◌, ◌||◌, List, [], ◌∷◌, ◌++◌, Option, none, some,
  ltb, ◌==◌, length, if◌then◌else◌,
}
use xc_ros.Prelude.Text.{Text, mem, remove}
use xc_ros.Prelude.Dict.{Dict, insert, pop, lookup}

pub record Queue : Type 0 where
  pub total_pkgs : ℕ
  pub to_build : List Text
  pub built : List Text
  pub failed : List Text
  pub done : Bool
  pub robust_build : Bool
  -- package ↦ the time at which its build started
  pub started : Dict ℕ
  pub hack_end_counter : ℕ

-- `BuildQueue.__init__`
unfoldable pub init : List Text → Bool → Queue
init package_list robust_build = record {
  total_pkgs = length package_list;
  to_build = package_list;
  built = [];
  failed = [];
  done = false;
  robust_build = robust_build;
  started = [];
  hack_end_counter = 0;
}

unfoldable pub is_completed : Queue → Bool
is_completed q = length q.built + length q.failed == q.total_pkgs

unfoldable pub is_done : Queue → Bool
unfolding is_completed
is_done q = is_completed q || q.done

unfoldable pub succeeded : Queue → Bool
succeeded q = length q.built == q.total_pkgs

unfoldable pub stop : Queue → Queue
stop q = record q { done = true }

-- `return_built`. The lists and the table are changed first; completion is tested on the result.
abbrev pub record_result : Text → Bool → Queue → Queue
record_result pkg true q = record q { built = q.built ++ pkg ∷ []; started = pop pkg q.started }
record_result pkg false q = record q { failed = q.failed ++ pkg ∷ []; started = pop pkg q.started }

unfoldable pub return_built : Text → Bool → Queue → Queue
unfolding is_completed
return_built pkg successful q =
    let q' = record_result pkg successful q in record q' { done = q'.done || is_completed q' }

-- `d not in self.built and not (self.robust_build and d in self.failed)`, for no dependency `d`
unfoldable pub dependencies_met : Queue → List Text → Bool
dependencies_met q [] = true
dependencies_met q (d ∷ ds) =
    (mem d q.built || (q.robust_build && mem d q.failed)) && dependencies_met q ds

-- One pass of the `for` loop of `get_valid_package`.
pub data Pass : Type 0 where
  valid : Text → Pass
  hung : Pass
  unmet : Pass

abbrev is_empty : Dict ℕ → Bool
is_empty [] = true
is_empty (_ ∷ _) = false

-- What `get_valid_package` comes to at its next wait or return.
pub data Answer : Type 0 where
  given : Text → Answer
  nothing : Answer
  waits : Answer

-- `get_deps` of the dependency tracker is a parameter here: `Tracker` models it.
module _ (get_deps : Text → List Text) where
  unfoldable pub scan : Queue → List Text → Pass
  unfolding dependencies_met
  scan q [] = unmet
  scan q (p ∷ ps) =
      let rest = scan q ps in
      if dependencies_met q (get_deps p)
      then valid p
      else (if is_empty q.started && ltb 2 q.hack_end_counter then hung else rest)

  abbrev pub answer : ℕ → Queue → Pass → Answer × Queue
  answer now q (valid p) = (
    given p,
    record q {
      to_build = remove p q.to_build;
      started = insert p now q.started;
      hack_end_counter = 0;
    },
  )
  answer now q hung = (nothing, q)
  answer now q unmet = (waits, q)

  -- From the test of the `while` loop to a return or to `condition.wait`.
  unfoldable pub attempt : ℕ → Queue → Answer × Queue
  unfolding is_done
  attempt now q =
      if not (is_done q) && ltb 0 (length q.to_build)
      then answer now q (scan q q.to_build)
      else (nothing, q)

  -- From the end of the wait, which a notification or a second's timeout ends.
  unfoldable pub wake : ℕ → Queue → Answer × Queue
  unfolding is_done
  wake now q =
      let q' = record q { hack_end_counter = q.hack_end_counter + 1 } in
      let again = attempt now q' in if is_done q' then (nothing, q') else again
