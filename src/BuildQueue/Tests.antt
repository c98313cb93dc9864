-- ===== src/BuildQueue/Tests.antt =====
-- Small builds, and the theorems at them.
use xc_ros.Prelude.{
  ◌↔◌, ℕ, ◌+◌, ◌≡◌, refl, Bool, true, false, List, [], ◌∷◌, none, some, inl, if◌then◌else◌,
  get_elem?,
}
use xc_ros.Prelude.Text.{Text, codes, same, mem, count, remove}
use xc_ros.Prelude.Dict.{lookup, insert, pop}
use xc_ros.BuildQueue.{
  Queue, nothing, init, is_done, is_completed, succeeded, stop, return_built, given,
  dependencies_met, scan, attempt, wake,
}
use xc_ros.BuildQueue.Threads.{Event, building, start, act, step, run}
use xc_ros.BuildQueue.Spec.{Moves}
use xc_ros.BuildQueue.Refines.{view, run-Moves}
use xc_ros.BuildQueue.Conserve.{held, in_progress, run-conserves}
use xc_ros.BuildQueue.Knows.{all_in, IsOrdered}
use xc_ros.BuildQueue.Order.{run-IsOrdered}
use xc_ros.BuildQueue.Complete.{busy_threads, is_completed_iff, succeeded-count}
use xc_ros.BuildQueue.Progress.{attempt-progress}
use xc_ros.BuildQueue.Apart.{none_in}
use xc_ros.BuildQueue.Tracker.{Reply, found, raises, new_tracker, get_deps, only_valid}

abbrev a : Text
a = codes "a"

abbrev b : Text
b = codes "b"

abbrev c : Text
c = codes "c"

-- b needs a, and c needs nothing
abbrev needs : Text → List Text
needs p = if same p b then a ∷ [] else []

abbrev packages : List Text
packages = a ∷ b ∷ c ∷ []

abbrev ev : ℕ → Event
ev i = record { thread = i; now = 7; result = true }

-- Thread 0 builds a while thread 1 takes c, then b.
abbrev schedule : List Event
schedule = ev 0 ∷ ev 0 ∷ ev 1 ∷ ev 1 ∷ ev 0 ∷ ev 0 ∷ ev 0 ∷ []

abbrev to_the_end : List Event
to_the_end = ev 0 ∷ ev 0 ∷ ev 0 ∷ ev 0 ∷ ev 0 ∷ ev 0 ∷ ev 0 ∷ ev 0 ∷ ev 0 ∷ []

program : Unit {0}
unfolding run step act start init attempt wake scan dependencies_met return_built is_done
    is_completed succeeded stop same mem count remove lookup insert pop all_in none_in busy_threads
    in_progress only_valid
program = tt

builds_b : get_elem? (run needs schedule (start packages false 2)).threads 0 ≡ some (building b)
unfolding program
builds_b = refl

all_built : (run needs to_the_end (start packages false 2)).queue.built ≡ packages
unfolding program
all_built = refl

run-conserves_example :
    held c (run needs schedule (start packages false 2)).queue
      + in_progress c (run needs schedule (start packages false 2)).threads
    ≡ count c packages
run-conserves_example = run-conserves needs packages false 2 schedule c

run-IsOrdered_example :
    IsOrdered needs [] (run needs to_the_end (start packages false 2)).queue.built
run-IsOrdered_example = run-IsOrdered needs packages 2 to_the_end

attempt-progress_example :
    (attempt needs 3 (run needs [] (start packages false 2)).queue).0 ≡ given a
attempt-progress_example =
    attempt-progress needs packages false 2 [] 3 a (b ∷ c ∷ [])
      (unfold program in (refl, (refl, (refl, tt)))) (unfold program in refl)
      (unfold program in refl) (unfold program in refl) (inl (unfold program in refl))
      (unfold program in refl)

abbrev rospack : Text → Bool → Reply
rospack p implicit = if same p b then found (a ∷ c ∷ []) else raises

answers :
    ((get_deps rospack b (new_tracker (a ∷ b ∷ []))).0 ≡ some (a ∷ []))
    × ((get_deps rospack c (new_tracker (a ∷ b ∷ []))).0 ≡ none)
    × ((get_deps rospack c (get_deps rospack c (new_tracker (a ∷ b ∷ []))).1).0 ≡ some [])
unfolding program new_tracker only_valid get_deps
answers = (refl, refl, refl)

run-Moves_example :
    Moves needs (view (start packages false 2)) (view (run needs schedule (start packages false 2)))
run-Moves_example = run-Moves needs schedule (start packages false 2)

is_completed_iff_example :
    (is_completed (run needs to_the_end (start packages false 2)).queue ≡ true)
    ↔ ((run needs to_the_end (start packages false 2)).queue.to_build ≡ [])
      × (busy_threads (run needs to_the_end (start packages false 2)).threads ≡ 0)
is_completed_iff_example = is_completed_iff needs packages false 2 to_the_end

succeeded-count_example :
    count b (run needs to_the_end (start packages false 2)).queue.built ≡ count b packages
succeeded-count_example =
    succeeded-count needs packages false 2 to_the_end b (unfold program in refl)

-- b stands first, and a, which could be built, behind it.
abbrev stuck : Queue
stuck = record {
  total_pkgs = 2;
  to_build = b ∷ a ∷ [];
  built = [];
  failed = [];
  done = false;
  robust_build = false;
  started = [];
  hack_end_counter = 3;
}

gives_up : ((attempt needs 3 stuck).0 ≡ nothing) × (dependencies_met stuck (needs a) ≡ true)
unfolding program
gives_up = (refl, refl)
