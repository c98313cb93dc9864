-- ===== src/BuildQueue/Threads.antt =====
-- src/ros/rosmake/src/rosmake/parallel_build.py: the threads that `CompileThread.run` drives, and
-- the interleavings of their steps. A step is what a thread does between two points at which others
-- may run: the lock of the queue's condition covers each.
use xc_ros.Prelude.{
  ℕ, Bool, ◌||◌, List, [], ◌∷◌, Option, none, some, get_elem?, set, replicate, if◌then◌else◌,
}
use xc_ros.Prelude.Text.{Text}
use xc_ros.BuildQueue.{
  Queue, init, is_done, stop, return_built, Answer, given, nothing, waits, attempt, wake,
}

-- Where a thread stands in `run`.
pub data Phase : Type 0 where
  -- at the test of the `while` loop
  looping : Phase
  -- before the lock of `get_valid_package`
  entering : Phase
  -- in `condition.wait`
  waiting : Phase
  -- in `rosmakeall.build`
  building : Text → Phase
  -- after a failed build has been returned, before `stop`
  halting : Phase
  exited : Phase

abbrev pub after_answer : Answer → Phase
after_answer (given p) = building p
after_answer nothing = exited
after_answer waits = waiting

pub record System : Type 0 where
  pub queue : Queue
  pub threads : List Phase

-- What a scheduler chooses: a thread, the clock, and the outcome if that thread is building.
pub record Event : Type 0 where
  pub thread : ℕ
  pub now : ℕ
  pub result : Bool

-- All threads at the head of their loop.
unfoldable pub start : List Text → Bool → ℕ → System
start package_list robust_build jobs = record {
  queue = init package_list robust_build;
  threads = replicate jobs looping;
}

module _ (get_deps : Text → List Text) where
  unfoldable pub act : ℕ → Bool → Queue → Phase → Queue × Phase
  act now result q looping = (q, if is_done q then exited else entering)
  act now result q entering = let (a, q') = attempt get_deps now q in (q', after_answer a)
  act now result q waiting = let (a, q') = wake get_deps now q in (q', after_answer a)
  act now result q (building p) =
      (return_built p result q, if result || q.robust_build then looping else halting)
  act now result q halting = (stop q, exited)
  act now result q exited = (q, exited)

  abbrev pub resume : Event → System → Option Phase → System
  resume ev s none = s
  resume ev s (some ph) =
      let (q, ph') = act ev.now ev.result s.queue ph in
      record { queue = q; threads = set s.threads ev.thread ph' }

  unfoldable pub step : Event → System → System
  step ev s = resume ev s (get_elem? s.threads ev.thread)

  -- A run under a schedule.
  unfoldable pub run : List Event → System → System
  run [] s = s
  run (ev ∷ evs) s = run evs (step ev s)

  -- An invariant of the queue and one thread at a time, against the others.
  pub run_induction :
      (P : System → Type 0)
      → ((ev : Event) (s : System) → P s → P (step ev s))
      → (evs : List Event) (s : System) → P s
      → P (run evs s)
  unfolding run
  run_induction P keep [] s h = h
  run_induction P keep (ev ∷ evs) s h = run_induction P keep evs (step ev s) (keep ev s h)
