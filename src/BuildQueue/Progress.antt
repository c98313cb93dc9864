-- ===== src/BuildQueue/Progress.antt =====
-- src/ros/rosmake/src/rosmake/parallel_build.py: when `get_valid_package` has a package to give.
use xc_ros.Prelude.{
  ℕ, ◌+◌, ◌≤◌, ◌≡◌, refl, sym, ◌⊎◌, Bool, true, false, not, ◌&&◌, ◌||◌, List, [], ◌∷◌, Option, none,
  some, arith, get_elem?, if◌then◌else◌, inl, inr, length, ltb, Bool-cases, and_intro, and_left,
  and_right,
}
use xc_ros.Prelude.Text.{Text, mem, count, remove, mem_iff_count, same}
use xc_ros.BuildQueue.{
  Queue, init, is_done, stop, return_built, Pass, valid, hung, unmet, given, scan, attempt, wake,
  answer, dependencies_met,
}
use xc_ros.BuildQueue.Threads.{
  Phase, looping, entering, waiting, building, halting, exited, System, Event, start, act, step,
  resume, run, run_induction,
}
use xc_ros.BuildQueue.Conserve.{run-conserves}
use xc_ros.BuildQueue.Knows.{all_in}
use xc_ros.BuildQueue.Complete.{busy_threads, in_progress-le_busy}
use xc_ros.BuildQueue.Apart.{none_in, none_in-cons_remove, count_eq_zero}

-- A failure does not count against a package: nothing has failed, or the build is robust.
abbrev pub Tolerates : Queue → Type 0
Tolerates q = (q.failed ≡ []) ⊎ (q.robust_build ≡ true)

count-nil : (d : Text) (ps : List Text) → ps ≡ [] → count d ps ≡ 0
count-nil d ps e = rw e (unfold count in refl)

met_of_count :
    (q : Queue) (d : Text)
    → Tolerates q
    → 1 ≤ count d q.built + count d q.failed
    → mem d q.built || (q.robust_build && mem d q.failed) ≡ true
met_of_count q d (inl none_failed) h =
    rw ((mem_iff_count d q.built).1 (omega (arith, count-nil d q.failed none_failed)))
met_of_count q d (inr robust) h = ground (arith, mem_iff_count d q.built, mem_iff_count d q.failed)

module _ (get_deps : Text → List Text) where
  -- The list is in build order: no package depends on itself or on a later one.
  abbrev pub IsSorted : List Text → Type 0
  IsSorted [] = Unit
  IsSorted (p ∷ ps) = (none_in (get_deps p) (p ∷ ps) ≡ true) × IsSorted ps

  remove-IsSorted : (x : Text) (ps : List Text) → IsSorted ps → IsSorted (remove x ps)
  unfolding remove
  remove-IsSorted x [] h = tt
  remove-IsSorted x (p ∷ ps) h = IsSorted-if (same p x) h.1 (remove-IsSorted x ps h.1)
    where
      IsSorted-if :
          (b : Bool)
          → IsSorted ps
          → IsSorted (remove x ps)
          → IsSorted (if b then ps else p ∷ remove x ps)
      IsSorted-if true now later = now
      IsSorted-if false now later = (none_in-cons_remove (get_deps p) x p ps h.0, later)

  answer-IsSorted :
      (now : ℕ) (q : Queue) (r : Pass)
      → IsSorted q.to_build
      → IsSorted (answer get_deps now q r).1.to_build
  answer-IsSorted now q (valid x) h = remove-IsSorted x q.to_build h
  answer-IsSorted now q hung h = h
  answer-IsSorted now q unmet h = h

  attempt-IsSorted :
      (now : ℕ) (q : Queue) → IsSorted q.to_build → IsSorted (attempt get_deps now q).1.to_build
  attempt-IsSorted now q h = elim (Bool-cases (not (is_done q) && ltb 0 (length q.to_build))) [
    | inl go ↦ unfold attempt in rw go (answer-IsSorted now q (scan get_deps q q.to_build) h)
    | inr over ↦ unfold attempt in rw over h
  ]

  act-IsSorted :
      (now : ℕ) (result : Bool) (q : Queue) (ph : Phase)
      → IsSorted q.to_build
      → IsSorted (act get_deps now result q ph).0.to_build
  unfolding act stop return_built wake
  act-IsSorted now result q looping h = h
  act-IsSorted now result q entering h = attempt-IsSorted now q h
  act-IsSorted now result q waiting h =
      let q' = record q { hack_end_counter = q.hack_end_counter + 1 } in
      elim (Bool-cases (is_done q')) [
        | inl over ↦ rw over h
        | inr more ↦ rw more (attempt-IsSorted now q' h)
      ]
  act-IsSorted now true q (building x) h = h
  act-IsSorted now false q (building x) h = h
  act-IsSorted now result q halting h = h
  act-IsSorted now result q exited h = h

  resume-IsSorted :
      (ev : Event) (s : System) (o : Option Phase)
      → IsSorted s.queue.to_build
      → IsSorted (resume get_deps ev s o).queue.to_build
  resume-IsSorted ev s none h = h
  resume-IsSorted ev s (some ph) h = act-IsSorted ev.now ev.result s.queue ph h

  run-IsSorted :
      (packages : List Text) (robust_build : Bool) (jobs : ℕ) (evs : List Event)
      → IsSorted packages
      → IsSorted (run get_deps evs (start packages robust_build jobs)).queue.to_build
  run-IsSorted packages robust_build jobs evs h =
      run_induction get_deps (λ s. IsSorted s.queue.to_build)
        (λ ev s k. unfold step in resume-IsSorted ev s (get_elem? s.threads ev.thread) k) evs
        (start packages robust_build jobs) (unfold start init in h)

  met_of_counts :
      (q : Queue) (packages ds : List Text)
      → Tolerates q
      → ((d : Text) → count d q.to_build + count d q.built + count d q.failed ≡ count d packages)
      → all_in ds packages ≡ true
      → none_in ds q.to_build ≡ true
      → dependencies_met q ds ≡ true
  unfolding dependencies_met all_in none_in
  met_of_counts q packages [] ok counts listed gone = refl
  met_of_counts q packages (d ∷ ds) ok counts listed gone =
      and_intro (mem d q.built || (q.robust_build && mem d q.failed)) (dependencies_met q ds)
        one_met
        (met_of_counts q packages ds ok counts (and_right (mem d packages) _ listed)
          (and_right (not (mem d q.to_build)) _ gone))
    where
      one_met : mem d q.built || (q.robust_build && mem d q.failed) ≡ true
      one_met = met_of_count q d ok (
          omega (
            arith,
            counts d,
            (mem_iff_count d packages).0 (and_left _ (all_in ds packages) listed),
            count_eq_zero d q.to_build (and_left _ (none_in ds q.to_build) gone),
          ))

  -- A queue whose first package has its dependencies gives that package out.
  attempt-head :
      (now : ℕ) (q : Queue) (p : Text) (ps : List Text)
      → q.to_build ≡ p ∷ ps
      → is_done q ≡ false
      → dependencies_met q (get_deps p) ≡ true
      → (attempt get_deps now q).0 ≡ given p
  unfolding attempt scan
  attempt-head now q p ps listed open_queue met = ground arith

  -- With packages in build order and their dependencies among them, a queue that is not done, has
  -- packages left and no build under way gives the first one out, unless a package failed in a
  -- build that is not robust.
  pub attempt-progress :
      (packages : List Text) (robust_build : Bool) (jobs : ℕ) (evs : List Event) (now : ℕ)
      (p : Text) (ps : List Text)
      → IsSorted packages
      → all_in (get_deps p) packages ≡ true
      → (run get_deps evs (start packages robust_build jobs)).queue.to_build ≡ p ∷ ps
      → busy_threads (run get_deps evs (start packages robust_build jobs)).threads ≡ 0
      → Tolerates (run get_deps evs (start packages robust_build jobs)).queue
      → is_done (run get_deps evs (start packages robust_build jobs)).queue ≡ false
      → (attempt get_deps now (run get_deps evs (start packages robust_build jobs)).queue).0
        ≡ given p
  attempt-progress packages robust_build jobs evs now p ps sorted listed left idle ok open_queue =
      attempt-head now q p ps left open_queue
        (met_of_counts q packages (get_deps p) ok counts listed (rw (sym left) at ahead.0))
    where
      s : System
      s = run get_deps evs (start packages robust_build jobs)

      q : Queue
      q = s.queue

      counts :
          (d : Text) → count d q.to_build + count d q.built + count d q.failed ≡ count d packages
      counts d = omega (
        arith,
        run-conserves get_deps packages robust_build jobs evs d,
        in_progress-le_busy d s.threads,
        idle,
      )

      ahead : IsSorted (p ∷ ps)
      ahead = rw left at (run-IsSorted packages robust_build jobs evs sorted)
