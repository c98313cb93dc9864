-- ===== src/BuildQueue/Conserve.antt =====
-- src/ros/rosmake/src/rosmake/parallel_build.py: no package is lost, and none is built twice.
use xc_ros.Prelude.{
  ℕ, zero, suc, ◌+◌, ◌≡◌, refl, ◌∙◌, Bool, true, false, List, [], ◌∷◌, Option, none, some, arith,
  get_elem?, set, if◌then◌else◌, replicate,
}
use xc_ros.Prelude.Text.{Text, same, same_iff, mem, count, count-append, count-remove}
use xc_ros.BuildQueue.{
  Queue, init, stop, return_built, Pass, valid, hung, unmet, scan, attempt, wake, dependencies_met,
  answer,
}
use xc_ros.BuildQueue.Threads.{
  Phase, looping, entering, waiting, building, halting, exited, System, Event, start, act, step,
  resume, run, run_induction, after_answer,
}

-- How often the queue's lists hold a package, and how many threads build it.
abbrev pub held : Text → Queue → ℕ
held p q = count p q.to_build + count p q.built + count p q.failed

abbrev pub weight : Text → Phase → ℕ
weight p (building x) = if same x p then 1 else 0
weight p _ = 0

unfoldable pub in_progress : Text → List Phase → ℕ
in_progress p [] = 0
in_progress p (ph ∷ phs) = weight p ph + in_progress p phs

pub in_progress-set :
    (p : Text) (phs : List Phase) (i : ℕ) (a b : Phase)
    → get_elem? phs i ≡ some a
    → in_progress p (set phs i b) + weight p a ≡ in_progress p phs + weight p b
unfolding in_progress
in_progress-set p [] i a b h = absurd (cc)
in_progress-set p (x ∷ phs) zero a b h = ground arith
in_progress-set p (x ∷ phs) (suc i) a b h = omega (arith, in_progress-set p phs i a b h)

module _ (get_deps : Text → List Text) where
  -- A package that a pass finds is in the list, and its dependencies are met.
  pub scan-valid :
      (q : Queue) (ps : List Text) (p : Text)
      → scan get_deps q ps ≡ valid p
      → (mem p ps ≡ true) × (dependencies_met q (get_deps p) ≡ true)
  unfolding scan mem
  scan-valid q [] p h = absurd (cc)
  scan-valid q (x ∷ ps) p h = ground (arith, scan-valid q ps p, same_iff x p)

  answer-conserves :
      (p : Text) (now : ℕ) (q : Queue) (r : Pass)
      → scan get_deps q q.to_build ≡ r
      → held p (answer get_deps now q r).1 + weight p (after_answer (answer get_deps now q r).0)
        ≡ held p q
  answer-conserves p now q (valid x) e =
      omega (arith, count-remove x p q.to_build (scan-valid q q.to_build x e).0)
  answer-conserves p now q hung e = omega arith
  answer-conserves p now q unmet e = omega arith

  attempt-conserves :
      (p : Text) (now : ℕ) (q : Queue)
      → held p (attempt get_deps now q).1 + weight p (after_answer (attempt get_deps now q).0)
        ≡ held p q
  unfolding attempt
  attempt-conserves p now q =
      ground (arith, answer-conserves p now q (scan get_deps q q.to_build) refl)

  wake-conserves :
      (p : Text) (now : ℕ) (q : Queue)
      → held p (wake get_deps now q).1 + weight p (after_answer (wake get_deps now q).0) ≡ held p q
  unfolding wake
  wake-conserves p now q =
      ground
        (arith, attempt-conserves p now (record q { hack_end_counter = q.hack_end_counter + 1 }))

  return_built-conserves :
      (p x : Text) (result : Bool) (q : Queue)
      → held p (return_built x result q) ≡ held p q + (if same x p then 1 else 0)
  unfolding return_built count
  return_built-conserves p x true q = omega (arith, count-append p q.built (x ∷ []))
  return_built-conserves p x false q = omega (arith, count-append p q.failed (x ∷ []))

  act-conserves :
      (p : Text) (now : ℕ) (result : Bool) (q : Queue) (ph : Phase)
      → held p (act get_deps now result q ph).0 + weight p (act get_deps now result q ph).1
        ≡ held p q + weight p ph
  unfolding act stop
  act-conserves p now result q looping = ground arith
  act-conserves p now result q entering = omega (arith, attempt-conserves p now q)
  act-conserves p now result q waiting = omega (arith, wake-conserves p now q)
  act-conserves p now result q (building x) = ground (arith, return_built-conserves p x result q)
  act-conserves p now result q halting = refl
  act-conserves p now result q exited = refl

  step-conserves :
      (p : Text) (ev : Event) (s : System) (o : Option Phase)
      → get_elem? s.threads ev.thread ≡ o
      → held p (resume get_deps ev s o).queue + in_progress p (resume get_deps ev s o).threads
        ≡ held p s.queue + in_progress p s.threads
  step-conserves p ev s none e = refl
  step-conserves p ev s (some ph) e = omega (
    arith,
    act-conserves p ev.now ev.result s.queue ph,
    in_progress-set p s.threads ev.thread ph (act get_deps ev.now ev.result s.queue ph).1 e,
  )

  in_progress-start : (p : Text) (jobs : ℕ) → in_progress p (replicate jobs looping) ≡ 0
  unfolding in_progress
  in_progress-start p zero = refl
  in_progress-start p (suc jobs) = omega (arith, in_progress-start p jobs)

  -- Under every schedule each package is, as often as the package list has it, waiting to be built,
  -- being built by a thread, built, or failed.
  pub run-conserves :
      (packages : List Text) (robust_build : Bool) (jobs : ℕ) (evs : List Event) (p : Text)
      → held p (run get_deps evs (start packages robust_build jobs)).queue
          + in_progress p (run get_deps evs (start packages robust_build jobs)).threads
        ≡ count p packages
  run-conserves packages robust_build jobs evs p =
      run_induction get_deps (λ s. held p s.queue + in_progress p s.threads ≡ count p packages)
        (λ ev s h. unfold step in step-conserves p ev s (get_elem? s.threads ev.thread) refl ∙ h)
        evs (start packages robust_build jobs)
        (unfold start init count in omega (arith, in_progress-start p jobs))
