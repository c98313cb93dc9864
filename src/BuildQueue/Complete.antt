-- ===== src/BuildQueue/Complete.antt =====
-- src/ros/rosmake/src/rosmake/parallel_build.py: what the end of a build means.
use xc_ros.Prelude.{
  ℕ, zero, suc, ◌+◌, ◌≤◌, ◌≡◌, refl, sym, ◌∙◌, ap, Bool, true, false, List, [], ◌∷◌, Option, none,
  some, arith, get_elem?, set, replicate, length, length-append, ◌↔◌, ◌==◌, ==_iff,
}
use xc_ros.Prelude.Text.{Text, count, length-remove}
use xc_ros.BuildQueue.{
  Queue, init, is_completed, succeeded, stop, return_built, Pass, valid, hung, unmet, scan, attempt,
  wake, answer,
}
use xc_ros.BuildQueue.Threads.{
  Phase, looping, entering, waiting, building, halting, exited, System, Event, start, act, step,
  resume, run, run_induction, after_answer,
}
use xc_ros.BuildQueue.Conserve.{scan-valid, in_progress, run-conserves}

length_eq_zero : (xs : List Text) → length xs ≡ 0 → xs ≡ []
length_eq_zero [] h = refl
length_eq_zero (x ∷ xs) h = absurd (omega arith)

-- How many packages the queue's lists hold, and how many threads build one.
abbrev size : Queue → ℕ
size q = length q.to_build + length q.built + length q.failed

abbrev busy : Phase → ℕ
busy (building x) = 1
busy _ = 0

unfoldable pub busy_threads : List Phase → ℕ
busy_threads [] = 0
busy_threads (ph ∷ phs) = busy ph + busy_threads phs

busy_threads-set :
    (phs : List Phase) (i : ℕ) (a b : Phase)
    → get_elem? phs i ≡ some a
    → busy_threads (set phs i b) + busy a ≡ busy_threads phs + busy b
unfolding busy_threads
busy_threads-set [] i a b h = absurd (cc)
busy_threads-set (x ∷ phs) zero a b h = ground arith
busy_threads-set (x ∷ phs) (suc i) a b h = omega (arith, busy_threads-set phs i a b h)

pub in_progress-le_busy : (p : Text) (phs : List Phase) → in_progress p phs ≤ busy_threads phs
unfolding in_progress busy_threads
in_progress-le_busy p [] = omega arith
in_progress-le_busy p (building x ∷ phs) = ground (arith, in_progress-le_busy p phs)
in_progress-le_busy p (ph ∷ phs) = omega (arith, in_progress-le_busy p phs)

count-le-length : (p : Text) (ps : List Text) → count p ps ≤ length ps
unfolding count
count-le-length p [] = omega arith
count-le-length p (x ∷ ps) = ground (arith, count-le-length p ps)

completed_iff :
    (q : Queue) (b : ℕ)
    → size q + b ≡ q.total_pkgs
    → ((length q.built + length q.failed == q.total_pkgs) ≡ true) ↔ (q.to_build ≡ []) × (b ≡ 0)
completed_iff q b e = (
  λ h.
      let all = (==_iff (length q.built + length q.failed) q.total_pkgs).0 h in
      (length_eq_zero q.to_build (omega arith), omega arith),
  λ (none_left, idle).
      (==_iff (length q.built + length q.failed) q.total_pkgs).1
        (omega (arith, ap length none_left)),
)

module _ (get_deps : Text → List Text) where
  answer-size :
      (now : ℕ) (q : Queue) (r : Pass)
      → scan get_deps q q.to_build ≡ r
      → (size (answer get_deps now q r).1 + busy (after_answer (answer get_deps now q r).0)
          ≡ size q)
        × ((answer get_deps now q r).1.total_pkgs ≡ q.total_pkgs)
  answer-size now q (valid x) e =
      (omega (arith, length-remove x q.to_build (scan-valid get_deps q q.to_build x e).0), refl)
  answer-size now q hung e = (omega arith, refl)
  answer-size now q unmet e = (omega arith, refl)

  attempt-size :
      (now : ℕ) (q : Queue)
      → (size (attempt get_deps now q).1 + busy (after_answer (attempt get_deps now q).0) ≡ size q)
        × ((attempt get_deps now q).1.total_pkgs ≡ q.total_pkgs)
  unfolding attempt
  attempt-size now q = ground (arith, answer-size now q (scan get_deps q q.to_build) refl)

  act-size :
      (now : ℕ) (result : Bool) (q : Queue) (ph : Phase)
      → (size (act get_deps now result q ph).0 + busy (act get_deps now result q ph).1
          ≡ size q + busy ph)
        × ((act get_deps now result q ph).0.total_pkgs ≡ q.total_pkgs)
  unfolding act stop return_built wake
  act-size now result q looping = ground arith
  act-size now result q entering = ground (arith, attempt-size now q)
  act-size now result q waiting =
      ground (arith, attempt-size now (record q { hack_end_counter = q.hack_end_counter + 1 }))
  act-size now true q (building x) = ground (arith, length-append q.built (x ∷ []))
  act-size now false q (building x) = ground (arith, length-append q.failed (x ∷ []))
  act-size now result q halting = (refl, refl)
  act-size now result q exited = (refl, refl)

  abbrev Sized : ℕ → System → Type 0
  Sized n s = (size s.queue + busy_threads s.threads ≡ n) × (s.queue.total_pkgs ≡ n)

  resume-Sized :
      (n : ℕ) (ev : Event) (s : System) (o : Option Phase)
      → get_elem? s.threads ev.thread ≡ o
      → Sized n s
      → Sized n (resume get_deps ev s o)
  resume-Sized n ev s none e h = h
  resume-Sized n ev s (some ph) e h =
      let a = act-size ev.now ev.result s.queue ph in
      let b =
        busy_threads-set s.threads ev.thread ph (act get_deps ev.now ev.result s.queue ph).1 e in
      (omega (arith, a.0, b), a.1 ∙ h.1)

  busy_threads-start : (jobs : ℕ) → busy_threads (replicate jobs looping) ≡ 0
  unfolding busy_threads
  busy_threads-start zero = refl
  busy_threads-start (suc jobs) = omega (arith, busy_threads-start jobs)

  run-Sized :
      (packages : List Text) (robust_build : Bool) (jobs : ℕ) (evs : List Event)
      → Sized (length packages) (run get_deps evs (start packages robust_build jobs))
  run-Sized packages robust_build jobs evs =
      run_induction get_deps (Sized (length packages))
        (λ ev s h. unfold step in resume-Sized _ ev s (get_elem? s.threads ev.thread) refl h) evs _
        (unfold start init in (omega (arith, busy_threads-start jobs), refl))

  pub run-total_pkgs :
      (packages : List Text) (robust_build : Bool) (jobs : ℕ) (evs : List Event)
      → (run get_deps evs (start packages robust_build jobs)).queue.total_pkgs ≡ length packages
  run-total_pkgs packages robust_build jobs evs = (run-Sized packages robust_build jobs evs).1

  -- Under every schedule the queue reports completion exactly when no package is left to build and no
  -- thread is building one.
  pub is_completed_iff :
      (packages : List Text) (robust_build : Bool) (jobs : ℕ) (evs : List Event)
      → (is_completed (run get_deps evs (start packages robust_build jobs)).queue ≡ true)
        ↔ ((run get_deps evs (start packages robust_build jobs)).queue.to_build ≡ [])
          × (busy_threads (run get_deps evs (start packages robust_build jobs)).threads ≡ 0)
  unfolding is_completed
  is_completed_iff packages robust_build jobs evs =
      let s = run get_deps evs (start packages robust_build jobs) in
      let sized = run-Sized packages robust_build jobs evs in
      completed_iff s.queue (busy_threads s.threads) (sized.0 ∙ sym sized.1)

  -- Under every schedule, a queue that reports success has built each package exactly as often as the
  -- package list has it.
  pub succeeded-count :
      (packages : List Text) (robust_build : Bool) (jobs : ℕ) (evs : List Event) (p : Text)
      → succeeded (run get_deps evs (start packages robust_build jobs)).queue ≡ true
      → count p (run get_deps evs (start packages robust_build jobs)).queue.built ≡ count p packages
  succeeded-count packages robust_build jobs evs p h =
      let s = run get_deps evs (start packages robust_build jobs) in
      let q = s.queue in
      let sized = run-Sized packages robust_build jobs evs in
      let all_built : length q.built ≡ q.total_pkgs =
        unfold succeeded in (==_iff (length q.built) q.total_pkgs).0 h in
      omega (
        arith,
        sized.0,
        sized.1,
        all_built,
        run-conserves get_deps packages robust_build jobs evs p,
        count-le-length p q.to_build,
        count-le-length p q.failed,
        in_progress-le_busy p s.threads,
      )
