-- ===== src/BuildQueue/Refines.antt =====
-- src/ros/rosmake/src/rosmake/parallel_build.py: every step of a thread is a move of the board.
use xc_ros.Prelude.{
  ℕ, ◌+◌, ◌<◌, ◌≡◌, refl, sym, ◌∙◌, ap, ◌⊎◌, inl, inr, Bool, true, false, ◌||◌, List, [], ◌∷◌, ◌++◌,
  Option, none, some, arith, get_elem?, set, if◌then◌else◌, Bool-cases,
}
use xc_ros.Prelude.Text.{Text, same_refl, mem, count, count-append, count-remove, mem_iff_count}
use xc_ros.BuildQueue.{Queue, is_done, stop, return_built, dependencies_met, Answer}
use xc_ros.BuildQueue.Threads.{
  Phase, looping, entering, waiting, building, halting, exited, System, Event, act, step, resume,
  run, after_answer,
}
use xc_ros.BuildQueue.Conserve.{weight, in_progress, in_progress-set}
use xc_ros.BuildQueue.Spec.{Board, one, IsReady, Move, idle, begin, finish, fail, Moves, here, next}
use xc_ros.BuildQueue.Given.{Given, kept, gave, attempt-Given, wake-Given}

abbrev pub view : System → Board
view s = record {
  robust = s.queue.robust_build;
  pending = λ x. count x s.queue.to_build;
  active = λ x. in_progress x s.threads;
  built = λ x. count x s.queue.built;
  failed = λ x. count x s.queue.failed;
}

dependencies_met-IsReady :
    (s : System) (ds : List Text) → dependencies_met s.queue ds ≡ true → IsReady (view s) ds
unfolding dependencies_met
dependencies_met-IsReady s [] h = tt
dependencies_met-IsReady s (d ∷ ds) h =
    (dep (Bool-cases (mem d s.queue.built)), dependencies_met-IsReady s ds (ground arith))
  where
    dep :
        (mem d s.queue.built ≡ true) ⊎ (mem d s.queue.built ≡ false)
        → (0 < count d s.queue.built)
          ⊎ ((s.queue.robust_build ≡ true) × (0 < count d s.queue.failed))
    dep (inl m) = inl (omega (arith, (mem_iff_count d s.queue.built).0 m))
    dep (inr n) =
        let failed : mem d s.queue.failed ≡ true = ground arith in
        inr (ground arith, omega (arith, (mem_iff_count d s.queue.failed).0 failed))

module _ (get_deps : Text → List Text) where
  Moved : System → Event → Phase → Queue × Phase → Type 0
  Moved s ev ph (q, ph') =
      Move get_deps (view s) (view (record { queue = q; threads = set s.threads ev.thread ph' }))

  -- A step that changes no list and takes no part in a build.
  quiet :
      (s : System) (ev : Event) (ph ph' : Phase) (q : Queue)
      → get_elem? s.threads ev.thread ≡ some ph
      → ((x : Text) → weight x ph' ≡ weight x ph)
      → q.robust_build ≡ s.queue.robust_build
      → q.to_build ≡ s.queue.to_build
      → q.built ≡ s.queue.built
      → q.failed ≡ s.queue.failed
      → Moved s ev ph (q, ph')
  unfolding Moved
  quiet s ev ph ph' q e w r t b f =
      idle r (λ x. ap (count x) t)
        (λ x. omega (arith, in_progress-set x s.threads ev.thread ph ph' e, w x))
        (λ x. ap (count x) b) (λ x. ap (count x) f)

  weight-if :
      (b : Bool) (ph ph' : Phase) (x : Text)
      → weight x ph ≡ 0
      → weight x ph' ≡ 0
      → weight x (if b then ph else ph') ≡ 0
  weight-if true ph ph' x h k = h
  weight-if false ph ph' x h k = k

  -- The package of a thread that has built it.
  leaves_thread :
      (s : System) (i : ℕ) (p : Text) (ph : Phase)
      → get_elem? s.threads i ≡ some (building p)
      → ((x : Text) → weight x ph ≡ 0)
      → (0 < in_progress p s.threads)
        × ((x : Text) → in_progress x (set s.threads i ph) + one p x ≡ in_progress x s.threads)
  leaves_thread s i p ph e w =
      (there, λ x. omega (arith, in_progress-set x s.threads i (building p) ph e, w x))
    where
      own : one p p ≡ 1
      own = rw (same_refl p) refl

      there : 0 < in_progress p s.threads
      there = omega (arith, in_progress-set p s.threads i (building p) ph e, w p, own)

  arrives_last : (p : Text) (l : List Text) (x : Text) → count x (l ++ p ∷ []) ≡ count x l + one p x
  unfolding count
  arrives_last p l x = omega (arith, count-append x l (p ∷ []))

  Given-Moved :
      (s : System) (ev : Event) (ph : Phase) (a : Answer) (q : Queue)
      → get_elem? s.threads ev.thread ≡ some ph
      → ((x : Text) → weight x ph ≡ 0)
      → Given get_deps s.queue a q
      → Moved s ev ph (q, after_answer a)
  unfolding Moved
  Given-Moved s ev ph a q e w (kept r t b f z) =
      unfold Moved in quiet s ev ph (after_answer a) q e (λ x. z x ∙ sym (w x)) r t b f
  Given-Moved s ev ph a q e w (gave p there met r t b f g) =
      begin p (dependencies_met-IsReady s (get_deps p) met) r
        (record {
          there = omega (arith, (mem_iff_count p s.queue.to_build).0 there);
          leaves = λ x. ap (λ l. count x l + one p x) t ∙ count-remove p x s.queue.to_build there;
          arrives = λ x. omega (
            arith,
            in_progress-set x s.threads ev.thread ph (after_answer a) e,
            w x,
            ap (λ o. weight x (after_answer o)) g,
          );
        })
        (λ x. ap (count x) b) (λ x. ap (count x) f)

  built_by :
      (s : System) (ev : Event) (p : Text) (result : Bool)
      → get_elem? s.threads ev.thread ≡ some (building p)
      → Moved s ev (building p) (
        return_built p result s.queue,
        if result || s.queue.robust_build then looping else halting,
      )
  unfolding Moved return_built
  built_by s ev p true e =
      let (there, leaves) = leaves_thread s ev.thread p looping e (λ x. refl) in
      finish p refl (λ x. refl)
        (record { there = there; leaves = leaves; arrives = arrives_last p s.queue.built })
        (λ x. refl)
  built_by s ev p false e =
      let (there, leaves) =
        leaves_thread s ev.thread p _ e
          (λ x. weight-if s.queue.robust_build looping halting x refl refl) in
      fail p refl (λ x. refl)
        (record { there = there; leaves = leaves; arrives = arrives_last p s.queue.failed })
        (λ x. refl)

  act-Moved :
      (s : System) (ev : Event) (ph : Phase)
      → get_elem? s.threads ev.thread ≡ some ph
      → Moved s ev ph (act get_deps ev.now ev.result s.queue ph)
  unfolding act
  act-Moved s ev looping e =
      quiet s ev looping _ s.queue e (λ x. weight-if (is_done s.queue) exited entering x refl refl)
        refl refl refl refl
  act-Moved s ev entering e =
      Given-Moved s ev entering _ _ e (λ x. refl) (attempt-Given get_deps ev.now s.queue)
  act-Moved s ev waiting e =
      Given-Moved s ev waiting _ _ e (λ x. refl) (wake-Given get_deps ev.now s.queue)
  act-Moved s ev (building p) e = built_by s ev p ev.result e
  act-Moved s ev halting e =
      quiet s ev halting exited (stop s.queue) e (λ x. refl) (unfold stop in refl)
        (unfold stop in refl) (unfold stop in refl) (unfold stop in refl)
  act-Moved s ev exited e = quiet s ev exited exited s.queue e (λ x. refl) refl refl refl refl

  step-Move : (s : System) (ev : Event) → Move get_deps (view s) (view (step get_deps ev s))
  unfolding step
  step-Move s ev = by_phase (get_elem? s.threads ev.thread) refl
    where
      by_phase :
          (o : Option Phase)
          → get_elem? s.threads ev.thread ≡ o
          → Move get_deps (view s) (view (resume get_deps ev s o))
      by_phase none e = idle refl (λ x. refl) (λ x. refl) (λ x. refl) (λ x. refl)
      by_phase (some ph) e = unfold Moved in act-Moved s ev ph e

  run_from :
      (b : Board) (evs : List Event) (t : System)
      → Moves get_deps b (view t)
      → Moves get_deps b (view (run get_deps evs t))
  unfolding run
  run_from b [] t m = m
  run_from b (ev ∷ evs) t m = run_from b evs (step get_deps ev t) (next m (step-Move t ev))

  -- Under every schedule, and from every state, the threads only make moves of the board.
  pub run-Moves :
      (evs : List Event) (s : System) → Moves get_deps (view s) (view (run get_deps evs s))
  run-Moves evs s = run_from (view s) evs s here
