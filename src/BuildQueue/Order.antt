-- ===== src/BuildQueue/Order.antt =====
-- src/ros/rosmake/src/rosmake/parallel_build.py: a package is built after its dependencies.
use xc_ros.Prelude.{
  ℕ, zero, suc, ◌≡◌, refl, ◌∙◌, true, false, List, [], Option, none, some, get_elem?, replicate,
}
use xc_ros.Prelude.Text.{Text}
use xc_ros.BuildQueue.{Queue, init}
use xc_ros.BuildQueue.Threads.{
  Phase, looping, building, System, Event, start, step, resume, run, run_induction,
}
use xc_ros.BuildQueue.Knows.{all_in, IsOrdered, AllKnow, act-Acted, AllKnow-set, AllKnow-get}

module _ (get_deps : Text → List Text) where
  record Inv (s : System) : Type 0 where
    strict : s.queue.robust_build ≡ false
    ordered : IsOrdered get_deps [] s.queue.built
    know : AllKnow get_deps s.queue s.threads

  resume-Inv :
      (ev : Event) (s : System) (o : Option Phase)
      → get_elem? s.threads ev.thread ≡ o
      → Inv s
      → Inv (resume get_deps ev s o)
  resume-Inv ev s none e h = h
  resume-Inv ev s (some ph) e h =
      let known = AllKnow-get get_deps s.queue s.threads ev.thread ph e h.know in
      let a = act-Acted get_deps ev.now ev.result s.queue ph h.strict h.ordered known in
      record {
        strict = a.grows.robust ∙ h.strict;
        ordered = a.ordered;
        know = AllKnow-set get_deps s.queue _ s.threads ev.thread _ a.grows h.know a.knows;
      }

  AllKnow-start : (q : Queue) (jobs : ℕ) → AllKnow get_deps q (replicate jobs looping)
  AllKnow-start q zero = tt
  AllKnow-start q (suc jobs) = (tt, AllKnow-start q jobs)

  run-Inv :
      (packages : List Text) (jobs : ℕ) (evs : List Event)
      → Inv (run get_deps evs (start packages false jobs))
  run-Inv packages jobs evs =
      run_induction get_deps Inv
        (λ ev s h. unfold step in resume-Inv ev s (get_elem? s.threads ev.thread) refl h) evs
        (start packages false jobs)
        (unfold start init in
          record { strict = refl; ordered = tt; know = AllKnow-start (init packages false) jobs })

  -- Unless the build is robust, under every schedule each package in `built` has all of its
  -- dependencies before it.
  pub run-IsOrdered :
      (packages : List Text) (jobs : ℕ) (evs : List Event)
      → IsOrdered get_deps [] (run get_deps evs (start packages false jobs)).queue.built
  run-IsOrdered packages jobs evs = (run-Inv packages jobs evs).ordered

  -- Unless the build is robust, a package that some thread is building has all of its dependencies
  -- in `built`.
  pub building-all_in :
      (packages : List Text) (jobs : ℕ) (evs : List Event) (i : ℕ) (p : Text)
      → get_elem? (run get_deps evs (start packages false jobs)).threads i ≡ some (building p)
      → all_in (get_deps p) (run get_deps evs (start packages false jobs)).queue.built ≡ true
  building-all_in packages jobs evs i p e =
      let s = run get_deps evs (start packages false jobs) in
      AllKnow-get get_deps s.queue s.threads i (building p) e (run-Inv packages jobs evs).know
