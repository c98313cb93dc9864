-- ===== src/Engine/Builds.antt =====
-- src/ros/rosmake/src/rosmake/engine.py and parallel_build.py: the build list and the queue that takes
-- it.
use xc_ros.Prelude.{
  ℕ, ◌+◌, ◌*◌, ◌≤◌, ◌<◌, ◌≡◌, refl, sym, ◌∙◌, ap, subst, ◌↔◌, ◌⊎◌, inl, inr, Bool, true, false,
  List, [], ◌∷◌, some, none, arith, length, ==_iff,
}
use xc_ros.Prelude.Text.{Text, mem, count, mem_iff_count, same_refl}
use xc_ros.Prelude.Result.{ok, err}
use xc_ros.BuildQueue.{is_done, succeeded, given, attempt}
use xc_ros.BuildQueue.Threads.{Event, start, run}
use xc_ros.BuildQueue.Knows.{all_in, IsOrdered}
use xc_ros.BuildQueue.Conserve.{run-conserves}
use xc_ros.BuildQueue.Complete.{busy_threads, run-total_pkgs}
use xc_ros.BuildQueue.Progress.{Tolerates, attempt-progress}
use xc_ros.Engine.{Run, missing, list_packages}
use xc_ros.Engine.Recurse.{Reaches, Follows, FromOne, Done, all_in-intro}
use xc_ros.Engine.Listing.{list_packages-Done}
use xc_ros.Engine.Sorted.{
  IsClosed, Reaches-mem, Follows-IsClosed, Follows-IsOrdered, Follows-IsSorted,
}
use xc_ros.Engine.Drive.{driven, ticks, length-ticks, run-in_order}

-- The direct dependencies are there and of lower rank, and what the queue asks for is reached by
-- them.
module _ (get_deps_1 get_deps : Text → List Text) (present : Text → Bool) (robust_build : Bool)
    (rank : Text → ℕ) (falls : (p d : Text) → mem d (get_deps_1 p) ≡ true → rank d < rank p)
    (valid : (p d : Text) → mem d (get_deps_1 p) ≡ true → present d ≡ true)
    (implicit : (p x : Text) → mem x (get_deps p) ≡ true → Reaches get_deps_1 p x) where
  abbrev IsListed : List Text → List Text → Type 0
  IsListed required build_list =
      Follows get_deps_1 present [] build_list
      × ((x : Text) → mem x build_list ≡ true → FromOne get_deps_1 present required x)
      × ((p : Text) → mem p required ≡ true → present p ≡ true → mem p build_list ≡ true)

  Done-IsListed :
      (required build_list : List Text)
      → Done get_deps_1 present robust_build required [] (some (ok build_list))
      → IsListed required build_list
  Done-IsListed required build_list ((more, e, f, from), all) = (
    subst (Follows get_deps_1 present []) (sym e) f,
    λ x m. from x (subst (λ l. mem x l ≡ true) e m),
    all,
  )

  listed :
      (fuel : ℕ) (required build_list : List Text)
      → ((p : Text) → mem p required ≡ true → rank p < fuel)
      → list_packages get_deps_1 present robust_build fuel required ≡ some (ok build_list)
      → IsListed required build_list
  listed fuel required build_list low e = Done-IsListed required build_list (
      subst (Done get_deps_1 present robust_build required []) e
        (list_packages-Done get_deps_1 present robust_build rank falls valid fuel required low))

  IsClosed-nil : IsClosed get_deps_1 present []
  unfolding mem
  IsClosed-nil x m = cc

  listed-all_in :
      (build_list : List Text) (p : Text)
      → Follows get_deps_1 present [] build_list
      → mem p build_list ≡ true
      → all_in (get_deps p) build_list ≡ true
  listed-all_in build_list p f m =
      let closed = Follows-IsClosed get_deps_1 present [] build_list IsClosed-nil f in
      all_in-intro (get_deps p) build_list
        (λ d n. Reaches-mem get_deps_1 present build_list p d closed (closed p m) (implicit p d n))

  count-head : (p : Text) (ps : List Text) → 1 ≤ count p (p ∷ ps)
  unfolding count
  count-head p ps = ground (arith, same_refl p)

  -- Where direct dependencies are there and of lower ranks, and `get_deps` answers only packages that
  -- they reach: on a build list that `list_packages` has made, under every schedule of any number of
  -- threads, a queue that is not done, has packages left and no build under way gives the first one
  -- out, unless a package failed in a build that is not robust.
  pub listed-progress :
      (fuel : ℕ) (required build_list : List Text) (robust : Bool) (jobs : ℕ) (evs : List Event)
      (now : ℕ) (p : Text) (ps : List Text)
      → ((p : Text) → mem p required ≡ true → rank p < fuel)
      → list_packages get_deps_1 present robust_build fuel required ≡ some (ok build_list)
      → (run get_deps evs (start build_list robust jobs)).queue.to_build ≡ p ∷ ps
      → busy_threads (run get_deps evs (start build_list robust jobs)).threads ≡ 0
      → Tolerates (run get_deps evs (start build_list robust jobs)).queue
      → is_done (run get_deps evs (start build_list robust jobs)).queue ≡ false
      → (attempt get_deps now (run get_deps evs (start build_list robust jobs)).queue).0 ≡ given p
  listed-progress fuel required build_list robust jobs evs now p ps low e left free ok_ open_ =
      let (f, _, _) = listed fuel required build_list low e in
      attempt-progress get_deps build_list robust jobs evs now p ps
        (Follows-IsSorted get_deps_1 present get_deps implicit [] build_list IsClosed-nil f)
        (listed-all_in build_list p f was_listed) left free ok_ open_
    where
      head_count : (l : List Text) → l ≡ p ∷ ps → 1 ≤ count p l
      head_count l is = subst (λ l. 1 ≤ count p l) (sym is) (count-head p ps)

      was_listed : mem p build_list ≡ true
      was_listed =
          (mem_iff_count p build_list).1
            (omega (arith, run-conserves get_deps build_list robust jobs evs p, head_count _ left))

  -- What a run without fuel and without an exit comes to.
  returned :
      (required : List Text) (r : Run)
      → ((p : Text) → mem p required ≡ true → present p ≡ true)
      → Done get_deps_1 present robust_build required [] r
      → (build_list : List Text) × (r ≡ some (ok build_list)) × IsListed required build_list
  returned required none there h = absurd h
  returned required (some (err (missing p))) there (m, gone, _) =
      let here = there p m in absurd (cc)
  returned required (some (ok build_list)) there h =
      (build_list, refl, Done-IsListed required build_list h)

  Reached-mem :
      (build_list : List Text) (d x : Text)
      → IsClosed get_deps_1 present build_list
      → mem d build_list ≡ true
      → (d ≡ x) ⊎ Reaches get_deps_1 d x
      → mem x build_list ≡ true
  Reached-mem build_list d x closed m (inl is) = subst (λ y. mem y build_list ≡ true) is m
  Reached-mem build_list d x closed m (inr r) =
      Reaches-mem get_deps_1 present build_list d x closed (closed d m) r

  -- Under the same conditions, and if every required package is there, `list_packages` returns a build
  -- list, which has exactly the required packages and those that they reach; and one thread whose
  -- builds succeed builds it from the first package to the last and reports success, after three
  -- steps for each package and any number more.
  pub required-IsBuilt :
      (fuel : ℕ) (required : List Text) (robust : Bool) (clock : ℕ → ℕ) (extra : ℕ)
      → ((p : Text) → mem p required ≡ true → rank p < fuel)
      → ((p : Text) → mem p required ≡ true → present p ≡ true)
      → (build_list : List Text) × (list_packages get_deps_1 present robust_build fuel required
          ≡ some (ok build_list))
        × ((x : Text) → (mem x build_list ≡ true) ↔ FromOne get_deps_1 present required x)
        × (let s =
              run get_deps
                (driven (ticks clock (3 * length build_list + extra)))
                (start build_list robust 1) in
            (s.queue.built ≡ build_list) × (succeeded s.queue ≡ true))
  unfolding succeeded
  required-IsBuilt fuel required robust clock extra low there =
      let (build_list, e, (f, from, all)) =
        returned required _ there
          (list_packages-Done get_deps_1 present robust_build rank falls valid fuel required low) in
      let closed = Follows-IsClosed get_deps_1 present [] build_list IsClosed-nil f in
      let ordered =
        Follows-IsOrdered get_deps_1 present get_deps implicit [] build_list IsClosed-nil f in
      (
        build_list,
        e,
        λ x. (from x, λ (d, m, far). Reached-mem build_list d x closed (all d m (there d m)) far),
        (
          in_order build_list ordered,
          (==_iff _ _).1 (
              ap length (in_order build_list ordered)
              ∙ sym (
                  run-total_pkgs get_deps build_list robust 1
                    (driven (ticks clock (3 * length build_list + extra))))),
        ),
      )
    where
      in_order :
          (l : List Text)
          → IsOrdered get_deps [] l
          → (run get_deps
              (driven (ticks clock (3 * length l + extra)))
              (start l robust 1)).queue.built
            ≡ l
      in_order l o =
          run-in_order get_deps l robust (ticks clock (3 * length l + extra)) o
            (omega (arith, length-ticks clock (3 * length l + extra)))
