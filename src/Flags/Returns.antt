-- ===== src/Flags/Returns.antt =====
-- src/ros/rosmake/src/rosmake/package_stats.py: on packages that rospkg knows the queries return, and
-- what they answer.
use xc_ros.Prelude.{
  ◌≡◌, ap, refl, sym, ◌∙◌, subst, Bool, true, false, not, ◌&&◌, ◌||◌, List, [], ◌∷◌, some, arith,
  if◌then◌else◌, Bool-cases, inl, inr,
}
use xc_ros.Prelude.Text.{Text, same_refl, mem}
use xc_ros.Prelude.Result.{ok}
use xc_ros.Flags.{
  World, Flags, Outcome, then_do, check_package_flags, check_all, conclude, read_markers,
  is_blacklisted, has_nobuild, has_makefile, add_nobuild, remove_nobuild, write_nobuild,
  erase_nobuild,
}
use xc_ros.Flags.Verdict.{Verdict, ask_blacklist, ask_makefile, can_build, with_nobuild}
use xc_ros.Flags.Checked.{IsFaithful, stands_still, catkin_says}
use xc_ros.Flags.Gives.{Gives}
use xc_ros.Flags.Decides.{failed_deps, black_deps, can_build-Gives, has_nobuild-Gives}
use xc_ros.Flags.Marks.{Says, written, erased}

abbrev pub Returns : {A : Type 0} → Outcome A → Type 0
Returns {A = A} r = (value : A) × (t : Flags) × (r ≡ (ok value, t))

then_do-Returns :
    {A B : Type 0} (first : Outcome A) (next : A → Flags → Outcome B)
    → Returns first
    → ((value : A) (t : Flags) → Returns (next value t))
    → Returns (then_do first next)
then_do-Returns first next (value, t, is) k =
    let (v, u, goes) = k value t in (v, u, ap (λ r. then_do r next) is ∙ goes)

module _ (world : World) where
  -- rospkg finds the package and reads its manifest.
  abbrev pub IsKnown : Text → Type 0
  IsKnown p = (world.present p ≡ true) × ((catkin : Bool) × (world.is_catkin p ≡ some catkin))

  check-Returns : (p : Text) (s : Flags) → IsKnown p → Returns (check_package_flags world p s)
  unfolding check_package_flags
  check-Returns p s (there, (catkin, is)) = elim (Bool-cases (mem p s.packages_tested)) [
    | inl seen ↦ rw seen (tt, s, refl)
    | inr fresh ↦ rw (fresh, there) (_, _, ap (λ o. conclude world p o (read_markers world p s)) is)
  ]

  once-Returns :
      (p : Text) (s : Flags)
      → IsKnown p
      → Returns (if mem p s.packages_tested then (ok tt, s) else check_package_flags world p s)
  once-Returns p s k = elim (Bool-cases (mem p s.packages_tested)) [
    | inl seen ↦ rw seen (tt, s, refl)
    | inr fresh ↦ rw fresh (check-Returns p s k)
  ]

  check_all-Returns :
      (ps : List Text) (s : Flags)
      → ((q : Text) → mem q ps ≡ true → IsKnown q)
      → Returns (check_all world ps s)
  unfolding check_all mem
  check_all-Returns [] s k = (tt, s, refl)
  check_all-Returns (p ∷ ps) s k =
      then_do-Returns _ (λ _. check_all world ps)
        (once-Returns p s (k p (ground (arith, same_refl p))))
        (λ v t. check_all-Returns ps t (λ q m. k q (ground (arith, m))))

  has_nobuild-Returns : (p : Text) (s : Flags) → IsKnown p → Returns (has_nobuild world p s)
  unfolding has_nobuild
  has_nobuild-Returns p s k = then_do-Returns _ _ (check-Returns p s k) (λ v t. (_, _, refl))

  ask_makefile-Returns :
      (use_makefile : Bool) (p : Text) (v : Verdict) (s : Flags)
      → IsKnown p
      → Returns (ask_makefile world use_makefile p v s)
  unfolding has_makefile
  ask_makefile-Returns false p v s k = (v, s, refl)
  ask_makefile-Returns true p v s k =
      then_do-Returns _ _ (then_do-Returns _ _ (check-Returns p s k) (λ w t. (_, _, refl)))
        (λ w t. (_, _, refl))

  ask_blacklist-Returns :
      (use_blacklist : Bool) (p : Text) (v : Verdict) (s : Flags)
      → IsKnown p
      → ((q : Text) → mem q (world.get_deps p) ≡ true → IsKnown q)
      → Returns (ask_blacklist world use_blacklist p v s)
  unfolding is_blacklisted
  ask_blacklist-Returns false p v s k ks = (v, s, refl)
  ask_blacklist-Returns true p v s k ks =
      then_do-Returns _ _
        (then_do-Returns _ _ (check-Returns p s k) (λ w t.
          then_do-Returns _ _ (check_all-Returns (world.get_deps p) t ks) (λ x u. (_, _, refl))))
        (λ w t. (_, _, refl))

  pub can_build-Returns :
      (p : Text) (use_blacklist : Bool) (failed : List Text) (use_makefile : Bool) (s : Flags)
      → IsKnown p
      → ((q : Text) → mem q (world.get_deps p) ≡ true → IsKnown q)
      → Returns (can_build world p use_blacklist failed use_makefile s)
  unfolding can_build
  can_build-Returns p use_blacklist failed use_makefile s k ks =
      then_do-Returns _ _ (ask_blacklist-Returns use_blacklist p _ s k ks) (λ v t.
        then_do-Returns _ _ (has_nobuild-Returns p t k)
          (λ b u. ask_makefile-Returns use_makefile p (with_nobuild v b) u k))

  -- On packages that rospkg knows, where `get_depends_on` inverts `get_deps` and the tracker agrees with
  -- the markers: `can_build` returns. The package can be built unless one of its dependencies has
  -- failed, it or a dependency has the blacklist marker and the blacklist is used, it is not to be built,
  -- or it has no Makefile and needs one; its dependents may go on unless a dependency has failed and
  -- neither of the last two holds. The tracker still agrees with the markers.
  pub can_build-decides :
      (p : Text) (use_blacklist : Bool) (failed : List Text) (use_makefile : Bool) (s : Flags)
      (inverse : (x q : Text) → mem q (world.get_depends_on x) ≡ mem x (world.get_deps q))
      → IsKnown p
      → ((q : Text) → mem q (world.get_deps p) ≡ true → IsKnown q)
      → IsFaithful world s
      → (v : Verdict) × (t : Flags) × (can_build world p use_blacklist failed use_makefile s
          ≡ (ok v, t))
        × IsFaithful world t
        × (v.buildable ≡ (
            not (failed_deps world inverse failed p)
            && not (use_blacklist && black_deps world inverse p)
            && not (stands_still world s.nobuild_files p)
            && (not use_makefile || world.makefile p)))
        × (v.output_state ≡ (
            not (failed_deps world inverse failed p)
            || stands_still world s.nobuild_files p
            || (use_makefile && not (world.makefile p))))
  can_build-decides p use_blacklist failed use_makefile s inverse k ks h =
      let (v, t, is) = can_build-Returns p use_blacklist failed use_makefile s k ks in
      let g =
        subst (Gives world s _) is
          (can_build-Gives world inverse p use_blacklist failed use_makefile s h) in
      (v, t, is, g.0, g.2.0, g.2.1)

  -- On a package that rospkg knows, that is not a catkin one and whose marker can be written, if the
  -- tracker agrees with the markers: `add_nobuild` returns True and the package is then not to be built,
  -- `remove_nobuild` returns True and it is then to be built, and either leaves a tracker that agrees
  -- with the markers.
  pub nobuild_returns :
      (p : Text) (s : Flags)
      → IsKnown p
      → catkin_says (world.is_catkin p) ≡ false
      → world.writable p ≡ true
      → IsFaithful world s
      → (t u : Flags) × (add_nobuild world p s ≡ (ok true, t))
        × IsFaithful world t
        × (stands_still world t.nobuild_files p ≡ true)
        × (remove_nobuild world p s ≡ (ok true, u))
        × IsFaithful world u
        × (stands_still world u.nobuild_files p ≡ false)
  unfolding add_nobuild remove_nobuild
  nobuild_returns p s k plain can h =
      let (b, w, is) = has_nobuild-Returns p s k in
      let (f, _, said) = subst (Gives world s _) is (has_nobuild-Gives world p s h) in
      let (t, u, adds, (ft, st), removes, (fu, su)) = marks b w f said in
      (
        t,
        u,
        ap (λ r. then_do r (write_nobuild world p)) is ∙ adds,
        ft,
        st,
        ap (λ r. then_do r (erase_nobuild world p)) is ∙ removes,
        fu,
        su,
      )
    where
      marks :
          (b : Bool) (w : Flags)
          → IsFaithful world w
          → b ≡ stands_still world w.nobuild_files p
          → (t u : Flags) × (write_nobuild world p b w ≡ (ok true, t))
            × Says world p true t
            × (erase_nobuild world p b w ≡ (ok true, u))
            × Says world p false u
      marks true w f said =
          let there : mem p w.nobuild_files ≡ true = ground (arith, said, plain) in
          (w, _, refl, (f, sym said), rw (there, can) refl, erased world p w plain f)
      marks false w f said = (_, w, rw can refl, written world p w f, refl, (f, sym said))
