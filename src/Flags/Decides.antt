-- ===== src/Flags/Decides.antt =====
-- src/ros/rosmake/src/rosmake/package_stats.py: `can_build`, and the marker that `add_nobuild` and
-- `remove_nobuild` write.
use xc_ros.Prelude.{
  ◌≡◌, ap, refl, ◌∙◌, Bool, true, false, not, ◌&&◌, ◌||◌, List, [], ◌∷◌, arith, bool_eq_of_iff,
}
use xc_ros.Prelude.Text.{Text, same_refl, mem}
use xc_ros.Prelude.Result.{ok, err}
use xc_ros.Flags.{World, Flags, Outcome, has_nobuild, has_makefile}
use xc_ros.Flags.Verdict.{
  Verdict, previously_failed, failures, with_blacklist, with_nobuild, with_makefile, ask_blacklist,
  ask_makefile, can_build,
}
use xc_ros.Flags.Checked.{IsFaithful, stands_still}
use xc_ros.Flags.Gives.{Gives, then_do-Gives, Tests, check-Gives}
use xc_ros.Flags.Answers.{
  some_of, is_nil, is_nil-some_of, is_nil-previously_failed, Lists, is_blacklisted-Gives,
}

module _ (world : World) where
  pub has_nobuild-Gives :
      (p : Text) (s : Flags)
      → IsFaithful world s
      → Gives world s (λ b t. b ≡ stands_still world t.nobuild_files p) (has_nobuild world p s)
  unfolding has_nobuild mem
  has_nobuild-Gives p s h =
      then_do-Gives world s (Tests world (p ∷ []) s) _ _ _ (check-Gives world p s h)
        (λ v t f e (now, kept). (
          f,
          refl,
          bool_eq_of_iff _ _ (f.nobuild_sound p)
              (f.nobuild_complete p (now p (ground (arith, same_refl p)))),
        ))

  has_makefile-Gives :
      (p : Text) (s : Flags)
      → IsFaithful world s
      → Gives world s (λ b t. b ≡ world.makefile p) (has_makefile world p s)
  unfolding has_makefile mem
  has_makefile-Gives p s h =
      then_do-Gives world s (Tests world (p ∷ []) s) _ _ _ (check-Gives world p s h)
        (λ v t f e (now, kept). (
          f,
          refl,
          ground (
            arith,
            f.makefile_sound p,
            f.makefile_complete p,
            now p (ground (arith, same_refl p)),
          ),
        ))

  module _
      (inverse : (x q : Text) → mem q (world.get_depends_on x) ≡ mem x (world.get_deps q)) where
    abbrev pub failed_deps : List Text → Text → Bool
    failed_deps failed p = some_of (λ d. mem d (world.get_deps p)) failed

    abbrev pub black_deps : Text → Bool
    black_deps p = some_of world.blacklist_file (p ∷ world.get_deps p)

    abbrev pub After : Bool → Bool → Verdict → Flags → Type 0
    After b o v t = (v.buildable ≡ b) × (v.output_state ≡ o)

    After-eq :
        {b b' o o' : Bool} (t : Flags) (r : Outcome Verdict)
        → b ≡ b'
        → o ≡ o'
        → Gives world t (After b o) r
        → Gives world t (After b' o') r
    After-eq t (err x, u) e e' (f, k) = (f, k)
    After-eq t (ok v, u) e e' (f, k, (h, h')) = (f, k, (h ∙ e, h' ∙ e'))

    failures-After :
        (l : List Text)
        → ((failures l).buildable ≡ is_nil l) × ((failures l).output_state ≡ is_nil l)
    failures-After [] = (refl, refl)
    failures-After (x ∷ l) = (refl, refl)

    with_blacklist_lem :
        (v : Verdict) (l : List Text)
        → ((with_blacklist v l).buildable ≡ v.buildable && is_nil l)
          × ((with_blacklist v l).output_state ≡ v.output_state)
    with_blacklist_lem v [] = (ground arith, refl)
    with_blacklist_lem v (x ∷ l) = (ground arith, refl)

    with_nobuild_lem :
        (v : Verdict) (b : Bool)
        → ((with_nobuild v b).buildable ≡ v.buildable && not b)
          × ((with_nobuild v b).output_state ≡ v.output_state || b)
    with_nobuild_lem v true = (ground arith, ground arith)
    with_nobuild_lem v false = (ground arith, ground arith)

    with_makefile_lem :
        (v : Verdict) (b : Bool)
        → ((with_makefile v b).buildable ≡ v.buildable && b)
          × ((with_makefile v b).output_state ≡ v.output_state || not b)
    with_makefile_lem v true = (ground arith, ground arith)
    with_makefile_lem v false = (ground arith, ground arith)

    ask_blacklist-Gives :
        (use_blacklist : Bool) (p : Text) (v : Verdict) (s : Flags)
        → IsFaithful world s
        → Gives world s
            (After (v.buildable && not (use_blacklist && black_deps p)) v.output_state)
            (ask_blacklist world use_blacklist p v s)
    ask_blacklist-Gives false p v s h = (h, refl, (ground arith, refl))
    ask_blacklist-Gives true p v s h =
        then_do-Gives world s (Lists world inverse world.blacklist_file p) _ _ _
          (is_blacklisted-Gives world inverse p s h).0
          (λ l t f e k.
            let w = with_blacklist_lem v l in
            (
              f,
              refl,
              (
                ground (arith, w.0, is_nil-some_of world.blacklist_file l (p ∷ world.get_deps p) k),
                w.1,
              ),
            ))

    ask_makefile-Gives :
        (use_makefile : Bool) (p : Text) (v : Verdict) (s : Flags)
        → IsFaithful world s
        → Gives world s
            (After
              (v.buildable && (not use_makefile || world.makefile p))
              (v.output_state || (use_makefile && not (world.makefile p))))
            (ask_makefile world use_makefile p v s)
    ask_makefile-Gives false p v s h = (h, refl, (ground arith, ground arith))
    ask_makefile-Gives true p v s h =
        then_do-Gives world s (λ b t. b ≡ world.makefile p) _ _ _ (has_makefile-Gives p s h)
          (λ b t f e k.
            let w = with_makefile_lem v b in
            (f, refl, (ground (arith, w.0, k), ground (arith, w.1, k))))

    -- When `can_build` raises nothing, a package can be built unless one of its dependencies has
    -- failed, it or a dependency has the blacklist marker and the blacklist is used, it is not to be
    -- built, or it has no Makefile and needs one; and its dependents may go on unless a dependency
    -- has failed and neither of the last two holds. The tracker stays faithful to the markers, also
    -- when it raises. Required: it was so before, and `get_depends_on` inverts `get_deps`.
    pub can_build-Gives :
        (p : Text) (use_blacklist : Bool) (failed : List Text) (use_makefile : Bool) (s : Flags)
        → IsFaithful world s
        → Gives world s
            (After
              (not (failed_deps failed p)
                && not (use_blacklist && black_deps p)
                && not (stands_still world s.nobuild_files p)
                && (not use_makefile || world.makefile p))
              (not (failed_deps failed p)
                || stands_still world s.nobuild_files p
                || (use_makefile && not (world.makefile p))))
            (can_build world p use_blacklist failed use_makefile s)
    unfolding can_build
    can_build-Gives p use_blacklist failed use_makefile s h =
        let v = failures (previously_failed failed (world.get_deps p)) in
        let start = failures-After (previously_failed failed (world.get_deps p)) in
        let none_failed = is_nil-previously_failed failed (world.get_deps p) in
        then_do-Gives world s _ _ _ _ (ask_blacklist-Gives use_blacklist p v s h)
          (λ w t f e (wb, wo).
            then_do-Gives world t _ _ _ _ (has_nobuild-Gives p t f) (λ b u g k is.
              let same_still = ap (λ l. stands_still world l p) (k ∙ e) in
              let y = with_nobuild_lem w b in
              After-eq u (ask_makefile world use_makefile p (with_nobuild w b) u)
                (ground (arith, wb, start.0, none_failed, y.0, is, same_still))
                (ground (arith, wo, start.1, none_failed, y.1, is, same_still))
                (ask_makefile-Gives use_makefile p (with_nobuild w b) u g)))
