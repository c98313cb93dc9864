-- ===== src/Engine/Results.antt =====
-- src/ros/rosmake/src/rosmake/engine.py: what `RosMakeAll.build` records, and when it runs make.
mod Tests
use xc_ros.Prelude.{
  ◌≡◌, ap, refl, sym, ◌∙◌, subst, Bool, true, false, not, ◌&&◌, ◌||◌, List, [], ◌∷◌, ◌++◌, Option,
  none, some, arith, if◌then◌else◌, Bool-cases, inl, inr,
}
use xc_ros.Prelude.Text.{Text, codes, same, same_iff, same_refl, mem}
use xc_ros.Prelude.Dict.{Dict, lookup, insert, lookup-insert}
use xc_ros.Prelude.Result.{ok, err}
use xc_ros.Flags.{World, Flags, Outcome, resource_not_found, invalid_manifest, io_error}
use xc_ros.Flags.Verdict.{Verdict, can_build}
use xc_ros.Flags.Checked.{IsFaithful, stands_still}
use xc_ros.Flags.Gives.{Gives}
use xc_ros.Flags.Answers.{some_of, some_of-intro}
use xc_ros.Flags.Returns.{IsKnown, can_build-Returns}
use xc_ros.Flags.Decides.{can_build-Gives}
use xc_ros.Engine.Outcome.{
  Output, Notice, Log, Returned, not_true, failed_packages, judge, recorded, absent, made, asked,
  build, not_found,
}

-- A call that has returned has recorded its verdict for the package, and nothing for the others.
abbrev Records : Text → Log → Returned → Type 0
Records p s r =
    (verdict : Bool × Notice) (t : Log)
    → r ≡ (ok verdict, t)
    → (lookup p t.result ≡ some verdict.0)
      × ((q : Text) → same p q ≡ false → lookup q t.result ≡ lookup q s.result)

recorded-Records :
    (p : Text) (v : Bool × Notice) (s s' : Log)
    → s'.result ≡ s.result
    → Records p s (recorded p v s')
recorded-Records p v s s' is verdict t e =
    let to : record s' { result = insert p v.0 s'.result } ≡ t = ap (λ r. r.1) e in
    let said : v ≡ verdict = ap (λ r. elim r.0 [ ok w ↦ w | err x ↦ v ]) e in
    (
      subst (λ l. lookup p l.result ≡ some verdict.0) to
          (ground (arith, lookup-insert p p v.0 s'.result, same_refl p, said)),
      λ q other.
          subst (λ l. lookup q l.result ≡ lookup q s.result) to
            (ground (arith, lookup-insert p q v.0 s'.result, is)),
    )

module _ (world : World) (shown : Text → Text) (robust_build skip_blacklist : Bool) where
  module _ (make : Text → Option Output) where
    made-Records :
        (p : Text) (o : Option Output) (s s' : Log)
        → s'.result ≡ s.result
        → Records p s (made world shown robust_build skip_blacklist make p o s')
    made-Records p none s s' is = recorded-Records p (false, not_found) s _ is
    made-Records p (some out) s s' is = recorded-Records p (judge out) s _ is

    asked-Records :
        (p : Text) (o : Outcome Verdict) (s : Log)
        → Records p s (asked world shown robust_build skip_blacklist make p o s)
    asked-Records p (err (resource_not_found q), flags) s =
        recorded-Records p (false, not_found) s _ refl
    asked-Records p (err (invalid_manifest q), flags) s = λ verdict t e. cc
    asked-Records p (err (io_error q), flags) s = λ verdict t e. cc
    asked-Records p (ok v, flags) s = elim (Bool-cases (v.buildable || robust_build)) [
      | inl go ↦ rw go (made-Records p (make p) s _ refl)
      | inr stop ↦ rw stop (recorded-Records p _ s _ refl)
    ]

    -- When `build` returns, the result of the package is the success that it returns, and the result
    -- of every other package is what it was.
    pub build-lookup :
        (p : Text) (is_test : Bool) (s : Log) (verdict : Bool × Notice) (t : Log)
        → build world shown robust_build skip_blacklist make p is_test s ≡ (ok verdict, t)
        → (lookup p t.result ≡ some verdict.0)
          × ((q : Text) → same p q ≡ false → lookup q t.result ≡ lookup q s.result)
    unfolding build
    build-lookup p is_test s verdict t e = asked-Records p _ s verdict t e

    -- `build` returns for a package that rospkg knows, if it knows its dependencies.
    pub build_returns :
        (p : Text) (is_test : Bool) (s : Log)
        → IsKnown world p
        → ((q : Text) → mem q (world.get_deps p) ≡ true → IsKnown world q)
        → (verdict : Bool × Notice) × (t : Log) × (build world shown robust_build skip_blacklist
              make p is_test s
            ≡ (ok verdict, t))
    unfolding build
    build_returns p is_test s k ks =
        let (v, flags, is) =
          can_build-Returns world p skip_blacklist (failed_packages is_test s.result) true s.flags k
            ks in
        let (verdict, t, goes) = answers v flags in
        (verdict, t, ap (λ o. asked world shown robust_build skip_blacklist make p o s) is ∙ goes)
      where
        tries :
            (o : Option Output) (u : Log)
            → (verdict : Bool × Notice) × (t : Log) × (made world shown robust_build skip_blacklist
                  make p o u
                ≡ (ok verdict, t))
        tries none u = (_, _, refl)
        tries (some out) u = (_, _, refl)

        answers :
            (v : Verdict) (flags : Flags)
            → (verdict : Bool × Notice) × (t : Log) × (asked world shown robust_build skip_blacklist
                  make p
                  (ok v, flags)
                  s
                ≡ (ok verdict, t))
        answers v flags = elim (Bool-cases (v.buildable || robust_build)) [
          | inl go ↦ rw go (tries (make p) (record s { flags = flags }))
          | inr stop ↦ rw stop (_, _, refl)
        ]

mem-not_true :
    (d : Text) (result : Dict Bool) → lookup d result ≡ some false → mem d (not_true result) ≡ true
unfolding lookup not_true mem
mem-not_true d [] h = cc
mem-not_true d ((p, v) ∷ result) h = ground (arith, mem-not_true d result)

module _ (world : World) (shown : Text → Text) (skip_blacklist : Bool)
    (inverse : (x q : Text) → mem q (world.get_depends_on x) ≡ mem x (world.get_deps q)) where
  -- The outcome of a call that does not depend on make; a verdict that it returns is False for a
  -- package that is to be built and has a Makefile.
  abbrev Spared : Text → Log → ((Text → Option Output) → Returned) → Type 0
  Spared p s call =
      (make make' : Text → Option Output)
      → (call make ≡ call make')
        × ((verdict : Bool × Notice) (t : Log)
            → call make ≡ (ok verdict, t)
            → stands_still world s.flags.nobuild_files p ≡ false
            → world.makefile p ≡ true
            → verdict.0 ≡ false)

  asked-Spared :
      (p : Text) (s : Log) (o : Outcome Verdict)
      → ((v : Verdict) (flags : Flags)
          → o ≡ (ok v, flags)
          → (v.buildable ≡ false)
            × (v.output_state
                ≡ stands_still world s.flags.nobuild_files p || not (world.makefile p)))
      → Spared p s (λ make. asked world shown false skip_blacklist make p o s)
  asked-Spared p s (err (resource_not_found q), flags) h make make' =
      (refl, λ verdict t e still needs. ap (λ r. elim r.0 [ ok w ↦ w.0 | err x ↦ false ]) (sym e))
  asked-Spared p s (err (invalid_manifest q), flags) h make make' = (refl, λ verdict t e. cc)
  asked-Spared p s (err (io_error q), flags) h make make' = (refl, λ verdict t e. cc)
  asked-Spared p s (ok v, flags) h make make' =
      let (blocked, state) = h v flags refl in
      rw blocked (
        refl,
        λ verdict t e still needs.
            ap (λ r. elim r.0 [ ok w ↦ w.0 | err x ↦ false ]) (sym e)
            ∙ ground (arith, state, still, needs),
      )

  spared :
      (p d : Text) (s : Log)
      → IsFaithful world s.flags
      → mem d (world.get_deps p) ≡ true
      → lookup d s.result ≡ some false
      → Spared p s (λ make. build world shown false skip_blacklist make p false s)
  unfolding build
  spared p d s h m failed =
      let hit =
        some_of-intro (λ x. mem x (world.get_deps p)) d (not_true s.result)
          (mem-not_true d s.result failed) m in
      asked-Spared p s (can_build world p skip_blacklist (not_true s.result) true s.flags)
        (λ v flags e.
          let g =
            subst (Gives world s.flags _) e
              (can_build-Gives world inverse p skip_blacklist (not_true s.result) true s.flags h) in
          (ground (arith, g.2.0, hit), ground (arith, g.2.1, hit)))

  blocked_is_false :
      (p d : Text) (s : Log) (make make' : Text → Option Output) (verdict : Bool × Notice) (t : Log)
      → IsFaithful world s.flags
      → mem d (world.get_deps p) ≡ true
      → lookup d s.result ≡ some false
      → stands_still world s.flags.nobuild_files p ≡ false
      → world.makefile p ≡ true
      → build world shown false skip_blacklist make p false s ≡ (ok verdict, t)
      → (build world shown false skip_blacklist make' p false s ≡ (ok verdict, t))
        × (verdict.0 ≡ false)
  blocked_is_false p d s make make' verdict t h m failed still needs e =
      let (alike, blocked) = spared p d s h m failed make make' in
      (sym alike ∙ e, blocked verdict t e still needs)

  -- Without the option for a robust build, and unless the target is "test": for a package that is to
  -- be built and has a Makefile, of whose dependencies one has the result False, `build` returns
  -- False, and does the same whatever make would do. Required: rospkg knows the package and its
  -- dependencies, the flag tracker agrees with the markers, and `get_depends_on` inverts `get_deps`.
  pub build_blocked :
      (p d : Text) (s : Log) (make make' : Text → Option Output)
      → IsKnown world p
      → ((q : Text) → mem q (world.get_deps p) ≡ true → IsKnown world q)
      → IsFaithful world s.flags
      → mem d (world.get_deps p) ≡ true
      → lookup d s.result ≡ some false
      → stands_still world s.flags.nobuild_files p ≡ false
      → world.makefile p ≡ true
      → (notice : Notice) × (t : Log) × (build world shown false skip_blacklist make p false s
          ≡ (ok (false, notice), t))
        × (build world shown false skip_blacklist make' p false s ≡ (ok (false, notice), t))
  build_blocked p d s make make' k ks h m failed still needs =
      let (verdict, t, e) = build_returns world shown false skip_blacklist make p false s k ks in
      let (e', no_success) = blocked_is_false p d s make make' verdict t h m failed still needs e in
      let returned : Bool → Returned = λ b. (ok (b, verdict.1), t) in
      let said = ap returned no_success in (verdict.1, t, e ∙ said, e' ∙ said)
