-- ===== src/Engine/Listing.antt =====
-- src/ros/rosmake/src/rosmake/engine.py: the loop over the required packages ends, and the list that
-- it makes.
use mathlib.Core.List.{append_assoc, append-nil}
use xc_ros.Prelude.{
  ℕ, zero, suc, ◌<◌, ◌≡◌, refl, sym, ◌∙◌, ap, subst, inl, inr, Bool, true, false, List, [], ◌∷◌,
  ◌++◌, none, some, arith, Bool-cases,
}
use xc_ros.Prelude.Text.{Text, same_iff, same_refl, mem, mem-append}
use xc_ros.Prelude.Result.{ok, err}
use xc_ros.Engine.{missing, Run, then_do, append_present, build_or_recurse, list_packages}
use xc_ros.Engine.Recurse.{
  all_in-intro, direct, onward, Reaches-falls, Follows, Follows-append, Grown, FromOne, Done,
  each-Done,
}

module _ (get_deps_1 : Text → List Text) (present : Text → Bool) (robust_build : Bool) where
  -- The dependencies that the tracker answers are there, and no package depends on itself,
  -- however far: some rank falls along every dependency.
  module _ (rank : Text → ℕ) (falls : (p d : Text) → mem d (get_deps_1 p) ≡ true → rank d < rank p)
      (valid : (p d : Text) → mem d (get_deps_1 p) ≡ true → present d ≡ true) where
    not_below : (p : Text) → FromOne get_deps_1 present (get_deps_1 p) p → ⊥
    not_below p (d, m, inl is) =
        let low = subst (λ x. rank x < rank p) is (falls p d m) in omega arith
    not_below p (d, m, inr r) =
        omega (arith, falls p d m, Reaches-falls get_deps_1 rank falls d p r)

    FromOne-self :
        (p x : Text)
        → FromOne get_deps_1 present (get_deps_1 p) x
        → FromOne get_deps_1 present (p ∷ []) x
    unfolding mem
    FromOne-self p x (d, m, inl is) = (
      p,
      ground (arith, same_refl p),
      inr (direct (subst (λ y. mem y (get_deps_1 p) ≡ true) is m)),
    )
    FromOne-self p x (d, m, inr r) = (p, ground (arith, same_refl p), inr (onward m r))

    Grown-new :
        (p : Text) (before after : List Text)
        → mem p before ≡ false
        → Grown get_deps_1 present before (FromOne get_deps_1 present (get_deps_1 p)) after
        → mem p after ≡ false
    Grown-new p before after new (more, e, f, from) = elim (Bool-cases (mem p more)) [
      | inl again ↦ absurd (not_below p (from p again))
      | inr away ↦ subst (λ l. mem p l ≡ false) (sym e) (ground (arith, mem-append p before more))
    ]

    Done-there :
        (p : Text) (before after : List Text)
        → mem p before ≡ false
        → present p ≡ true
        → Done get_deps_1 present robust_build (get_deps_1 p) before (some (ok after))
        → Done get_deps_1 present robust_build (p ∷ []) before (some (ok (after ++ p ∷ [])))
    unfolding mem
    Done-there p before after new there ((more, e, f, from), all) =
        let last = Grown-new p before after new (more, e, f, from) in
        let met = all_in-intro (get_deps_1 p) after (λ d m. all d m (valid p d m)) in
        (
          (
            more ++ p ∷ [],
            ap (λ l. l ++ p ∷ []) e ∙ append_assoc before more (p ∷ []),
            Follows-append get_deps_1 present before more (p ∷ []) f
                (subst (λ l. Follows get_deps_1 present l (p ∷ [])) e (last, met, there, tt)),
            λ x m. elim (Bool-cases (mem x more)) [
              | inl early ↦ FromOne-self p x (from x early)
              | inr late ↦ (
                p,
                ground (arith, same_refl p),
                inl (ground (arith, mem-append x more (p ∷ []), same_iff p x)),
              )
            ],
          ),
          λ d m _. ground (arith, mem-append d after (p ∷ [])),
        )

    Done-skip :
        (p : Text) (before after : List Text)
        → present p ≡ false
        → Done get_deps_1 present robust_build (get_deps_1 p) before (some (ok after))
        → Done get_deps_1 present robust_build (p ∷ []) before (some (ok after))
    unfolding mem
    Done-skip p before after gone ((more, e, f, from), all) = (
      (more, e, f, λ x m. FromOne-self p x (from x m)),
      λ d m there.
          let is : p ≡ d = ground (arith, same_iff p d) in
          let there' = subst (λ y. present y ≡ true) (sym is) there in absurd (cc),
    )

    Done-append :
        (p : Text) (before : List Text) (r : Run)
        → mem p before ≡ false
        → Done get_deps_1 present robust_build (get_deps_1 p) before r
        → Done get_deps_1 present robust_build
            (p ∷ [])
            before
            (then_do r (λ l. some (append_present get_deps_1 present robust_build p l)))
    unfolding append_present mem
    Done-append p before none new h = h
    Done-append p before (some (err (missing d))) new (m, gone, strict) =
        let there = valid p d m in absurd (cc)
    Done-append p before (some (ok after)) new h = elim (Bool-cases (present p)) [
      | inl there ↦ rw there (Done-there p before after new there h)
      | inr gone ↦ elim (Bool-cases robust_build) [
        | inl robust ↦ rw (gone, robust) (Done-skip p before after gone h)
        | inr strict ↦ rw (gone, strict) (ground (arith, same_refl p), gone, refl)
      ]
    ]

    Done-seen :
        (p : Text) (before : List Text)
        → mem p before ≡ true
        → Done get_deps_1 present robust_build (p ∷ []) before (some (ok before))
    unfolding mem
    Done-seen p before seen = (
      ([], sym (append-nil before), tt, λ x m. cc),
      λ d m there.
          let is : p ≡ d = ground (arith, same_iff p d) in subst (λ y. mem y before ≡ true) is seen,
    )

    build_or_recurse-Done :
        (fuel : ℕ) (p : Text) (before : List Text)
        → rank p < fuel
        → Done get_deps_1 present robust_build
            (p ∷ [])
            before
            (build_or_recurse get_deps_1 present robust_build fuel p before)
    unfolding build_or_recurse
    build_or_recurse-Done zero p before h = absurd (omega arith)
    build_or_recurse-Done (suc fuel) p before h = elim (Bool-cases (mem p before)) [
      | inl seen ↦ rw (seen, build_or_recurse) (Done-seen p before seen)
      | inr new ↦
          rw (new, build_or_recurse)
            (Done-append p before _ new (
              each-Done get_deps_1 present robust_build
                (build_or_recurse get_deps_1 present robust_build fuel) (get_deps_1 p)
                (λ d m l. build_or_recurse-Done fuel d l (omega (arith, falls p d m))) before))
    ]

    -- Where the direct dependencies that the tracker answers are there and of lower ranks, the loop over
    -- the required packages ends with fuel above their ranks. Without the robust option it exits only for a
    -- required package that is not there. The build list that it makes has packages that are there,
    -- each once and behind its direct dependencies, all of them required or reached from a required
    -- one, and has every required package that is there.
    pub list_packages-Done :
        (fuel : ℕ) (required : List Text)
        → ((p : Text) → mem p required ≡ true → rank p < fuel)
        → Done get_deps_1 present robust_build required []
            (list_packages get_deps_1 present robust_build fuel required)
    unfolding list_packages
    list_packages-Done fuel required h =
        each-Done get_deps_1 present robust_build
          (build_or_recurse get_deps_1 present robust_build fuel) required
          (λ d m l. build_or_recurse-Done fuel d l (h d m)) []
