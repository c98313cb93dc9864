-- ===== src/Engine/Recurse.antt =====
-- src/ros/rosmake/src/rosmake/engine.py: what `build_or_recurse` makes of the build list.
use mathlib.Core.List.{append_assoc, append-nil}
use xc_ros.Prelude.{
  ℕ, ◌<◌, ◌≡◌, refl, sym, ◌∙◌, ap, subst, ◌⊎◌, inl, inr, Bool, true, false, List, [], ◌∷◌, ◌++◌,
  none, some, arith, Bool-cases,
}
use xc_ros.Prelude.Text.{Text, same, same_iff, same_refl, mem, mem-append}
use xc_ros.Prelude.Result.{ok, err}
use xc_ros.BuildQueue.Knows.{all_in}
use xc_ros.Engine.{missing, Run, then_do, each}

pub all_in-intro :
    (ds seen : List Text)
    → ((d : Text) → mem d ds ≡ true → mem d seen ≡ true)
    → all_in ds seen ≡ true
unfolding all_in mem
all_in-intro [] seen h = refl
all_in-intro (d ∷ ds) seen h =
    let here = h d (ground (arith, same_refl d)) in
    let later = all_in-intro ds seen (λ x m. h x (ground (arith, m))) in ground (arith, here, later)

pub all_in-elim :
    (d : Text) (ds seen : List Text) → all_in ds seen ≡ true → mem d ds ≡ true → mem d seen ≡ true
unfolding all_in mem
all_in-elim d [] seen h m = absurd (cc)
all_in-elim d (x ∷ ds) seen h m = ground (arith, all_in-elim d ds seen, same_iff x d)

module _ (get_deps_1 : Text → List Text) where
  -- The dependencies of a package, however far.
  pub data Reaches : Text → Text → Type 0 where
    direct : {p d : Text} → mem d (get_deps_1 p) ≡ true → Reaches p d
    onward : {p d x : Text} → mem d (get_deps_1 p) ≡ true → Reaches d x → Reaches p x

  pub Reaches-falls :
      (rank : Text → ℕ)
      → ((p d : Text) → mem d (get_deps_1 p) ≡ true → rank d < rank p)
      → (p x : Text) → Reaches p x
      → rank x < rank p
  Reaches-falls rank falls p x (direct m) = falls p x m
  Reaches-falls rank falls p x (onward {d = d} m r) =
      omega (arith, falls p d m, Reaches-falls rank falls d x r)

  module _ (present : Text → Bool) where
    -- What may follow a build list: each package is there, is new and has its direct dependencies
    -- before it.
    abbrev pub Follows : List Text → List Text → Type 0
    Follows seen [] = Unit
    Follows seen (x ∷ xs) =
        (mem x seen ≡ false)
        × (all_in (get_deps_1 x) seen ≡ true)
        × (present x ≡ true)
        × Follows (seen ++ x ∷ []) xs

    pub Follows-append :
        (seen xs ys : List Text)
        → Follows seen xs
        → Follows (seen ++ xs) ys
        → Follows seen (xs ++ ys)
    Follows-append seen [] ys h k = subst (λ l. Follows l ys) (append-nil seen) k
    Follows-append seen (x ∷ xs) ys (new, met, there, h) k =
        let k' = subst (λ l. Follows l ys) (sym (append_assoc seen (x ∷ []) xs)) k in
        (new, met, there, Follows-append (seen ++ x ∷ []) xs ys h k')

    -- What comes of the packages, some of which the call was made for: `from` says where a new one
    -- may come from.
    abbrev pub Grown : List Text → (Text → Type 0) → List Text → Type 0
    Grown before from after =
        (more : List Text) × (after ≡ before ++ more)
        × Follows before more
        × ((x : Text) → mem x more ≡ true → from x)

    abbrev pub FromOne : List Text → Text → Type 0
    FromOne ds x = (d : Text) × (mem d ds ≡ true) × ((d ≡ x) ⊎ Reaches d x)

    module _ (robust_build : Bool) where
      -- a call that has ended, on the packages `ds`
      abbrev pub Done : List Text → List Text → Run → Type 0
      Done ds before none = ⊥
      Done ds before (some (err (missing d))) =
          (mem d ds ≡ true) × (present d ≡ false) × (robust_build ≡ false)
      Done ds before (some (ok after)) =
          Grown before (FromOne ds) after
          × ((d : Text) → mem d ds ≡ true → present d ≡ true → mem d after ≡ true)

      Done-nil : (before : List Text) → Done [] before (some (ok before))
      unfolding mem
      Done-nil before = (([], sym (append-nil before), tt, λ x m. cc), λ d m. cc)

      -- the first package of a loop, and the rest
      Done-widen :
          (d : Text) (ds before mid : List Text) (r : Run)
          → Done (d ∷ []) before (some (ok mid))
          → Done ds mid r
          → Done (d ∷ ds) before r
      unfolding mem
      Done-widen d ds before mid none h k = k
      Done-widen d ds before mid (some (err (missing x))) h (m, gone, k) =
          (ground (arith, m), gone, k)
      Done-widen d ds before mid (some (ok after)) ((more, e, f, from), all)
            ((more', e', f', from'), all') =
          (
            (
              more ++ more',
              e' ∙ ap (λ l. l ++ more') e ∙ append_assoc before more more',
              Follows-append before more more' f (subst (λ l. Follows l more') e f'),
              λ x m. elim (Bool-cases (mem x more)) [
                | inl early ↦ FromOne-first x (from x early)
                | inr late ↦ FromOne-rest x (from' x (ground (arith, mem-append x more more')))
              ],
            ),
            λ x m there. elim (Bool-cases (same d x)) [
              | inl is ↦
                  let got : mem x mid ≡ true = all x (ground arith) there in
                  subst (λ l. mem x l ≡ true) (sym e') (ground (arith, mem-append x mid more'))
              | inr other ↦ all' x (ground arith) there
            ],
          )
        where
          FromOne-first : (x : Text) → FromOne (d ∷ []) x → FromOne (d ∷ ds) x
          FromOne-first x (c, m, r) = (c, ground (arith, m), r)

          FromOne-rest : (x : Text) → FromOne ds x → FromOne (d ∷ ds) x
          FromOne-rest x (c, m, r) = (c, ground (arith, m), r)

      Done-then :
          (d : Text) (ds before : List Text) (first : Run) (next : List Text → Run)
          → Done (d ∷ []) before first
          → ((mid : List Text) → Done ds mid (next mid))
          → Done (d ∷ ds) before (then_do first next)
      unfolding mem
      Done-then d ds before none next h k = h
      Done-then d ds before (some (err (missing x))) next (m, gone, h) k =
          (ground (arith, m), gone, h)
      Done-then d ds before (some (ok mid)) next h k =
          Done-widen d ds before mid (next mid) h (k mid)

      pub each-Done :
          (visit : Text → List Text → Run) (ds : List Text)
          → ((d : Text) → mem d ds ≡ true → (l : List Text) → Done (d ∷ []) l (visit d l))
          → (before : List Text) → Done ds before (each visit ds before)
      unfolding mem
      each-Done visit [] h before = Done-nil before
      each-Done visit (d ∷ ds) h before =
          Done-then d ds before (visit d before) (each visit ds)
            (h d (ground (arith, same_refl d)) before)
            (each-Done visit ds (λ x m. h x (ground (arith, m))))
