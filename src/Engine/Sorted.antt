-- ===== src/Engine/Sorted.antt =====
-- src/ros/rosmake/src/rosmake/engine.py and parallel_build.py: the build list is in build order for the
-- dependencies that the queue asks for, which are the direct ones and all that these need.
use mathlib.Core.List.{append_assoc, append-nil}
use xc_ros.Prelude.{
  ◌≡◌, refl, sym, subst, inl, inr, Bool, true, false, List, [], ◌∷◌, ◌++◌, arith, Bool-cases,
}
use xc_ros.Prelude.Text.{Text, same, same_iff, same_refl, mem, mem-append}
use xc_ros.BuildQueue.Knows.{all_in, IsOrdered}
use xc_ros.BuildQueue.Progress.{IsSorted}
use xc_ros.BuildQueue.Apart.{none_in}
use xc_ros.Engine.Recurse.{all_in-intro, all_in-elim, Reaches, direct, onward, Follows}

none_in-intro :
    (ds seen : List Text)
    → ((d : Text) → mem d ds ≡ true → mem d seen ≡ false)
    → none_in ds seen ≡ true
unfolding none_in mem
none_in-intro [] seen h = refl
none_in-intro (d ∷ ds) seen h =
    let here = h d (ground (arith, same_refl d)) in
    let later = none_in-intro ds seen (λ x m. h x (ground (arith, m))) in
    ground (arith, here, later)

module _ (get_deps_1 : Text → List Text) (present : Text → Bool) where
  -- A list that has the direct dependencies of each of its packages.
  abbrev pub IsClosed : List Text → Type 0
  IsClosed seen = (x : Text) → mem x seen ≡ true → all_in (get_deps_1 x) seen ≡ true

  pub Reaches-mem :
      (seen : List Text) (p x : Text)
      → IsClosed seen
      → all_in (get_deps_1 p) seen ≡ true
      → Reaches get_deps_1 p x
      → mem x seen ≡ true
  Reaches-mem seen p x c h (direct m) = all_in-elim x (get_deps_1 p) seen h m
  Reaches-mem seen p x c h (onward {d = d} m r) =
      Reaches-mem seen d x c (c d (all_in-elim d (get_deps_1 p) seen h m)) r

  IsClosed-snoc :
      (seen : List Text) (p : Text)
      → IsClosed seen
      → all_in (get_deps_1 p) seen ≡ true
      → IsClosed (seen ++ p ∷ [])
  unfolding mem
  IsClosed-snoc seen p c h x m = all_in-intro (get_deps_1 x) (seen ++ p ∷ []) (λ d n.
      let before : mem d seen ≡ true = elim (Bool-cases (mem x seen)) [
        | inl old ↦ all_in-elim d (get_deps_1 x) seen (c x old) n
        | inr fresh ↦
            let is : p ≡ x = ground (arith, mem-append x seen (p ∷ []), same_iff p x) in
            all_in-elim d (get_deps_1 p) seen h
              (subst (λ y. mem d (get_deps_1 y) ≡ true) (sym is) n)
      ] in
      ground (arith, mem-append d seen (p ∷ [])))

  pub Follows-IsClosed :
      (seen xs : List Text)
      → IsClosed seen
      → Follows get_deps_1 present seen xs
      → IsClosed (seen ++ xs)
  Follows-IsClosed seen [] c h = subst IsClosed (sym (append-nil seen)) c
  Follows-IsClosed seen (x ∷ xs) c (fresh, met, there, h) =
      subst IsClosed (append_assoc seen (x ∷ []) xs)
        (Follows-IsClosed (seen ++ x ∷ []) xs (IsClosed-snoc seen x c met) h)

  Follows-fresh :
      (seen xs : List Text) (d : Text)
      → Follows get_deps_1 present seen xs
      → mem d seen ≡ true
      → mem d xs ≡ false
  unfolding mem
  Follows-fresh seen [] d h m = refl
  Follows-fresh seen (x ∷ xs) d (fresh, met, there, h) m =
      let later =
        Follows-fresh (seen ++ x ∷ []) xs d h (ground (arith, mem-append d seen (x ∷ []))) in
      elim (Bool-cases (same x d)) [
        | inl is ↦
            let old = subst (λ y. mem y seen ≡ true) (sym ((same_iff x d).0 is)) m in absurd (cc)
        | inr other ↦ ground (arith, later)
      ]

  -- What the queue takes for the dependencies of a package is reached from it.
  module _ (get_deps : Text → List Text)
      (implicit : (p x : Text) → mem x (get_deps p) ≡ true → Reaches get_deps_1 p x) where
    pub Follows-IsOrdered :
        (seen xs : List Text)
        → IsClosed seen
        → Follows get_deps_1 present seen xs
        → IsOrdered get_deps seen xs
    Follows-IsOrdered seen [] c h = tt
    Follows-IsOrdered seen (x ∷ xs) c (fresh, met, there, h) = (
      all_in-intro (get_deps x) seen (λ d m. Reaches-mem seen x d c met (implicit x d m)),
      Follows-IsOrdered (seen ++ x ∷ []) xs (IsClosed-snoc seen x c met) h,
    )

    pub Follows-IsSorted :
        (seen xs : List Text)
        → IsClosed seen
        → Follows get_deps_1 present seen xs
        → IsSorted get_deps xs
    Follows-IsSorted seen [] c h = tt
    Follows-IsSorted seen (x ∷ xs) c (fresh, met, there, h) = (
      none_in-intro (get_deps x) (x ∷ xs) (λ d m.
          Follows-fresh seen (x ∷ xs) d (fresh, met, there, h)
            (Reaches-mem seen x d c met (implicit x d m))),
      Follows-IsSorted (seen ++ x ∷ []) xs (IsClosed-snoc seen x c met) h,
    )
