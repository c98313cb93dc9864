-- ===== src/Flags/Answers.antt =====
-- src/ros/rosmake/src/rosmake/package_stats.py: the answers of the tracker against the markers.
use xc_ros.Prelude.{
  ◌≡◌, refl, inl, inr, Bool, true, false, not, ◌&&◌, ◌||◌, List, [], ◌∷◌, arith, Bool-cases,
  bool_eq_of_iff,
}
use xc_ros.Prelude.Text.{Text, same_iff, same_refl, mem}
use xc_ros.Prelude.Dict.{Dict}
use xc_ros.Flags.{World, Flags, found_in, is_blacklisted, is_blacklisted_osx}
use xc_ros.Flags.Verdict.{previously_failed}
use xc_ros.Flags.Blacklist.{Traces}
use xc_ros.Flags.Checked.{IsFaithful}
use xc_ros.Flags.Gives.{Gives, then_do-Gives, Tests, check-Gives, check_all-Gives}

-- Some text of the list passes the test.
unfoldable pub some_of : (Text → Bool) → List Text → Bool
some_of test [] = false
some_of test (x ∷ xs) = test x || some_of test xs

pub some_of-intro :
    (test : Text → Bool) (x : Text) (xs : List Text)
    → mem x xs ≡ true
    → test x ≡ true
    → some_of test xs ≡ true
unfolding some_of mem
some_of-intro test x [] m t = cc
some_of-intro test x (y ∷ ys) m t = ground (arith, some_of-intro test x ys, same_iff y x)

some_of-elim :
    (test : Text → Bool) (xs : List Text)
    → some_of test xs ≡ true
    → (x : Text) × (mem x xs ≡ true) × (test x ≡ true)
unfolding some_of mem
some_of-elim test [] h = cc
some_of-elim test (y ∷ ys) h = elim (Bool-cases (test y)) [
  | inl here ↦ (y, ground (arith, same_refl y), here)
  | inr other ↦ let (x, m, t) = some_of-elim test ys (ground arith) in (x, ground (arith, m), t)
]

abbrev pub is_nil : List Text → Bool
is_nil [] = true
is_nil (x ∷ xs) = false

-- A list of the tested texts of another one is empty just when none passes the test.
pub is_nil-some_of :
    (test : Text → Bool) (l xs : List Text)
    → ((x : Text) → mem x l ≡ test x && mem x xs)
    → is_nil l ≡ not (some_of test xs)
unfolding mem
is_nil-some_of test [] xs h = elim (Bool-cases (some_of test xs)) [
  | inl found ↦ let (x, m, t) = some_of-elim test xs found in ground (arith, m, t, h x)
  | inr none_found ↦ ground arith
]
is_nil-some_of test (y ∷ l) xs h = ground (arith, same_refl y, h y, some_of-intro test y xs)

pub is_nil-previously_failed :
    (failed deps : List Text)
    → is_nil (previously_failed failed deps) ≡ not (some_of (λ p. mem p deps) failed)
unfolding previously_failed some_of
is_nil-previously_failed [] deps = refl
is_nil-previously_failed (p ∷ failed) deps = ground (arith, is_nil-previously_failed failed deps)

-- The packages that depend on one are those that have it among their dependencies.
module _ (world : World)
    (inverse : (x q : Text) → mem q (world.get_depends_on x) ≡ mem x (world.get_deps q)) where
  traced :
      (marker : Text → Bool) (p : Text) (tested : List Text) (m : Dict (List Text))
      → Traces world marker tested m
      → ((x : Text) → mem x (p ∷ world.get_deps p) ≡ true → mem x tested ≡ true)
      → (x : Text) → mem x (found_in p m) ≡ marker x && mem x (p ∷ world.get_deps p)
  unfolding mem
  traced marker p tested m h all x =
      bool_eq_of_iff (mem x (found_in p m)) (marker x && mem x (p ∷ world.get_deps p))
        (λ k. ground (arith, h.sound x p, inverse x p, same_iff x p, same_iff p x))
        (λ k. ground (arith, h.complete x p, all x, inverse x p, same_iff x p, same_iff p x))

  -- what `is_blacklisted` is to return
  abbrev pub Lists : (Text → Bool) → Text → List Text → Flags → Type 0
  Lists marker p l t = (x : Text) → mem x l ≡ marker x && mem x (p ∷ world.get_deps p)

  pub is_blacklisted-Gives :
      (p : Text) (s : Flags)
      → IsFaithful world s
      → Gives world s (Lists world.blacklist_file p) (is_blacklisted world p s)
        × Gives world s (Lists world.blacklist_osx_file p) (is_blacklisted_osx world p s)
  unfolding is_blacklisted is_blacklisted_osx mem
  is_blacklisted-Gives p s h = (
    then_do-Gives world s (Tests world (p ∷ []) s) _ _ _ (check-Gives world p s h)
        (λ v t f e (now, kept).
          then_do-Gives world t (Tests world (world.get_deps p) t) _ _ _
            (check_all-Gives world (world.get_deps p) t f)
            (λ w u g k (later, kept'). (
              g,
              refl,
              traced world.blacklist_file p u.packages_tested u.blacklisted g.black
                  (λ x m. ground (arith, m, later x, now x, kept' x)),
            ))),
    then_do-Gives world s (Tests world (p ∷ []) s) _ _ _ (check-Gives world p s h)
        (λ v t f e (now, kept).
          then_do-Gives world t (Tests world (world.get_deps p) t) _ _ _
            (check_all-Gives world (world.get_deps p) t f)
            (λ w u g k (later, kept'). (
              g,
              refl,
              traced world.blacklist_osx_file p u.packages_tested u.blacklisted_osx g.black_osx
                  (λ x m. ground (arith, m, later x, now x, kept' x)),
            ))),
  )
