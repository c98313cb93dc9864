-- ===== src/Flags/Gives.antt =====
-- src/ros/rosmake/src/rosmake/package_stats.py: what a query that has returned leaves.
use xc_ros.Prelude.{◌≡◌, refl, ◌∙◌, true, List, [], ◌∷◌, arith, if◌then◌else◌, Bool-cases, inl, inr}
use xc_ros.Prelude.Text.{Text, same_iff, mem}
use xc_ros.Prelude.Result.{ok, err}
use xc_ros.Flags.{World, Flags, Outcome, check_package_flags, check_all, then_do}
use xc_ros.Flags.Checked.{IsFaithful, Checked, check-Checked}

module _ (world : World) where
  -- A query that started at `s` leaves a faithful tracker, and what it returns has the property.
  abbrev pub Gives : {A : Type 0} → Flags → (A → Flags → Type 0) → Outcome A → Type 0
  Gives s P (err e, t) = IsFaithful world t × (t.nobuild_files ≡ s.nobuild_files)
  Gives s P (ok value, t) = IsFaithful world t × (t.nobuild_files ≡ s.nobuild_files) × P value t

  pub then_do-Gives :
      {A B : Type 0} (s : Flags) (P : A → Flags → Type 0) (Q : B → Flags → Type 0)
      (first : Outcome A) (next : A → Flags → Outcome B)
      → Gives s P first
      → ((value : A) (t : Flags)
          → IsFaithful world t
          → t.nobuild_files ≡ s.nobuild_files
          → P value t
          → Gives t Q (next value t))
      → Gives s Q (then_do first next)
  then_do-Gives s P Q (err e, t) next h k = h
  then_do-Gives {B = B} s P Q (ok value, t) next (f, e, p) k =
      weaken (next value t) (k value t f e p)
    where
      weaken : (r : Outcome B) → Gives t Q r → Gives s Q r
      weaken (err x, u) (f', e') = (f', e' ∙ e)
      weaken (ok v, u) (f', e', q) = (f', e' ∙ e, q)

  -- The packages are tested, and those that were tested before still are.
  abbrev pub Tests : List Text → Flags → Unit {0} → Flags → Type 0
  Tests ps s _ t =
      ((x : Text) → mem x ps ≡ true → mem x t.packages_tested ≡ true)
      × ((x : Text) → mem x s.packages_tested ≡ true → mem x t.packages_tested ≡ true)

  pub check-Gives :
      (p : Text) (s : Flags)
      → IsFaithful world s
      → Gives s (Tests (p ∷ []) s) (check_package_flags world p s)
  check-Gives p s h = from (check_package_flags world p s) (check-Checked world p s h)
    where
      from : (r : Outcome Unit) → Checked world (p ∷ []) s r → Gives s (Tests (p ∷ []) s) r
      from (err e, t) c = (c.faithful, c.files)
      from (ok u, t) c = (c.faithful, c.files, (c.tested refl, c.kept))

  check_once-Gives :
      (p : Text) (s : Flags)
      → IsFaithful world s
      → Gives s
          (Tests (p ∷ []) s)
          (if mem p s.packages_tested then (ok tt, s) else check_package_flags world p s)
  unfolding mem
  check_once-Gives p s h = elim (Bool-cases (mem p s.packages_tested)) [
    | inl seen ↦ rw seen (h, refl, (λ x m. ground (arith, seen, same_iff p x), λ x m. m))
    | inr fresh ↦ rw fresh (check-Gives p s h)
  ]

  pub check_all-Gives :
      (ps : List Text) (s : Flags)
      → IsFaithful world s
      → Gives s (Tests ps s) (check_all world ps s)
  unfolding check_all mem
  check_all-Gives [] s h = (h, refl, (λ x m. cc, λ x m. m))
  check_all-Gives (p ∷ ps) s h =
      then_do-Gives s (Tests (p ∷ []) s) (Tests (p ∷ ps) s) _ (λ _. check_all world ps)
        (check_once-Gives p s h)
        (λ v t f e (now, kept). both t (check_all world ps t) (now, kept) (check_all-Gives ps t f))
    where
      both :
          (t : Flags) (r : Outcome Unit)
          → Tests (p ∷ []) s tt t
          → Gives t (Tests ps t) r
          → Gives t (Tests (p ∷ ps) s) r
      both t (err e, u) c g = g
      both t (ok v, u) (now, kept) (f, e, (later, kept')) =
          (f, e, (λ x m. ground (arith, m, now x, kept' x, later x), λ x m. kept' x (kept x m)))
