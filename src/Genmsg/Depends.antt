-- ===== src/Genmsg/Depends.antt =====
-- src/genmsg/src/genmsg/msg_loader.py: all dependencies of a message.
use xc_ros.Prelude.{
  ℕ, zero, suc, ◌<◌, ◌≡◌, ◌≢◌, refl, ap, subst, inl, inr, List, [], ◌∷◌, ◌++◌, Option, none, some,
  arith, Bool-cases,
}
use xc_ros.Prelude.Text.{Text, same, same_iff}
use xc_ros.Prelude.Dict.{Dict, lookup}
use xc_ros.Prelude.Result.{Result, ok, err, ◌>>=◌}
use xc_ros.Genmsg.{Error, key_error, out_of_fuel}
use xc_ros.Genmsg.Context.{MsgContext, get_depends}

-- the loop over the direct dependencies
unfoldable pub depends_of : (Text → Result Error (List Text)) → List Text → Result Error (List Text)
depends_of all_of [] = ok []
depends_of all_of (d ∷ ds) = do
  below ← all_of d
  others ← depends_of all_of ds
  ok (d ∷ below ++ others)

-- On fuel, since the source does not end if the dependencies have a cycle.
unfoldable pub get_all_depends {ℓ} :
    {F : Type ℓ} → ℕ → Text → MsgContext F → Result Error (List Text)
unfolding get_depends depends_of
get_all_depends zero full_msg_type ctx = err out_of_fuel
get_all_depends (suc fuel) full_msg_type ctx = elim (get_depends full_msg_type ctx) [
  | none ↦ err key_error
  | some ds ↦ depends_of (λ d. get_all_depends fuel d ctx) ds
]

pub some_injective : (a b : List Text) → some a ≡ some b → a ≡ b
some_injective a b e = cc

module _ (rank : Text → ℕ) where
  abbrev pub AllBelow : ℕ → List Text → Type 0
  AllBelow n [] = Unit
  AllBelow n (d ∷ ds) = (rank d < n) × AllBelow n ds

  -- Every dependency has a smaller rank than what depends on it.
  abbrev pub IsRanked : Dict (List Text) → Type 0
  IsRanked [] = Unit
  IsRanked ((t, ds) ∷ m) = AllBelow (rank t) ds × IsRanked m

  pub lookup-AllBelow :
      (t : Text) (m : Dict (List Text)) {ds : List Text}
      → IsRanked m
      → lookup t m ≡ some ds
      → AllBelow (rank t) ds
  unfolding lookup
  lookup-AllBelow t [] h e = absurd (cc)
  lookup-AllBelow t ((u, us) ∷ m) {ds = ds} h e = elim (Bool-cases (same u t)) [
    | inl here ↦ at_head ((same_iff u t).0 here) (rw here at e)
    | inr there ↦ lookup-AllBelow t m h.1 (rw there at e)
  ]
    where
      at_head : u ≡ t → some us ≡ some ds → AllBelow (rank t) ds
      at_head p q =
          subst (λ n. AllBelow n ds) (ap rank p)
            (subst (AllBelow (rank u)) (some_injective us ds q) h.0)

  depends_of-ends :
      (all_of : Text → Result Error (List Text)) (n : ℕ) (ds : List Text)
      → ((d : Text) → rank d < n → all_of d ≢ err out_of_fuel)
      → AllBelow n ds
      → depends_of all_of ds ≢ err out_of_fuel
  unfolding depends_of
  depends_of-ends all_of n [] k h e = cc
  depends_of-ends all_of n (d ∷ ds) k h e =
      joined (all_of d) (depends_of all_of ds) (k d h.0) (depends_of-ends all_of n ds k h.1) e
    where
      joined :
          (first others : Result Error (List Text))
          → first ≢ err out_of_fuel
          → others ≢ err out_of_fuel
          → (first >>= λ below. others >>= λ rest. ok (d ∷ below ++ rest)) ≢ err out_of_fuel
      joined (err x) others p q e = p e
      joined (ok below) (err x) p q e = q (cc)
      joined (ok below) (ok rest) p q e = cc

  step-ends :
      (all_of : Text → Result Error (List Text)) (o : Option (List Text))
      → ((ds : List Text) → o ≡ some ds → depends_of all_of ds ≢ err out_of_fuel)
      → elim o [ none ↦ err key_error | some ds ↦ depends_of all_of ds ] ≢ err out_of_fuel
  step-ends all_of none k e = cc
  step-ends all_of (some ds) k e = k ds refl e

  -- If the dependencies can be ranked, so have no cycle, fuel above the rank of a message is enough.
  pub get_all_depends-ends {ℓ} :
      {F : Type ℓ} (ctx : MsgContext F)
      → IsRanked ctx.dependencies
      → (fuel : ℕ) (t : Text) → rank t < fuel
      → get_all_depends fuel t ctx ≢ err out_of_fuel
  unfolding get_all_depends get_depends
  get_all_depends-ends ctx h zero t k e = absurd (omega arith)
  get_all_depends-ends ctx h (suc fuel) t k e =
      step-ends (λ d. get_all_depends fuel d ctx) (lookup t ctx.dependencies)
        (λ ds there.
          depends_of-ends (λ d. get_all_depends fuel d ctx) (rank t) ds
            (λ d below. get_all_depends-ends ctx h fuel d (omega arith))
            (lookup-AllBelow t ctx.dependencies h there))
        e
