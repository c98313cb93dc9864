-- ===== src/Genmsg/Reach.antt =====
-- src/genmsg/src/genmsg/msg_loader.py: all dependencies of a message are those that it reaches.
use xc_ros.Prelude.{
  ℕ, zero, suc, ◌<◌, ◌≡◌, refl, sym, ◌∙◌, ap, subst, ◌↔◌, ◌⊎◌, inl, inr, true, List, [], ◌∷◌, ◌++◌,
  none, some, arith, Bool-cases,
}
use xc_ros.Prelude.Text.{Text, same, same_iff, same_refl, mem, mem-append}
use xc_ros.Prelude.Dict.{Dict, lookup}
use xc_ros.Prelude.Result.{Result, ok, err}
use xc_ros.Genmsg.{Error, key_error}
use xc_ros.Genmsg.Context.{MsgContext, get_depends}
use xc_ros.Genmsg.Depends.{
  depends_of, get_all_depends, AllBelow, IsRanked, lookup-AllBelow, some_injective,
}

module _ (deps : Dict (List Text)) where
  -- The transitive closure of the direct dependencies.
  pub data Reaches : Text → Text → Type 0 where
    direct : {t d : Text} {ds : List Text} → lookup t deps ≡ some ds → mem d ds ≡ true → Reaches t d
    onward :
        {t d x : Text} {ds : List Text}
        → lookup t deps ≡ some ds
        → mem d ds ≡ true
        → Reaches d x
        → Reaches t x

  abbrev pub AllKnown : List Text → Type 0
  AllKnown [] = Unit
  AllKnown (d ∷ ds) = ((es : List Text) × (lookup d deps ≡ some es)) × AllKnown ds

  -- Every dependency in the table has dependencies of its own there.
  abbrev pub IsClosed : Dict (List Text) → Type 0
  IsClosed [] = Unit
  IsClosed ((t, ds) ∷ m) = AllKnown ds × IsClosed m

  lookup-AllKnown :
      (t : Text) (m : Dict (List Text)) {ds : List Text}
      → IsClosed m
      → lookup t m ≡ some ds
      → AllKnown ds
  unfolding lookup
  lookup-AllKnown t [] h e = absurd (cc)
  lookup-AllKnown t ((u, us) ∷ m) {ds = ds} h e = elim (Bool-cases (same u t)) [
    | inl here ↦ subst AllKnown (some_injective us ds (rw here at e)) h.0
    | inr there ↦ lookup-AllKnown t m h.1 (rw there at e)
  ]

  -- What is among some messages, or reached from one of them.
  abbrev FromOne : List Text → Text → Type 0
  FromOne ds x = (d : Text) × (mem d ds ≡ true) × ((d ≡ x) ⊎ Reaches d x)

  Reaches-FromOne :
      (t x : Text) (ds : List Text) → lookup t deps ≡ some ds → Reaches t x → FromOne ds x
  Reaches-FromOne t x ds e (direct {ds = ds'} e' m) =
      (x, subst (λ l. mem x l ≡ true) (some_injective ds' ds (sym e' ∙ e)) m, inl refl)
  Reaches-FromOne t x ds e (onward {d = d} {ds = ds'} e' m r) =
      (d, subst (λ l. mem d l ≡ true) (some_injective ds' ds (sym e' ∙ e)) m, inr r)

  FromOne-Reaches :
      (t x : Text) (ds : List Text) → lookup t deps ≡ some ds → FromOne ds x → Reaches t x
  FromOne-Reaches t x ds e (d, m, inl p) = direct e (subst (λ y. mem y ds ≡ true) p m)
  FromOne-Reaches t x ds e (d, m, inr r) = onward e m r

  -- An answer that lists what has the property.
  abbrev pub Lists : (Text → Type 0) → Result Error (List Text) → Type 0
  Lists P r = (ds : List Text) × (r ≡ ok ds) × ((x : Text) → (mem x ds ≡ true) ↔ P x)

  listed-FromOne :
      (d x : Text) (ds below rest : List Text)
      → (mem x below ≡ true → Reaches d x)
      → (mem x rest ≡ true → FromOne ds x)
      → mem x (d ∷ below ++ rest) ≡ true
      → FromOne (d ∷ ds) x
  unfolding mem
  listed-FromOne d x ds below rest h k e = elim (Bool-cases (same d x)) [
    | inl here ↦ (d, rw (same_refl d) refl, inl ((same_iff d x).0 here))
    | inr there ↦ elim (Bool-cases (mem x below)) [
      | inl under ↦ (d, rw (same_refl d) refl, inr (h under))
      | inr beyond ↦
          let (d', m, w) = k (ground (arith, mem-append x below rest)) in (d', ground arith, w)
    ]
  ]

  FromOne-listed :
      (d x : Text) (ds below rest : List Text)
      → (Reaches d x → mem x below ≡ true)
      → (FromOne ds x → mem x rest ≡ true)
      → FromOne (d ∷ ds) x
      → mem x (d ∷ below ++ rest) ≡ true
  unfolding mem
  FromOne-listed d x ds below rest h k (d', m, w) = elim (Bool-cases (same d d')) [
    | inl here ↦ at_head ((same_iff d d').0 here) w
    | inr there ↦
        let far : mem x rest ≡ true = k (d', ground arith, w) in
        ground (arith, mem-append x below rest)
  ]
    where
      at_head : d ≡ d' → ((d' ≡ x) ⊎ Reaches d' x) → mem x (d ∷ below ++ rest) ≡ true
      at_head p (inl q) = ground (arith, (same_iff d x).1 (p ∙ q))
      at_head p (inr r) =
          let under : mem x below ≡ true = h (subst (λ y. Reaches y x) (sym p) r) in
          ground (arith, mem-append x below rest)

  depends_of-Lists :
      (rank : Text → ℕ) (n : ℕ) (all_of : Text → Result Error (List Text)) (ds : List Text)
      → ((d : Text) (es : List Text)
          → rank d < n
          → lookup d deps ≡ some es
          → Lists (Reaches d) (all_of d))
      → AllBelow rank n ds
      → AllKnown ds
      → Lists (FromOne ds) (depends_of all_of ds)
  unfolding depends_of mem
  depends_of-Lists rank n all_of [] k b h =
      ([], refl, λ x. (λ e. absurd (cc), λ (d, m, w). absurd (cc)))
  depends_of-Lists rank n all_of (d ∷ ds) k b h =
      let (below, e, i) = k d h.0.0 b.0 h.0.1 in
      let (rest, e', i') = depends_of-Lists rank n all_of ds k b.1 h.1 in
      (
        d ∷ below ++ rest,
        rw (e, e') refl,
        λ x. (
          listed-FromOne d x ds below rest (i x).0 (i' x).0,
          FromOne-listed d x ds below rest (i x).1 (i' x).1,
        ),
      )

-- If the dependencies in a context have no cycle, which a rank of the messages shows, and those of
-- every dependency are known, then with fuel above the rank of a message whose own dependencies are
-- known, the answer lists exactly the messages that it reaches.
pub get_all_depends-Lists {ℓ} :
    {F : Type ℓ} (rank : Text → ℕ) (ctx : MsgContext F)
    → IsRanked rank ctx.dependencies
    → IsClosed ctx.dependencies ctx.dependencies
    → (fuel : ℕ) (t : Text) (ds : List Text) → rank t < fuel
    → get_depends t ctx ≡ some ds
    → Lists ctx.dependencies (Reaches ctx.dependencies t) (get_all_depends fuel t ctx)
unfolding get_all_depends get_depends
get_all_depends-Lists rank ctx r c zero t ds l e = absurd (omega arith)
get_all_depends-Lists rank ctx r c (suc fuel) t ds l e =
    let (all, e', i) =
      depends_of-Lists ctx.dependencies rank (rank t) (λ d. get_all_depends fuel d ctx) ds
        (λ d es below there. get_all_depends-Lists rank ctx r c fuel d es (omega arith) there)
        (lookup-AllBelow rank t ctx.dependencies r e)
        (lookup-AllKnown ctx.dependencies t ctx.dependencies c e) in
    (
      all,
      ap
            (λ o. elim o [
              | none ↦ err key_error
              | some es ↦ depends_of (λ d. get_all_depends fuel d ctx) es
            ])
            e
          ∙ e',
      λ x. (
        λ m. FromOne-Reaches ctx.dependencies t x ds e ((i x).0 m),
        λ reach. (i x).1 (Reaches-FromOne ctx.dependencies t x ds e reach),
      ),
    )
