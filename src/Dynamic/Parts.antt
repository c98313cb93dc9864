-- ===== src/Dynamic/Parts.antt =====
-- src/genpy/src/genpy/dynamic.py and src/genmsg/src/genmsg/gentools.py: the full text of a message is
-- split into the texts that it was made of.
use mathlib.Core.List.{append_assoc}
use xc_ros.Prelude.{
  ℕ, zero, suc, ◌≡◌, refl, sym, ◌∙◌, ap, Bool, true, false, ◌&&◌, ◌||◌, List, [], ◌∷◌, ◌++◌, arith,
  ◌==◌, replicate,
}
use xc_ros.Prelude.Text.{Text, codes}
use xc_ros.Prelude.Str.{has}
use xc_ros.Prelude.Str.Substring.{starts, join_by, IsFree}
use xc_ros.Prelude.Result.{ok, >>=-eq-ok, ok_injective}
use xc_ros.Names.{drop_last}
use xc_ros.Genmsg.Spec.{MsgSpec}
use xc_ros.Genmsg.Context.{MsgContext, get_registered}
use xc_ros.Genmsg.Gentools.{separator, dep_texts}

-- A line of `n` equals signs, and nothing else, begins here.
abbrev rule_at : ℕ → Text → Bool
rule_at zero [] = true
rule_at zero (c ∷ s) = c == 10
rule_at (suc n) [] = false
rule_at (suc n) (c ∷ s) = c == b'=' && rule_at n s

-- Behind some line end there is a line of `n` equals signs.
unfoldable pub has_rule : ℕ → Text → Bool
has_rule n [] = false
has_rule n (c ∷ s) = (c == 10 && rule_at n s) || has_rule n s

abbrev line : ℕ → Text
line n = replicate n b'=' ++ 10 ∷ []

starts-line : (n : ℕ) (s : Text) → starts (line n) s ≡ true → rule_at n s ≡ true
unfolding starts
starts-line zero [] h = cc
starts-line zero (c ∷ s) h = ground arith
starts-line (suc n) [] h = cc
starts-line (suc n) (c ∷ s) h = ground (arith, starts-line n s)

starts-line_append : (n : ℕ) (s t : Text) → starts (line n) (s ++ (10 ∷ t)) ≡ rule_at n s
unfolding starts
starts-line_append zero [] t = refl
starts-line_append zero (c ∷ s) t = ground arith
starts-line_append (suc n) [] t = refl
starts-line_append (suc n) (c ∷ s) t = ground (arith, starts-line_append n s t)

pub IsFree-has_rule : (n : ℕ) (s : Text) → has_rule n s ≡ false → IsFree (10 ∷ line n) s
unfolding has_rule starts
IsFree-has_rule n [] h = tt
IsFree-has_rule n (c ∷ s) h = (
  ground (arith, starts-line n s),
  λ t. ground (arith, starts-line_append n s (line n ++ t)),
  IsFree-has_rule n s (ground arith),
)

has_rule-append : (n : ℕ) (s t : Text) → has 10 s ≡ false → has_rule n (s ++ t) ≡ has_rule n t
unfolding has_rule has
has_rule-append n [] t h = refl
has_rule-append n (c ∷ s) t h = ground (arith, has_rule-append n s t)

-- the text that `compute_full_text` writes for a dependency, without the last line end
abbrev pub section : Text → Text → Text
section d text = codes "MSG: " ++ (d ++ (10 ∷ text))

pub section-IsFree :
    (n : ℕ) (d text : Text)
    → has 10 d ≡ false
    → has_rule n (10 ∷ text) ≡ false
    → IsFree (10 ∷ line n) (section d text)
section-IsFree n d text h k = IsFree-has_rule n (section d text) (
    has_rule-append n (codes "MSG: ") (d ++ (10 ∷ text)) (unfold has in refl)
    ∙ has_rule-append n d (10 ∷ text) h
    ∙ k)

pub drop_last-snoc : (s : Text) (c : ℕ) → drop_last (s ++ c ∷ []) ≡ s
unfolding drop_last
drop_last-snoc [] c = refl
drop_last-snoc (d ∷ []) c = refl
drop_last-snoc (d ∷ e ∷ s) c = ap (λ t. d ∷ t) (drop_last-snoc (e ∷ s) c)

regroup : (a b c d : Text) → a ++ (b ++ (c ++ d)) ≡ (a ++ (b ++ c)) ++ d
regroup a b c d = sym (append_assoc a (b ++ c) d ∙ ap (λ t. a ++ t) (append_assoc b c d))

-- Dependencies with the texts that they are registered with.
module _ {F : Type 0} where
  abbrev pub Sections : MsgContext F → List Text → List Text → Type 0
  Sections ctx [] [] = Unit
  Sections ctx [] (b ∷ bs) = ⊥
  Sections ctx (d ∷ ds) [] = ⊥
  Sections ctx (d ∷ ds) (b ∷ bs) =
      ((dep : MsgSpec F) × (get_registered d ctx ≡ ok dep) × (b ≡ section d dep.text))
      × Sections ctx ds bs

  pub dep_texts-join_by :
      (ctx : MsgContext F) (ds : List Text) (texts : Text)
      → dep_texts ctx ds ≡ ok texts
      → (bodies : List Text) × Sections ctx ds bodies
        × ((core : Text) → core ++ (10 ∷ texts) ≡ join_by (10 ∷ separator) core bodies ++ 10 ∷ [])
  unfolding dep_texts
  dep_texts-join_by ctx [] texts h =
      ([], tt, λ core. ap (λ t. core ++ (10 ∷ t)) (sym (ok_injective [] texts h)))
  dep_texts-join_by ctx (d ∷ ds) texts h =
      let (dep, got, h') = >>=-eq-ok (get_registered d ctx) h in
      let (others, rest, h'') = >>=-eq-ok (dep_texts ctx ds) h' in
      let (bodies, sections, glue) = dep_texts-join_by ctx ds others rest in
      (
        section d dep.text ∷ bodies,
        ((dep, got, refl), sections),
        λ core.
            ap (λ t. core ++ (10 ∷ t)) (sym (ok_injective _ texts h''))
            ∙ ap (λ t. core ++ (10 ∷ separator ++ t))
                (regroup (codes "MSG: ") d (10 ∷ dep.text) (10 ∷ others)
                  ∙ glue (section d dep.text))
            ∙ regroup core (10 ∷ separator) (join_by (10 ∷ separator) (section d dep.text) bodies)
                (10 ∷ []),
      )
