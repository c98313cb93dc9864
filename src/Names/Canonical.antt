-- ===== src/Names/Canonical.antt =====
-- src/ros/roslib/src/roslib/names.py: the canonical form of a name.
use mathlib.Core.List.{append-nil}
use mathlib.Core.Path.{ap₂}
use xc_ros.Prelude.{
  ℕ, not, ◌&&◌, ◌⊎◌, ◌≡◌, refl, sym, subst, ◌∙◌, Bool, true, false, List, [], ◌∷◌, ◌++◌, arith,
  ◌==◌, if◌then◌else◌, Bool-cases, inl, inr,
}
use xc_ros.Prelude.Text.{Text, same, same_iff}
use xc_ros.Prelude.Str.{has}
use xc_ros.Prelude.Str.Split.{
  split_on, join, non_empty, IsParts, IsParts-split, split_on-join, non_empty-IsParts,
}
use xc_ros.Names.{sep, canonicalize_name, is_global}

-- The parts of a name between its separators.
abbrev pub parts_of : Text → List Text
parts_of s = non_empty (split_on sep s)

-- What a list of parts is joined to, absolute or not.
abbrev pub named : Bool → List Text → Text
named true ps = sep ∷ join sep ps
named false ps = join sep ps

non_empty-cons_sep : (s : Text) → parts_of (sep ∷ s) ≡ parts_of s
unfolding split_on non_empty
non_empty-cons_sep s = refl

-- A canonical name is the join of the parts of the name, behind a separator if that has one.
pub canonicalize_name-eq : (s : Text) → canonicalize_name s ≡ named (is_global s) (parts_of s)
unfolding canonicalize_name same
canonicalize_name-eq [] = unfold split_on non_empty join in refl
canonicalize_name-eq (c ∷ s) = elim (Bool-cases (same (c ∷ s) (sep ∷ []))) [
  | inl root ↦
      subst (λ t. canonicalize_name t ≡ named (is_global t) (parts_of t))
        (sym ((same_iff (c ∷ s) (sep ∷ [])).0 root)) (unfold split_on non_empty join in refl)
  | inr longer ↦ rw longer (by_first (c == sep))
]
  where
    by_first :
        (b : Bool)
        → (if b then sep ∷ join sep (parts_of (c ∷ s)) else join sep (parts_of (c ∷ s)))
          ≡ named b (parts_of (c ∷ s))
    by_first true = refl
    by_first false = refl

pub parts_of-join : (ps : List Text) → IsParts sep ps → parts_of (join sep ps) ≡ ps
parts_of-join [] h = unfold split_on non_empty join in refl
parts_of-join (p ∷ ps) h = rw (split_on-join sep p ps h) (non_empty-IsParts sep (p ∷ ps) h)

pub parts_of-named : (b : Bool) (ps : List Text) → IsParts sep ps → parts_of (named b ps) ≡ ps
parts_of-named true ps h = non_empty-cons_sep (join sep ps) ∙ parts_of-join ps h
parts_of-named false ps h = parts_of-join ps h

-- A part begins with something else than the separator.
is_global-part :
    (p s : Text) → has sep p ≡ false → non_empty (p ∷ []) ≡ p ∷ [] → is_global (p ++ s) ≡ false
unfolding has non_empty
is_global-part [] s h k = absurd (cc)
is_global-part (c ∷ p) s h k = ground arith

pub is_global-named : (b : Bool) (ps : List Text) → IsParts sep ps → is_global (named b ps) ≡ b
unfolding join
is_global-named true ps h = refl
is_global-named false [] h = refl
is_global-named false (p ∷ []) h = rw append-nil at (is_global-part p [] h.0 h.1)
is_global-named false (p ∷ q ∷ ps) h = is_global-part p (sep ∷ join sep (q ∷ ps)) h.0 h.1

-- No separator is followed by another one or stands at the end.
unfoldable pub is_clean : Text → Bool
is_clean [] = true
is_clean (c ∷ []) = not (c == sep)
is_clean (c ∷ d ∷ s) = not (c == sep && d == sep) && is_clean (d ∷ s)

-- A name without extra and trailing separators: the root, or clean.
abbrev pub IsTidy : Text → Type 0
IsTidy s = (s ≡ sep ∷ []) ⊎ (is_clean s ≡ true)

abbrev Begins : Text → Type 0
Begins [] = ⊥
Begins (c ∷ s) = (c == sep) ≡ false

is_clean-cons :
    (c : ℕ) (s : Text) → (c == sep) ≡ false → is_clean s ≡ true → is_clean (c ∷ s) ≡ true
unfolding is_clean
is_clean-cons c [] h k = rw h refl
is_clean-cons c (d ∷ s) h k = rw (h, k) refl

is_clean-sep : (s : Text) → Begins s → is_clean s ≡ true → is_clean (sep ∷ s) ≡ true
unfolding is_clean
is_clean-sep [] h k = absurd h
is_clean-sep (d ∷ s) h k = rw (h, k) refl

is_clean-append :
    (p s : Text)
    → has sep p ≡ false
    → Begins s
    → is_clean s ≡ true
    → is_clean (p ++ (sep ∷ s)) ≡ true
unfolding has
is_clean-append [] s h b k = is_clean-sep s b k
is_clean-append (c ∷ p) s h b k =
    is_clean-cons c (p ++ (sep ∷ s)) (ground arith) (is_clean-append p s (ground arith) b k)

is_clean-part : (p : Text) → has sep p ≡ false → is_clean p ≡ true
unfolding has
is_clean-part [] h = unfold is_clean in refl
is_clean-part (c ∷ p) h = is_clean-cons c p (ground arith) (is_clean-part p (ground arith))

join-Begins : (p : Text) (ps : List Text) → IsParts sep (p ∷ ps) → Begins (join sep (p ∷ ps))
unfolding has join non_empty
join-Begins [] ps h = absurd (cc)
join-Begins (c ∷ p) [] h = ground arith
join-Begins (c ∷ p) (q ∷ ps) h = ground arith

is_clean-join : (ps : List Text) → IsParts sep ps → is_clean (join sep ps) ≡ true
unfolding join
is_clean-join [] h = unfold is_clean in refl
is_clean-join (p ∷ []) h = is_clean-part p h.0
is_clean-join (p ∷ q ∷ ps) h =
    is_clean-append p (join sep (q ∷ ps)) h.0 (join-Begins q ps h.2) (is_clean-join (q ∷ ps) h.2)

named-IsTidy : (b : Bool) (ps : List Text) → IsParts sep ps → IsTidy (named b ps)
named-IsTidy false ps h = inr (is_clean-join ps h)
named-IsTidy true [] h = inl (unfold join in refl)
named-IsTidy true (p ∷ ps) h =
    inr (is_clean-sep (join sep (p ∷ ps)) (join-Begins p ps h) (is_clean-join (p ∷ ps) h))

-- A canonical name has the parts of the name between its separators, none of them empty, is global
-- exactly if the name is, has no separator behind another one or at its end, unless it is the
-- separator itself, and is its own canonical form.
pub canonicalize_name_lem :
    (s : Text)
    → (parts_of (canonicalize_name s) ≡ parts_of s)
      × (is_global (canonicalize_name s) ≡ is_global s)
      × IsTidy (canonicalize_name s)
      × (canonicalize_name (canonicalize_name s) ≡ canonicalize_name s)
canonicalize_name_lem s = (same_parts, same_scope, tidy, again)
  where
    h : IsParts sep (parts_of s)
    h = IsParts-split sep s

    same_parts : parts_of (canonicalize_name s) ≡ parts_of s
    same_parts = rw (canonicalize_name-eq s) (parts_of-named (is_global s) (parts_of s) h)

    same_scope : is_global (canonicalize_name s) ≡ is_global s
    same_scope = rw (canonicalize_name-eq s) (is_global-named (is_global s) (parts_of s) h)

    tidy : IsTidy (canonicalize_name s)
    tidy = rw (canonicalize_name-eq s) (named-IsTidy (is_global s) (parts_of s) h)

    again : canonicalize_name (canonicalize_name s) ≡ canonicalize_name s
    again =
        canonicalize_name-eq (canonicalize_name s)
        ∙ (ap₂ named same_scope same_parts ∙ sym (canonicalize_name-eq s))
