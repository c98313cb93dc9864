-- ===== src/Prelude/Str/Split.antt =====
-- `str.split` on one character, `str.join`, and the part of a text behind or up to its last `c`.
use xc_ros.Prelude.{
  ℕ, ◌≡◌, refl, ◌∙◌, ap, true, false, ◌||◌, List, [], ◌∷◌, ◌++◌, arith, ◌==◌, if◌then◌else◌,
  Bool-cases, ◌⊎◌, inl, inr,
}
use xc_ros.Prelude.Text.{Text}
use xc_ros.Prelude.Str.{has}

abbrev pub cons_head : ℕ → List Text → List Text
cons_head d [] = (d ∷ []) ∷ []
cons_head d (p ∷ ps) = (d ∷ p) ∷ ps

-- `s.split(c)`: never the empty list
unfoldable pub split_on : ℕ → Text → List Text
split_on c [] = [] ∷ []
split_on c (d ∷ s) = let rest = split_on c s in if d == c then [] ∷ rest else cons_head d rest

-- `c.join(parts)`
unfoldable pub join : ℕ → List Text → Text
join c [] = []
join c (p ∷ []) = p
join c (p ∷ q ∷ ps) = p ++ (c ∷ join c (q ∷ ps))

-- `[x for x in parts if x]`
unfoldable pub non_empty : List Text → List Text
non_empty [] = []
non_empty ([] ∷ ps) = non_empty ps
non_empty ((d ∷ p) ∷ ps) = (d ∷ p) ∷ non_empty ps

-- `s[:s.rfind(c)+1]` and `s[s.rfind(c)+1:]`
unfoldable pub up_to_last : ℕ → Text → Text
up_to_last c [] = []
up_to_last c (d ∷ s) = let rest = up_to_last c s in if d == c || has c s then d ∷ rest else []

unfoldable pub behind_last : ℕ → Text → Text
behind_last c [] = []
behind_last c (d ∷ s) = let rest = behind_last c s in if d == c || has c s then rest else d ∷ s

-- The parts of a list are free of `c` and not empty.
abbrev pub IsParts : ℕ → List Text → Type 0
IsParts c [] = Unit
IsParts c (p ∷ ps) = (has c p ≡ false) × (non_empty (p ∷ []) ≡ p ∷ []) × IsParts c ps

pub up_to_last-behind_last : (c : ℕ) (s : Text) → up_to_last c s ++ behind_last c s ≡ s
unfolding up_to_last behind_last has
up_to_last-behind_last c [] = refl
up_to_last-behind_last c (d ∷ s) = ground (arith, up_to_last-behind_last c s)

pub has-behind_last : (c : ℕ) (s : Text) → has c (behind_last c s) ≡ false
unfolding behind_last has
has-behind_last c [] = refl
has-behind_last c (d ∷ s) = ground (arith, has-behind_last c s)

-- A text free of `c` is one part, and the first part of what follows it and a `c`.
pub split_on-free : (c : ℕ) (s : Text) → has c s ≡ false → split_on c s ≡ s ∷ []
unfolding split_on has
split_on-free c [] h = refl
split_on-free c (d ∷ s) h = ground (arith, split_on-free c s)

pub split_on-append :
    (c : ℕ) (s t : Text) → has c s ≡ false → split_on c (s ++ c ∷ t) ≡ s ∷ split_on c t
unfolding split_on has
split_on-append c [] t h = ground arith
split_on-append c (d ∷ s) t h = ground (arith, split_on-append c s t)

-- Splitting undoes joining.
pub split_on-join :
    (c : ℕ) (p : Text) (ps : List Text) → IsParts c (p ∷ ps) → split_on c (join c (p ∷ ps)) ≡ p ∷ ps
unfolding join
split_on-join c p [] h = split_on-free c p h.0
split_on-join c p (q ∷ ps) h =
    split_on-append c p (join c (q ∷ ps)) h.0 ∙ ap (λ l. p ∷ l) (split_on-join c q ps h.2)

pub non_empty-IsParts : (c : ℕ) (ps : List Text) → IsParts c ps → non_empty ps ≡ ps
unfolding non_empty
non_empty-IsParts c [] h = refl
non_empty-IsParts c ([] ∷ ps) h = absurd (cc)
non_empty-IsParts c ((d ∷ p) ∷ ps) h = ap (λ l. (d ∷ p) ∷ l) (non_empty-IsParts c ps h.2)

AllFree : ℕ → List Text → Type 0
AllFree c [] = Unit
AllFree c (p ∷ ps) = (has c p ≡ false) × AllFree c ps

cons_head-AllFree :
    (c d : ℕ) (ps : List Text) → (d == c) ≡ false → AllFree c ps → AllFree c (cons_head d ps)
unfolding has AllFree
cons_head-AllFree c d [] e h = (rw e, tt)
cons_head-AllFree c d (p ∷ ps) e h = (rw (e, h.0), h.1)

split_on-AllFree : (c : ℕ) (s : Text) → AllFree c (split_on c s)
unfolding split_on has AllFree
split_on-AllFree c [] = (refl, tt)
split_on-AllFree c (d ∷ s) = parts (Bool-cases (d == c)) (split_on-AllFree c s)
  where
    parts :
        ((d == c) ≡ true) ⊎ ((d == c) ≡ false)
        → AllFree c (split_on c s)
        → AllFree c (if d == c then [] ∷ split_on c s else cons_head d (split_on c s))
    parts (inl same) ih = rw same (refl, ih)
    parts (inr other) ih = rw other (cons_head-AllFree c d (split_on c s) other ih)

non_empty-AllFree : (c : ℕ) (ps : List Text) → AllFree c ps → IsParts c (non_empty ps)
unfolding non_empty AllFree
non_empty-AllFree c [] h = tt
non_empty-AllFree c ([] ∷ ps) h = non_empty-AllFree c ps h.1
non_empty-AllFree c ((d ∷ p) ∷ ps) h = (h.0, refl, non_empty-AllFree c ps h.1)

-- What is left of a split when the empty parts go.
pub IsParts-split : (c : ℕ) (s : Text) → IsParts c (non_empty (split_on c s))
IsParts-split c s = non_empty-AllFree c (split_on c s) (split_on-AllFree c s)
