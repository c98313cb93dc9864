-- ===== src/Prelude/Str/Substring.antt =====
-- `str.split` and `str.replace` on a longer text, and `in`.
use xc_ros.Prelude.{
  ℕ, zero, suc, ◌≡◌, refl, ◌∙◌, ap, Bool, true, false, ◌&&◌, ◌||◌, List, [], ◌∷◌, ◌++◌, arith, ◌==◌,
  if◌then◌else◌, length,
}
use xc_ros.Prelude.Text.{Text}
use xc_ros.Prelude.Str.Split.{cons_head}

-- `s.startswith(part)` and `part in s`
unfoldable pub starts : Text → Text → Bool
starts [] s = true
starts (c ∷ part) [] = false
starts (c ∷ part) (d ∷ s) = c == d && starts part s

unfoldable pub finds : Text → Text → Bool
unfolding starts
finds part [] = starts part []
finds part (d ∷ s) = starts part (d ∷ s) || finds part s

-- `s.split(c + rest)`. The number counts the characters of a separator that are still to be passed.
unfoldable pub split_from : ℕ → Text → ℕ → Text → List Text
unfolding starts
split_from c rest passed [] = [] ∷ []
split_from c rest (suc passed) (d ∷ s) = split_from c rest passed s
split_from c rest zero (d ∷ s) =
    let here = split_from c rest (length rest) s in
    let later = split_from c rest zero s in
    if starts (c ∷ rest) (d ∷ s) then [] ∷ here else cons_head d later

unfoldable pub split_by : ℕ → Text → Text → List Text
unfolding split_from
split_by c rest s = split_from c rest zero s

-- `s.replace(c + rest, by)`
unfoldable pub replace_from : ℕ → Text → Text → ℕ → Text → Text
unfolding starts
replace_from c rest by passed [] = []
replace_from c rest by (suc passed) (d ∷ s) = replace_from c rest by passed s
replace_from c rest by zero (d ∷ s) =
    let here = replace_from c rest by (length rest) s in
    let later = replace_from c rest by zero s in
    if starts (c ∷ rest) (d ∷ s) then by ++ here else d ∷ later

-- What is not in a text is not replaced.
pub replace_from_absent :
    (c : ℕ) (rest by s : Text) → finds (c ∷ rest) s ≡ false → replace_from c rest by zero s ≡ s
unfolding replace_from finds
replace_from_absent c rest by [] h = refl
replace_from_absent c rest by (d ∷ s) h = ground (arith, replace_from_absent c rest by s)

-- `(c + rest).join(parts)`
abbrev pub join_by : Text → Text → List Text → Text
join_by sep p [] = p
join_by sep p (q ∷ ps) = p ++ (sep ++ join_by sep q ps)

-- A text in which the separator does not start, also if another separator follows.
abbrev pub IsFree : Text → Text → Type 0
IsFree sep [] = Unit
IsFree sep (d ∷ s) =
    (starts sep (d ∷ s) ≡ false)
    × ((t : Text) → starts sep (d ∷ s ++ (sep ++ t)) ≡ false)
    × IsFree sep s

abbrev pub AllFree : Text → List Text → Type 0
AllFree sep [] = Unit
AllFree sep (p ∷ ps) = IsFree sep p × AllFree sep ps

starts-append : (part t : Text) → starts part (part ++ t) ≡ true
unfolding starts
starts-append [] t = refl
starts-append (c ∷ part) t = ground (arith, starts-append part t)

split_from-pass :
    (c : ℕ) (rest passed t : Text)
    → split_from c rest (length passed) (passed ++ t) ≡ split_from c rest zero t
unfolding split_from
split_from-pass c rest [] t = refl
split_from-pass c rest (d ∷ passed) t = split_from-pass c rest passed t

split_from-last : (c : ℕ) (rest p : Text) → IsFree (c ∷ rest) p → split_from c rest zero p ≡ p ∷ []
unfolding split_from
split_from-last c rest [] h = refl
split_from-last c rest (d ∷ p) (here, later, h) = rw (here, split_from-last c rest p h) refl

split_from-part :
    (c : ℕ) (rest p t : Text)
    → IsFree (c ∷ rest) p
    → split_from c rest zero (p ++ ((c ∷ rest) ++ t)) ≡ p ∷ split_from c rest zero t
unfolding split_from
split_from-part c rest [] t h = rw (starts-append (c ∷ rest) t, split_from-pass c rest rest t) refl
split_from-part c rest (d ∷ p) t (here, later, h) = rw (later t, split_from-part c rest p t h) refl

-- Parts that are free of the separator come back from the text that joins them.
pub split_by-join_by :
    (c : ℕ) (rest p : Text) (ps : List Text)
    → AllFree (c ∷ rest) (p ∷ ps)
    → split_by c rest (join_by (c ∷ rest) p ps) ≡ p ∷ ps
unfolding split_by
split_by-join_by c rest p [] (h, _) = split_from-last c rest p h
split_by-join_by c rest p (q ∷ ps) (h, hs) =
    split_from-part c rest p (join_by (c ∷ rest) q ps) h
    ∙ ap (λ l. p ∷ l) (split_by-join_by c rest q ps hs)
