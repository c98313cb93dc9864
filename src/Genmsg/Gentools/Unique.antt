-- ===== src/Genmsg/Gentools/Unique.antt =====
-- src/genmsg/src/genmsg/gentools.py: the dependencies without their repetitions.
use xc_ros.Prelude.{
  ◌≤◌, ◌≡◌, inl, inr, ◌||◌, List, [], ◌∷◌, ◌++◌, arith, if◌then◌else◌, ◌∙◌, Bool-cases,
}
use xc_ros.Prelude.Text.{Text, same_iff, mem, count, count-append, mem-append, mem_iff_count}
use xc_ros.Genmsg.Gentools.{unique_from, unique_deps}

unique_from-count :
    (x : Text) (uniques ds : List Text)
    → count x uniques ≤ 1
    → count x (unique_from uniques ds) ≡ (if mem x uniques || mem x ds then 1 else 0)
unfolding unique_from mem count
unique_from-count x uniques [] h = ground (arith, mem_iff_count x uniques)
unique_from-count x uniques (d ∷ ds) h = elim (Bool-cases (mem d uniques)) [
  | inl old ↦ rw old (unique_from-count x uniques ds h ∙ ground (arith, same_iff d x))
  | inr new ↦ rw new (
      unique_from-count x (uniques ++ d ∷ []) ds
        (ground (arith, count-append x uniques (d ∷ []), mem_iff_count x uniques, same_iff d x))
      ∙ ground (arith, mem-append x uniques (d ∷ [])))
]

-- Each dependency stays exactly once, and nothing else does.
pub unique_deps-count :
    (x : Text) (ds : List Text) → count x (unique_deps ds) ≡ (if mem x ds then 1 else 0)
unfolding unique_deps mem count
unique_deps-count x ds = unique_from-count x [] ds (ground arith)
