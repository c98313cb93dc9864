-- ===== src/StructPattern/Runs.antt =====
-- src/genpy/src/genpy/generate_struct.py: what a reduced pattern stands for.
use xc_ros.Prelude.{
  ℕ, ◌+◌, ◌≡◌, false, not, ◌&&◌, List, [], ◌∷◌, ◌++◌, ◌==◌, ltb, ◌≤◌, if◌then◌else◌, replicate,
}
use xc_ros.Prelude.Text.{Text}
use xc_ros.StructPattern.{emit, in_nums}

-- Runs of equal characters, as they are written and as the text that they stand for.
unfoldable pub written : List (ℕ × ℕ) → Text
written [] = []
written ((c, n) ∷ runs) = emit c n ++ written runs

unfoldable pub expanded : List (ℕ × ℕ) → Text
expanded [] = []
expanded ((c, n) ∷ runs) = replicate n c ++ expanded runs

-- What a character and a length make with the runs behind them: digits from 0 to 8 do not join.
unfoldable pub merge : ℕ → ℕ → List (ℕ × ℕ) → List (ℕ × ℕ)
merge c n [] = (c, n) ∷ []
merge c n ((d, k) ∷ rs) =
    if d == c && not (in_nums d) then (c, n + k) ∷ rs else (c, n) ∷ (d, k) ∷ rs

unfoldable pub runs_of : Text → List (ℕ × ℕ)
unfolding merge
runs_of [] = []
runs_of (c ∷ s) = merge c 1 (runs_of s)

-- A run is not empty, and a digit from 0 to 8 is a run of its own.
abbrev pub IsRun : ℕ → ℕ → Type 0
IsRun c n = (1 ≤ n) × (in_nums c && ltb 1 n ≡ false)

-- Neighbours are of different characters, digits from 0 to 8 aside.
abbrev pub Differs : ℕ → List (ℕ × ℕ) → Type 0
Differs c [] = Unit
Differs c ((d, k) ∷ rs) = d == c && not (in_nums d) ≡ false

abbrev pub IsMaximal : List (ℕ × ℕ) → Type 0
IsMaximal [] = Unit
IsMaximal ((c, n) ∷ rs) = IsRun c n × Differs c rs × IsMaximal rs

-- The text is written as its longest runs.
abbrev pub IsReduced : Text → Text → Type 0
IsReduced p reduced =
    (rs : List (ℕ × ℕ)) × (written rs ≡ reduced) × (expanded rs ≡ p) × IsMaximal rs
