-- ===== src/StructPattern.antt =====
-- src/genpy/src/genpy/generate_struct.py: format strings of `struct`.
pub mod Runs
pub mod Code
mod Tests
use xc_ros.Prelude.{
  ℕ, zero, suc, ◌+◌, ◌/◌, ◌%◌, Bool, true, false, not, ◌&&◌, ◌||◌, List, [], ◌∷◌, ◌++◌, ◌==◌, ltb,
  leb, if◌then◌else◌,
}
use xc_ros.Prelude.Text.{Text}
use xc_ros.Prelude.Str.{has}

-- `str(n)` before the digits in `acc`, on fuel: each step divides by ten
unfoldable pub decimal_onto : ℕ → ℕ → Text → Text
decimal_onto zero n acc = acc
decimal_onto (suc fuel) n acc =
    let more = decimal_onto fuel (n / 10) ((b'0' + n % 10) ∷ acc) in
    if ltb n 10 then (b'0' + n) ∷ acc else more

abbrev pub decimal : ℕ → Text
decimal n = decimal_onto (suc n) n []

-- The variables of the loop of `reduce_pattern`.
pub record State : Type 0 where
  pub prev : ℕ
  pub count : ℕ
  pub new_pattern : Text

-- a character and how often it comes
unfoldable pub emit : ℕ → ℕ → Text
emit c count = if ltb 1 count then decimal count ++ (c ∷ []) else c ∷ []

-- `c in nums`, the digits from 0 to 8
abbrev pub in_nums : ℕ → Bool
in_nums c = leb b'0' c && leb c b'8'

unfoldable pub step : State → ℕ → State
step st c =
    if c == st.prev && not (in_nums c)
    then record st { count = st.count + 1 }
    else record { prev = c; count = 1; new_pattern = st.new_pattern ++ emit st.prev st.count }

-- The last character is `prev` wherever the source writes it as `c`.
unfoldable pub reduce_from : State → Text → Text
reduce_from st [] = st.new_pattern ++ emit st.prev st.count
reduce_from st (c ∷ s) = reduce_from (step st c) s

unfoldable pub reduce_pattern : Text → Text
reduce_pattern [] = []
reduce_pattern (c ∷ []) = c ∷ []
reduce_pattern (c ∷ d ∷ s) =
    let reduced = reduce_from (record { prev = c; count = 1; new_pattern = [] }) (d ∷ s) in
    if has b'%' (c ∷ d ∷ s) then c ∷ d ∷ s else reduced
