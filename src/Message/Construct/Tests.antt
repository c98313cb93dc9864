-- ===== src/Message/Construct/Tests.antt =====
-- A point that is constructed from arguments and from keywords.
use xc_ros.Prelude.{ℕ, ◌≡◌, refl, true, List, [], ◌∷◌, ◌==◌, ==_iff}
use xc_ros.Prelude.Text.{Text, codes, same, mem}
use xc_ros.Prelude.Dict.{lookup, insert}
use xc_ros.Prelude.Result.{ok, err}
use xc_ros.Genmsg.Spec.{are_distinct}
use xc_ros.Message.Construct.{
  type_error, attribute_error, Attributes, assign, fill, are_slots, new_message, getstate, setstate,
  is_equal, new_message_lem,
}

-- Numbers, of which 0 stands for `None`.
abbrev numbers : Attributes
numbers = record { V = ℕ; absent = 0; equals = λ v w. v == w }

abbrev slots : List Text
slots = codes "x" ∷ codes "y" ∷ []

program : Unit {0}
unfolding same mem lookup insert are_distinct assign fill are_slots new_message getstate is_equal
program = tt

refusals :
    (new_message numbers slots (1 ∷ 2 ∷ []) ((codes "x", 1) ∷ []) ≡ err type_error)
    × (new_message numbers slots (1 ∷ []) [] ≡ err type_error)
    × (new_message numbers slots [] ((codes "z", 1) ∷ []) ≡ err attribute_error)
    × (getstate numbers slots ((codes "x", 1) ∷ []) ≡ err attribute_error)
unfolding program
refusals = (refl, refl, refl, refl)

new_message_lem_example :
    (getstate numbers slots ((codes "x", 0) ∷ (codes "y", 7) ∷ []) ≡ ok (0 ∷ 7 ∷ []))
    × (is_equal numbers slots
          ((codes "x", 0) ∷ (codes "y", 7) ∷ [])
          (setstate numbers slots (0 ∷ 7 ∷ []) ((codes "y", 3) ∷ []))
        ≡ true)
unfolding program
new_message_lem_example =
    new_message_lem numbers slots [] ((codes "y", 7) ∷ []) ((codes "x", 0) ∷ (codes "y", 7) ∷ [])
      ((codes "y", 3) ∷ []) (λ v. (==_iff v v).1 refl) refl refl
