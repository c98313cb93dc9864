-- ===== src/Message/Tests.antt =====
-- Values of fields as a node sets them, and the theorems at them.
use xc_ros.Prelude.{◌≡◌, refl, Bool, false, [], ◌∷◌}
use xc_ros.Prelude.Text.{codes, same, mem}
use xc_ros.Prelude.Int.{pos, negsuc, ◌-ℤ◌}
use xc_ros.Prelude.Str.{has, before}
use xc_ros.Prelude.Dict.{lookup}
use xc_ros.Prelude.Result.{ok, err}
use xc_ros.Names.{ends_with}
use xc_ros.Message.{
  serialization_error, value_error, Value, int, str, bytes, list, message, nil, cons, end, slot,
  kind_of, is_ascii, check_kind, check_type,
}

abbrev no_floats : Unit {0} → Bool
no_floats x = false

abbrev point : Value (Unit {0})
point = message (codes "nav/Point") (
    slot (codes "frame") (codes "string") (str (codes "map")) (
      slot (codes "xs") (codes "int16[]")
        (list (cons (int (pos 3)) (cons (int (negsuc 32766)) nil))) end))

program : Unit {0}
unfolding same mem ◌-ℤ◌ has before lookup ends_with kind_of is_ascii check_kind check_type
program = tt

passes : check_type (Unit {0}) no_floats (codes "nav/Point") point ≡ ok tt
unfolding program
passes = refl

refusals :
    (check_type (Unit {0}) no_floats (codes "nav/Pose") point ≡ err serialization_error)
    × (check_type (Unit {0}) no_floats (codes "uint8") (int (pos 256)) ≡ err serialization_error)
    × (check_type (Unit {0}) no_floats (codes "x]") (int (pos 1)) ≡ err value_error)
    × (check_type (Unit {0}) no_floats (codes "string") (str (233 ∷ [])) ≡ err serialization_error)
unfolding program
refusals = (refl, refl, refl, refl)

-- The bytes of an array of `uint8`, as Python 3 has them.
raw_array :
    check_type (Unit {0}) no_floats (codes "uint8[]") (bytes (1 ∷ [])) ≡ err serialization_error
unfolding program
raw_array = refl
