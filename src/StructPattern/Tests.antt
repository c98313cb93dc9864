-- ===== src/StructPattern/Tests.antt =====
-- Format strings, and the theorems at them.
use xc_ros.Prelude.{◌≡◌, refl, [], ◌∷◌, some}
use xc_ros.Prelude.Text.{codes, same}
use xc_ros.Prelude.Dict.{lookup}
use xc_ros.StructPattern.Code.{compute_struct_pattern, pack}
use xc_ros.Prelude.Str.{has}
use xc_ros.StructPattern.{decimal_onto, emit, step, reduce_from, reduce_pattern}

patterns :
    (reduce_pattern (codes "iiidBB") ≡ codes "3id2B")
    × (reduce_pattern (codes "BBBBBBBBBBBBf") ≡ codes "12Bf")
unfolding reduce_pattern reduce_from step emit decimal_onto has
patterns = (refl, refl)

-- The digit 9 is missing from the list of digits: a text of 99 bytes becomes one of 29.
nines : reduce_pattern (codes "99s") ≡ codes "29s"
unfolding reduce_pattern reduce_from step emit decimal_onto has
nines = refl

generated :
    (compute_struct_pattern (codes "int32" ∷ codes "int32" ∷ codes "float64" ∷ [])
      ≡ some (codes "iid"))
    × (pack (codes "iid") (codes "a, b, c") []
        ≡ (codes "buff.write(_get_struct_2id().pack(a, b, c))", codes "2id" ∷ []))
unfolding reduce_pattern reduce_from step emit decimal_onto has compute_struct_pattern pack lookup
    same
generated = (refl, refl)
