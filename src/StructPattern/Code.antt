-- ===== src/StructPattern/Code.antt =====
-- src/genpy/src/genpy/generate_struct.py and base.py: the code that packs and unpacks, and the
-- patterns that it has used.
use xc_ros.Prelude.{List, [], ◌∷◌, ◌++◌, Option, none, some}
use xc_ros.Prelude.Text.{Text, codes}
use xc_ros.Prelude.Dict.{Dict, lookup}
use xc_ros.StructPattern.{reduce_pattern}

-- `SIMPLE_TYPES_DICT`
abbrev pub simple_types_dict : Dict Text
simple_types_dict =
    (codes "int8", codes "b")
    ∷ (codes "uint8", codes "B")
    ∷ (codes "bool", codes "B")
    ∷ (codes "int16", codes "h")
    ∷ (codes "uint16", codes "H")
    ∷ (codes "int32", codes "i")
    ∷ (codes "uint32", codes "I")
    ∷ (codes "int64", codes "q")
    ∷ (codes "uint64", codes "Q")
    ∷ (codes "float32", codes "f")
    ∷ (codes "float64", codes "d")
    ∷ (codes "char", codes "B")
    ∷ (codes "byte", codes "b")
    ∷ []

abbrev prepended : Option Text → Option Text → Option Text
prepended (some p) (some ps) = some (p ++ ps)
prepended p ps = none

-- the joined patterns, or none if one is missing
unfoldable pub joined_patterns : List Text → Option Text
joined_patterns [] = some []
joined_patterns (t ∷ types) = prepended (lookup t simple_types_dict) (joined_patterns types)

unfoldable pub compute_struct_pattern : List Text → Option Text
unfolding joined_patterns
compute_struct_pattern [] = none
compute_struct_pattern (t ∷ types) = joined_patterns (t ∷ types)

-- `_context_patterns` is passed on; `get_patterns` copies it.
abbrev pub add_pattern : Text → List Text → List Text
add_pattern p patterns = patterns ++ p ∷ []

abbrev pub clear_patterns : List Text → List Text
clear_patterns patterns = []

abbrev pub serialize : Text → Text
serialize expr = codes "buff.write(" ++ expr ++ codes ")"

abbrev pub int32_pack : Text → Text
int32_pack var = serialize (codes "_struct_I.pack(" ++ var ++ codes ")")

abbrev pub int32_unpack : Text → Text → Text
int32_unpack var buff = codes "(" ++ var ++ codes ",) = _struct_I.unpack(" ++ buff ++ codes ")"

unfoldable pub pack : Text → Text → List Text → Text × List Text
pack pattern vars patterns =
    let reduced = reduce_pattern pattern in
    (
      serialize (codes "_get_struct_" ++ reduced ++ codes "().pack(" ++ vars ++ codes ")"),
      add_pattern reduced patterns,
    )

abbrev pub pack2 : Text → Text → Text
pack2 pattern vars = serialize (codes "struct.pack(" ++ pattern ++ codes ", " ++ vars ++ codes ")")

unfoldable pub unpack : Text → Text → Text → List Text → Text × List Text
unpack var pattern buff patterns =
    let reduced = reduce_pattern pattern in
    (
      var ++ codes " = _get_struct_" ++ reduced ++ codes "().unpack(" ++ buff ++ codes ")",
      add_pattern reduced patterns,
    )

abbrev pub unpack2 : Text → Text → Text → Text
unpack2 var pattern buff =
    var ++ codes " = struct.unpack(" ++ pattern ++ codes ", " ++ buff ++ codes ")"
