-- ===== src/Prelude/Dict.antt =====
-- Python's dict with text keys, as an association list in order of insertion.
use xc_ros.Prelude.{
  ◌≡◌, refl, Bool, false, ◌||◌, List, [], ◌∷◌, ◌++◌, Option, none, some, arith, if◌then◌else◌,
}
use xc_ros.Prelude.Text.{Text, same, same_iff}

abbrev pub Dict {ℓ} : Type ℓ → Type ℓ
Dict V = List (Text × V)

module _ {ℓ} {V : Type ℓ} where
  unfoldable pub lookup : Text → Dict V → Option V
  lookup k [] = none
  lookup k ((j, v) ∷ m) = if same j k then some v else lookup k m

  -- `d[k] = v`
  unfoldable pub insert : Text → V → Dict V → Dict V
  insert k v [] = (k, v) ∷ []
  insert k v ((j, w) ∷ m) = if same j k then (j, v) ∷ m else (j, w) ∷ insert k v m

  -- `d.pop(k)` for a key that is there
  unfoldable pub pop : Text → Dict V → Dict V
  pop k [] = []
  pop k ((j, w) ∷ m) = if same j k then m else (j, w) ∷ pop k m

  unfoldable pub keys : Dict V → List Text
  keys [] = []
  keys ((k, v) ∷ m) = k ∷ keys m

  unfoldable pub has_key : Text → Dict V → Bool
  has_key k [] = false
  has_key k ((j, v) ∷ m) = same j k || has_key k m

  -- A read after a write.
  pub lookup-insert :
      (written read : Text) (value : V) (d : Dict V)
      → lookup read (insert written value d)
        ≡ (if same written read then some value else lookup read d)
  unfolding lookup insert
  lookup-insert written read value [] = refl
  lookup-insert written read value ((first, old) ∷ d) = ground (
    arith,
    lookup-insert written read value d,
    same_iff first written,
    same_iff first read,
    same_iff written read,
  )

  -- The keys of a dict are distinct.
  abbrev pub IsDistinct : Dict V → Type 0
  IsDistinct [] = Unit
  IsDistinct ((k, v) ∷ m) = (has_key k m ≡ false) × IsDistinct m

  has_key-append : (k : Text) (m n : Dict V) → has_key k (m ++ n) ≡ has_key k m || has_key k n
  unfolding has_key
  has_key-append k [] n = refl
  has_key-append k ((j, v) ∷ m) n = ground (arith, has_key-append k m n)

  -- Inserting a key that is new appends it.
  pub insert-append :
      (k : Text) (v : V) (d m : Dict V)
      → IsDistinct (d ++ (k, v) ∷ m)
      → insert k v d ≡ d ++ (k, v) ∷ []
  unfolding insert has_key
  insert-append k v [] m h = refl
  insert-append k v ((j, w) ∷ d) m h =
      ground
        (arith, insert-append k v d m, has_key-append j d ((k, v) ∷ m), same_iff j k, same_iff k j)
