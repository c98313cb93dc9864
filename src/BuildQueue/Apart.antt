-- ===== src/BuildQueue/Apart.antt =====
-- Lists of packages that have no package in common.
use xc_ros.Prelude.{◌≡◌, refl, Bool, true, false, not, ◌&&◌, List, [], ◌∷◌, arith}
use xc_ros.Prelude.Text.{Text, mem, count, remove}

-- No text of the first list is in the second.
unfoldable pub none_in : List Text → List Text → Bool
none_in [] seen = true
none_in (d ∷ ds) seen = not (mem d seen) && none_in ds seen

pub mem-remove : (d x : Text) (ps : List Text) → mem d ps ≡ false → mem d (remove x ps) ≡ false
unfolding mem remove
mem-remove d x [] h = refl
mem-remove d x (p ∷ ps) h = ground (arith, mem-remove d x ps)

pub none_in-remove :
    (ds : List Text) (x : Text) (ps : List Text)
    → none_in ds ps ≡ true
    → none_in ds (remove x ps) ≡ true
unfolding none_in
none_in-remove [] x ps h = refl
none_in-remove (d ∷ ds) x ps h = ground (arith, none_in-remove ds x ps, mem-remove d x ps)

pub none_in-tail :
    (ds : List Text) (p : Text) (ps : List Text) → none_in ds (p ∷ ps) ≡ true → none_in ds ps ≡ true
unfolding none_in mem
none_in-tail [] p ps h = refl
none_in-tail (d ∷ ds) p ps h = ground (arith, none_in-tail ds p ps)

pub none_in-cons_remove :
    (ds : List Text) (x p : Text) (ps : List Text)
    → none_in ds (p ∷ ps) ≡ true
    → none_in ds (p ∷ remove x ps) ≡ true
unfolding none_in mem
none_in-cons_remove [] x p ps h = refl
none_in-cons_remove (d ∷ ds) x p ps h =
    ground (arith, none_in-cons_remove ds x p ps, mem-remove d x ps)

pub count_eq_zero : (d : Text) (ps : List Text) → not (mem d ps) ≡ true → count d ps ≡ 0
unfolding mem count
count_eq_zero d [] h = refl
count_eq_zero d (p ∷ ps) h = ground (arith, count_eq_zero d ps)
