-- ===== src/Prelude/Text.antt =====
-- Python's str as a list of code points, and lists of texts.
use Prim.Native.Char.{code}
use Prim.Native.String.{String}
use xc_ros.Prelude.{
  ℕ, ◌+◌, ◌≤◌, ◌≡◌, refl, ◌↔◌, Bool, true, false, ◌&&◌, ◌||◌, List, [], ◌∷◌, ◌++◌, arith, length,
  ◌==◌, if◌then◌else◌,
}

abbrev pub Text : Type 0
Text = List ℕ

abbrev pub codes : String → Text
codes String.[] = []
codes (String.◌∷◌ c s) = code c ∷ codes s

-- `a == b` on texts
unfoldable pub same : Text → Text → Bool
same [] [] = true
same (a ∷ s) (b ∷ t) = a == b && same s t
same _ _ = false

pub same_iff : (s t : Text) → (same s t ≡ true) ↔ (s ≡ t)
unfolding same
same_iff [] [] = (λ _. refl, λ _. refl)
same_iff [] (b ∷ t) = (λ e. cc, λ e. cc)
same_iff (a ∷ s) [] = (λ e. cc, λ e. cc)
same_iff (a ∷ s) (b ∷ t) = (λ e. ground (arith, same_iff s t), λ e. ground (arith, same_iff s t))

pub same_refl : (s : Text) → same s s ≡ true
same_refl s = (same_iff s s).1 refl

-- `x in xs`, `xs.count(x)` and `xs.remove(x)`, which takes the first occurrence
unfoldable pub mem : Text → List Text → Bool
mem x [] = false
mem x (y ∷ ys) = same y x || mem x ys

unfoldable pub count : Text → List Text → ℕ
count x [] = 0
count x (y ∷ ys) = (if same y x then 1 else 0) + count x ys

unfoldable pub remove : Text → List Text → List Text
remove x [] = []
remove x (y ∷ ys) = if same y x then ys else y ∷ remove x ys

pub count-append : (x : Text) (ys zs : List Text) → count x (ys ++ zs) ≡ count x ys + count x zs
unfolding count
count-append x [] zs = omega arith
count-append x (y ∷ ys) zs = omega (arith, count-append x ys zs)

pub mem-append : (x : Text) (ys zs : List Text) → mem x (ys ++ zs) ≡ mem x ys || mem x zs
unfolding mem
mem-append x [] zs = refl
mem-append x (y ∷ ys) zs = ground (arith, mem-append x ys zs)

pub mem_iff_count : (x : Text) (ys : List Text) → (mem x ys ≡ true) ↔ (1 ≤ count x ys)
unfolding mem count
mem_iff_count x [] = (λ e. cc, λ h. absurd (omega arith))
mem_iff_count x (y ∷ ys) =
    (λ e. ground (arith, mem_iff_count x ys), λ h. ground (arith, mem_iff_count x ys))

-- What `remove` takes away, and from which counts.
pub count-remove :
    (x p : Text) (ys : List Text)
    → mem x ys ≡ true
    → count p (remove x ys) + (if same x p then 1 else 0) ≡ count p ys
unfolding mem count remove
count-remove x p [] h = cc
count-remove x p (y ∷ ys) h =
    ground (arith, count-remove x p ys, same_iff y x, same_iff x p, same_iff y p)

pub length-remove :
    (x : Text) (ys : List Text) → mem x ys ≡ true → length (remove x ys) + 1 ≡ length ys
unfolding mem remove
length-remove x [] h = cc
length-remove x (y ∷ ys) h = ground (arith, length-remove x ys)
