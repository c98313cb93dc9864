-- ===== src/Genmsg/Arrays.antt =====
-- src/genmsg/src/genmsg/msgs.py: the base type of an array type.
use mathlib.Core.List.{append-nil}
use xc_ros.Prelude.{
  ℕ, ◌≡◌, ◌≢◌, refl, sym, ◌∙◌, ap, subst, inl, inr, true, false, ◌&&◌, List, [], ◌∷◌, ◌++◌, Option,
  none, some, ◌==◌, arith, Bool-cases, and_left, and_right,
}
use xc_ros.Prelude.Int.{ℤ}
use xc_ros.Prelude.Text.{Text}
use xc_ros.Prelude.Str.{has, before, after}
use xc_ros.Prelude.Str.Split.{cons_head, split_on, split_on-append, split_on-free}
use xc_ros.Prelude.Result.{Result, ok, err}
use xc_ros.Names.{ends_with, drop_last}
use xc_ros.Genmsg.{Error, Unicode}
use xc_ros.Genmsg.Types.{bare_msg_type, Parsed, parse_type, of_splits, of_dimension, int_of}

has-before : (c : ℕ) (s : Text) → has c (before c s) ≡ false
unfolding has before
has-before c [] = refl
has-before c (d ∷ s) = ground (arith, has-before c s)

before-after : (c : ℕ) (s : Text) → has c s ≡ true → before c s ++ (c ∷ after c s) ≡ s
unfolding has before after
before-after c [] h = cc
before-after c (d ∷ s) h = ground (arith, before-after c s)

before-free : (c : ℕ) (s : Text) → has c s ≡ false → before c s ≡ s
unfolding has before
before-free c [] h = refl
before-free c (d ∷ s) h = ground (arith, before-free c s)

drop_last-append : (p : Text) (x : ℕ) (d : Text) → drop_last (p ++ (x ∷ d)) ≡ p ++ drop_last (x ∷ d)
unfolding drop_last
drop_last-append [] x d = refl
drop_last-append (a ∷ []) x d = refl
drop_last-append (a ∷ b ∷ p) x d = ap (λ s. a ∷ s) (drop_last-append (b ∷ p) x d)

ends_with-append :
    (c : ℕ) (p : Text) (x : ℕ) (d : Text) → ends_with c (p ++ (x ∷ d)) ≡ ends_with c (x ∷ d)
unfolding ends_with
ends_with-append c [] x d = refl
ends_with-append c (a ∷ []) x d = refl
ends_with-append c (a ∷ b ∷ p) x d = ends_with-append c (b ∷ p) x d

ends_with-free : (c : ℕ) (s : Text) → has c s ≡ false → ends_with c s ≡ false
unfolding ends_with has
ends_with-free c [] h = refl
ends_with-free c (a ∷ []) h = ground arith
ends_with-free c (a ∷ b ∷ s) h = ground (arith, ends_with-free c (b ∷ s))

has-drop_last : (c : ℕ) (s : Text) → has c s ≡ false → has c (drop_last s) ≡ false
unfolding drop_last has
has-drop_last c [] h = refl
has-drop_last c (a ∷ []) h = refl
has-drop_last c (a ∷ b ∷ s) h = ground (arith, has-drop_last c (b ∷ s))

split_on-ne : (c : ℕ) (s : Text) → split_on c s ≢ []
unfolding split_on
split_on-ne c [] e = cc
split_on-ne c (d ∷ s) e = elim (Bool-cases (d == c)) [
  | inl here ↦ cc (rw here at e)
  | inr there ↦ headed d (split_on c s) (rw there at e)
]
  where
    headed : (d : ℕ) (ps : List Text) → cons_head d ps ≢ []
    headed d [] e = cc
    headed d (p ∷ ps) e = cc

split_on-eq :
    (c : ℕ) (s : Text) → has c s ≡ true → split_on c s ≡ before c s ∷ split_on c (after c s)
split_on-eq c s h =
    subst (λ t. split_on c t ≡ before c s ∷ split_on c (after c s)) (before-after c s h)
      (split_on-append c (before c s) (after c s) (has-before c s))

head_eq : (p q : Text) (ps qs : List Text) → p ∷ ps ≡ q ∷ qs → (p ≡ q) × (ps ≡ qs)
head_eq p q ps qs e = (cc, cc)

-- A text of one part is that part.
split_one : (c : ℕ) (s d : Text) → split_on c s ≡ d ∷ [] → (has c s ≡ false) × (s ≡ d)
split_one c s d e = elim (Bool-cases (has c s)) [
  | inl there ↦
      absurd (split_on-ne c (after c s) (head_eq _ _ _ _ (sym (split_on-eq c s there) ∙ e)).1)
  | inr free ↦ (free, (head_eq _ _ _ _ (sym (split_on-free c s free) ∙ e)).0)
]

-- A text of two parts is the first, the character, and the second, which is free of it.
split_two :
    (c : ℕ) (s base d : Text)
    → split_on c s ≡ base ∷ d ∷ []
    → (before c s ≡ base) × (s ≡ base ++ (c ∷ d)) × (has c d ≡ false)
split_two c s base d e = elim (Bool-cases (has c s)) [
  | inl there ↦
      let (first, more) = head_eq _ _ _ _ (sym (split_on-eq c s there) ∙ e) in
      let (free, second) = split_one c (after c s) d more in
      (first, sym (before-after c s there) ∙ cc (first, second), rw second at free)
  | inr free ↦ absurd (cc (head_eq _ _ _ _ (sym (split_on-free c s free) ∙ e)).1)
]

open_not_close : ends_with b']' (b'[' ∷ []) ≡ false
unfolding ends_with
open_not_close = refl

ends_with_tail : (c x y : ℕ) (s : Text) → ends_with c (x ∷ y ∷ s) ≡ ends_with c (y ∷ s)
unfolding ends_with
ends_with_tail c x y s = refl

-- Two characters off an array type of variable length.
drop_brackets :
    (base d : Text)
    → has b'[' d ≡ false
    → ends_with b']' (base ++ (b'[' ∷ d)) ≡ true
    → ends_with b'[' (drop_last (base ++ (b'[' ∷ d))) ≡ true
    → drop_last (drop_last (base ++ (b'[' ∷ d))) ≡ base
unfolding drop_last
drop_brackets base [] h closed opened =
    absurd (cc (closed, ends_with-append b']' base b'[' [], open_not_close))
drop_brackets base (x ∷ []) h closed opened =
    rw (drop_last-append base b'[' (x ∷ []), drop_last-append base b'[' [], append-nil) refl
drop_brackets base (x ∷ y ∷ d) h closed opened = absurd (
    cc (
      opened,
      drop_last-append base b'[' (x ∷ y ∷ d),
      ends_with-append b'[' base b'[' (drop_last (x ∷ y ∷ d)),
      ends_with_tail b'[' b'[' x (drop_last (y ∷ d)),
      ends_with-free b'[' (drop_last (x ∷ y ∷ d)) (has-drop_last b'[' (x ∷ y ∷ d) h),
    ))

-- What the brackets of a type say of what it is parsed to.
IsParsedOf : Parsed → Text → Type 0
IsParsedOf parsed t = (parsed.base_type ≡ before b'[' t) × (parsed.is_array ≡ true)

ok_injective : (a b : Parsed) → ◌≡◌ {A = Result Error Parsed} (ok a) (ok b) → a ≡ b
ok_injective a b e = ap (λ r. elim r [ ok c ↦ c | err x ↦ a ]) e

of_dimension-IsParsedOf :
    (unicode : Unicode) (base t : Text) (n : Option ℤ) {parsed : Parsed}
    → before b'[' t ≡ base
    → of_dimension unicode base n ≡ ok parsed
    → IsParsedOf parsed t
unfolding IsParsedOf
of_dimension-IsParsedOf unicode base t none h e = absurd (cc)
of_dimension-IsParsedOf unicode base t (some n) {parsed = parsed} h e =
    subst (λ p. IsParsedOf p t) (ok_injective _ parsed e) (sym h, refl)

of_splits-IsParsedOf :
    (unicode : Unicode) (t : Text) (splits : List Text) {parsed : Parsed}
    → split_on b'[' t ≡ splits
    → of_splits unicode t splits ≡ ok parsed
    → IsParsedOf parsed t
unfolding IsParsedOf
of_splits-IsParsedOf unicode t [] h e = absurd (cc)
of_splits-IsParsedOf unicode t (base ∷ []) h e = absurd (cc)
of_splits-IsParsedOf unicode t (base ∷ d ∷ []) {parsed = parsed} h e =
    let (first, whole, free) = split_two b'[' t base d h in
    elim (Bool-cases (ends_with b']' t && ends_with b'[' (drop_last t))) [
      | inl variable ↦
          subst (λ p. IsParsedOf p t) (ok_injective _ parsed (rw variable at e))
            (
              subst (λ s. drop_last (drop_last s) ≡ base) (sym whole)
                    (drop_brackets base d free
                      (subst (λ s. ends_with b']' s ≡ true) whole (and_left _ _ variable))
                      (subst (λ s. ends_with b'[' (drop_last s) ≡ true) whole
                        (and_right _ _ variable)))
                  ∙ sym first,
              refl,
            )
      | inr fixed ↦
          of_dimension-IsParsedOf unicode base t (int_of unicode (drop_last d)) first
            (rw fixed at e)
    ]
of_splits-IsParsedOf unicode t (base ∷ d ∷ more ∷ rest) h e = absurd (cc)

-- A type that is parsed has the bare type as its base type, and is an array exactly if it has a
-- bracket.
pub parse_type-bare_msg_type :
    (unicode : Unicode) (t : Text) {parsed : Parsed}
    → parse_type unicode t ≡ ok parsed
    → (parsed.base_type ≡ bare_msg_type t) × (parsed.is_array ≡ has b'[' t)
unfolding parse_type bare_msg_type IsParsedOf
parse_type-bare_msg_type unicode [] e = absurd (cc)
parse_type-bare_msg_type unicode (c ∷ s) {parsed = parsed} e =
    elim (Bool-cases (has b'[' (c ∷ s))) [
      | inl bracket ↦
          let (base, array) = of_splits-IsParsedOf unicode (c ∷ s) _ refl (rw bracket at e) in
          (base, array ∙ sym bracket)
      | inr plain ↦
          let path = ok_injective _ parsed (rw plain at e) in
          (
            sym (ap (λ p. p.base_type) path) ∙ sym (before-free b'[' (c ∷ s) plain),
            sym (ap (λ p. p.is_array) path) ∙ sym plain,
          )
    ]
