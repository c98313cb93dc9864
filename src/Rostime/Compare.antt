-- ===== src/Rostime/Compare.antt =====
-- src/genpy/src/genpy/rostime.py: the comparisons of times and of durations.
use xc_ros.Prelude.{
  ◌≡◌, refl, ap, ◌↔◌, arith, Bool, true, false, not, ◌&&◌, bool_eq_of_iff, and_left, and_right,
}
use xc_ros.Prelude.Int.{ℤ, ◌-ℤ◌, ltb_ℤ, eqb_ℤ}
use xc_ros.Rostime.{
  TVal, Outcome, returned, not_implemented, time, duration, to_nsec, cmp_nsec, lt, le, gt, ge,
}
use xc_ros.Rostime.Time
use xc_ros.Rostime.Duration
use xc_ros.Rostime.Canonical.{IsCanonical, to_nsec-injective}

pub eqb_ℤ_iff : (a b : ℤ) → (eqb_ℤ a b ≡ true) ↔ (a ≡ b)
eqb_ℤ_iff a b = ground arith

-- The four order operators on the result of `__cmp__`.
cmp_nsec-orders :
    (a b : ℤ)
    → (lt (returned (cmp_nsec a b)) ≡ returned (ltb_ℤ a b))
      × (le (returned (cmp_nsec a b)) ≡ returned (not (ltb_ℤ b a)))
      × (gt (returned (cmp_nsec a b)) ≡ returned (ltb_ℤ b a))
      × (ge (returned (cmp_nsec a b)) ≡ returned (not (ltb_ℤ a b)))
unfolding cmp_nsec ◌-ℤ◌ lt le gt ge
cmp_nsec-orders a b = ground arith

eq_fields :
    (t u : TVal)
    → IsCanonical t
    → IsCanonical u
    → eqb_ℤ t.secs u.secs && eqb_ℤ t.nsecs u.nsecs ≡ eqb_ℤ (to_nsec t) (to_nsec u)
eq_fields t u ht hu =
    bool_eq_of_iff _ _
      (λ e.
        (eqb_ℤ_iff _ _).1
          (ap to_nsec (λ i. record { secs = same_secs e i; nsecs = same_nsecs e i })))
      (λ e.
        let p = to_nsec-injective t u ht hu ((eqb_ℤ_iff _ _).0 e) in
        rw (
          (eqb_ℤ_iff _ _).1 (ap (λ (x : TVal). x.secs) p),
          (eqb_ℤ_iff _ _).1 (ap (λ (x : TVal). x.nsecs) p),
        ))
  where
    same_secs : eqb_ℤ t.secs u.secs && eqb_ℤ t.nsecs u.nsecs ≡ true → t.secs ≡ u.secs
    same_secs e = (eqb_ℤ_iff t.secs u.secs).0 (and_left _ (eqb_ℤ t.nsecs u.nsecs) e)

    same_nsecs : eqb_ℤ t.secs u.secs && eqb_ℤ t.nsecs u.nsecs ≡ true → t.nsecs ≡ u.nsecs
    same_nsecs e = (eqb_ℤ_iff t.nsecs u.nsecs).0 (and_right (eqb_ℤ t.secs u.secs) _ e)

abbrev pub Agrees : Outcome ℤ → Bool → ℤ → ℤ → Type 0
Agrees c same a b =
    (lt c ≡ returned (ltb_ℤ a b))
    × (le c ≡ returned (not (ltb_ℤ b a)))
    × (gt c ≡ returned (ltb_ℤ b a))
    × (ge c ≡ returned (not (ltb_ℤ a b)))
    × (same ≡ eqb_ℤ a b)

-- On canonical values of one class the four orders and the field-wise `==` are those of the
-- nanoseconds.
pub compare_nsec {ℓ} :
    (F : Type ℓ) (t u : TVal)
    → IsCanonical t
    → IsCanonical u
    → Agrees (Time.cmp {F = F} t (time u)) (Time.eq {F = F} t (time u)) (to_nsec t) (to_nsec u)
      × Agrees
          (Duration.cmp {F = F} t (duration u))
          (Duration.eq {F = F} t (duration u))
          (to_nsec t)
          (to_nsec u)
unfolding Time.cmp Time.eq Duration.cmp Duration.eq
compare_nsec F t u ht hu =
    let (a, b, c, d) = cmp_nsec-orders (to_nsec t) (to_nsec u) in
    let e = eq_fields t u ht hu in ((a, b, c, d, e), (a, b, c, d, e))

-- Times and durations do not mix: no order is defined between them, and they are never equal.
pub compare_mixed {ℓ} :
    (F : Type ℓ) (t d : TVal)
    → (lt (Time.cmp {F = F} t (duration d)) ≡ not_implemented)
      × (lt (Duration.cmp {F = F} d (time t)) ≡ not_implemented)
      × (Time.eq {F = F} t (duration d) ≡ false)
      × (Duration.eq {F = F} d (time t) ≡ false)
unfolding Time.cmp Time.eq Duration.cmp Duration.eq lt
compare_mixed F t d = (refl, refl, refl, refl)
