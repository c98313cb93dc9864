-- ===== src/Rostime/Arithmetic.antt =====
-- src/genpy/src/genpy/rostime.py: sums, differences and multiples in nanoseconds.
use xc_ros.Prelude.{
  ◌≡◌, refl, sym, subst, ◌∙◌, ap, arith, if◌then◌else◌, Bool-cases, ltb→lt, ge_of_ltb, inl, inr,
}
use xc_ros.Prelude.Int.{
  ℤ, pos, ◌+ℤ◌, ◌-ℤ◌, ◌*ℤ◌, ◌≤ℤ◌, ◌<ℤ◌, ltb_ℤ, ltb-eq_of_iff, *ℤ_add_left, *ℤ_right_comm, int_laws,
}
use xc_ros.Rostime.{
  TVal, Outcome, returned, raised, type_error, Operand, time, duration, integral, canon, to_nsec,
  billion, new_time, new_duration, ◌>>=◌, Float,
}
use xc_ros.Rostime.Time
use xc_ros.Rostime.Duration
use xc_ros.Rostime.Operators.{time_plus, duration_plus}
use xc_ros.Rostime.Canonical.{
  IsCanonical, nsec_of, canon-IsCanonical, to_nsec-canon, to_nsec-injective,
}

-- A canonical value is negative exactly if its seconds are.
negative_iff : (t : TVal) → IsCanonical t → ltb_ℤ t.secs (pos 0) ≡ ltb_ℤ (to_nsec t) (pos 0)
unfolding to_nsec
negative_iff t c = ltb-eq_of_iff _ _ _ _ (λ h. omega int_laws) (λ h. omega int_laws)

secs-canon_neg : (s n : ℤ) → ltb_ℤ (canon s n).secs (pos 0) ≡ ltb_ℤ (nsec_of s n) (pos 0)
secs-canon_neg s n =
    negative_iff (canon s n) (canon-IsCanonical s n) ∙ ap (λ a. ltb_ℤ a (pos 0)) (to_nsec-canon s n)

-- What `Time(secs, nsecs)` makes: it raises TypeError exactly for a negative time.
pub new_time-eq :
    (s n : ℤ)
    → new_time s n
      ≡ (if ltb_ℤ (nsec_of s n) (pos 0) then raised type_error else returned (canon s n))
unfolding new_time
new_time-eq s n = rw (secs-canon_neg s n)

-- Adding a duration and a time does not depend on their order.
pub plus_comm {ℓ} :
    {F : Type ℓ} (t d : TVal) → time_plus {F = F} t (duration d) ≡ duration_plus d (time t)
unfolding time_plus duration_plus
plus_comm t d = ground arith

-- The nanoseconds of a sum, a difference, a negation and a multiple of two pairs of fields.
nsec_of-add :
    (t u : TVal) → nsec_of (t.secs +ℤ u.secs) (t.nsecs +ℤ u.nsecs) ≡ to_nsec t +ℤ to_nsec u
unfolding to_nsec
nsec_of-add t u = omega int_laws

nsec_of-sub :
    (t u : TVal) → nsec_of (t.secs -ℤ u.secs) (t.nsecs -ℤ u.nsecs) ≡ to_nsec t -ℤ to_nsec u
unfolding to_nsec
nsec_of-sub t u = omega int_laws

nsec_of-neg : (t : TVal) → nsec_of (pos 0 -ℤ t.secs) (pos 0 -ℤ t.nsecs) ≡ pos 0 -ℤ to_nsec t
unfolding to_nsec
nsec_of-neg t = omega int_laws

nsec_of-mul : (t : TVal) (v : ℤ) → nsec_of (t.secs *ℤ v) (t.nsecs *ℤ v) ≡ to_nsec t *ℤ v
unfolding to_nsec
nsec_of-mul t v = simp (*ℤ_add_left, *ℤ_right_comm t.secs v billion)

abbrev pub magnitude : ℤ → ℤ
magnitude n = if ltb_ℤ n (pos 0) then pos 0 -ℤ n else n

-- What an operator owes when the exact result is `n` nanoseconds.
abbrev pub IsDurationOf {ℓ} : {F : Type ℓ} → ℤ → Outcome (Operand F) → Type 0
IsDurationOf n (returned (duration u)) = IsCanonical u × (to_nsec u ≡ n)
IsDurationOf n _ = ⊥

abbrev pub IsTimeOf {ℓ} : {F : Type ℓ} → ℤ → Outcome (Operand F) → Type 0
IsTimeOf n (returned (time u)) = IsCanonical u × (to_nsec u ≡ n) × (pos 0 ≤ℤ n)
IsTimeOf n (raised type_error) = n <ℤ pos 0
IsTimeOf n _ = ⊥

module _ {ℓ} (F : Type ℓ) where
  new_time-IsTimeOf :
      (s n k : ℤ) → nsec_of s n ≡ k → IsTimeOf {F = F} k (new_time s n >>= λ u. returned (time u))
  new_time-IsTimeOf s n k e = elim (Bool-cases (ltb_ℤ (nsec_of s n) (pos 0))) [
    | inl below ↦ rw (new_time-eq s n, below) (rw e at (ltb→lt _ _ below))
    | inr above ↦
        rw (new_time-eq s n, above)
          (canon-IsCanonical s n, to_nsec-canon s n ∙ e, rw e at (ge_of_ltb _ _ above))
  ]

  new_duration-IsDurationOf :
      (s n k : ℤ)
      → nsec_of s n ≡ k
      → IsDurationOf {F = F} k (returned (duration (new_duration s n)))
  unfolding new_duration
  new_duration-IsDurationOf s n k e = (canon-IsCanonical s n, to_nsec-canon s n ∙ e)

  time_plus-eq-add : (t d : TVal) → time_plus {F = F} t (duration d) ≡ Time.add t (duration d)
  unfolding time_plus Time.add
  time_plus-eq-add t d = ground (arith, new_time-eq (t.secs +ℤ d.secs) (t.nsecs +ℤ d.nsecs))

  -- A time plus or minus a duration is the canonical time of the exact nanoseconds, and it raises
  -- TypeError exactly if those are negative. The difference of two times is a duration.
  pub time_arithmetic :
      (t u d : TVal)
      → IsTimeOf {F = F} (to_nsec t +ℤ to_nsec d) (time_plus t (duration d))
        × IsTimeOf {F = F} (to_nsec t -ℤ to_nsec d) (Time.sub t (duration d))
        × IsDurationOf {F = F} (to_nsec t -ℤ to_nsec u) (Time.sub t (time u))
  time_arithmetic t u d = (
    rw (time_plus-eq-add t d) (unfold Time.add in new_time-IsTimeOf _ _ _ (nsec_of-add t d)),
    unfold Time.sub in new_time-IsTimeOf _ _ _ (nsec_of-sub t d),
    unfold Time.sub in new_duration-IsDurationOf _ _ _ (nsec_of-sub t u),
  )

  pub duration_arithmetic :
      (d e : TVal) (v : ℤ) (fl : Float)
      → IsDurationOf {F = F} (to_nsec d +ℤ to_nsec e) (duration_plus d (duration e))
        × IsDurationOf {F = F} (to_nsec d -ℤ to_nsec e) (Duration.sub d (duration e))
        × IsDurationOf {F = F} (pos 0 -ℤ to_nsec d) (returned (duration (Duration.neg d)))
        × IsDurationOf (to_nsec d *ℤ v) (Duration.mul fl d (integral v))
  duration_arithmetic d e v fl = (
    unfold duration_plus Duration.add in new_duration-IsDurationOf _ _ _ (nsec_of-add d e),
    unfold Duration.sub in new_duration-IsDurationOf _ _ _ (nsec_of-sub d e),
    unfold Duration.neg in new_duration-IsDurationOf _ _ _ (nsec_of-neg d),
    unfold Duration.mul in
        unfold new_duration in (canon-IsCanonical _ _, to_nsec-canon _ _ ∙ nsec_of-mul d v),
  )

-- A `Time` that a constructor has made: canonical, and not negative.
pub record IsTime (t : TVal) : Type 0 where
  pub canonical : IsCanonical t
  pub nonnegative : pos 0 ≤ℤ to_nsec t

module _ {ℓ} {F : Type ℓ} where
  -- The contract determines the result.
  IsTimeOf-eq :
      (t : TVal) {n : ℤ} (o : Outcome (Operand F))
      → IsTime t
      → n ≡ to_nsec t
      → IsTimeOf n o
      → o ≡ returned (time t)
  IsTimeOf-eq t (returned (time u)) h e r =
      ap (λ x. returned (time x)) (to_nsec-injective u t r.0 h.canonical (r.1 ∙ e))
  IsTimeOf-eq t (raised type_error) h e r = absurd (below (rw e at r) h.nonnegative)
    where
      below : to_nsec t <ℤ pos 0 → pos 0 ≤ℤ to_nsec t → ⊥
      below a b = omega arith
  IsTimeOf-eq t _ h e r = absurd r

  IsDurationOf-eq :
      (d : TVal) {n : ℤ} (o : Outcome (Operand F))
      → IsCanonical d
      → n ≡ to_nsec d
      → IsDurationOf n o
      → o ≡ returned (duration d)
  IsDurationOf-eq d (returned (duration u)) h e r =
      ap (λ x. returned (duration x)) (to_nsec-injective u d r.0 h (r.1 ∙ e))
  IsDurationOf-eq d _ h e r = absurd r

-- For a canonical time `t` that is not negative and a canonical duration `d`: if `t + d` is the time
-- `u`, then `u - d` is `t` and `u - t` is `d`, field by field.
pub plus-sub {ℓ} :
    (F : Type ℓ) (t d u : TVal)
    → IsTime t
    → IsCanonical d
    → time_plus {F = F} t (duration d) ≡ returned (time u)
    → (Time.sub {F = F} u (duration d) ≡ returned (time t))
      × (Time.sub {F = F} u (time t) ≡ returned (duration d))
plus-sub F t d u ht hd e = (
  IsTimeOf-eq t _ ht minus_d (time_arithmetic F u u d).1,
  IsDurationOf-eq d _ hd minus_t (time_arithmetic F u t d).2,
)
  where
    total : to_nsec u ≡ to_nsec t +ℤ to_nsec d
    total = (subst (IsTimeOf {F = F} (to_nsec t +ℤ to_nsec d)) e (time_arithmetic F t u d).0).1

    minus_d : to_nsec u -ℤ to_nsec d ≡ to_nsec t
    minus_d = rw total (omega int_laws)

    minus_t : to_nsec u -ℤ to_nsec t ≡ to_nsec d
    minus_t = rw total (omega int_laws)

neg-IsDurationOf :
    (d : TVal) → IsCanonical (Duration.neg d) × (to_nsec (Duration.neg d) ≡ pos 0 -ℤ to_nsec d)
unfolding Duration.neg new_duration
neg-IsDurationOf d = (canon-IsCanonical _ _, to_nsec-canon _ _ ∙ nsec_of-neg d)

neg-neg : (d : TVal) → IsCanonical d → Duration.neg (Duration.neg d) ≡ d
neg-neg d h =
    let (c, e) = neg-IsDurationOf d in
    let (c', e') = neg-IsDurationOf (Duration.neg d) in
    to_nsec-injective _ d c' h (e' ∙ rw e (omega int_laws))

abs_lem :
    (d : TVal)
    → IsCanonical d
    → IsCanonical (Duration.abs d) × (to_nsec (Duration.abs d) ≡ magnitude (to_nsec d))
unfolding Duration.abs
abs_lem d h = elim (Bool-cases (ltb_ℤ d.secs (pos 0))) [
  | inl below ↦ rw (below, sym (negative_iff d h) ∙ below) (neg-IsDurationOf d)
  | inr above ↦ rw (above, sym (negative_iff d h) ∙ above) (h, refl)
]

-- `abs` of a canonical duration is the canonical duration of the absolute value, and negating it
-- twice gives it back.
pub abs-neg :
    (d : TVal)
    → IsCanonical d
    → IsCanonical (Duration.abs d)
      × (to_nsec (Duration.abs d) ≡ magnitude (to_nsec d))
      × (Duration.neg (Duration.neg d) ≡ d)
abs-neg d h = ((abs_lem d h).0, (abs_lem d h).1, neg-neg d h)
