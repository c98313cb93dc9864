-- ===== src/Rostime/Results.antt =====
-- src/genpy/src/genpy/rostime.py: every value that an operation makes is canonical.
use xc_ros.Prelude.{◌≡◌, Bool-cases, inl, inr, false}
use xc_ros.Prelude.Int.{ℤ, pos, ltb_ℤ}
use xc_ros.Rostime.{
  Float, TVal, Outcome, returned, raised, not_implemented, Operand, time, duration, integral, real,
  canon, new_duration, duration_from_sec, time_from_sec, new_time, to_sec, ◌>>=◌,
}
use xc_ros.Rostime.Duration
use xc_ros.Rostime.Canonical.{IsCanonical, canon-IsCanonical}

-- A postcondition of whatever is returned.
abbrev pub OnReturn {ℓ} : {A : Type ℓ} → (A → Type 0) → Outcome A → Type 0
OnReturn P (returned a) = P a
OnReturn P _ = Unit

OnReturn-bind {ℓ κ} :
    {A : Type ℓ} {B : Type κ} (P : B → Type 0) (o : Outcome A) (f : A → Outcome B)
    → ((a : A) → OnReturn P (f a))
    → OnReturn P (o >>= f)
OnReturn-bind P (returned a) f h = h a
OnReturn-bind P (raised e) f h = tt
OnReturn-bind P not_implemented f h = tt

-- What the constructor of `Time` checks.
abbrev pub IsMade : TVal → Type 0
IsMade t = IsCanonical t × (ltb_ℤ t.secs (pos 0) ≡ false)

-- An operand that is a time or a duration is a value that its class's constructor can make.
abbrev pub IsBuilt {ℓ} : {F : Type ℓ} → Operand F → Type 0
IsBuilt (time t) = IsMade t
IsBuilt (duration d) = IsCanonical d
IsBuilt _ = Unit

new_duration-IsCanonical : (s n : ℤ) → IsCanonical (new_duration s n)
unfolding new_duration
new_duration-IsCanonical s n = canon-IsCanonical s n

new_time-IsMade : (s n : ℤ) → OnReturn IsMade (new_time s n)
unfolding new_time
new_time-IsMade s n = elim (Bool-cases (ltb_ℤ (canon s n).secs (pos 0))) [
  | inl below ↦ rw below tt
  | inr above ↦ rw above (canon-IsCanonical s n, above)
]

module _ (fl : Float) where
  open fl use {F, of_int, trunc, sub, mul}

  pub from_sec-IsCanonical : (x : F) → OnReturn IsCanonical (duration_from_sec fl x)
  unfolding duration_from_sec
  from_sec-IsCanonical x = OnReturn-bind _ (trunc x) _ λ secs.
      OnReturn-bind _ (of_int secs) _ λ base. OnReturn-bind _ (of_int _) _ λ e9.
        OnReturn-bind _ (trunc (mul (sub x base) e9)) _ λ nsecs. new_duration-IsCanonical secs nsecs

  from_sec-IsMade : (x : F) → OnReturn IsMade (time_from_sec fl x)
  unfolding time_from_sec
  from_sec-IsMade x = OnReturn-bind _ (trunc x) _ λ secs. OnReturn-bind _ (of_int secs) _ λ base.
      OnReturn-bind _ (of_int _) _
        λ e9. OnReturn-bind _ (trunc (mul (sub x base) e9)) _ λ nsecs. new_time-IsMade secs nsecs

  from_float-IsBuilt : (o : Outcome F) → OnReturn IsBuilt (Duration.from_float fl o)
  from_float-IsBuilt o =
      OnReturn-bind _ o _ λ x. lift (duration_from_sec fl x) (from_sec-IsCanonical x)
    where
      lift :
          (d : Outcome TVal)
          → OnReturn IsCanonical d
          → OnReturn {A = Operand F} IsBuilt (d >>= λ u. returned (duration u))
      lift (returned u) h = h
      lift (raised e) h = tt
      lift not_implemented h = tt

  -- Every duration that `*`, `//`, `/`, `%` or `from_sec` returns, whatever the operand and the
  -- floats do, is canonical; every time that `from_sec` returns is canonical and not negative.
  pub duration_operators-IsBuilt :
      (d : TVal) (o : Operand F)
      → OnReturn IsBuilt (Duration.mul fl d o)
        × OnReturn IsBuilt (Duration.floor_divide fl d o)
        × OnReturn IsBuilt (Duration.true_divide fl d o)
        × OnReturn IsBuilt (Duration.modulo fl d o)
        × ((x : F) → OnReturn IsCanonical (duration_from_sec fl x))
        × ((x : F) → OnReturn IsMade (time_from_sec fl x))
  unfolding Duration.mul Duration.floor_divide Duration.true_divide Duration.modulo
  duration_operators-IsBuilt d (integral v) = (
    new_duration-IsCanonical _ _,
    from_float-IsBuilt _,
    from_float-IsBuilt _,
    tt,
    from_sec-IsCanonical,
    from_sec-IsMade,
  )
  duration_operators-IsBuilt d (real v) = (
    from_float-IsBuilt _,
    from_float-IsBuilt _,
    from_float-IsBuilt _,
    tt,
    from_sec-IsCanonical,
    from_sec-IsMade,
  )
  duration_operators-IsBuilt d (duration e) = (
    tt,
    OnReturn-bind _ (to_sec fl d) _ λ s.
        OnReturn-bind _ (to_sec fl e) _
          λ t. OnReturn-bind _ (fl.floordiv s t) _ λ q. OnReturn-bind _ (trunc q) _ λ n. tt,
    OnReturn-bind _ (to_sec fl d) _
        λ s. OnReturn-bind _ (to_sec fl e) _ λ t. OnReturn-bind _ (fl.div s t) _ λ q. tt,
    from_float-IsBuilt _,
    from_sec-IsCanonical,
    from_sec-IsMade,
  )
  duration_operators-IsBuilt d _ = (tt, tt, tt, tt, from_sec-IsCanonical, from_sec-IsMade)
