-- ===== src/Rostime/Tests.antt =====
-- Small times and durations, and the theorems at them.
use xc_ros.Prelude.{◌≡◌, refl, arith, if◌then◌else◌}
use xc_ros.Prelude.Int.{ℤ, pos, negsuc, ◌+ℤ◌, ◌-ℤ◌, ◌*ℤ◌, floor_div, pos_part, eqb_ℤ}
use xc_ros.Rostime.{
  Float, TVal, returned, raised, zero_division, time, duration, integral, canon, to_nsec, new_time,
  new_duration, duration_from_sec, time_from_sec, type_error,
}
use xc_ros.Rostime.Time
use xc_ros.Rostime.Duration
use xc_ros.Rostime.Operators.{time_plus, duration_plus}
use xc_ros.Rostime.Canonical.{IsCanonical, nsec_of, canon_lem}
use xc_ros.Rostime.Arithmetic.{
  IsTime, IsTimeOf, IsDurationOf, time_arithmetic, duration_arithmetic, plus-sub,
}
use xc_ros.Rostime.Compare.{Agrees, compare_nsec}
use xc_ros.Rostime.Results.{OnReturn, IsBuilt, IsMade, duration_operators-IsBuilt}

-- A stand-in for floats: whole seconds.
abbrev whole_seconds : Float
whole_seconds = record {
  F = ℤ;
  of_int = λ n. returned n;
  trunc = λ x. returned x;
  add = ◌+ℤ◌;
  sub = ◌-ℤ◌;
  mul = ◌*ℤ◌;
  div =
      λ x y. if eqb_ℤ y (pos 0) then raised zero_division else returned (floor_div x (pos_part y));
  floordiv =
      λ x y. if eqb_ℤ y (pos 0) then raised zero_division else returned (floor_div x (pos_part y));
  mod_of = λ x y.
      if eqb_ℤ y (pos 0)
      then raised zero_division
      else returned (x -ℤ floor_div x (pos_part y) *ℤ y);
}

abbrev two_and_a_half : TVal
two_and_a_half = record { secs = pos 2; nsecs = pos 500000000 }

abbrev one_and_a_half_back : TVal
one_and_a_half_back = record { secs = negsuc 1; nsecs = pos 500000000 }

abbrev three_and_a_half : TVal
three_and_a_half = record { secs = pos 3; nsecs = pos 500000000 }

abbrev one : TVal
one = record { secs = pos 1; nsecs = pos 0 }

program : Unit {0}
unfolding canon floor_div ◌+ℤ◌ ◌-ℤ◌ ◌*ℤ◌ new_time new_duration to_nsec time_plus duration_plus
program = tt

canon_carries : canon (pos 1) (negsuc 2499999999) ≡ one_and_a_half_back
unfolding program
canon_carries = refl

negative_time : new_time (pos 1) (negsuc 2499999999) ≡ raised type_error
unfolding program
negative_time = refl

sum_of_two : time_plus {F = ℤ} one (duration two_and_a_half) ≡ returned (time three_and_a_half)
unfolding program
sum_of_two = refl

two_and_a_half-IsCanonical : IsCanonical two_and_a_half
two_and_a_half-IsCanonical = omega arith

one-IsTime : IsTime one
unfolding program
one-IsTime = record { canonical = omega arith; nonnegative = omega arith }

canon_lem_example :
    IsCanonical (canon (pos 1) (negsuc 2499999999))
    × (to_nsec (canon (pos 1) (negsuc 2499999999)) ≡ nsec_of (pos 1) (negsuc 2499999999))
    × (canon (pos 1) (negsuc 2499999999) ≡ one_and_a_half_back)
unfolding program
canon_lem_example = canon_lem (pos 1) (negsuc 2499999999) one_and_a_half_back (omega arith) refl

time_arithmetic_example :
    IsTimeOf {F = ℤ}
      (to_nsec one +ℤ to_nsec two_and_a_half)
      (time_plus one (duration two_and_a_half))
    × IsTimeOf {F = ℤ}
        (to_nsec one -ℤ to_nsec two_and_a_half)
        (Time.sub one (duration two_and_a_half))
    × IsDurationOf {F = ℤ}
        (to_nsec one -ℤ to_nsec three_and_a_half)
        (Time.sub one (time three_and_a_half))
time_arithmetic_example = time_arithmetic ℤ one three_and_a_half two_and_a_half

duration_arithmetic_example :
    IsDurationOf {F = ℤ}
      (to_nsec one +ℤ to_nsec two_and_a_half)
      (duration_plus one (duration two_and_a_half))
    × IsDurationOf {F = ℤ}
        (to_nsec one -ℤ to_nsec two_and_a_half)
        (Duration.sub one (duration two_and_a_half))
    × IsDurationOf {F = ℤ} (pos 0 -ℤ to_nsec one) (returned (duration (Duration.neg one)))
    × IsDurationOf (to_nsec one *ℤ negsuc 2) (Duration.mul whole_seconds one (integral (negsuc 2)))
duration_arithmetic_example = duration_arithmetic ℤ one two_and_a_half (negsuc 2) whole_seconds

plus-sub_example :
    (Time.sub {F = ℤ} three_and_a_half (duration two_and_a_half) ≡ returned (time one))
    × (Time.sub {F = ℤ} three_and_a_half (time one) ≡ returned (duration two_and_a_half))
plus-sub_example =
    plus-sub ℤ one two_and_a_half three_and_a_half one-IsTime two_and_a_half-IsCanonical sum_of_two

compare_nsec_example :
    Agrees
      (Time.cmp {F = ℤ} one (time two_and_a_half))
      (Time.eq {F = ℤ} one (time two_and_a_half))
      (to_nsec one)
      (to_nsec two_and_a_half)
    × Agrees
        (Duration.cmp {F = ℤ} one (duration two_and_a_half))
        (Duration.eq {F = ℤ} one (duration two_and_a_half))
        (to_nsec one)
        (to_nsec two_and_a_half)
compare_nsec_example = compare_nsec ℤ one two_and_a_half (omega arith) (omega arith)

duration_operators-IsBuilt_example :
    OnReturn IsBuilt (Duration.mul whole_seconds two_and_a_half (integral (pos 3)))
    × OnReturn IsBuilt (Duration.floor_divide whole_seconds two_and_a_half (integral (pos 3)))
    × OnReturn IsBuilt (Duration.true_divide whole_seconds two_and_a_half (integral (pos 3)))
    × OnReturn IsBuilt (Duration.modulo whole_seconds two_and_a_half (integral (pos 3)))
    × ((x : ℤ) → OnReturn IsCanonical (duration_from_sec whole_seconds x))
    × ((x : ℤ) → OnReturn IsMade (time_from_sec whole_seconds x))
duration_operators-IsBuilt_example =
    duration_operators-IsBuilt whole_seconds two_and_a_half (integral (pos 3))
