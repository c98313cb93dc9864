-- ===== src/Rostime/Time.antt =====
-- src/genpy/src/genpy/rostime.py: the operators of `Time`.
use xc_ros.Prelude.{Bool, false, ◌&&◌}
use xc_ros.Prelude.Int.{ℤ, ◌+ℤ◌, ◌-ℤ◌, eqb_ℤ}
use xc_ros.Rostime.{
  TVal, Outcome, returned, raised, not_implemented, type_error, Operand, time, duration, new_time,
  new_duration, to_nsec, cmp_nsec, ◌>>=◌,
}

module _ {ℓ} {F : Type ℓ} where
  -- `Time.__add__`, and `__radd__`
  unfoldable pub add : TVal → Operand F → Outcome (Operand F)
  add t (duration d) = new_time (t.secs +ℤ d.secs) (t.nsecs +ℤ d.nsecs) >>= λ u. returned (time u)
  add t _ = not_implemented

  unfoldable pub sub : TVal → Operand F → Outcome (Operand F)
  sub t (time u) = returned (duration (new_duration (t.secs -ℤ u.secs) (t.nsecs -ℤ u.nsecs)))
  sub t (duration d) = new_time (t.secs -ℤ d.secs) (t.nsecs -ℤ d.nsecs) >>= λ u. returned (time u)
  sub t _ = not_implemented

  unfoldable pub cmp : TVal → Operand F → Outcome ℤ
  cmp t (time u) = returned (cmp_nsec (to_nsec t) (to_nsec u))
  cmp t _ = raised type_error

  unfoldable pub eq : TVal → Operand F → Bool
  eq t (time u) = eqb_ℤ t.secs u.secs && eqb_ℤ t.nsecs u.nsecs
  eq t _ = false
