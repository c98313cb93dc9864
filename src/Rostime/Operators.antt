-- ===== src/Rostime/Operators.antt =====
-- src/genpy/src/genpy/rostime.py: the `+` operator, which tries `__add__` and then `__radd__`.
use xc_ros.Rostime.{TVal, Outcome, raised, not_implemented, type_error, Operand, time, duration}
use xc_ros.Rostime.Time
use xc_ros.Rostime.Duration

module _ {ℓ} {F : Type ℓ} where
  -- `__radd__` of the right operand; numbers and plain `TVal`s answer `NotImplemented`
  abbrev radd : Operand F → Operand F → Outcome (Operand F)
  radd (time u) left = Time.add u left
  radd (duration e) left = Duration.add e left
  radd _ left = not_implemented

  abbrev or_else : Outcome (Operand F) → Outcome (Operand F) → Outcome (Operand F)
  or_else not_implemented next = next
  or_else first next = first

  abbrev or_type_error : Outcome (Operand F) → Outcome (Operand F)
  or_type_error o = or_else o (raised type_error)

  -- `t + o` and `d + o`
  unfoldable pub time_plus : TVal → Operand F → Outcome (Operand F)
  unfolding Time.add Duration.add
  time_plus t o = or_type_error (or_else (Time.add t o) (radd o (time t)))

  unfoldable pub duration_plus : TVal → Operand F → Outcome (Operand F)
  unfolding Time.add Duration.add
  duration_plus d o = or_type_error (or_else (Duration.add d o) (radd o (duration d)))
