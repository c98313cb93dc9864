-- ===== src/Rostime/Duration.antt =====
-- src/genpy/src/genpy/rostime.py: the operators of `Duration`.
use xc_ros.Prelude.{Bool, false, ◌&&◌, not, if◌then◌else◌}
use xc_ros.Prelude.Int.{ℤ, pos, ◌+ℤ◌, ◌-ℤ◌, ◌*ℤ◌, ltb_ℤ, eqb_ℤ}
use xc_ros.Rostime.{
  Float, TVal, Outcome, returned, raised, not_implemented, type_error, Operand, duration, integral,
  real, new_duration, to_nsec, cmp_nsec, to_sec, duration_from_sec, ◌>>=◌,
}

unfoldable pub neg : TVal → TVal
neg d = new_duration (pos 0 -ℤ d.secs) (pos 0 -ℤ d.nsecs)

unfoldable pub abs : TVal → TVal
abs d = if not (ltb_ℤ d.secs (pos 0)) then d else neg d

module _ {ℓ} {F : Type ℓ} where
  -- `Duration.__add__`, and `__radd__`
  unfoldable pub add : TVal → Operand F → Outcome (Operand F)
  add d (duration e) = returned (duration (new_duration (d.secs +ℤ e.secs) (d.nsecs +ℤ e.nsecs)))
  add d _ = not_implemented

  unfoldable pub sub : TVal → Operand F → Outcome (Operand F)
  sub d (duration e) = returned (duration (new_duration (d.secs -ℤ e.secs) (d.nsecs -ℤ e.nsecs)))
  sub d _ = not_implemented

  unfoldable pub cmp : TVal → Operand F → Outcome ℤ
  cmp d (duration e) = returned (cmp_nsec (to_nsec d) (to_nsec e))
  cmp d _ = raised type_error

  unfoldable pub eq : TVal → Operand F → Bool
  eq d (duration e) = eqb_ℤ d.secs e.secs && eqb_ℤ d.nsecs e.nsecs
  eq d _ = false

module _ (fl : Float) where
  open fl use {F, of_int, trunc, div, floordiv, mod_of}

  -- a duration made of the float that `x` returns
  abbrev pub from_float : Outcome F → Outcome (Operand F)
  from_float x = do s ← x; d ← duration_from_sec fl s; returned (duration d)

  unfoldable pub mul : TVal → Operand F → Outcome (Operand F)
  mul d (integral v) = returned (duration (new_duration (d.secs *ℤ v) (d.nsecs *ℤ v)))
  mul d (real v) = from_float (do s ← to_sec fl d; returned (fl.mul s v))
  mul d _ = not_implemented

  -- `//`: by a number, or the rounded quotient of two durations
  unfoldable pub floor_divide : TVal → Operand F → Outcome (Operand F)
  floor_divide d (integral v) = from_float (do s ← to_sec fl d; w ← of_int v; floordiv s w)
  floor_divide d (real v) = from_float (do s ← to_sec fl d; floordiv s v)
  floor_divide d (duration e) = do
    s ← to_sec fl d
    t ← to_sec fl e
    q ← floordiv s t
    n ← trunc q
    returned (integral n)
  floor_divide d _ = not_implemented

  -- `__div__` and `__truediv__`: an int is a `numbers.Real` too
  unfoldable pub true_divide : TVal → Operand F → Outcome (Operand F)
  true_divide d (integral v) = from_float (do s ← to_sec fl d; w ← of_int v; div s w)
  true_divide d (real v) = from_float (do s ← to_sec fl d; div s v)
  true_divide d (duration e) = do s ← to_sec fl d; t ← to_sec fl e; q ← div s t; returned (real q)
  true_divide d _ = not_implemented

  unfoldable pub modulo : TVal → Operand F → Outcome (Operand F)
  modulo d (duration e) = from_float (do s ← to_sec fl d; t ← to_sec fl e; mod_of s t)
  modulo d _ = not_implemented

  unfoldable pub div_mod : TVal → Operand F → Outcome (Operand F × Operand F)
  div_mod d (duration e) = do
    s ← to_sec fl d
    t ← to_sec fl e
    q ← floordiv s t
    r ← mod_of s t
    n ← trunc q
    rest ← duration_from_sec fl r
    returned (integral n, duration rest)
  div_mod d _ = not_implemented
