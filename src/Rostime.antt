-- ===== src/Rostime.antt =====
-- src/genpy/src/genpy/rostime.py: the base class `TVal`, the constructors of its subclasses, and the
-- values and exceptions that the operators of the three classes meet.
pub mod Time
pub mod Duration
pub mod Canonical
pub mod Operators
pub mod Arithmetic
pub mod Compare
pub mod Results
mod Tests
use xc_ros.Prelude.{Bool, true, false, not, ◌&&◌, ◌||◌, ℕ, if◌then◌else◌}
use xc_ros.Prelude.Int.{ℤ, pos, negsuc, ◌+ℤ◌, ◌-ℤ◌, ◌*ℤ◌, floor_div, ltb_ℤ, eqb_ℤ}

pub data Exn : Type 0 where
  type_error value_error overflow_error zero_division : Exn

-- What a special method does: return, raise, or return `NotImplemented`.
pub data Outcome {ℓ} (A : Type ℓ) : Type ℓ where
  returned : A → Outcome A
  raised : Exn → Outcome A
  not_implemented : Outcome A

infixl 5 ◌>>=◌
abbrev pub ◌>>=◌ {ℓ κ} : {A : Type ℓ} {B : Type κ} → Outcome A → (A → Outcome B) → Outcome B
returned a >>= f = f a
raised e >>= f = raised e
not_implemented >>= f = not_implemented

-- Python's `float`: the operations that the module calls. `trunc` is `int(x)`.
pub record Float : Type 1 where
  pub F : Type 0
  pub of_int : ℤ → Outcome F
  pub trunc : F → Outcome ℤ
  pub add : F → F → F
  pub sub : F → F → F
  pub mul : F → F → F
  pub div : F → F → Outcome F
  pub floordiv : F → F → Outcome F
  pub mod_of : F → F → Outcome F

pub record TVal : Type 0 where
  pub secs : ℤ
  pub nsecs : ℤ

abbrev pub billion : ℤ
billion = pos 1000000000

-- `_canon`
unfoldable pub canon : ℤ → ℤ → TVal
canon secs nsecs =
    let secs_over = floor_div nsecs 1000000000 in
    record { secs = secs +ℤ secs_over; nsecs = nsecs -ℤ secs_over *ℤ billion }

-- `__nonzero__` and `__bool__`
unfoldable pub nonzero : TVal → Bool
nonzero t = not (eqb_ℤ t.secs (pos 0)) || not (eqb_ℤ t.nsecs (pos 0))

unfoldable pub is_zero : TVal → Bool
is_zero t = eqb_ℤ t.secs (pos 0) && eqb_ℤ t.nsecs (pos 0)

-- `TVal.set` assigns the fields as they are; `TVal.canon` brings them in canonical form.
unfoldable pub set : ℤ → ℤ → TVal → TVal
set secs nsecs t = record t { secs = secs; nsecs = nsecs }

unfoldable pub canon_in_place : TVal → TVal
canon_in_place t = canon t.secs t.nsecs

unfoldable pub to_nsec : TVal → ℤ
to_nsec t = t.secs *ℤ billion +ℤ t.nsecs

-- a Python bool as the number that it is
abbrev pub int_of_bool : Bool → ℤ
int_of_bool true = pos 1
int_of_bool false = pos 0

-- `(a > b) - (a < b)`, the body of every `__cmp__`
unfoldable pub cmp_nsec : ℤ → ℤ → ℤ
cmp_nsec a b = int_of_bool (ltb_ℤ b a) -ℤ int_of_bool (ltb_ℤ a b)

-- An operand: an instance of one of the three classes, a number, or anything else.
pub data Operand {ℓ} (F : Type ℓ) : Type ℓ where
  tval : TVal → Operand F
  time : TVal → Operand F
  duration : TVal → Operand F
  integral : ℤ → Operand F
  real : F → Operand F
  other : Operand F

-- The first argument of `TVal.__init__`: an int or a float.
pub data Seconds {ℓ} (F : Type ℓ) : Type ℓ where
  whole : ℤ → Seconds F
  fractional : F → Seconds F

-- The constructor on integers, and the two subclasses' constructors over it.
unfoldable pub new_duration : ℤ → ℤ → TVal
new_duration secs nsecs = canon secs nsecs

unfoldable pub new_time : ℤ → ℤ → Outcome TVal
new_time secs nsecs =
    let t = canon secs nsecs in if ltb_ℤ t.secs (pos 0) then raised type_error else returned t

-- `TVal.__eq__`, for a left operand that is a plain `TVal`
module _ {ℓ} {F : Type ℓ} where
  -- the `isinstance(other, TVal)` test
  abbrev pub as_tval : Operand F → Outcome TVal
  as_tval (tval u) = returned u
  as_tval (time u) = returned u
  as_tval (duration u) = returned u
  as_tval _ = raised type_error

  unfoldable pub tval_cmp : TVal → Operand F → Outcome ℤ
  tval_cmp t o = as_tval o >>= λ u. returned (cmp_nsec (to_nsec t) (to_nsec u))

  unfoldable pub tval_eq : TVal → Operand F → Bool
  tval_eq t (tval u) = eqb_ℤ (to_nsec t) (to_nsec u)
  tval_eq t (time u) = eqb_ℤ (to_nsec t) (to_nsec u)
  tval_eq t (duration u) = eqb_ℤ (to_nsec t) (to_nsec u)
  tval_eq t _ = false

-- `__lt__`, `__le__`, `__gt__` and `__ge__` read the result of the instance's `__cmp__`; its
-- TypeError becomes `NotImplemented`.
abbrev pub ordered : (ℤ → Bool) → Outcome ℤ → Outcome Bool
ordered test (returned c) = returned (test c)
ordered test (raised type_error) = not_implemented
ordered test (raised e) = raised e
ordered test not_implemented = not_implemented

unfoldable pub lt : Outcome ℤ → Outcome Bool
lt = ordered (λ c. ltb_ℤ c (pos 0))

unfoldable pub le : Outcome ℤ → Outcome Bool
le = ordered (λ c. not (ltb_ℤ (pos 0) c))

unfoldable pub gt : Outcome ℤ → Outcome Bool
gt = ordered (λ c. ltb_ℤ (pos 0) c)

unfoldable pub ge : Outcome ℤ → Outcome Bool
ge = ordered (λ c. not (ltb_ℤ c (pos 0)))

module _ (fl : Float) where
  open fl use {F, of_int, trunc, add, sub, mul, div}

  -- `float(self.secs) + float(self.nsecs) / 1e9`
  unfoldable pub to_sec : TVal → Outcome F
  to_sec t = do
    s ← of_int t.secs
    n ← of_int t.nsecs
    e9 ← of_int billion
    q ← div n e9
    returned (add s q)

  -- The integral part of a float, and the nanoseconds of its fraction.
  abbrev split_sec : F → (ℤ → ℤ → Outcome TVal) → Outcome TVal
  split_sec x build = do
    secs ← trunc x
    base ← of_int secs
    e9 ← of_int billion
    nsecs ← trunc (mul (sub x base) e9)
    build secs nsecs

  -- `TVal.__init__`
  unfoldable pub init : Seconds F → ℤ → Outcome TVal
  init (whole secs) nsecs = returned (canon secs nsecs)
  init (fractional x) nsecs =
      if eqb_ℤ nsecs (pos 0) then split_sec x (λ s n. returned (canon s n)) else raised value_error

  -- `Duration.from_sec` and `Time.from_sec`
  unfoldable pub duration_from_sec : F → Outcome TVal
  duration_from_sec x = split_sec x (λ s n. returned (new_duration s n))

  unfoldable pub time_from_sec : F → Outcome TVal
  time_from_sec x = split_sec x new_time
