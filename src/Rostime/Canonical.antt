-- ===== src/Rostime/Canonical.antt =====
-- src/genpy/src/genpy/rostime.py: canonical form.
use xc_ros.Prelude.{◌≡◌, sym, ◌∙◌, ap}
use xc_ros.Prelude.Int.{
  ℤ, pos, ◌+ℤ◌, ◌*ℤ◌, ◌≤ℤ◌, ◌<ℤ◌, floor_div_bounds, int_laws, pos_part, neg_part,
}
use xc_ros.Rostime.{TVal, canon, to_nsec, billion}

pub record IsCanonical (t : TVal) : Type 0 where
  pub low : pos 0 ≤ℤ t.nsecs
  pub high : t.nsecs <ℤ billion

-- the nanoseconds that a pair of fields stands for
abbrev pub nsec_of : ℤ → ℤ → ℤ
nsec_of secs nsecs = secs *ℤ billion +ℤ nsecs

pub canon-IsCanonical : (s n : ℤ) → IsCanonical (canon s n)
unfolding canon
canon-IsCanonical s n = omega (int_laws, floor_div_bounds n)

pub to_nsec-canon : (s n : ℤ) → to_nsec (canon s n) ≡ nsec_of s n
unfolding canon to_nsec
to_nsec-canon s n = omega int_laws

-- Two canonical pairs with the same nanoseconds have the same fields.
pub secs_unique :
    (t u : TVal) → IsCanonical t → IsCanonical u → to_nsec t ≡ to_nsec u → t.secs ≡ u.secs
unfolding to_nsec
secs_unique t u ht hu e = omega (int_laws, ap pos_part e, ap neg_part e)

pub nsecs_unique :
    (t u : TVal) → IsCanonical t → IsCanonical u → to_nsec t ≡ to_nsec u → t.nsecs ≡ u.nsecs
unfolding to_nsec
nsecs_unique t u ht hu e = omega (int_laws, ap pos_part e, ap neg_part e)

pub to_nsec-injective : (t u : TVal) → IsCanonical t → IsCanonical u → to_nsec t ≡ to_nsec u → t ≡ u
to_nsec-injective t u ht hu e =
    λ i. record { secs = secs_unique t u ht hu e i; nsecs = nsecs_unique t u ht hu e i }

-- `_canon` yields the one canonical pair with the nanoseconds of its arguments.
pub canon_lem :
    (s n : ℤ) (t : TVal)
    → IsCanonical t
    → to_nsec t ≡ nsec_of s n
    → IsCanonical (canon s n) × (to_nsec (canon s n) ≡ nsec_of s n) × (canon s n ≡ t)
canon_lem s n t c e = (
  canon-IsCanonical s n,
  to_nsec-canon s n,
  to_nsec-injective _ t (canon-IsCanonical s n) c (to_nsec-canon s n ∙ sym e),
)
