-- ===== src/Pmon/Killed.antt =====
-- src/ros/rosunit/src/rosunit/pmon.py: which processes are killed at the end, and in what order.
use mathlib.Core.List.{reverse, reverse-cons}
use xc_ros.Prelude.{◌≡◌, refl, ap, ◌∙◌, not, ◌&&◌, ◌||◌, List, [], ◌∷◌, ◌++◌, arith}
use xc_ros.Pmon.{Proc, Monitor, has_proc, not_in, killed}

has_proc-append :
    (p : Proc) (ps qs : List Proc) → has_proc p (ps ++ qs) ≡ has_proc p ps || has_proc p qs
unfolding has_proc
has_proc-append p [] qs = refl
has_proc-append p (q ∷ ps) qs = ground (arith, has_proc-append p ps qs)

has_proc-reverse : (p : Proc) (ps : List Proc) → has_proc p (reverse ps) ≡ has_proc p ps
unfolding has_proc
has_proc-reverse p [] = refl
has_proc-reverse p (q ∷ ps) =
    ap (has_proc p) (reverse-cons q ps)
    ∙ (has_proc-append p (reverse ps) (q ∷ []) ∙ ground (arith, has_proc-reverse p ps))

-- Two records of one process are in a list alike.
has_proc_same : (p q : Proc) (ps : List Proc) → q.id ≡ p.id → has_proc q ps ≡ has_proc p ps
unfolding has_proc
has_proc_same p q [] e = refl
has_proc_same p q (x ∷ ps) e = ground (arith, has_proc_same p q ps)

has_proc-not_in :
    (p : Proc) (core ps : List Proc)
    → has_proc p (not_in core ps) ≡ has_proc p ps && not (has_proc p core)
unfolding not_in has_proc
has_proc-not_in p core [] = refl
has_proc-not_in p core (q ∷ ps) = ground (arith, has_proc-not_in p core ps, has_proc_same p q core)

-- At the end the killers' queue has exactly the monitored processes that are no core processes, and
-- exactly the core processes are killed behind it.
pub killed_lem :
    (m : Monitor) (p : Proc)
    → (has_proc p (killed m).0 ≡ has_proc p m.procs && not (has_proc p m.core_procs))
      × (has_proc p (killed m).1 ≡ has_proc p m.core_procs)
killed_lem m p = (
  has_proc-not_in p m.core_procs (reverse m.procs) ∙ rw (has_proc-reverse p m.procs) refl,
  has_proc-reverse p m.core_procs,
)
