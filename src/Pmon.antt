-- ===== src/Pmon.antt =====
-- src/ros/rosunit/src/rosunit/pmon.py: processes, and the state and methods of `ProcessMonitor`.
pub mod Loop
pub mod Unique
pub mod Final
pub mod Stops
pub mod Killed
mod Tests
use xc_ros.Prelude.{
  ℕ, suc, ◌+◌, Bool, true, false, not, ◌&&◌, ◌||◌, List, [], ◌∷◌, ◌++◌, map, Option, none, some,
  ◌==◌, if◌then◌else◌,
}
use mathlib.Core.List.{reverse}
use xc_ros.Prelude.Text.{Text, codes, same}
use xc_ros.Prelude.Int.{ℤ, pos, eqb_ℤ}
use xc_ros.Prelude.Result.{Result, ok, err, ◌>>=◌}

pub data Error : Type 0 where
  duplicate_name after_shutdown value_error : Error

-- `Process`, with its identity as an object. What starts, stops and polls it is its subclass's.
pub record Proc : Type 0 where
  pub id : ℕ
  pub name : Text
  pub respawn : Bool
  pub required : Bool
  pub exit_code : Option ℤ
  pub spawn_count : ℕ

pub record Monitor : Type 0 where
  pub procs : List Proc
  pub core_procs : List Proc
  pub dead_list : List Proc
  pub is_shutdown : Bool
  pub is_registered : Bool
  pub done : Bool
  -- what each listener has been told: a name and an exit code
  pub told : List (Text × Option ℤ)

-- `ProcessMonitor.__init__`; `is_registered` is its `_registrations_complete`
abbrev pub new_monitor : Monitor
new_monitor = record {
  procs = [];
  core_procs = [];
  dead_list = [];
  is_shutdown = false;
  is_registered = false;
  done = false;
  told = [];
}

unfoldable pub has_name : Text → List Proc → Bool
has_name name [] = false
has_name name (p ∷ ps) = same p.name name || has_name name ps

unfoldable pub has_process : Text → Monitor → Bool
unfolding has_name
has_process name m = has_name name m.procs

unfoldable pub first_named : Text → List Proc → Option Proc
first_named name [] = none
first_named name (p ∷ ps) = if same p.name name then some p else first_named name ps

unfoldable pub get_process : Text → Monitor → Option Proc
unfolding first_named
get_process name m = first_named name m.procs

unfoldable pub register : Proc → Monitor → Result Error Monitor
unfolding has_process
register p m =
    if has_process p.name m
    then err duplicate_name
    else (if m.is_shutdown then err after_shutdown else ok (record m { procs = m.procs ++ p ∷ [] }))

unfoldable pub register_core_proc : Proc → Monitor → Result Error Monitor
unfolding register
register_core_proc p m = do
  m' ← register p m
  ok (record m' { core_procs = m'.core_procs ++ p ∷ [] })

abbrev pub registrations_complete : Monitor → Monitor
registrations_complete m = record m { is_registered = true }

-- `p in procs` and `procs.remove(p)`, by identity
unfoldable pub has_proc : Proc → List Proc → Bool
has_proc p [] = false
has_proc p (q ∷ ps) = q.id == p.id || has_proc p ps

unfoldable pub remove_proc : Proc → List Proc → List Proc
remove_proc p [] = []
remove_proc p (q ∷ ps) = if q.id == p.id then ps else q ∷ remove_proc p ps

unfoldable pub unregister : Proc → Monitor → Result Error Monitor
unregister p m =
    if has_proc p m.procs then ok (record m { procs = remove_proc p m.procs }) else err value_error

-- The name is a text, which the code tests as Python 2 does; whether `stop` raises changes nothing.
unfoldable pub kill_process : Text → Monitor → Bool
kill_process name m = elim (get_process name m) [ none ↦ false | some p ↦ true ]

abbrev pub shutdown : Monitor → Monitor
shutdown m = record m { is_shutdown = true }

abbrev pub get_active_names : Monitor → List Text
get_active_names m = map (λ p. p.name) m.procs

abbrev pub get_process_names_with_spawn_count : Monitor → List (Text × ℕ) × List (Text × ℕ)
get_process_names_with_spawn_count m =
    (map (λ p. (p.name, p.spawn_count)) m.procs, map (λ p. (p.name, p.spawn_count)) m.dead_list)

unfoldable pub not_in : List Proc → List Proc → List Proc
unfolding has_proc
not_in core [] = []
not_in core (p ∷ ps) = let rest = not_in core ps in if has_proc p core then rest else p ∷ rest

-- What `_post_run` stops: first the queue that its killers share, then one process after another.
abbrev pub killed : Monitor → List Proc × List Proc
killed m = (not_in m.core_procs (reverse m.procs), reverse m.core_procs)

unfoldable pub post_run : Monitor → Monitor
post_run m = record m { is_shutdown = true; procs = []; core_procs = []; done = true }
