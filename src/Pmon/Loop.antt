-- ===== src/Pmon/Loop.antt =====
-- src/ros/rosunit/src/rosunit/pmon.py: the thread of `ProcessMonitor`, and the calls that other
-- threads make between its steps.
use mathlib.Core.List.{append-nil}
use xc_ros.Prelude.{
  ℕ, zero, suc, ◌+◌, ◌≡◌, refl, Bool, true, false, not, ◌&&◌, List, [], ◌∷◌, ◌++◌, Option, ◌==◌,
  if◌then◌else◌,
}
use xc_ros.Prelude.Int.{ℤ}
use xc_ros.Prelude.Result.{Result, ok, err, ◌>>=◌}
use xc_ros.Pmon.{
  Error, Proc, Monitor, new_monitor, register, register_core_proc, registrations_complete,
  unregister, shutdown, post_run,
}

-- What polling a process comes to: `is_alive`, the exit code of a process that has died and whether
-- the listeners take the news, or an exception.
pub data Poll : Type 0 where
  alive : Poll
  died : Option ℤ → Bool → Poll
  broken : Poll

-- The processes that a round has found dead, and those to start again.
pub record Round : Type 0 where
  pub dead : List Proc
  pub respawn : List Proc

abbrev listeners_raise : Bool → Proc → Round → Round
listeners_raise true p r = r
listeners_raise false p r = record r { dead = r.dead ++ p ∷ [] }

abbrev pub found_dead : Proc → Monitor → Round → Monitor × Round
found_dead p m r =
    if p.respawn
    then (m, record r { respawn = r.respawn ++ p ∷ [] })
    else (if p.required
        then (record m { is_shutdown = true }, r)
        else (m, record r { dead = r.dead ++ p ∷ [] }))

-- What happens to an object shows in the list that holds it.
unfoldable pub on_object : ℕ → (Proc → Proc) → List Proc → List Proc
on_object id f [] = []
on_object id f (p ∷ ps) = (if p.id == id then f p else p) ∷ on_object id f ps

abbrev pub exited : Option ℤ → Proc → Proc
exited code p = record p { exit_code = code }

-- The body of the loop over the copy of the processes.
unfoldable pub poll_one : Poll → Proc → Monitor → Round → Monitor × Round
unfolding on_object
poll_one alive p m r = (m, r)
poll_one (died code listeners_ok) p m r =
    let (m', r') = found_dead (exited code p) m r in
    (
      record m' {
        procs = on_object p.id (exited code) m'.procs;
        told = m'.told ++ (p.name, code) ∷ [];
      },
      listeners_raise listeners_ok (exited code p) r',
    )
poll_one broken p m r = (m, record r { dead = r.dead ++ p ∷ [] })

-- `DeadProcess`, which passes on all but `required`
abbrev dead_process : Proc → Proc
dead_process d = record d { required = false }

abbrev buried : Bool → Proc → Monitor → Result Error Monitor → Monitor
buried stops d m (err e) = m
buried stops d m (ok m') =
    if stops then record m' { dead_list = m'.dead_list ++ dead_process d ∷ [] } else m'

-- A dead process goes to the dead list, unless it was not registered or `stop` raises.
unfoldable pub bury : Bool → Proc → Monitor → Monitor
unfolding unregister
bury stops d m = buried stops d m (unregister d m)

abbrev is_empty : List Proc → Bool
is_empty [] = true
is_empty (p ∷ ps) = false

unfoldable pub check_all_dead : Round → Monitor → Monitor
check_all_dead r m =
    if m.is_registered && not (is_empty r.dead) && is_empty m.procs && is_empty r.respawn
    then record m { is_shutdown = true }
    else m

abbrev pub started : Proc → Proc
started p = record p { spawn_count = p.spawn_count + 1 }

unfoldable pub restart : Bool → Proc → Monitor → Monitor
unfolding on_object
restart stops r m = if stops then record m { procs = on_object r.id started m.procs } else m

-- Where the thread stands.
pub data Phase : Type 0 where
  top : Phase
  polling : List Proc → Round → Phase
  burying : List Proc → Round → Phase
  restarting : List Proc → Phase
  stopping : Phase
  finished : Phase

-- How the process that a step is about answers.
pub record Env : Type 0 where
  pub poll : Poll
  pub stops : Bool

abbrev pub after_poll : List Proc → Monitor × Round → Monitor × Phase
after_poll ps (m, r) = (m, if m.is_shutdown then burying r.dead r else polling ps r)

abbrev pub next_restart : Bool → Env → Proc → List Proc → Monitor → Monitor × Phase
next_restart true env p ps m = (m, top)
next_restart false env p ps m = (restart env.stops p m, restarting ps)

-- The next step of `run`.
unfoldable pub tick : Env → Monitor → Phase → Monitor × Phase
tick env m top =
    (m, if m.is_shutdown then stopping else polling m.procs (record { dead = []; respawn = [] }))
tick env m (polling [] r) = (m, burying r.dead r)
tick env m (polling (p ∷ ps) r) = after_poll ps (poll_one env.poll p m r)
tick env m (burying (d ∷ ds) r) = (bury env.stops d m, burying ds r)
tick env m (burying [] r) = (check_all_dead r m, restarting r.respawn)
tick env m (restarting []) = (m, top)
tick env m (restarting (p ∷ ps)) = next_restart m.is_shutdown env p ps m
tick env m stopping = (post_run m, finished)
tick env m finished = (m, finished)

-- The calls of other threads; one that raises changes nothing.
pub data Call : Type 0 where
  do_register : Proc → Call
  do_complete : Call
  do_unregister : Proc → Call
  do_shutdown : Call

abbrev pub kept_if_raised : Monitor → Result Error Monitor → Monitor
kept_if_raised m (ok m') = m'
kept_if_raised m (err e) = m

unfoldable pub call : Call → Monitor → Monitor
call (do_register p) m = kept_if_raised m (register p m)
call do_complete m = registrations_complete m
call (do_unregister p) m = kept_if_raised m (unregister p m)
call do_shutdown m = shutdown m

-- `pending` are the calls of `register_core_proc` that have registered their process and not yet
-- appended it to `core_procs`, which they do without the lock.
pub record System : Type 0 where
  pub monitor : Monitor
  pub phase : Phase
  pub pending : List Proc

pub data Event : Type 0 where
  thread : Env → Event
  other : Call → Event
  core_registers : Proc → Event
  core_appends : ℕ → Event

-- The two halves of `register_core_proc`; calls of several threads append in any order.
abbrev pub core_registered : Proc → System → Result Error Monitor → System
core_registered p s (ok m) = record s { monitor = m; pending = s.pending ++ p ∷ [] }
core_registered p s (err e) = s

unfoldable pub pick : ℕ → List Proc → List Proc × List Proc
pick n [] = ([], [])
pick zero (p ∷ ps) = (p ∷ [], ps)
pick (suc n) (p ∷ ps) = let (now, later) = pick n ps in (now, p ∷ later)

abbrev pub core_appended : System → List Proc × List Proc → System
core_appended s (now, later) = record s {
  monitor = record s.monitor { core_procs = s.monitor.core_procs ++ now };
  pending = later;
}

unfoldable pub step : Event → System → System
unfolding tick call pick
step (thread env) s =
    let (m, ph) = tick env s.monitor s.phase in record s { monitor = m; phase = ph }
step (other c) s = record s { monitor = call c s.monitor }
step (core_registers p) s = core_registered p s (register p s.monitor)
step (core_appends n) s = core_appended s (pick n s.pending)

unfoldable pub run : List Event → System → System
run [] s = s
run (e ∷ es) s = run es (step e s)

abbrev pub start : System
start = record { monitor = new_monitor; phase = top; pending = [] }

pub run_induction :
    (P : System → Type 0)
    → ((e : Event) (s : System) → P s → P (step e s))
    → (es : List Event) (s : System) → P s
    → P (run es s)
unfolding run
run_induction P keep [] s h = h
run_induction P keep (e ∷ es) s h = run_induction P keep es (step e s) (keep e s h)

core_halves :
    (p : Proc) (s : System) (r : Result Error Monitor)
    → s.pending ≡ []
    → (core_appended (core_registered p s r) (pick 0 (core_registered p s r).pending)).monitor
      ≡ kept_if_raised s.monitor (r >>= λ m. ok (record m { core_procs = m.core_procs ++ p ∷ [] }))
unfolding pick
core_halves p s (ok m) e = rw e refl
core_halves p s (err x) e = rw (e, append-nil s.monitor.core_procs) refl

-- A call of `register_core_proc` that no other step falls into is its two halves.
pub register_core_proc-steps :
    (p : Proc) (s : System)
    → s.pending ≡ []
    → (run (core_registers p ∷ core_appends 0 ∷ []) s).monitor
      ≡ kept_if_raised s.monitor (register_core_proc p s.monitor)
unfolding run step register_core_proc
register_core_proc-steps p s e = core_halves p s (register p s.monitor) e
