-- ===== src/Pmon/Stops.antt =====
-- src/ros/rosunit/src/rosunit/pmon.py: a monitor that is shut down comes to its end.
use xc_ros.Prelude.{
  ℕ, suc, ◌+◌, ◌≤◌, ◌≡◌, refl, ap, Bool, true, false, Bool-cases, inl, inr, List, [], ◌∷◌, ◌++◌,
  arith, length, length-append,
}
use xc_ros.Prelude.Result.{err}
use xc_ros.Pmon.{
  Proc, Monitor, Error, has_process, duplicate_name, after_shutdown, post_run, register, unregister,
}
use xc_ros.Pmon.Loop.{
  Poll, alive, died, broken, Round, poll_one, bury, check_all_dead, Phase, top, polling, burying,
  restarting, stopping, finished, Env, tick, next_restart, System, Event, thread, other, step, run,
  Call, do_register, do_complete, do_unregister, do_shutdown, call, core_registers, core_appends,
  core_registered,
}

-- How many steps the thread takes at most until it ends, once the monitor is shut down: a poll adds
-- at most two to the dead.
abbrev pub remaining : Phase → ℕ
remaining finished = 0
remaining stopping = 1
remaining top = 2
remaining (restarting ps) = 3
remaining (burying ds r) = 4 + length ds
remaining (polling ps r) = 7 + length r.dead

poll_one_down :
    (poll : Poll) (p : Proc) (m : Monitor) (r : Round)
    → m.is_shutdown ≡ true
    → ((poll_one poll p m r).0.is_shutdown ≡ true)
      × (length (poll_one poll p m r).1.dead ≤ length r.dead + 2)
unfolding poll_one
poll_one_down alive p m r h = (h, omega arith)
poll_one_down (died code listeners) p m r h = (
  ground arith,
  ground (arith, length-append r.dead (p' ∷ []), length-append (r.dead ++ p' ∷ []) (p' ∷ [])),
)
  where
    p' : Proc
    p' = record p { exit_code = code }
poll_one_down broken p m r h = (h, omega (arith, length-append r.dead (p ∷ [])))

bury_down : (stops : Bool) (p : Proc) (m : Monitor) → (bury stops p m).is_shutdown ≡ m.is_shutdown
unfolding bury
bury_down stops p m = ground arith

next_restart_down :
    (b : Bool) (env : Env) (p : Proc) (ps : List Proc) (m : Monitor) (n : ℕ)
    → b ≡ true
    → m.is_shutdown ≡ true
    → 3 ≤ suc n
    → ((next_restart b env p ps m).0.is_shutdown ≡ true)
      × (remaining (next_restart b env p ps m).1 ≤ n)
next_restart_down true env p ps m n e h k = (h, omega arith)
next_restart_down false env p ps m n e h k = absurd (cc)

tick_down :
    (env : Env) (m : Monitor) (ph : Phase) (n : ℕ)
    → m.is_shutdown ≡ true
    → remaining ph ≤ suc n
    → ((tick env m ph).0.is_shutdown ≡ true) × (remaining (tick env m ph).1 ≤ n)
unfolding tick
tick_down env m top n h k = (h, rw h (omega arith))
tick_down env m (polling [] r) n h k = (h, omega arith)
tick_down env m (polling (p ∷ ps) r) n h k =
    let (down, few) = poll_one_down env.poll p m r h in (down, rw down (omega arith))
tick_down env m (burying (d ∷ ds) r) n h k = (rw (bury_down env.stops d m) h, omega arith)
tick_down env m (burying [] r) n h k = (unfold check_all_dead in ground arith, omega arith)
tick_down env m (restarting []) n h k = (h, omega arith)
tick_down env m (restarting (p ∷ ps)) n h k = next_restart_down m.is_shutdown env p ps m n h h k
tick_down env m stopping n h k = (unfold post_run in refl, omega arith)
tick_down env m finished n h k = (h, omega arith)

call_down : (c : Call) (m : Monitor) → (m.is_shutdown ≡ true) → (call c m).is_shutdown ≡ true
unfolding call register unregister
call_down (do_register p) m h = ground arith
call_down do_complete m h = h
call_down (do_unregister p) m h = ground arith
call_down do_shutdown m h = refl

register_down :
    (p : Proc) (m : Monitor) → m.is_shutdown ≡ true → (e : Error) × (register p m ≡ err e)
unfolding register
register_down p m h = elim (Bool-cases (has_process p.name m)) [
  | inl taken ↦ (duplicate_name, rw taken refl)
  | inr free ↦ (after_shutdown, rw (free, h) refl)
]

pub core_registers_down :
    (p : Proc) (s : System)
    → s.monitor.is_shutdown ≡ true
    → core_registered p s (register p s.monitor) ≡ s
core_registers_down p s h =
    let (e, refused) = register_down p s.monitor h in ap (core_registered p s) refused

-- How many of the events are steps of the thread.
abbrev pub own_steps : List Event → ℕ
own_steps [] = 0
own_steps (thread env ∷ es) = suc (own_steps es)
own_steps (other c ∷ es) = own_steps es
own_steps (core_registers p ∷ es) = own_steps es
own_steps (core_appends n ∷ es) = own_steps es

remaining_none : (ph : Phase) → remaining ph ≤ 0 → ph ≡ finished
remaining_none finished e = refl
remaining_none top e = absurd (omega arith)
remaining_none (polling ps r) e = absurd (omega arith)
remaining_none (burying ds r) e = absurd (omega arith)
remaining_none (restarting ps) e = absurd (omega arith)
remaining_none stopping e = absurd (omega arith)

-- Once the monitor is shut down, its thread ends within a number of its own steps that the phase
-- bounds, whatever the processes answer and whatever other threads call in between.
pub run_down :
    (es : List Event) (s : System)
    → s.monitor.is_shutdown ≡ true
    → remaining s.phase ≤ own_steps es
    → (run es s).phase ≡ finished
unfolding run step
run_down [] s h k = remaining_none s.phase (omega arith)
run_down (thread env ∷ es) s h k =
    let (down, fewer) = tick_down env s.monitor s.phase (own_steps es) h k in
    run_down es (step (thread env) s) down fewer
run_down (other c ∷ es) s h k = run_down es (step (other c) s) (call_down c s.monitor h) k
run_down (core_registers p ∷ es) s h k =
    let e = core_registers_down p s h in run_down es (step (core_registers p) s) (rw e h) (rw e k)
run_down (core_appends n ∷ es) s h k = run_down es (step (core_appends n) s) h k
