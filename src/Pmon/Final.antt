-- ===== src/Pmon/Final.antt =====
-- src/ros/rosunit/src/rosunit/pmon.py: a monitor that is done.
use xc_ros.Prelude.{
  ℕ, zero, suc, ◌+◌, ◌≡◌, refl, sym, subst, Bool, true, false, List, [], ◌∷◌, ◌++◌, arith,
  if◌then◌else◌, ◌∙◌, length, length-append,
}
use xc_ros.Prelude.Result.{Result, ok, err}
use xc_ros.Pmon.{Error, value_error, Proc, Monitor, register, unregister, has_proc, post_run}
use xc_ros.Pmon.Loop.{
  Poll, alive, died, broken, Round, poll_one, bury, check_all_dead, restart, Phase, top, polling,
  burying, restarting, stopping, finished, Env, tick, Call, do_register, do_complete, do_unregister,
  do_shutdown, call, System, Event, thread, other, core_registers, core_appends, core_registered,
  pick, next_restart, step, run, start, run_induction, kept_if_raised,
}
use xc_ros.Pmon.Stops.{core_registers_down}

-- Nothing is monitored, and the monitor is shut down.
pub record IsOver (m : Monitor) : Type 0 where
  pub no_procs : m.procs ≡ []
  pub down : m.is_shutdown ≡ true
  pub is_done : m.done ≡ true

-- The core processes, and the calls that have registered one and not yet appended it.
abbrev pub cores : System → ℕ
cores s = length s.monitor.core_procs + length s.pending

-- A monitor is done exactly if its thread has ended.
abbrev Ended : Monitor → Phase → Type 0
Ended m finished = IsOver m
Ended m top = m.done ≡ false
Ended m (polling ps r) = m.done ≡ false
Ended m (burying ds r) = m.done ≡ false
Ended m (restarting ps) = m.done ≡ false
Ended m stopping = m.done ≡ false

poll_one-done :
    (poll : Poll) (p : Proc) (m : Monitor) (r : Round) → (poll_one poll p m r).0.done ≡ m.done
unfolding poll_one
poll_one-done alive p m r = refl
poll_one-done (died code listeners) p m r = ground arith
poll_one-done broken p m r = refl

bury-done : (stops : Bool) (p : Proc) (m : Monitor) → (bury stops p m).done ≡ m.done
unfolding bury
bury-done stops p m = ground arith

after_poll-Ended :
    (b : Bool) (m : Monitor) (ps : List Proc) (r : Round)
    → m.done ≡ false
    → Ended m (if b then burying r.dead r else polling ps r)
after_poll-Ended true m ps r h = h
after_poll-Ended false m ps r h = h

next_restart-Ended :
    (b : Bool) (env : Env) (p : Proc) (ps : List Proc) (m : Monitor)
    → m.done ≡ false
    → Ended (next_restart b env p ps m).0 (next_restart b env p ps m).1
unfolding restart
next_restart-Ended true env p ps m h = h
next_restart-Ended false env p ps m h = ground arith

tick-Ended :
    (env : Env) (m : Monitor) (ph : Phase) → Ended m ph → Ended (tick env m ph).0 (tick env m ph).1
unfolding tick
tick-Ended env m top h = from_top m.is_shutdown
  where
    from_top :
        (b : Bool)
        → Ended m (if b then stopping else polling m.procs (record { dead = []; respawn = [] }))
    from_top true = h
    from_top false = h
tick-Ended env m (polling [] r) h = h
tick-Ended env m (polling (p ∷ ps) r) h =
    after_poll-Ended _ _ ps _ (poll_one-done env.poll p m r ∙ h)
tick-Ended env m (burying (d ∷ ds) r) h = rw (bury-done env.stops d m) h
tick-Ended env m (burying [] r) h = unfold check_all_dead in ground arith
tick-Ended env m (restarting []) h = h
tick-Ended env m (restarting (p ∷ ps)) h = next_restart-Ended m.is_shutdown env p ps m h
tick-Ended env m stopping h =
    unfold post_run in record { no_procs = refl; down = refl; is_done = refl }
tick-Ended env m finished h = h

call-IsOver : (c : Call) (m : Monitor) → IsOver m → IsOver (call c m)
unfolding call register unregister has_proc
call-IsOver (do_register p) m h = ground arith
call-IsOver do_complete m h = record { no_procs = h.no_procs; down = h.down; is_done = h.is_done }
call-IsOver (do_unregister p) m h = rw missing h
  where
    missing : unregister p m ≡ err value_error
    missing = rw (h.no_procs) refl
call-IsOver do_shutdown m h = record { no_procs = h.no_procs; down = refl; is_done = h.is_done }

call-done : (c : Call) (m : Monitor) → (call c m).done ≡ m.done
unfolding call register unregister
call-done (do_register p) m = ground arith
call-done do_complete m = refl
call-done (do_unregister p) m = ground arith
call-done do_shutdown m = refl

call-Ended : (c : Call) (m : Monitor) (ph : Phase) → Ended m ph → Ended (call c m) ph
call-Ended c m finished h = call-IsOver c m h
call-Ended c m top h = call-done c m ∙ h
call-Ended c m (polling ps r) h = call-done c m ∙ h
call-Ended c m (burying ds r) h = call-done c m ∙ h
call-Ended c m (restarting ps) h = call-done c m ∙ h
call-Ended c m stopping h = call-done c m ∙ h

-- What appends to the core processes leaves the rest.
appended-Ended :
    (m : Monitor) (ps : List Proc) (ph : Phase)
    → Ended m ph
    → Ended (record m { core_procs = m.core_procs ++ ps }) ph
appended-Ended m ps finished h = record {
  no_procs = h.no_procs;
  down = h.down;
  is_done = h.is_done;
}
appended-Ended m ps top h = h
appended-Ended m ps (polling qs r) h = h
appended-Ended m ps (burying ds r) h = h
appended-Ended m ps (restarting qs) h = h
appended-Ended m ps stopping h = h

core_registered-Ended :
    (p : Proc) (s : System) (r : Result Error Monitor)
    → Ended (kept_if_raised s.monitor r) s.phase
    → Ended (core_registered p s r).monitor (core_registered p s r).phase
core_registered-Ended p s (ok m) h = h
core_registered-Ended p s (err e) h = h

step-Ended :
    (e : Event) (s : System) → Ended s.monitor s.phase → Ended (step e s).monitor (step e s).phase
unfolding step
step-Ended (thread env) s u = tick-Ended env s.monitor s.phase u
step-Ended (other c) s u = call-Ended c s.monitor s.phase u
step-Ended (core_registers p) s u =
    core_registered-Ended p s (register p s.monitor)
      (unfold call in call-Ended (do_register p) s.monitor s.phase u)
step-Ended (core_appends n) s u = appended-Ended s.monitor (pick n s.pending).0 s.phase u

run-Ended : (es : List Event) → Ended (run es start).monitor (run es start).phase
run-Ended es = run_induction (λ s. Ended s.monitor s.phase) step-Ended es start refl

done_finished : (m : Monitor) (ph : Phase) → Ended m ph → m.done ≡ true → ph ≡ finished
done_finished m finished h e = refl
done_finished m top h e = absurd (cc)
done_finished m (polling ps r) h e = absurd (cc)
done_finished m (burying ds r) h e = absurd (cc)
done_finished m (restarting ps) h e = absurd (cc)
done_finished m stopping h e = absurd (cc)

length-pick : (n : ℕ) (ps : List Proc) → length (pick n ps).0 + length (pick n ps).1 ≡ length ps
unfolding pick
length-pick n [] = refl
length-pick zero (p ∷ ps) = omega arith
length-pick (suc n) (p ∷ ps) = omega (arith, length-pick n ps)

-- The end of the thread, and how many core processes there are or are still to be appended.
abbrev Stays : ℕ → System → Type 0
Stays n s = (s.phase ≡ finished) × IsOver s.monitor × (cores s ≡ n)

call-core_procs : (c : Call) (m : Monitor) → (call c m).core_procs ≡ m.core_procs
unfolding call register unregister
call-core_procs (do_register p) m = ground arith
call-core_procs do_complete m = refl
call-core_procs (do_unregister p) m = ground arith
call-core_procs do_shutdown m = refl

step-Stays : (n : ℕ) (e : Event) (s : System) → Stays n s → Stays n (step e s)
unfolding step tick
step-Stays n (thread env) s (f, o, c) = rw f (refl, o, c)
step-Stays n (other k) s (f, o, c) =
    (f, call-IsOver k s.monitor o, rw (call-core_procs k s.monitor) c)
step-Stays n (core_registers p) s (f, o, c) =
    subst (Stays n) (sym (core_registers_down p s o.down)) (f, o, c)
step-Stays n (core_appends k) s (f, o, c) = (
  f,
  appended-Ended s.monitor (pick k s.pending).0 finished o,
  omega
      (arith, c, length-append s.monitor.core_procs (pick k s.pending).0, length-pick k s.pending),
)

-- A monitor that says that it is done, and then whatever the threads go on to do: nothing is
-- monitored, it is shut down and stays done, and a core process can only come from a call of
-- `register_core_proc` that had registered it before: the core processes and the calls between
-- their halves stay as many together.
pub run-IsOver :
    (es late : List Event)
    → (run es start).monitor.done ≡ true
    → IsOver (run late (run es start)).monitor
      × (cores (run late (run es start)) ≡ cores (run es start))
run-IsOver es late e =
    let (f, o, c) =
      run_induction (Stays (cores (run es start))) (step-Stays (cores (run es start))) late
        (run es start) (ended, subst (Ended (run es start).monitor) ended (run-Ended es), refl) in
    (o, c)
  where
    ended : (run es start).phase ≡ finished
    ended = done_finished (run es start).monitor (run es start).phase (run-Ended es) e
