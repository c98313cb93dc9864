-- ===== src/Pmon/Unique.antt =====
-- src/ros/rosunit/src/rosunit/pmon.py: the names of the monitored processes.
use xc_ros.Prelude.{
  ℕ, ◌≡◌, refl, sym, subst, inl, inr, Bool, true, false, ◌||◌, List, [], ◌∷◌, ◌++◌, arith, ◌==◌,
  if◌then◌else◌, Bool-cases,
}
use xc_ros.Prelude.Text.{Text, same_iff}
use xc_ros.Prelude.Result.{Result, ok, err, ok_injective}
use xc_ros.Pmon.{
  Error, Proc, Monitor, has_name, register, unregister, has_proc, remove_proc, post_run,
}
use xc_ros.Pmon.Loop.{
  Poll, alive, died, broken, Round, poll_one, bury, check_all_dead, on_object, exited, started,
  found_dead, next_restart, restart, Phase, top, polling, burying, restarting, stopping, finished,
  Env, tick, Call, do_register, do_complete, do_unregister, do_shutdown, kept_if_raised, call,
  System, Event, thread, other, core_registers, core_appends, core_registered, step, run, start,
  run_induction,
}

abbrev pub IsUnique : List Proc → Type 0
IsUnique [] = Unit
IsUnique (p ∷ ps) = (has_name p.name ps ≡ false) × IsUnique ps

has_name-append :
    (name : Text) (ps qs : List Proc)
    → has_name name (ps ++ qs) ≡ has_name name ps || has_name name qs
unfolding has_name
has_name-append name [] qs = refl
has_name-append name (p ∷ ps) qs = ground (arith, has_name-append name ps qs)

IsUnique-snoc :
    (ps : List Proc) (p : Proc) → IsUnique ps → has_name p.name ps ≡ false → IsUnique (ps ++ p ∷ [])
unfolding has_name
IsUnique-snoc [] p u h = (refl, tt)
IsUnique-snoc (q ∷ ps) p u h = (
  ground
      (arith, has_name-append q.name ps (p ∷ []), same_iff p.name q.name, same_iff q.name p.name),
  IsUnique-snoc ps p u.1 (ground arith),
)

has_name-remove :
    (name : Text) (p : Proc) (ps : List Proc)
    → has_name name ps ≡ false
    → has_name name (remove_proc p ps) ≡ false
unfolding has_name remove_proc
has_name-remove name p [] h = refl
has_name-remove name p (q ∷ ps) h = ground (arith, has_name-remove name p ps)

IsUnique-remove : (p : Proc) (ps : List Proc) → IsUnique ps → IsUnique (remove_proc p ps)
unfolding remove_proc
IsUnique-remove p [] u = tt
IsUnique-remove p (q ∷ ps) u = elim (Bool-cases (q.id == p.id)) [
  | inl here ↦ rw here u.1
  | inr there ↦ rw there (has_name-remove q.name p ps u.0, IsUnique-remove p ps u.1)
]

module _ (f : Proc → Proc) (keeps : (p : Proc) → (f p).name ≡ p.name) where
  name-on_object : (id : ℕ) (p : Proc) → (if p.id == id then f p else p).name ≡ p.name
  name-on_object id p = elim (Bool-cases (p.id == id)) [
    | inl same_id ↦ rw same_id (keeps p)
    | inr other_id ↦ rw other_id refl
  ]

  has_name-on_object :
      (name : Text) (id : ℕ) (ps : List Proc) → has_name name (on_object id f ps) ≡ has_name name ps
  unfolding has_name on_object
  has_name-on_object name id [] = refl
  has_name-on_object name id (p ∷ ps) = rw (name-on_object id p, has_name-on_object name id ps) refl

  IsUnique-on_object : (id : ℕ) (ps : List Proc) → IsUnique ps → IsUnique (on_object id f ps)
  unfolding on_object
  IsUnique-on_object id [] u = tt
  IsUnique-on_object id (p ∷ ps) u =
      (rw (name-on_object id p, has_name-on_object p.name id ps) u.0, IsUnique-on_object id ps u.1)

abbrev Uniq : Monitor → Type 0
Uniq m = IsUnique m.procs

if_both {ℓ} :
    {A : Type ℓ} (P : A → Type 0) (b : Bool) {x y : A} → P x → P y → P (if b then x else y)
if_both P true h k = h
if_both P false h k = k

bury-IsUnique :
    (p : Proc) (m : Monitor) (keep : Bool) → IsUnique m.procs → IsUnique (bury keep p m).procs
unfolding bury
bury-IsUnique p m keep u = elim (Bool-cases (has_proc p m.procs)) [
  | inr missing ↦ rw missing u
  | inl there ↦
      rw there (if_both Uniq keep (IsUnique-remove p m.procs u) (IsUnique-remove p m.procs u))
]

found_dead-procs : (p : Proc) (m : Monitor) (r : Round) → (found_dead p m r).0.procs ≡ m.procs
found_dead-procs p m r = ground arith

poll_one-IsUnique :
    (poll : Poll) (p : Proc) (m : Monitor) (r : Round)
    → IsUnique m.procs
    → IsUnique (poll_one poll p m r).0.procs
unfolding poll_one
poll_one-IsUnique alive p m r u = u
poll_one-IsUnique (died code listeners) p m r u =
    IsUnique-on_object (exited code) (λ q. refl) p.id _
      (subst IsUnique (sym (found_dead-procs (exited code p) m r)) u)
poll_one-IsUnique broken p m r u = u

register-IsUnique :
    (p : Proc) (m : Monitor) {m' : Monitor}
    → register p m ≡ ok m'
    → IsUnique m.procs
    → IsUnique m'.procs
unfolding register
register-IsUnique p m e u = elim (Bool-cases (has_name p.name m.procs)) [
  | inl taken ↦ absurd (cc (rw taken at e))
  | inr free ↦ elim (Bool-cases m.is_shutdown) [
    | inl down ↦ absurd (cc (rw (free, down) at e))
    | inr up ↦ subst Uniq (ok_injective _ _ (rw (free, up) at e)) (IsUnique-snoc m.procs p u free)
  ]
]

raised_or {ℓ} :
    (P : Monitor → Type ℓ) (m : Monitor) (r : Result Error Monitor)
    → P m
    → ((m' : Monitor) → r ≡ ok m' → P m')
    → P (kept_if_raised m r)
raised_or P m (ok m') h k = k m' refl
raised_or P m (err e) h k = h

unregister-IsUnique :
    (p : Proc) (m : Monitor) {m' : Monitor} → unregister p m ≡ ok m' → Uniq m → Uniq m'
unfolding unregister
unregister-IsUnique p m e u = elim (Bool-cases (has_proc p m.procs)) [
  | inl there ↦ subst Uniq (ok_injective _ _ (rw there at e)) (IsUnique-remove p m.procs u)
  | inr missing ↦ absurd (cc (rw missing at e))
]

next_restart-IsUnique :
    (b : Bool) (env : Env) (p : Proc) (ps : List Proc) (m : Monitor)
    → IsUnique m.procs
    → IsUnique (next_restart b env p ps m).0.procs
unfolding restart
next_restart-IsUnique true env p ps m u = u
next_restart-IsUnique false env p ps m u =
    if_both Uniq env.stops (IsUnique-on_object started (λ q. refl) p.id m.procs u) u

tick-IsUnique :
    (env : Env) (m : Monitor) (ph : Phase) → IsUnique m.procs → IsUnique (tick env m ph).0.procs
unfolding tick
tick-IsUnique env m top u = u
tick-IsUnique env m (polling [] r) u = u
tick-IsUnique env m (polling (p ∷ ps) r) u = poll_one-IsUnique env.poll p m r u
tick-IsUnique env m (burying (d ∷ ds) r) u = bury-IsUnique d m env.stops u
tick-IsUnique env m (burying [] r) u = unfold check_all_dead in if_both Uniq _ u u
tick-IsUnique env m (restarting []) u = u
tick-IsUnique env m (restarting (p ∷ ps)) u = next_restart-IsUnique m.is_shutdown env p ps m u
tick-IsUnique env m stopping u = unfold post_run in tt
tick-IsUnique env m finished u = u

call-IsUnique : (c : Call) (m : Monitor) → IsUnique m.procs → IsUnique (call c m).procs
unfolding call
call-IsUnique (do_register p) m u =
    raised_or Uniq m (register p m) u (λ m' e. register-IsUnique p m e u)
call-IsUnique do_complete m u = u
call-IsUnique (do_unregister p) m u =
    raised_or Uniq m (unregister p m) u (λ m' e. unregister-IsUnique p m e u)
call-IsUnique do_shutdown m u = u

core_registered-IsUnique :
    (p : Proc) (s : System) (r : Result Error Monitor)
    → IsUnique s.monitor.procs
    → ((m' : Monitor) → r ≡ ok m' → IsUnique m'.procs)
    → IsUnique (core_registered p s r).monitor.procs
core_registered-IsUnique p s (ok m') u h = h m' refl
core_registered-IsUnique p s (err e) u h = u

-- Whatever the threads do, the monitored processes have distinct names.
pub run-IsUnique : (es : List Event) → IsUnique (run es start).monitor.procs
run-IsUnique es = run_induction (λ s. IsUnique s.monitor.procs) keep es start tt
  where
    keep : (e : Event) (s : System) → IsUnique s.monitor.procs → IsUnique (step e s).monitor.procs
    keep (thread env) s u = unfold step in tick-IsUnique env s.monitor s.phase u
    keep (other c) s u = unfold step in call-IsUnique c s.monitor u
    keep (core_registers p) s u =
        unfold step in
        core_registered-IsUnique p s (register p s.monitor) u
          (λ m' e. register-IsUnique p s.monitor e u)
    keep (core_appends n) s u = unfold step in u
