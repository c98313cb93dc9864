-- ===== src/Engine/Drive.antt =====
-- src/ros/rosmake/src/rosmake/engine.py and parallel_build.py: one thread on a list in build order.
use mathlib.Core.List.{append-nil, append_assoc}
use xc_ros.Prelude.{
  ℕ, zero, suc, ◌+◌, ◌*◌, ◌≤◌, ◌≡◌, refl, sym, ◌∙◌, ap, Bool, true, false, List, [], ◌∷◌, ◌++◌, map,
  arith, length, length-append, ltb, ◌==◌,
}
use xc_ros.Prelude.Text.{Text, same_refl, remove}
use xc_ros.Prelude.Dict.{insert, pop}
use xc_ros.BuildQueue.{
  Queue, init, is_done, is_completed, dependencies_met, scan, attempt, return_built,
}
use xc_ros.BuildQueue.Threads.{
  Phase, looping, entering, building, exited, System, Event, start, act, step, run,
}
use xc_ros.BuildQueue.Knows.{all_in, IsOrdered}

-- The only thread moves, at these times, and whatever it builds is built.
abbrev pub driven : List ℕ → List Event
driven times = map (λ now. record { thread = 0; now = now; result = true }) times

-- the first `n` readings of a clock
abbrev pub ticks : (ℕ → ℕ) → ℕ → List ℕ
ticks clock zero = []
ticks clock (suc n) = clock 0 ∷ ticks (λ i. clock (suc i)) n

pub length-ticks : (clock : ℕ → ℕ) (n : ℕ) → length (ticks clock n) ≡ n
length-ticks clock zero = refl
length-ticks clock (suc n) = ap suc (length-ticks (λ i. clock (suc i)) n)

met_of_all_in :
    (q : Queue) (ds : List Text) → all_in ds q.built ≡ true → dependencies_met q ds ≡ true
unfolding dependencies_met all_in
met_of_all_in q [] h = refl
met_of_all_in q (d ∷ ds) h = ground (arith, met_of_all_in q ds)

-- The queue when nothing is under way and nothing has failed.
abbrev idle : ℕ → Bool → Bool → ℕ → List Text → List Text → Queue
idle total robust done hack before rest = record {
  total_pkgs = total;
  to_build = rest;
  built = before;
  failed = [];
  done = done;
  robust_build = robust;
  started = [];
  hack_end_counter = hack;
}

abbrev alone : Queue → Phase → System
alone q ph = record { queue = q; threads = ph ∷ [] }

module _ (get_deps : Text → List Text) where
  looping_step :
      (now : ℕ) (q : Queue)
      → is_done q ≡ false
      → step get_deps (record { thread = 0; now = now; result = true }) (alone q looping)
        ≡ alone q entering
  unfolding step act
  looping_step now q h = rw h refl

  entering_step :
      (now total hack : ℕ) (robust : Bool) (before rest : List Text) (p : Text)
      → total ≡ length before + suc (length rest)
      → all_in (get_deps p) before ≡ true
      → step get_deps
          (record { thread = 0; now = now; result = true })
          (alone (idle total robust false hack before (p ∷ rest)) entering)
        ≡ alone
            (record (idle total robust false 0 before rest) { started = (p, now) ∷ [] })
            (building p)
  unfolding step act attempt is_done is_completed scan remove insert
  entering_step now total hack robust before rest p n h =
      let q = idle total robust false hack before (p ∷ rest) in
      let met = met_of_all_in q (get_deps p) h in
      let more : (length before + 0 == total) ≡ false = ground (arith, n) in
      let left : ltb 0 (suc (length rest)) ≡ true = ground arith in
      rw (more, met, same_refl p, left) refl

  building_step :
      (now then_ total hack : ℕ) (robust : Bool) (before rest : List Text) (p : Text)
      → step get_deps
          (record { thread = 0; now = now; result = true })
          (alone
            (record (idle total robust false hack before rest) { started = (p, then_) ∷ [] })
            (building p))
        ≡ alone
            (idle total robust
              (length (before ++ p ∷ []) + 0 == total)
              hack
              (before ++ p ∷ [])
              rest)
            looping
  unfolding step act return_built is_completed pop
  building_step now then_ total hack robust before rest p = rw (same_refl p) refl

  -- The queue is marked as done only when no package is left.
  abbrev IsOpen : Bool → List Text → Type 0
  IsOpen done [] = Unit
  IsOpen done (p ∷ ps) = done ≡ false

  -- At the end nothing moves.
  exited_stays :
      (times : List ℕ) (q : Queue) → (run get_deps (driven times) (alone q exited)).queue ≡ q
  unfolding run step act
  exited_stays [] q = refl
  exited_stays (now ∷ times) q = exited_stays times q

  finished_step :
      (now : ℕ) (q : Queue)
      → is_done q ≡ true
      → step get_deps (record { thread = 0; now = now; result = true }) (alone q looping)
        ≡ alone q exited
  unfolding step act
  finished_step now q h = rw h refl

  finished_stays :
      (times : List ℕ) (q : Queue)
      → is_done q ≡ true
      → (run get_deps (driven times) (alone q looping)).queue ≡ q
  unfolding run
  finished_stays [] q h = refl
  finished_stays (now ∷ times) q h =
      ap (λ s. (run get_deps (driven times) s).queue) (finished_step now q h) ∙ exited_stays times q

  -- The three steps that build a package.
  round :
      (a b c : ℕ) (times : List ℕ) (total hack : ℕ) (robust : Bool) (before rest : List Text)
      (p : Text)
      → total ≡ length before + suc (length rest)
      → all_in (get_deps p) before ≡ true
      → run get_deps
          (driven (a ∷ b ∷ c ∷ times))
          (alone (idle total robust false hack before (p ∷ rest)) looping)
        ≡ run get_deps (driven times) (
            alone
              (idle total robust (length (before ++ p ∷ []) + 0 == total) 0 (before ++ p ∷ []) rest)
              looping)
  unfolding run
  round a b c times total hack robust before rest p n h =
      let q = idle total robust false hack before (p ∷ rest) in
      let more : is_done q ≡ false = unfold is_done is_completed in ground (arith, n) in
      ap (run get_deps (driven (b ∷ c ∷ times))) (looping_step a q more)
      ∙ ap (run get_deps (driven (c ∷ times))) (entering_step b total hack robust before rest p n h)
      ∙ ap (run get_deps (driven times)) (building_step c b total 0 robust before rest p)

  Open-next :
      (total : ℕ) (before rest : List Text)
      → total ≡ length before + length rest
      → IsOpen (length before + 0 == total) rest
  Open-next total before [] n = tt
  Open-next total before (p ∷ rest) n = ground (arith, n)

  drive :
      (rest before : List Text) (times : List ℕ) (total hack : ℕ) (robust done : Bool)
      → IsOpen done rest
      → total ≡ length before + length rest
      → IsOrdered get_deps before rest
      → 3 * length rest ≤ length times
      → (run get_deps
          (driven times)
          (alone (idle total robust done hack before rest) looping)).queue.built
        ≡ before ++ rest
  drive [] before times total hack robust done o n k t =
      let q = idle total robust done hack before [] in
      let finished : is_done q ≡ true = unfold is_done is_completed in ground (arith, n) in
      ap (λ q. q.built) (finished_stays times q finished) ∙ sym (append-nil before)
  drive (p ∷ rest) before (a ∷ b ∷ c ∷ times) total hack robust done o n k t =
      let n' : total ≡ length (before ++ p ∷ []) + length rest =
        omega (arith, length-append before (p ∷ [])) in
      let open_ = Open-next total (before ++ p ∷ []) rest n' in
      ap
        (λ d.
          (run get_deps (driven (a ∷ b ∷ c ∷ times))
            (alone (idle total robust d hack before (p ∷ rest)) looping)).queue.built)
        o
      ∙ ap (λ s. s.queue.built) (round a b c times total hack robust before rest p n k.0)
      ∙ drive rest (before ++ p ∷ []) times total 0 robust _ open_ n' k.1 (omega arith)
      ∙ append_assoc before (p ∷ []) rest
  drive (p ∷ rest) before (a ∷ b ∷ []) total hack robust done o n k t = absurd (omega arith)
  drive (p ∷ rest) before (a ∷ []) total hack robust done o n k t = absurd (omega arith)
  drive (p ∷ rest) before [] total hack robust done o n k t = absurd (omega arith)

  -- One thread, whose builds succeed, builds a list in build order from its first package to its
  -- last in three steps for each, and more steps change nothing.
  pub run-in_order :
      (build_list : List Text) (robust : Bool) (times : List ℕ)
      → IsOrdered get_deps [] build_list
      → 3 * length build_list ≤ length times
      → ((run get_deps (driven times) (start build_list robust 1)).queue.built ≡ build_list)
  unfolding start init
  run-in_order [] robust times k t = drive [] [] times 0 0 robust false tt (omega arith) k t
  run-in_order (p ∷ ps) robust times k t =
      drive (p ∷ ps) [] times (length (p ∷ ps)) 0 robust false refl (omega arith) k t
