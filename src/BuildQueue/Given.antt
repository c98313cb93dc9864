-- ===== src/BuildQueue/Given.antt =====
-- src/ros/rosmake/src/rosmake/parallel_build.py: what an answer leaves of the queue.
use xc_ros.Prelude.{
  ℕ, ◌+◌, ◌≡◌, refl, sym, ◌∙◌, ap, inl, inr, true, ◌&&◌, List, [], ◌∷◌, Bool-cases, ltb, not,
  length,
}
use xc_ros.Prelude.Text.{Text, mem, remove}
use xc_ros.BuildQueue.{
  Queue, is_done, Pass, valid, hung, unmet, scan, attempt, wake, dependencies_met, answer, Answer,
  given, nothing,
}
use xc_ros.BuildQueue.Threads.{after_answer}
use xc_ros.BuildQueue.Conserve.{weight, scan-valid}

met_cong :
    (q q' : Queue) (ds : List Text)
    → q'.robust_build ≡ q.robust_build
    → q'.built ≡ q.built
    → q'.failed ≡ q.failed
    → dependencies_met q' ds ≡ dependencies_met q ds
unfolding dependencies_met
met_cong q q' [] r b f = refl
met_cong q q' (d ∷ ds) r b f = rw (met_cong q q' ds r b f, r, b, f) refl

-- The queue is as it was, up to its clocks, or gives one package out.
pub data Given (get_deps : Text → List Text) (q : Queue) (a : Answer) (q' : Queue) : Type 0 where
  kept :
      q'.robust_build ≡ q.robust_build
      → q'.to_build ≡ q.to_build
      → q'.built ≡ q.built
      → q'.failed ≡ q.failed
      → ((x : Text) → weight x (after_answer a) ≡ 0)
      → Given get_deps q a q'
  gave :
      (p : Text)
      → mem p q.to_build ≡ true
      → dependencies_met q (get_deps p) ≡ true
      → q'.robust_build ≡ q.robust_build
      → q'.to_build ≡ remove p q.to_build
      → q'.built ≡ q.built
      → q'.failed ≡ q.failed
      → a ≡ given p
      → Given get_deps q a q'

module _ (get_deps : Text → List Text) where
  idle-Given : (q : Queue) → Given get_deps q nothing q
  idle-Given q = kept refl refl refl refl (λ x. refl)

  answer-Given :
      (now : ℕ) (q : Queue) (r : Pass)
      → scan get_deps q q.to_build ≡ r
      → Given get_deps q (answer get_deps now q r).0 (answer get_deps now q r).1
  answer-Given now q (valid p) e =
      let (there, met) = scan-valid get_deps q q.to_build p e in
      gave p there met refl refl refl refl refl
  answer-Given now q hung e = idle-Given q
  answer-Given now q unmet e = kept refl refl refl refl (λ x. refl)

  pub attempt-Given :
      (now : ℕ) (q : Queue) → Given get_deps q (attempt get_deps now q).0 (attempt get_deps now q).1
  unfolding attempt
  attempt-Given now q = elim (Bool-cases (not (is_done q) && ltb 0 (length q.to_build))) [
    | inl on ↦ rw on (answer-Given now q (scan get_deps q q.to_build) refl)
    | inr off ↦ rw off (idle-Given q)
  ]

  pub wake-Given :
      (now : ℕ) (q : Queue) → Given get_deps q (wake get_deps now q).0 (wake get_deps now q).1
  unfolding wake
  wake-Given now q =
      let q' = record q { hack_end_counter = q.hack_end_counter + 1 } in
      elim (Bool-cases (is_done q')) [
        | inl done ↦ rw done (kept refl refl refl refl (λ x. refl))
        | inr more ↦ rw more (waited q' refl refl refl refl (attempt-Given now q'))
      ]
    where
      waited :
          {a : Answer} {r : Queue} (q' : Queue)
          → q'.robust_build ≡ q.robust_build
          → q'.to_build ≡ q.to_build
          → q'.built ≡ q.built
          → q'.failed ≡ q.failed
          → Given get_deps q' a r
          → Given get_deps q a r
      waited q' r t b f (kept r' t' b' f' z) = kept (r' ∙ r) (t' ∙ t) (b' ∙ b) (f' ∙ f) z
      waited q' r t b f (gave p there met r' t' b' f' g) =
          gave p (rw t at there) (sym (met_cong q q' (get_deps p) r b f) ∙ met) (r' ∙ r)
            (t' ∙ ap (remove p) t) (b' ∙ b) (f' ∙ f) g
