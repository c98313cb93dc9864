-- ===== src/BuildQueue/Knows.antt =====
-- src/ros/rosmake/src/rosmake/parallel_build.py: what a thread knows of the package that it builds.
use mathlib.Core.List.{append_assoc, append-nil}
use xc_ros.Prelude.{
  ℕ, zero, suc, ◌+◌, ◌≡◌, refl, sym, ◌∙◌, subst, Bool, true, false, ◌&&◌, List, [], ◌∷◌, ◌++◌, some,
  arith, get_elem?, set, if◌then◌else◌, Bool-cases, inl, inr,
}
use xc_ros.Prelude.Text.{Text, same, mem, mem-append}
use xc_ros.BuildQueue.{
  Queue, is_done, stop, return_built, Pass, valid, hung, unmet, scan, attempt, wake,
  dependencies_met, answer,
}
use xc_ros.BuildQueue.Threads.{
  Phase, looping, entering, waiting, building, halting, exited, act, after_answer,
}
use xc_ros.BuildQueue.Conserve.{scan-valid}

-- Every text of the first list is in the second.
unfoldable pub all_in : List Text → List Text → Bool
all_in [] seen = true
all_in (d ∷ ds) seen = mem d seen && all_in ds seen

all_in-append : (ds seen more : List Text) → all_in ds seen ≡ true → all_in ds (seen ++ more) ≡ true
unfolding all_in
all_in-append [] seen more h = refl
all_in-append (d ∷ ds) seen more h =
    ground (arith, all_in-append ds seen more, mem-append d seen more)

met-all_in :
    (q : Queue) (ds : List Text)
    → q.robust_build ≡ false
    → dependencies_met q ds ≡ all_in ds q.built
unfolding dependencies_met all_in
met-all_in q [] h = refl
met-all_in q (d ∷ ds) h = ground (arith, met-all_in q ds h)

module _ (get_deps : Text → List Text) where
  -- Each package of a list has its dependencies among those before it.
  abbrev pub IsOrdered : List Text → List Text → Type 0
  IsOrdered seen [] = Unit
  IsOrdered seen (p ∷ ps) = (all_in (get_deps p) seen ≡ true) × IsOrdered (seen ++ p ∷ []) ps

  IsOrdered-snoc :
      (seen ps : List Text) (x : Text)
      → IsOrdered seen ps
      → all_in (get_deps x) (seen ++ ps) ≡ true
      → IsOrdered seen (ps ++ x ∷ [])
  IsOrdered-snoc seen [] x h k = (rw append-nil at k, tt)
  IsOrdered-snoc seen (p ∷ ps) x h k =
      (h.0, IsOrdered-snoc (seen ++ p ∷ []) ps x h.1 (rw (append_assoc seen (p ∷ []) ps) k))

  -- What a thread knows of the package that it builds.
  abbrev pub Knows : Queue → Phase → Type 0
  Knows q (building p) = all_in (get_deps p) q.built ≡ true
  Knows q _ = Unit

  abbrev pub AllKnow : Queue → List Phase → Type 0
  AllKnow q [] = Unit
  AllKnow q (ph ∷ phs) = Knows q ph × AllKnow q phs

  -- A step leaves `robust_build` alone and only adds to `built`.
  pub record Extends (q q' : Queue) : Type 0 where
    pub more : List Text
    pub built : q'.built ≡ q.built ++ more
    pub robust : q'.robust_build ≡ q.robust_build

  Extends-refl :
      (q q' : Queue) → q'.built ≡ q.built → q'.robust_build ≡ q.robust_build → Extends q q'
  Extends-refl q q' b r = record { more = []; built = b ∙ sym (append-nil q.built); robust = r }

  -- An answer changes neither what is built nor the mode.
  answer-built :
      (now : ℕ) (q : Queue) (r : Pass)
      → ((answer get_deps now q r).1.built ≡ q.built)
        × ((answer get_deps now q r).1.robust_build ≡ q.robust_build)
  answer-built now q (valid x) = (refl, refl)
  answer-built now q hung = (refl, refl)
  answer-built now q unmet = (refl, refl)

  attempt-built :
      (now : ℕ) (q : Queue)
      → ((attempt get_deps now q).1.built ≡ q.built)
        × ((attempt get_deps now q).1.robust_build ≡ q.robust_build)
  unfolding attempt
  attempt-built now q = ground (arith, answer-built now q (scan get_deps q q.to_build))

  attempt-Knows :
      (now : ℕ) (q : Queue)
      → q.robust_build ≡ false
      → Knows (attempt get_deps now q).1 (after_answer (attempt get_deps now q).0)
  attempt-Knows now q robust = unfold attempt in ground (arith, answer_known _ refl)
    where
      answer_known :
          (r : Pass)
          → scan get_deps q q.to_build ≡ r
          → Knows (answer get_deps now q r).1 (after_answer (answer get_deps now q r).0)
      answer_known (valid x) e =
          sym (met-all_in q (get_deps x) robust) ∙ (scan-valid get_deps q q.to_build x e).1
      answer_known hung e = tt
      answer_known unmet e = tt

  wake-built :
      (now : ℕ) (q : Queue)
      → ((wake get_deps now q).1.built ≡ q.built)
        × ((wake get_deps now q).1.robust_build ≡ q.robust_build)
  unfolding wake
  wake-built now q =
      ground (arith, attempt-built now (record q { hack_end_counter = q.hack_end_counter + 1 }))

  wake-Knows :
      (now : ℕ) (q : Queue)
      → q.robust_build ≡ false
      → Knows (wake get_deps now q).1 (after_answer (wake get_deps now q).0)
  unfolding wake
  wake-Knows now q robust =
      let q' = record q { hack_end_counter = q.hack_end_counter + 1 } in
      elim (Bool-cases (is_done q')) [
        | inl done ↦ rw done tt
        | inr more ↦ rw more (attempt-Knows now q' robust)
      ]

  -- The queue and the phase after a step of one thread.
  pub record Acted (q : Queue) (after : Queue × Phase) : Type 0 where
    pub grows : Extends q after.0
    pub ordered : IsOrdered [] after.0.built
    pub knows : Knows after.0 after.1

  idle-Acted :
      (q : Queue) (after : Queue × Phase)
      → (after.0.built ≡ q.built) × (after.0.robust_build ≡ q.robust_build)
      → IsOrdered [] q.built
      → Knows after.0 after.1
      → Acted q after
  idle-Acted q after same o k = record {
    grows = Extends-refl q after.0 same.0 same.1;
    ordered = subst (IsOrdered []) (sym same.0) o;
    knows = k;
  }

  Knows-if :
      (b : Bool) (q : Queue) (ph ph' : Phase)
      → Knows q ph
      → Knows q ph'
      → Knows q (if b then ph else ph')
  Knows-if true q ph ph' k k' = k
  Knows-if false q ph ph' k k' = k'

  pub act-Acted :
      (now : ℕ) (result : Bool) (q : Queue) (ph : Phase)
      → q.robust_build ≡ false
      → IsOrdered [] q.built
      → Knows q ph
      → Acted q (act get_deps now result q ph)
  unfolding act stop return_built
  act-Acted now result q looping r o k =
      idle-Acted q _ (refl, refl) o (Knows-if (is_done q) q exited entering tt tt)
  act-Acted now result q entering r o k =
      idle-Acted q _ (attempt-built now q) o (attempt-Knows now q r)
  act-Acted now result q waiting r o k = idle-Acted q _ (wake-built now q) o (wake-Knows now q r)
  act-Acted now true q (building p) r o k = record {
    grows = record { more = p ∷ []; built = refl; robust = refl };
    ordered = IsOrdered-snoc [] q.built p o k;
    knows = tt;
  }
  act-Acted now false q (building p) r o k =
      idle-Acted q _ (refl, refl) o
        (Knows-if q.robust_build (return_built p false q) looping halting tt tt)
  act-Acted now result q halting r o k = idle-Acted q _ (refl, refl) o tt
  act-Acted now result q exited r o k = idle-Acted q _ (refl, refl) o tt

  Knows-Extends : (q q' : Queue) (ph : Phase) → Extends q q' → Knows q ph → Knows q' ph
  Knows-Extends q q' (building p) x k =
      subst (λ b. all_in (get_deps p) b ≡ true) (sym x.built)
        (all_in-append (get_deps p) q.built x.more k)
  Knows-Extends q q' looping x k = tt
  Knows-Extends q q' entering x k = tt
  Knows-Extends q q' waiting x k = tt
  Knows-Extends q q' halting x k = tt
  Knows-Extends q q' exited x k = tt

  -- The other threads keep what they know, and the one that moved knows what its step taught it.
  pub AllKnow-set :
      (q q' : Queue) (phs : List Phase) (i : ℕ) (ph : Phase)
      → Extends q q'
      → AllKnow q phs
      → Knows q' ph
      → AllKnow q' (set phs i ph)
  AllKnow-set q q' [] i ph x a k = tt
  AllKnow-set q q' (p ∷ phs) zero ph x a k = (k, AllKnow-keep phs a.1)
    where
      AllKnow-keep : (l : List Phase) → AllKnow q l → AllKnow q' l
      AllKnow-keep [] a = tt
      AllKnow-keep (p ∷ l) a = (Knows-Extends q q' p x a.0, AllKnow-keep l a.1)
  AllKnow-set q q' (p ∷ phs) (suc i) ph x a k =
      (Knows-Extends q q' p x a.0, AllKnow-set q q' phs i ph x a.1 k)

  pub AllKnow-get :
      (q : Queue) (phs : List Phase) (i : ℕ) (ph : Phase)
      → get_elem? phs i ≡ some ph
      → AllKnow q phs
      → Knows q ph
  AllKnow-get q [] i ph e a = absurd (cc)
  AllKnow-get q (p ∷ phs) zero ph e a = let same : p ≡ ph = cc in subst (Knows q) same a.0
  AllKnow-get q (p ∷ phs) (suc i) ph e a = AllKnow-get q phs i ph e a.1
