-- ===== src/Flags/Blacklist.antt =====
-- src/ros/rosmake/src/rosmake/package_stats.py: what the tables of blacklisted packages hold.
use xc_ros.Prelude.{
  ◌≡◌, ap, sym, ◌∙◌, Bool, true, false, ◌&&◌, ◌||◌, List, [], ◌∷◌, Option, none, some, arith,
  Bool-cases, inl, inr,
}
use xc_ros.Prelude.Text.{Text, same, same_iff, mem, mem-append}
use xc_ros.Prelude.Dict.{Dict, lookup, lookup-insert}
use xc_ros.Flags.{
  added, registered, register_blacklisted, register_all, found_in, or_empty, mark, World,
}

pub mem-added : (x p : Text) (s : List Text) → mem x (added p s) ≡ same p x || mem x s
unfolding added mem
mem-added x p s = ground (arith, mem-append x s (p ∷ []), same_iff p x)

mem-registered :
    (x b : Text) (o : Option (List Text)) → mem x (registered b o) ≡ mem x (or_empty o) || same b x
unfolding mem
mem-registered x b none = ground arith
mem-registered x b (some ps) = ground (arith, mem-append x ps (b ∷ []))

mem-found-register_blacklisted :
    (x q b p : Text) (m : Dict (List Text))
    → mem x (found_in q (register_blacklisted b p m))
      ≡ mem x (found_in q m) || (same p q && same b x)
unfolding register_blacklisted
mem-found-register_blacklisted x q b p m =
    ap (λ o. mem x (or_empty o)) (lookup-insert p q (registered b (lookup p m)) m)
    ∙ (elim (Bool-cases (same p q)) [
      | inl is ↦ rw (is, (same_iff p q).0 is) (mem-registered x b (lookup q m))
      | inr other ↦ rw other (ground arith)
    ])

mem-found-register_all :
    (x q b : Text) (ps : List Text) (m : Dict (List Text))
    → mem x (found_in q (register_all b ps m)) ≡ mem x (found_in q m) || (mem q ps && same b x)
unfolding register_all mem
mem-found-register_all x q b [] m = ground arith
mem-found-register_all x q b (p ∷ ps) m = ground (
  arith,
  mem-found-register_all x q b ps (register_blacklisted b p m),
  mem-found-register_blacklisted x q b p m,
)

module _ (world : World) where
  -- `q` is the package `x` or depends on it.
  abbrev pub related : Text → Text → Bool
  related x q = same x q || mem q (world.get_depends_on x)

  mem-found-mark :
      (x q p : Text) (there : Bool) (m : Dict (List Text))
      → mem x (found_in q (mark world there p m))
        ≡ mem x (found_in q m) || (there && same p x && related p q)
  unfolding mem
  mem-found-mark x q p false m = ground arith
  mem-found-mark x q p true m =
      ground (arith, mem-found-register_all x q p (p ∷ world.get_depends_on p) m)

  -- A table of blacklisted packages holds, for each package, packages with the marker that it is
  -- or that it depends on, and all such that have been tested.
  pub record Traces (marker : Text → Bool) (tested : List Text) (m : Dict (List Text))
      : Type 0 where
    pub sound : (x q : Text) → mem x (found_in q m) ≡ true → marker x && related x q ≡ true
    pub complete :
        (x q : Text)
        → mem x tested ≡ true
        → marker x && related x q ≡ true
        → mem x (found_in q m) ≡ true

  pub mark-Traces :
      (marker : Text → Bool) (tested : List Text) (m : Dict (List Text)) (p : Text)
      → Traces marker tested m
      → Traces marker (added p tested) (mark world (marker p) p m)
        × Traces marker tested (mark world (marker p) p m)
  mark-Traces marker tested m p h = (
    record { sound = sound'; complete = λ x q k. complete' x q (sym (mem-added x p tested) ∙ k) },
    record { sound = sound'; complete = λ x q k. complete' x q (ground (arith, k)) },
  )
    where
      sound' :
          (x q : Text)
          → mem x (found_in q (mark world (marker p) p m)) ≡ true
          → marker x && related x q ≡ true
      sound' x q k = ground (arith, mem-found-mark x q p (marker p) m, h.sound x q, same_iff p x)

      complete' :
          (x q : Text)
          → same p x || mem x tested ≡ true
          → marker x && related x q ≡ true
          → mem x (found_in q (mark world (marker p) p m)) ≡ true
      complete' x q k r =
          ground (arith, mem-found-mark x q p (marker p) m, h.complete x q, same_iff p x)
