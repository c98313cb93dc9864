-- ===== src/Engine/Specified.antt =====
-- src/ros/rosmake/src/rosmake/engine.py: the build list under `--specified-only`.
use xc_ros.Prelude.{◌≡◌, Bool, true, ◌&&◌, List, [], ◌∷◌, ◌++◌, Option, arith, Bool-cases, inl, inr}
use xc_ros.Prelude.Text.{Text, same_iff, mem, mem-append}
use xc_ros.BuildQueue.Knows.{all_in, IsOrdered}
use xc_ros.BuildQueue.Tracker.{only_valid, potential, direct}
use xc_ros.Engine.{only_specified}
use xc_ros.Engine.Recurse.{all_in-intro, all_in-elim}

mem-only_valid :
    (d : Text) (wanted ds : List Text) → mem d (only_valid wanted ds) ≡ mem d wanted && mem d ds
unfolding only_valid mem
mem-only_valid d wanted [] = ground arith
mem-only_valid d wanted (x ∷ ds) = ground (arith, mem-only_valid d wanted ds, same_iff x d)

mem-only_specified :
    (d : Text) (wanted ds : List Text) → mem d (only_specified wanted ds) ≡ mem d wanted && mem d ds
unfolding only_specified mem
mem-only_specified d wanted [] = ground arith
mem-only_specified d wanted (x ∷ ds) = ground (arith, mem-only_specified d wanted ds, same_iff x d)

module _ (get_depends : Text → Bool → Option (List Text)) (valid specified : List Text)
    (known : (x : Text) → mem x specified ≡ true → mem x valid ≡ true) where
  narrow_all_in :
      (p : Text) (seen seen' : List Text)
      → ((d : Text) → mem d seen' ≡ mem d specified && mem d seen)
      → all_in (direct get_depends true valid p) seen ≡ true
      → all_in (direct get_depends true specified p) seen' ≡ true
  unfolding direct
  narrow_all_in p seen seen' kept h =
      let potential_deps = potential get_depends (get_depends p true) in
      all_in-intro (only_valid specified potential_deps) seen' (λ d m.
        let before = all_in-elim d (only_valid valid potential_deps) seen h in
        ground (
          arith,
          before,
          m,
          kept d,
          known d,
          mem-only_valid d specified potential_deps,
          mem-only_valid d valid potential_deps,
        ))

  narrow_ordered :
      (seen seen' build_list : List Text)
      → ((d : Text) → mem d seen' ≡ mem d specified && mem d seen)
      → IsOrdered (direct get_depends true valid) seen build_list
      → IsOrdered (direct get_depends true specified) seen' (only_specified specified build_list)
  unfolding only_specified mem
  narrow_ordered seen seen' [] kept h = tt
  narrow_ordered seen seen' (p ∷ ps) kept h = elim (Bool-cases (mem p specified)) [
    | inl wanted ↦ rw wanted (
      narrow_all_in p seen seen' kept h.0,
      narrow_ordered (seen ++ p ∷ []) (seen' ++ p ∷ []) ps
          (λ d.
            ground (
              arith,
              kept d,
              mem-append d seen (p ∷ []),
              mem-append d seen' (p ∷ []),
              same_iff p d,
            ))
          h.1,
    )
    | inr other ↦ rw other (
        narrow_ordered (seen ++ p ∷ []) seen' ps
          (λ d. ground (arith, kept d, mem-append d seen (p ∷ []), same_iff p d)) h.1)
  ]

  -- With the tracker that answers only specified packages, the specified packages of a list in build
  -- order are in build order.
  pub only_specified-IsOrdered :
      (build_list : List Text)
      → IsOrdered (direct get_depends true valid) [] build_list
      → IsOrdered (direct get_depends true specified) [] (only_specified specified build_list)
  unfolding mem
  only_specified-IsOrdered build_list h = narrow_ordered [] [] build_list (λ d. ground arith) h
