-- ===== src/Flags/Checked.antt =====
-- src/ros/rosmake/src/rosmake/package_stats.py: what `_check_package_flags` leaves.
use xc_ros.Prelude.{
  ◌≡◌, ap, refl, subst, Bool, true, false, not, ◌&&◌, ◌||◌, List, [], ◌∷◌, Option, none, some,
  arith, if◌then◌else◌, Bool-cases, inl, inr,
}
use xc_ros.Prelude.Text.{Text, same, same_iff, mem}
use xc_ros.Prelude.Result.{ok}
use xc_ros.Prelude.Dict.{lookup}
use xc_ros.Flags.{
  World, Flags, Outcome, new_flags, added, conclude, read_markers, check_package_flags,
}
use xc_ros.Flags.Blacklist.{Traces, mark-Traces, mem-added}

abbrev pub catkin_says : Option Bool → Bool
catkin_says none = false
catkin_says (some catkin) = catkin

mem-if_added :
    (q p : Text) (b : Bool) (s : List Text)
    → mem q (if b then added p s else s) ≡ mem q s || (b && same p q)
mem-if_added q p true s = ground (arith, mem-added q p s)
mem-if_added q p false s = ground arith

mem-if_kept :
    (q p : Text) (b : Bool) (s : List Text)
    → mem q (if b then s else added p s) ≡ mem q s || (not b && same p q)
mem-if_kept q p true s = ground arith
mem-if_kept q p false s = ground (arith, mem-added q p s)

module _ (world : World) where
  -- The package is not to be built: its directory or its manifest says so.
  abbrev pub stands_still : List Text → Text → Bool
  stands_still nobuild_files q = mem q nobuild_files || catkin_says (world.is_catkin q)

  -- The tracker agrees with the markers of the packages that it has tested.
  pub record IsFaithful (s : Flags) : Type 0 where
    pub black : Traces world world.blacklist_file s.packages_tested s.blacklisted
    pub black_osx : Traces world world.blacklist_osx_file s.packages_tested s.blacklisted_osx
    pub nobuild_sound : (q : Text) → mem q s.nobuild ≡ true → stands_still s.nobuild_files q ≡ true
    pub nobuild_complete :
        (q : Text)
        → mem q s.packages_tested ≡ true
        → stands_still s.nobuild_files q ≡ true
        → mem q s.nobuild ≡ true
    pub makefile_sound : (q : Text) → mem q s.nomakefile ≡ true → world.makefile q ≡ false
    pub makefile_complete :
        (q : Text)
        → mem q s.packages_tested ≡ true
        → world.makefile q ≡ false
        → mem q s.nomakefile ≡ true

  pub new_flags-IsFaithful : (nobuild_files : List Text) → IsFaithful (new_flags nobuild_files)
  unfolding new_flags mem lookup
  new_flags-IsFaithful nobuild_files = record {
    black = record { sound = λ x q m. cc; complete = λ x q m. cc };
    black_osx = record { sound = λ x q m. cc; complete = λ x q m. cc };
    nobuild_sound = λ q m. cc;
    nobuild_complete = λ q m. cc;
    makefile_sound = λ q m. cc;
    makefile_complete = λ q m. cc;
  }

  -- What a check of the packages `ps` leaves.
  pub record Checked (ps : List Text) (s : Flags) (r : Outcome Unit) : Type 0 where
    pub faithful : IsFaithful r.1
    pub files : r.1.nobuild_files ≡ s.nobuild_files
    pub kept : (x : Text) → mem x s.packages_tested ≡ true → mem x r.1.packages_tested ≡ true
    pub tested : r.0 ≡ ok tt → (x : Text) → mem x ps ≡ true → mem x r.1.packages_tested ≡ true

  read_markers-IsFaithful :
      (p : Text) (s : Flags) → IsFaithful s → IsFaithful (read_markers world p s)
  read_markers-IsFaithful p s h = record {
    black = (mark-Traces world world.blacklist_file s.packages_tested s.blacklisted p h.black).1;
    black_osx =
        (mark-Traces world world.blacklist_osx_file s.packages_tested s.blacklisted_osx p
          h.black_osx).1;
    nobuild_sound = λ q m. ground (arith, h.nobuild_sound q, mem-added q p s.nobuild, same_iff p q);
    nobuild_complete = λ q m k. ground (arith, h.nobuild_complete q, mem-added q p s.nobuild);
    makefile_sound = h.makefile_sound;
    makefile_complete = h.makefile_complete;
  }

  looked-Checked :
      (p : Text) (s : Flags) (o : Option Bool)
      → world.is_catkin p ≡ o
      → IsFaithful s
      → Checked (p ∷ []) s (conclude world p o (read_markers world p s))
  looked-Checked p s none e h = record {
    faithful = read_markers-IsFaithful p s h;
    files = refl;
    kept = λ x m. m;
    tested = λ r. cc;
  }
  looked-Checked p s (some catkin) e h = record {
    faithful = record {
      black = (mark-Traces world world.blacklist_file s.packages_tested s.blacklisted p h.black).0;
      black_osx =
          (mark-Traces world world.blacklist_osx_file s.packages_tested s.blacklisted_osx p
            h.black_osx).0;
      nobuild_sound =
          λ q m. ground (arith, m, says q, h.nobuild_sound q, mem-nobuild q, same_iff p q);
      nobuild_complete = λ q m k. ground (
        arith,
        k,
        says q,
        h.nobuild_complete q,
        mem-nobuild q,
        same_iff p q,
        mem-added q p s.packages_tested,
      );
      makefile_sound = λ q m. ground (
        arith,
        h.makefile_sound q,
        same_iff p q,
        mem-if_kept q p (world.makefile p) s.nomakefile,
      );
      makefile_complete = λ q m k. ground (
        arith,
        h.makefile_complete q,
        same_iff p q,
        mem-if_kept q p (world.makefile p) s.nomakefile,
        mem-added q p s.packages_tested,
      );
    };
    files = refl;
    kept = λ x m. ground (arith, mem-added x p s.packages_tested);
    tested = λ r x m. unfold mem in ground (arith, mem-added x p s.packages_tested, m);
  }
    where
      says : (q : Text) → same p q ≡ true → catkin_says (world.is_catkin q) ≡ catkin
      says q is =
          subst (λ y. catkin_says (world.is_catkin y) ≡ catkin) ((same_iff p q).0 is)
            (ap catkin_says e)

      mem-nobuild :
          (q : Text)
          → mem q (
              if catkin
              then added p (if mem p s.nobuild_files then added p s.nobuild else s.nobuild)
              else (if mem p s.nobuild_files then added p s.nobuild else s.nobuild))
            ≡ mem q s.nobuild || (mem p s.nobuild_files && same p q) || (catkin && same p q)
      mem-nobuild q = ground (
        arith,
        mem-if_added q p catkin (if mem p s.nobuild_files then added p s.nobuild else s.nobuild),
        mem-if_added q p (mem p s.nobuild_files) s.nobuild,
      )

  pub check-Checked :
      (p : Text) (s : Flags) → IsFaithful s → Checked (p ∷ []) s (check_package_flags world p s)
  unfolding check_package_flags
  check-Checked p s h = elim (Bool-cases (mem p s.packages_tested)) [
    | inl seen ↦
        rw (seen, check_package_flags)
          record {
            faithful = h;
            files = refl;
            kept = λ x m. m;
            tested = λ r x m. unfold mem in ground (arith, seen, same_iff p x, m);
          }
    | inr fresh ↦ elim (Bool-cases (world.present p)) [
      | inl there ↦
          rw (fresh, there, check_package_flags) (looked-Checked p s (world.is_catkin p) refl h)
      | inr gone ↦
          rw (fresh, gone, check_package_flags)
            record { faithful = h; files = refl; kept = λ x m. m; tested = λ r. cc }
    ]
  ]
