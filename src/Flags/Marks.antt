-- ===== src/Flags/Marks.antt =====
-- src/ros/rosmake/src/rosmake/package_stats.py: the marker that `add_nobuild` and `remove_nobuild`
-- write.
use xc_ros.Prelude.{◌≡◌, refl, subst, Bool, true, false, not, ◌&&◌, List, [], ◌∷◌, arith}
use xc_ros.Prelude.Text.{Text, same, same_iff, same_refl, mem}
use xc_ros.Flags.{World, Flags, added, discarded}
use xc_ros.Flags.Blacklist.{mem-added}
use xc_ros.Flags.Checked.{IsFaithful, stands_still, catkin_says}

mem-discarded : (x p : Text) (s : List Text) → mem x (discarded p s) ≡ mem x s && not (same p x)
unfolding discarded mem
mem-discarded x p [] = refl
mem-discarded x p (y ∷ s) =
    ground (arith, mem-discarded x p s, same_iff y p, same_iff y x, same_iff p x)

module _ (world : World) where
  abbrev pub Says : Text → Bool → Flags → Type 0
  Says p b t = IsFaithful world t × (stands_still world t.nobuild_files p ≡ b)

  pub written :
      (p : Text) (s : Flags)
      → IsFaithful world s
      → Says p true
          (record s { nobuild = added p s.nobuild; nobuild_files = added p s.nobuild_files })
  written p s h = (
    record {
      black = h.black;
      black_osx = h.black_osx;
      nobuild_sound = λ q m.
          ground (arith, h.nobuild_sound q, mem-added q p s.nobuild, mem-added q p s.nobuild_files);
      nobuild_complete = λ q m k.
          ground
            (arith, h.nobuild_complete q, mem-added q p s.nobuild, mem-added q p s.nobuild_files);
      makefile_sound = h.makefile_sound;
      makefile_complete = h.makefile_complete;
    },
    ground (arith, mem-added p p s.nobuild_files, same_refl p),
  )

  pub erased :
      (p : Text) (s : Flags)
      → catkin_says (world.is_catkin p) ≡ false
      → IsFaithful world s
      → Says p false (record s {
        nobuild = discarded p s.nobuild;
        nobuild_files = discarded p s.nobuild_files;
      })
  erased p s plain h = (
    record {
      black = h.black;
      black_osx = h.black_osx;
      nobuild_sound = λ q m. ground (
        arith,
        h.nobuild_sound q,
        mem-discarded q p s.nobuild,
        mem-discarded q p s.nobuild_files,
      );
      nobuild_complete = λ q m k. ground (
        arith,
        k,
        plain_is q,
        h.nobuild_complete q,
        mem-discarded q p s.nobuild,
        mem-discarded q p s.nobuild_files,
      );
      makefile_sound = h.makefile_sound;
      makefile_complete = h.makefile_complete;
    },
    ground (arith, plain, mem-discarded p p s.nobuild_files, same_refl p),
  )
    where
      plain_is : (q : Text) → same p q ≡ true → catkin_says (world.is_catkin q) ≡ false
      plain_is q is =
          subst (λ y. catkin_says (world.is_catkin y) ≡ false) ((same_iff p q).0 is) plain
