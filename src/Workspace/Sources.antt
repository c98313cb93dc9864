-- ===== src/Workspace/Sources.antt =====
-- src/catkin/python/catkin/workspace.py: which paths `get_source_paths` returns.
use xc_ros.Prelude.{
  ◌≡◌, refl, ap, true, false, ◌||◌, List, [], ◌∷◌, map, Option, some, arith, Bool-cases, inl, inr,
}
use xc_ros.Prelude.Text.{Text, same, same_iff, same_refl, mem}
use xc_ros.Prelude.Result.{ok}
use xc_ros.Workspace.{first_of_each, declared, get_source_paths}

abbrev pub AllDistinct : List Text → Type 0
AllDistinct [] = Unit
AllDistinct (p ∷ ps) = (mem p ps ≡ false) × AllDistinct ps

mem-map :
    (f : Text → Text) (p : Text) (ps : List Text) → mem p ps ≡ true → mem (f p) (map f ps) ≡ true
unfolding mem
mem-map f p [] m = cc
mem-map f p (q ∷ ps) m = elim (Bool-cases (same q p)) [
  | inl is ↦
      let same_image : f q ≡ f p = ap f ((same_iff q p).0 is) in
      ground (arith, (same_iff (f q) (f p)).1 same_image)
  | inr other ↦ ground (arith, mem-map f p ps)
]

module _ (marker : Text → Option Text) (realpath : Text → Text) where
  -- The first path for each real path that is not seen yet.
  pub record Selects (seen ps chosen : List Text) : Type 0 where
    pub fresh : (x : Text) → mem x seen ≡ true → mem x (map realpath chosen) ≡ false
    pub distinct : AllDistinct (map realpath chosen)
    pub sound : (p : Text) → mem p chosen ≡ true → mem p ps ≡ true
    pub complete :
        (p : Text)
        → mem p ps ≡ true
        → mem (realpath p) seen || mem (realpath p) (map realpath chosen) ≡ true

  Selects-known :
      (seen ps chosen : List Text) (p : Text)
      → mem (realpath p) seen ≡ true
      → Selects seen ps chosen
      → Selects seen (p ∷ ps) chosen
  unfolding mem
  Selects-known seen ps chosen p known h = record {
    fresh = h.fresh;
    distinct = h.distinct;
    sound = λ q m. ground (arith, h.sound q m);
    complete = λ q m. elim (Bool-cases (same p q)) [
      | inl is ↦
          let same_image : realpath p ≡ realpath q = ap realpath ((same_iff p q).0 is) in
          ground (arith, known, same_image)
      | inr other ↦ h.complete q (ground arith)
    ];
  }

  Selects-fresh :
      (seen ps chosen : List Text) (p : Text)
      → mem (realpath p) seen ≡ false
      → Selects (realpath p ∷ seen) ps chosen
      → Selects seen (p ∷ ps) (p ∷ chosen)
  unfolding mem
  Selects-fresh seen ps chosen p new h = record {
    fresh = λ x m. ground (arith, h.fresh x, same_iff (realpath p) x);
    distinct = (h.fresh (realpath p) (ground (arith, same_refl (realpath p))), h.distinct);
    sound = λ q m. ground (arith, h.sound q);
    complete = λ q m. elim (Bool-cases (same p q)) [
      | inl is ↦
          let same_image : realpath p ≡ realpath q = ap realpath ((same_iff p q).0 is) in
          ground (arith, same_iff (realpath p) (realpath q), same_image)
      | inr other ↦ ground (arith, h.complete q)
    ];
  }

  first_of_each-Selects :
      (seen ps : List Text) → Selects seen ps (first_of_each marker realpath seen ps)
  unfolding first_of_each mem
  first_of_each-Selects seen [] = record {
    fresh = λ x m. refl;
    distinct = tt;
    sound = λ p m. cc;
    complete = λ p m. cc;
  }
  first_of_each-Selects seen (p ∷ ps) = elim (Bool-cases (mem (realpath p) seen)) [
    | inl known ↦ rw known (Selects-known seen ps _ p known (first_of_each-Selects seen ps))
    | inr new ↦
        rw new (Selects-fresh seen ps _ p new (first_of_each-Selects (realpath p ∷ seen) ps))
  ]

  -- For a folder with a marker file `get_source_paths` returns declared paths with different real paths,
  -- and one for the real path of each path that the file declares.
  pub get_source_paths_lem :
      (workspace content : Text)
      → marker workspace ≡ some content
      → (paths : List Text) × (get_source_paths marker realpath workspace ≡ ok paths)
        × AllDistinct (map realpath paths)
        × ((p : Text) → mem p paths ≡ true → mem p (declared content) ≡ true)
        × ((p : Text)
            → mem p (declared content) ≡ true
            → mem (realpath p) (map realpath paths) ≡ true)
  unfolding get_source_paths mem
  get_source_paths_lem workspace content e =
      let h = first_of_each-Selects [] (declared content) in
      (_, rw (e, get_source_paths) refl, h.distinct, h.sound, λ p m. h.complete p m)
