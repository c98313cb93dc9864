-- ===== src/Dynamic/Roundtrip.antt =====
-- src/genpy/src/genpy/dynamic.py: `generate_dynamic` on what `compute_full_text` has written.
use xc_ros.Prelude.{
  ℕ, ◌≡◌, refl, sym, ◌∙◌, ap, true, false, List, [], ◌∷◌, some, arith, Bool-cases, inl, inr,
}
use xc_ros.Prelude.Text.{Text, codes, same, same_iff, same_refl, mem}
use xc_ros.Prelude.Dict.{Dict, lookup, insert, lookup-insert}
use xc_ros.Prelude.Str.Substring.{
  finds, split_by, replace_from_absent, join_by, AllFree, split_by-join_by,
}
use xc_ros.Prelude.Result.{Result, ok, >>=-eq-ok, ok_injective}
use xc_ros.Names.{drop_last}
use xc_ros.Genmsg.{Error, package_resource_name}
use xc_ros.Genmsg.Types.{bare_msg_type}
use xc_ros.Genmsg.Constants.{Builtins}
use xc_ros.Genmsg.Spec.{MsgSpec}
use xc_ros.Genmsg.Context.{MsgContext, register, get_registered}
use xc_ros.Genmsg.Depends.{get_all_depends}
use xc_ros.Genmsg.Loader.{create_default}
use xc_ros.Genmsg.Gentools.{separator, unique_deps, dep_texts, msg, compute_full_text}
use xc_ros.Dynamic.{move_header, splits, load_deps, register_specs, dynamic_specs}
use xc_ros.Dynamic.Parts.{has_rule, IsFree-has_rule, Sections, drop_last-snoc, dep_texts-join_by}
use xc_ros.Dynamic.Reads.{
  IsReadable, AllReadable, Sections-AllFree, loaded_name, load_msg_from_string-ok,
  generate_dynamic_specs-section,
}

module _ (builtins : Builtins) where
  abbrev Specs : Type 0
  Specs = Dict (MsgSpec builtins.F)

  -- Every type of a table has a package and a base type, or the latter alone.
  abbrev AllNamed : Specs → Type 0
  AllNamed [] = Unit
  AllNamed ((t, spec) ∷ specs) =
      ((named : Text × Text) × (package_resource_name (bare_msg_type t) ≡ ok named))
      × AllNamed specs

  readable_name :
      (d : Text) (dep : MsgSpec builtins.F)
      → IsReadable builtins d dep
      → (named : Text × Text) × (package_resource_name (bare_msg_type d) ≡ ok named)
  readable_name d dep r =
      let (named, is) = loaded_name builtins d dep r in
      (named, ap package_resource_name r.bare ∙ is)

  insert-AllNamed :
      (t : Text) (spec : MsgSpec builtins.F) (specs : Specs)
      → (named : Text × Text) × (package_resource_name (bare_msg_type t) ≡ ok named)
      → AllNamed specs
      → AllNamed (insert t spec specs)
  unfolding insert
  insert-AllNamed t spec [] n h = (n, tt)
  insert-AllNamed t spec ((u, v) ∷ specs) n (m, h) = elim (Bool-cases (same u t)) [
    | inl is ↦ rw is (m, h)
    | inr other ↦ rw other (m, insert-AllNamed t spec specs n h)
  ]

  register_specs-ok :
      (specs : Specs) (ctx : MsgContext builtins.F)
      → AllNamed specs
      → (ctx' : MsgContext builtins.F) × (register_specs builtins specs ctx ≡ ok ctx')
  unfolding register_specs register
  register_specs-ok [] ctx h = (ctx, refl)
  register_specs-ok ((t, spec) ∷ specs) ctx ((named, is), h) = rw is (register_specs-ok specs _ h)

  -- The table that the loop over the sections of dependencies makes.
  record Loaded (ctx : MsgContext builtins.F) (ds : List Text) (specs : Specs)
      (r : Result Error Specs) : Type 0 where
    result : Specs
    returns : r ≡ ok result
    named : AllNamed result
    new :
        (d : Text) (dep : MsgSpec builtins.F)
        → mem d ds ≡ true
        → get_registered d ctx ≡ ok dep
        → lookup d result ≡ some dep
    old : (x : Text) → mem x ds ≡ false → lookup x result ≡ lookup x specs

  load_deps-Loaded :
      (source : MsgContext builtins.F) (ds bodies : List Text)
      → Sections source ds bodies
      → AllReadable builtins source ds
      → (ctx : MsgContext builtins.F) (specs : Specs) → AllNamed specs
      → Loaded source ds specs (load_deps builtins ctx specs bodies)
  unfolding load_deps mem
  load_deps-Loaded source [] [] s h ctx specs n = record {
    result = specs;
    returns = refl;
    named = n;
    new = λ d dep m. cc;
    old = λ x m. refl;
  }
  load_deps-Loaded source [] (b ∷ bs) s h ctx specs n = absurd s
  load_deps-Loaded source (d ∷ ds) [] s h ctx specs n = absurd s
  load_deps-Loaded source (d ∷ ds) (b ∷ bs) ((dep, got, is), s) h ctx specs n =
      let r = h d dep (ground (arith, same_refl d)) got in
      let (ctx', reads) = generate_dynamic_specs-section builtins d dep ctx r in
      let next =
        load_deps-Loaded source ds bs s (λ e x m. h e x (ground (arith, m))) ctx'
          (insert d dep specs) (insert-AllNamed d dep specs (readable_name d dep r) n) in
      record {
        result = next.result;
        returns = rw (is, reads) next.returns;
        named = next.named;
        new = λ e x m got'. elim (Bool-cases (mem e ds)) [
          | inl later ↦ next.new e x later got'
          | inr now ↦
              let same_name : d ≡ e = ground (arith, same_iff d e) in
              let same_spec : dep ≡ x =
                ok_injective dep x (sym got ∙ ap (λ y. get_registered y source) same_name ∙ got') in
              next.old e now ∙ lookup-insert d e dep specs ∙ ground (arith, same_iff d e, same_spec)
        ];
        old =
            λ x m. next.old x (ground (arith, m)) ∙ lookup-insert d x dep specs ∙ ground (arith, m);
      }

  has_rule-tail : (n c : ℕ) (s : Text) → has_rule n (c ∷ s) ≡ false → has_rule n s ≡ false
  unfolding has_rule
  has_rule-tail n c s h = ground arith

  -- The full text is the core's text and the sections of its dependencies.
  splits-full_text :
      (hexdigest : Text → Text) (fuel : ℕ) (ctx : MsgContext builtins.F) (core : MsgSpec builtins.F)
      (depends : List Text) (full : Text)
      → get_all_depends fuel core.full_name ctx ≡ ok depends
      → compute_full_text builtins hexdigest fuel ctx (msg core) ≡ ok full
      → has_rule 80 (10 ∷ core.text) ≡ false
      → AllReadable builtins ctx (unique_deps depends)
      → finds (codes "roslib/Header") full ≡ false
      → (bodies : List Text) × Sections ctx (unique_deps depends) bodies
        × (splits full ≡ core.text ∷ bodies)
  unfolding compute_full_text splits move_header
  splits-full_text hexdigest fuel ctx core depends full deps written plain readable unmoved =
      let h = rw (deps, compute_full_text) at written in
      let (texts, e, h') = >>=-eq-ok (dep_texts ctx (unique_deps depends)) h in
      let (bodies, sections, glue) = dep_texts-join_by ctx (unique_deps depends) texts e in
      let joined : full ≡ join_by (10 ∷ separator) core.text bodies =
        sym (ok_injective _ full h')
        ∙ ap drop_last (glue core.text)
        ∙ drop_last-snoc (join_by (10 ∷ separator) core.text bodies) 10 in
      let free : AllFree (10 ∷ separator) (core.text ∷ bodies) = (
        IsFree-has_rule 80 core.text (has_rule-tail 80 10 core.text plain),
        Sections-AllFree builtins ctx (unique_deps depends) bodies sections readable,
      ) in
      (
        bodies,
        sections,
        ap (split_by 10 separator) (
              replace_from_absent b'r' (codes "oslib/Header") (codes "std_msgs/Header") full unmoved
              ∙ joined)
            ∙ split_by-join_by 10 separator core.text bodies free,
      )

  -- The table has each of the types with the specification that is registered for it.
  abbrev pub AllFound : MsgContext builtins.F → List Text → Specs → Type 0
  AllFound ctx [] specs = Unit
  AllFound ctx (d ∷ ds) specs =
      ((dep : MsgSpec builtins.F) × (get_registered d ctx ≡ ok dep) × (lookup d specs ≡ some dep))
      × AllFound ctx ds specs

  found :
      (ctx : MsgContext builtins.F) (ds bodies : List Text) (specs : Specs)
      → Sections ctx ds bodies
      → ((d : Text) (dep : MsgSpec builtins.F)
          → mem d ds ≡ true
          → get_registered d ctx ≡ ok dep
          → lookup d specs ≡ some dep)
      → AllFound ctx ds specs
  unfolding mem
  found ctx [] bodies specs s h = tt
  found ctx (d ∷ ds) [] specs s h = absurd s
  found ctx (d ∷ ds) (b ∷ bs) specs ((dep, got, is), s) h = (
    (dep, got, h d dep (ground (arith, same_refl d)) got),
    found ctx ds bs specs s (λ e x m. h e x (ground (arith, m))),
  )

  -- Where a message's own text loads as its specification, every dependency of it is registered with
  -- the specification that its text loads as, their names are one line without white space at the ends
  -- or brackets, and no text has a line of 80 equals signs and nothing else: when `compute_full_text` has
  -- written the full text of the message, and it has no "roslib/Header" in it and no embedding of the
  -- message in itself, `generate_dynamic` reads off it the message's own specification and the
  -- registered one of each dependency.
  pub dynamic_specs-full_text :
      (hexdigest : Text → Text) (fuel : ℕ) (ctx base : MsgContext builtins.F)
      (core : MsgSpec builtins.F) (depends : List Text) (full : Text)
      → create_default builtins ≡ ok base
      → get_all_depends fuel core.full_name ctx ≡ ok depends
      → compute_full_text builtins hexdigest fuel ctx (msg core) ≡ ok full
      → IsReadable builtins core.full_name core
      → AllReadable builtins ctx (unique_deps depends)
      → mem core.full_name (unique_deps depends) ≡ false
      → finds (codes "roslib/Header") full ≡ false
      → (specs : Dict (MsgSpec builtins.F)) × (registered : MsgContext builtins.F) × (dynamic_specs
            builtins core.full_name full
          ≡ ok (specs, registered))
        × (lookup core.full_name specs ≡ some core)
        × AllFound ctx (unique_deps depends) specs
  unfolding dynamic_specs
  dynamic_specs-full_text hexdigest fuel ctx base core depends full default deps written r readable
        apart unmoved =
      let (bodies, sections, split) =
        splits-full_text hexdigest fuel ctx core depends full deps written r.plain readable
          unmoved in
      let (named, is_named) = loaded_name builtins core.full_name core r in
      let (ctx', loads) = load_msg_from_string-ok builtins core.full_name core base r in
      let first : AllNamed ((core.full_name, core) ∷ []) =
        (readable_name core.full_name core r, tt) in
      let rest =
        load_deps-Loaded ctx (unique_deps depends) bodies sections readable ctx'
          ((core.full_name, core) ∷ []) first in
      let (registered, registers) = register_specs-ok rest.result base rest.named in
      (
        rest.result,
        registered,
        rw (default, is_named, split, loads, rest.returns, registers) refl,
        rest.old core.full_name apart ∙ only core.full_name core,
        found ctx (unique_deps depends) bodies rest.result sections rest.new,
      )
    where
      only : (t : Text) (spec : MsgSpec builtins.F) → lookup t ((t, spec) ∷ []) ≡ some spec
      only t spec = unfold lookup in ground (arith, same_refl t)
