-- ===== src/Dynamic/Reads.antt =====
-- src/genpy/src/genpy/dynamic.py: the specifications that are read off a full text are those that it was
-- made of.
use xc_ros.Prelude.{◌≡◌, refl, ◌∙◌, ap, true, false, List, [], ◌∷◌, ◌++◌, arith}
use xc_ros.Prelude.Text.{Text, codes, same_refl, mem}
use xc_ros.Prelude.Str.{has, strip, has-append, before-append, after-append}
use xc_ros.Prelude.Str.Substring.{starts, AllFree}
use xc_ros.Prelude.Result.{ok, >>=-eq-ok}
use xc_ros.Genmsg.{package_resource_name}
use xc_ros.Genmsg.Types.{bare_msg_type}
use xc_ros.Genmsg.Constants.{Builtins}
use xc_ros.Genmsg.Spec.{MsgSpec}
use xc_ros.Genmsg.Context.{MsgContext, register, get_registered}
use xc_ros.Genmsg.Loader.{load_spec, load_msg_from_string}
use xc_ros.Genmsg.Gentools.{separator}
use xc_ros.Dynamic.{load_dep, read_lines, generate_dynamic_specs, first_line, other_lines}
use xc_ros.Dynamic.Parts.{has_rule, section, section-IsFree, Sections}

-- The section of a dependency is read as it was written.
reads_section :
    (d text : Text)
    → has 10 d ≡ false
    → (first_line (section d text) ≡ codes "MSG: " ++ d) × (other_lines (section d text) ≡ text)
unfolding has
reads_section d text h =
    let there : has 10 (section d text) ≡ true = ground (arith, has-append 10 d (10 ∷ text)) in
    rw
      (
        there,
        before-append 10 (codes "MSG: " ++ d) text h,
        after-append 10 (codes "MSG: " ++ d) text h,
      )
      (refl, refl)

module _ (builtins : Builtins) where
  abbrev F : Type 0
  F = builtins.F

  -- A message whose specification is the one that its text loads as, and whose name and text can be
  -- told apart in a full text.
  pub record IsReadable (d : Text) (dep : MsgSpec F) : Type 0 where
    pub one_line : has 10 d ≡ false
    pub stripped : strip d ≡ d
    pub bare : bare_msg_type d ≡ d
    pub plain : has_rule 80 (10 ∷ dep.text) ≡ false
    pub loaded : load_spec builtins dep.text d ≡ ok dep

  abbrev pub AllReadable : MsgContext F → List Text → Type 0
  AllReadable ctx ds =
      (d : Text) (dep : MsgSpec F)
      → mem d ds ≡ true
      → get_registered d ctx ≡ ok dep
      → IsReadable d dep

  pub Sections-AllFree :
      (ctx : MsgContext F) (ds bodies : List Text)
      → Sections ctx ds bodies
      → AllReadable ctx ds
      → AllFree (10 ∷ separator) bodies
  unfolding mem
  Sections-AllFree ctx [] [] s h = tt
  Sections-AllFree ctx [] (b ∷ bs) s h = absurd s
  Sections-AllFree ctx (d ∷ ds) [] s h = absurd s
  Sections-AllFree ctx (d ∷ ds) (b ∷ bs) ((dep, got, is), s) h =
      let r = h d dep (ground (arith, same_refl d)) got in
      (
        rw is (section-IsFree 80 d dep.text r.one_line r.plain),
        Sections-AllFree ctx ds bs s (λ e x m. h e x (ground (arith, m))),
      )

  pub loaded_name :
      (d : Text) (dep : MsgSpec F)
      → IsReadable d dep
      → (named : Text × Text) × (package_resource_name d ≡ ok named)
  unfolding load_spec
  loaded_name d dep r =
      let (named, is, _) = >>=-eq-ok (package_resource_name d) r.loaded in (named, is)

  register-ok :
      (d : Text) (dep : MsgSpec F) (ctx : MsgContext F)
      → IsReadable d dep
      → (ctx' : MsgContext F) × (register d dep ctx ≡ ok ctx')
  unfolding register
  register-ok d dep ctx r =
      let (named, is_named) = loaded_name d dep r in rw (r.bare, is_named) (_, refl)

  pub load_msg_from_string-ok :
      (d : Text) (dep : MsgSpec F) (ctx : MsgContext F)
      → IsReadable d dep
      → (ctx' : MsgContext F) × (load_msg_from_string builtins ctx dep.text d ≡ ok (ctx', dep))
  unfolding load_msg_from_string
  load_msg_from_string-ok d dep ctx r =
      let (ctx', is) = register-ok d dep ctx r in (ctx', rw (r.loaded, is) refl)

  pub generate_dynamic_specs-section :
      (d : Text) (dep : MsgSpec F) (ctx : MsgContext F)
      → IsReadable d dep
      → (ctx' : MsgContext F) × (generate_dynamic_specs builtins ctx (section d dep.text)
          ≡ ok (d, dep, ctx'))
  unfolding generate_dynamic_specs starts
  generate_dynamic_specs-section d dep ctx r =
      let (first, others) = reads_section d dep.text r.one_line in
      let (named, is_named) = loaded_name d dep r in
      let (ctx', is) = load_msg_from_string-ok d dep ctx r in
      (
        ctx',
        ap (λ l. read_lines builtins ctx l (other_lines (section d dep.text))) first
            ∙ ap (read_lines builtins ctx (codes "MSG: " ++ d)) others
            ∙ ap (λ t. load_dep builtins ctx t dep.text) r.stripped
            ∙ rw (is_named, is) refl,
      )
