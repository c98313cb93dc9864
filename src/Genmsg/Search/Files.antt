-- ===== src/Genmsg/Search/Files.antt =====
-- src/genmsg/src/genmsg/msg_loader.py: what loading a message by its type leaves.
use xc_ros.Prelude.{ℕ, ◌≡◌, refl, sym, ◌∙◌, ap, subst, inl, inr, List, Bool-cases}
use xc_ros.Prelude.Text.{Text, same}
use xc_ros.Prelude.Dict.{Dict}
use xc_ros.Prelude.Result.{Result, ok, >>=-eq-ok, ok_injective}
use xc_ros.Genmsg.{Error, package_resource_name}
use xc_ros.Genmsg.Types.{header}
use xc_ros.Genmsg.Gentools.{ext_msg}
use xc_ros.Genmsg.Constants.{Builtins}
use xc_ros.Genmsg.Spec.{MsgSpec}
use xc_ros.Genmsg.Context.{MsgContext, register, is_registered, get_registered, set_file}
use xc_ros.Genmsg.Loader.{load_msg_from_string, load_spec}
use xc_ros.Genmsg.Search.{
  FileSystem, load_full_type, load_msg_by_type, full_type, get_msg_file, load_msg_from_file,
}
use xc_ros.Genmsg.Search.Ranks.{Grows, Falls, IsRanked, register-Grows, register-IsRanked}
use xc_ros.Genmsg.Search.Loading.{Context}

pair-eq :
    {A B : Type 0} {a a' : A} {b b' : B}
    → ◌≡◌ {A = Result Error (A × B)} (ok (a, b)) (ok (a', b'))
    → (a ≡ a') × (b ≡ b')
pair-eq {a = a} {a' = a'} {b = b} {b' = b'} e =
    let both : (a, b) ≡ (a', b') = ok_injective (a, b) (a', b') e in
    (ap (λ r. r.0) both, ap (λ r. r.1) both)

module _ (fs : FileSystem) (builtins : Builtins) (search_path : Dict (List Text)) where
  full_type_idem : (t : Text) → full_type (full_type t) ≡ full_type t
  unfolding same
  full_type_idem t = elim (Bool-cases (same t header)) [
    | inl old ↦ rw old refl
    | inr other ↦ rw (other, other) refl
  ]

  by_full_type :
      (ctx : MsgContext builtins.F) (t : Text)
      → load_msg_by_type fs builtins ctx (full_type t) search_path
        ≡ load_msg_by_type fs builtins ctx t search_path
  unfolding load_msg_by_type
  by_full_type ctx t = ap (λ u. load_full_type fs builtins ctx u search_path) (full_type_idem t)

  -- A message that loads is made of a file's text, and is registered under its full type.
  pub by_type_parts :
      (ctx ctx' : MsgContext builtins.F) (t : Text) (spec : MsgSpec builtins.F)
      → load_msg_by_type fs builtins ctx t search_path ≡ ok (ctx', spec)
      → (file_path : Text) × (loaded : MsgContext builtins.F) × (register (full_type t) spec ctx
          ≡ ok loaded)
        × (set_file (full_type t) file_path loaded ≡ ctx')
        × (text : Text) × (fs.read file_path ≡ ok text)
        × (load_spec builtins text (full_type t) ≡ ok spec)
  unfolding load_msg_by_type load_full_type load_msg_from_string
  by_type_parts ctx ctx' t spec e =
      let ((pkg, base), _, e1) = >>=-eq-ok (package_resource_name (full_type t)) e in
      let (file_path, _, e2) = >>=-eq-ok (get_msg_file fs pkg base search_path ext_msg) e1 in
      let ((loaded, spec'), e3, e4) =
        >>=-eq-ok (load_msg_from_file fs builtins ctx file_path (full_type t)) e2 in
      let (text, read, e5) = >>=-eq-ok (fs.read file_path) e3 in
      let (first, made, e6) = >>=-eq-ok (load_spec builtins text (full_type t)) e5 in
      let (registered, e7, e8) = >>=-eq-ok (register (full_type t) first ctx) e6 in
      let (same_context, same_spec) = pair-eq e8 in
      let (whole, whole_spec) = pair-eq e4 in
      (
        file_path,
        loaded,
        subst (λ (s : MsgSpec builtins.F). register (full_type t) s ctx ≡ ok loaded)
            (same_spec ∙ whole_spec) (e7 ∙ ap ok same_context),
        whole,
        text,
        read,
        made ∙ ap ok (same_spec ∙ whole_spec),
      )

  set_file-get_registered :
      (t u path : Text) (ctx : MsgContext builtins.F)
      → get_registered u (set_file t path ctx) ≡ get_registered u ctx
  unfolding set_file get_registered is_registered
  set_file-get_registered t u path ctx = refl

  set_file-Grows : (t path : Text) (ctx : MsgContext builtins.F) → Grows ctx (set_file t path ctx)
  set_file-Grows t path ctx u (spec, there) = (spec, set_file-get_registered t u path ctx ∙ there)

  module _ (rank : Text → Text → ℕ) where
    -- The files on the search path embed messages of lower ranks.
    abbrev pub FilesRanked : Type 0
    FilesRanked =
        (t : Text) (ctx ctx' : Context fs builtins search_path) (spec : MsgSpec builtins.F)
        → load_msg_by_type fs builtins ctx t search_path ≡ ok (ctx', spec)
        → Falls rank t spec

    set_file-IsRanked :
        (t path : Text) (ctx : MsgContext builtins.F)
        → IsRanked rank ctx
        → IsRanked rank (set_file t path ctx)
    set_file-IsRanked t path ctx h u spec there =
        h u spec (sym (set_file-get_registered t u path ctx) ∙ there)

    module _ (files : FilesRanked) where
      pub load_msg_by_type-IsRanked :
          (ctx ctx' : MsgContext builtins.F) (t : Text) (spec : MsgSpec builtins.F)
          → load_msg_by_type fs builtins ctx t search_path ≡ ok (ctx', spec)
          → IsRanked rank ctx
          → IsRanked rank ctx' × Grows ctx ctx'
      load_msg_by_type-IsRanked ctx ctx' t spec e h =
          let (file_path, loaded, e', whole, _, _, _) = by_type_parts ctx ctx' t spec e in
          let falls = files (full_type t) ctx ctx' spec (by_full_type ctx t ∙ e) in
          (
            subst (IsRanked rank) whole (
                set_file-IsRanked (full_type t) file_path loaded
                  (register-IsRanked rank (full_type t) spec ctx loaded e' falls h)),
            subst (Grows ctx) whole (λ u there.
                set_file-Grows (full_type t) file_path loaded u
                  (register-Grows (full_type t) spec ctx loaded e' u there)),
          )
