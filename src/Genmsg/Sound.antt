-- ===== src/Genmsg/Sound.antt =====
-- src/genmsg/src/genmsg/msg_loader.py and msgs.py: what a loaded specification is like.
use xc_ros.Prelude.{
  ◌≡◌, refl, ◌∙◌, ap, subst, Bool, true, false, not, List, [], ◌∷◌, ◌==◌, if◌then◌else◌, length,
  arith, map, ==_iff,
}
use xc_ros.Prelude.Text.{Text, same_refl}
use xc_ros.Prelude.Result.{Result, ok, err, ◌>>=◌, >>=-eq-ok}
use xc_ros.Prelude.Str.Split.{split_on}
use xc_ros.Genmsg.{Error, invalid_msg_spec, assertion_error, Unicode, package_resource_name}
use xc_ros.Genmsg.Types.{bare_msg_type, parse_type}
use xc_ros.Genmsg.Spec.{Field, MsgSpec, new_field, new_fields, new_spec, are_distinct}
use xc_ros.Genmsg.Constants.{Builtins, Constant}
use xc_ros.Genmsg.Context.{MsgContext, register, get_registered}
use xc_ros.Genmsg.Loader.{load_spec, load_msg_from_string, load_lines, no_lines}
use xc_ros.Genmsg.Registry.{get_registered-register}

-- The names of a specification are distinct, and its fields are those of its names and types.
abbrev pub IsSound {ℓ} : {F : Type ℓ} → MsgSpec F → Type 0
IsSound spec =
    (are_distinct spec.names ≡ true)
    × (map (λ f. f.name) spec.parsed_fields ≡ spec.names)
    × (map (λ f. f.type) spec.parsed_fields ≡ spec.types)

AreFields : List Field → List Text → List Text → Type 0
AreFields fields names types =
    (map (λ f. f.name) fields ≡ names) × (map (λ f. f.type) fields ≡ types)

ok_injective {ℓ} : {A : Type ℓ} (a b : A) → ◌≡◌ {A = Result Error A} (ok a) (ok b) → a ≡ b
ok_injective a b e = ap (λ r. elim r [ ok c ↦ c | err x ↦ a ]) e

unless-ok {ℓ} :
    {A : Type ℓ} {r : Result Error A} {a : A} (b : Bool)
    → (if not b then err invalid_msg_spec else r) ≡ ok a
    → (b ≡ true) × (r ≡ ok a)
unless-ok true e = (refl, e)
unless-ok false e = absurd (cc)

when-ok {ℓ} :
    {A : Type ℓ} {r : Result Error A} {a : A} (b : Bool)
    → (if b then r else err assertion_error) ≡ ok a
    → (b ≡ true) × (r ≡ ok a)
when-ok true e = (refl, e)
when-ok false e = absurd (cc)

new_field-eq :
    (unicode : Unicode) (name type : Text) {field : Field}
    → new_field unicode name type ≡ ok field
    → (field.name ≡ name) × (field.type ≡ type)
unfolding new_field
new_field-eq unicode name type e =
    let (parsed, _, whole) = >>=-eq-ok (parse_type unicode type) e in (cc, cc)

new_fields-AreFields :
    (unicode : Unicode) (names types : List Text) {fields : List Field}
    → length types ≡ length names
    → new_fields unicode names types ≡ ok fields
    → AreFields fields names types
unfolding new_fields AreFields
new_fields-AreFields unicode [] [] {fields = fields} h e =
    subst (λ fs. AreFields fs [] []) (ok_injective [] fields e) (refl, refl)
new_fields-AreFields unicode [] (type ∷ types) h e = absurd (omega arith)
new_fields-AreFields unicode (name ∷ names) [] h e = absurd (omega arith)
new_fields-AreFields unicode (name ∷ names) (type ∷ types) h e =
    joined (new_field unicode name type)
      (λ field made. new_field-eq unicode name type {field = field} made)
      (λ others made. new_fields-AreFields unicode names types {fields = others} (omega arith) made)
      e
  where
    Joined : List Field → Type 0
    Joined fs = AreFields fs (name ∷ names) (type ∷ types)

    joined :
        (first : Result Error Field)
        → ((field : Field) → first ≡ ok field → (field.name ≡ name) × (field.type ≡ type))
        → ((others : List Field)
            → new_fields unicode names types ≡ ok others
            → AreFields others names types)
        → {fs : List Field}
        → elim first [
          | err e ↦ err invalid_msg_spec
          | ok field ↦ new_fields unicode names types >>= λ fields. ok (field ∷ fields)
        ]
          ≡ ok fs
        → Joined fs
    joined (err e) k ih whole = absurd (cc)
    joined (ok field) k ih {fs = fs} whole =
        let (others, e', rest) = >>=-eq-ok (new_fields unicode names types) whole in
        let (same_names, same_types) = ih others e' in
        subst Joined (ok_injective (field ∷ others) fs rest)
          (rw ((k field refl).0, same_names) refl, rw ((k field refl).1, same_types) refl)

new_spec-IsSound {ℓ} :
    {F : Type ℓ} (unicode : Unicode) (types names : List Text) (constants : List (Constant F))
    (text full_name pkg short_name : Text) {spec : MsgSpec F}
    → new_spec unicode types names constants text full_name pkg short_name ≡ ok spec
    → IsSound spec
unfolding new_spec AreFields
new_spec-IsSound unicode types names constants text full_name pkg short_name {spec = spec} e =
    let ((alt_pkg, alt_short_name), _, body) = >>=-eq-ok (package_resource_name full_name) e in
    let (distinct, body') = unless-ok (are_distinct names) body in
    let (lengths, body'') = when-ok (length types == length names) body' in
    let (fields, made, whole) = >>=-eq-ok (new_fields unicode names types) body'' in
    let (same_names, same_types) =
      new_fields-AreFields unicode names types ((==_iff _ _).0 lengths) made in
    subst IsSound (ok_injective _ spec whole) (distinct, same_names, same_types)

module _ (builtins : Builtins) where
  load_spec-IsSound :
      (text full_name : Text) {spec : MsgSpec builtins.F}
      → load_spec builtins text full_name ≡ ok spec
      → IsSound spec
  unfolding load_spec
  load_spec-IsSound text full_name e =
      let ((package_name, short_name), _, body) = >>=-eq-ok (package_resource_name full_name) e in
      let (lines, _, made) =
        >>=-eq-ok (load_lines builtins package_name (split_on 10 text) no_lines) body in
      new_spec-IsSound builtins.unicode lines.types lines.names lines.constants text full_name
        package_name [] made

  -- What is registered is found again.
  register-get_registered :
      (t : Text) (spec : MsgSpec builtins.F) (ctx ctx' : MsgContext builtins.F)
      → register t spec ctx ≡ ok ctx'
      → get_registered t ctx' ≡ ok spec
  unfolding register
  register-get_registered t spec ctx ctx' e =
      let ((p, n), named, _) = >>=-eq-ok (package_resource_name (bare_msg_type t)) e in
      get_registered-register t t spec ctx ctx' named named e ∙ rw (same_refl p, same_refl n) refl

  -- A message that loads is sound, and its type is found with it in the context.
  pub load_msg_from_string-IsSound :
      (ctx ctx' : MsgContext builtins.F) (text full_name : Text) (spec : MsgSpec builtins.F)
      → load_msg_from_string builtins ctx text full_name ≡ ok (ctx', spec)
      → IsSound spec × (get_registered full_name ctx' ≡ ok spec)
  unfolding load_msg_from_string
  load_msg_from_string-IsSound ctx ctx' text full_name spec e =
      let (loaded, made, body) = >>=-eq-ok (load_spec builtins text full_name) e in
      let (registered, stored, whole) = >>=-eq-ok (register full_name loaded ctx) body in
      let both = ok_injective (registered, loaded) (ctx', spec) whole in
      (
        subst IsSound (ap (λ r. r.1) both) (load_spec-IsSound text full_name made),
        register-get_registered full_name spec ctx ctx'
            (subst (λ r. register full_name r.1 ctx ≡ ok r.0) both stored),
      )
