-- ===== src/Genmsg/Registry.antt =====
-- src/genmsg/src/genmsg/msg_loader.py: what is registered in a context can be got from it.
use xc_ros.Prelude.{
  ℕ, ◌≡◌, refl, sym, ◌∙◌, ap, subst, ◌⊎◌, inl, inr, true, false, ◌&&◌, [], ◌∷◌, Option, none, some,
  if◌then◌else◌, arith, Option-cases, Bool-cases,
}
use xc_ros.Prelude.Text.{Text, same, same_iff}
use xc_ros.Prelude.Str.{before}
use xc_ros.Prelude.Dict.{Dict, lookup, insert, has_key, lookup-insert}
use xc_ros.Prelude.Result.{Result, ok, err}
use xc_ros.Genmsg.{Error, key_error, package_resource_name}
use xc_ros.Genmsg.Types.{bare_msg_type}
use xc_ros.Genmsg.Spec.{MsgSpec}
use xc_ros.Genmsg.Context.{MsgContext, register, is_registered, get_registered, found, table_of}

before-before : (c : ℕ) (s : Text) → before c (before c s) ≡ before c s
unfolding before
before-before c [] = refl
before-before c (d ∷ s) = ground (arith, before-before c s)

pub bare_msg_type_idem : (t : Text) → bare_msg_type (bare_msg_type t) ≡ bare_msg_type t
unfolding bare_msg_type
bare_msg_type_idem t = before-before b'[' t

module _ {ℓ} {V : Type ℓ} where
  has_key-none : (k : Text) (m : Dict V) → lookup k m ≡ none → has_key k m ≡ false
  unfolding lookup has_key
  has_key-none k [] e = refl
  has_key-none k ((j, v) ∷ m) e = ground (arith, has_key-none k m)

  has_key-some : (k : Text) (m : Dict V) {v : V} → lookup k m ≡ some v → has_key k m ≡ true
  unfolding lookup has_key
  has_key-some k [] e = cc
  has_key-some k ((j, w) ∷ m) {v = v} e = ground (arith, has_key-some k m {v = v})

module _ {ℓ} {F : Type ℓ} where
  -- The entry of a package and a name in the tables.
  abbrev pub entry : Text → Text → MsgContext F → Result Error (MsgSpec F)
  entry pkg base_type ctx = found (lookup base_type (table_of pkg ctx.registered_packages))

  key_in :
      (base_type : Text) (o : Option (Dict (MsgSpec F)))
      → elim o [ none ↦ false | some table ↦ has_key base_type table ]
        ≡ has_key base_type (elim o [ none ↦ [] | some table ↦ table ])
  unfolding has_key
  key_in base_type none = refl
  key_in base_type (some table) = refl

  is_registered-eq :
      (t pkg base_type : Text) (ctx : MsgContext F)
      → package_resource_name (bare_msg_type t) ≡ ok (pkg, base_type)
      → is_registered t ctx ≡ ok (has_key base_type (table_of pkg ctx.registered_packages))
  unfolding is_registered
  is_registered-eq t pkg base_type ctx h =
      rw h (ap ok (key_in base_type (lookup pkg ctx.registered_packages)))

  found_if_there :
      (k : Text) (m : Dict (MsgSpec F))
      → (if has_key k m then found (lookup k m) else err key_error) ≡ found (lookup k m)
  found_if_there k m = elim (Option-cases (lookup k m)) [
    | inl missing ↦ rw (has_key-none k m missing, missing) refl
    | inr (v, there) ↦ rw (has_key-some k m there) refl
  ]

  pub get_registered-eq :
      (t pkg base_type : Text) (ctx : MsgContext F)
      → package_resource_name (bare_msg_type t) ≡ ok (pkg, base_type)
      → get_registered t ctx ≡ entry pkg base_type ctx
  unfolding get_registered
  get_registered-eq t pkg base_type ctx h =
      rw (is_registered-eq (bare_msg_type t) pkg base_type ctx (rw (bare_msg_type_idem t) h), h)
        (found_if_there base_type (table_of pkg ctx.registered_packages))

  -- The context that `register` leaves.
  abbrev stored : Text → Text → MsgSpec F → MsgContext F → MsgContext F
  stored p n spec ctx = record ctx {
    registered_packages =
        insert p (insert n spec (table_of p ctx.registered_packages)) ctx.registered_packages;
  }

  register-eq :
      (t p n : Text) (spec : MsgSpec F) (ctx : MsgContext F)
      → package_resource_name (bare_msg_type t) ≡ ok (p, n)
      → register t spec ctx ≡ ok (stored p n spec ctx)
  unfolding register
  register-eq t p n spec ctx h = rw h refl

  entry-stored :
      (p n p' n' : Text) (spec : MsgSpec F) (ctx : MsgContext F)
      → entry p' n' (stored p n spec ctx)
        ≡ (if same p p' && same n n' then ok spec else entry p' n' ctx)
  entry-stored p n p' n' spec ctx = elim (Bool-cases (same p p')) [
    | inl one ↦
        ap with_table (here one)
        ∙ rw one (subst SameName ((same_iff p p').0 one) (named (Bool-cases (same n n'))))
    | inr two ↦ ap with_table (there two) ∙ rw two refl
  ]
    where
      packages : Dict (Dict (MsgSpec F))
      packages = ctx.registered_packages

      table : Dict (MsgSpec F)
      table = insert n spec (table_of p packages)

      with_table : Option (Dict (MsgSpec F)) → Result Error (MsgSpec F)
      with_table o = found (lookup n' (elim o [ none ↦ [] | some table ↦ table ]))

      here : same p p' ≡ true → lookup p' (insert p table packages) ≡ some table
      here one = rw (lookup-insert p p' table packages, one) refl

      there : same p p' ≡ false → lookup p' (insert p table packages) ≡ lookup p' packages
      there two = rw (lookup-insert p p' table packages, two) refl

      SameName : Text → Type ℓ
      SameName q = found (lookup n' table) ≡ (if same n n' then ok spec else entry q n' ctx)

      named : ((same n n' ≡ true) ⊎ (same n n' ≡ false)) → SameName p
      named (inl e) = rw (lookup-insert n n' spec (table_of p packages), e) refl
      named (inr e) = rw (lookup-insert n n' spec (table_of p packages), e) refl

  -- After registering a specification, its type is found with it, and every other type with what
  -- it was found with before.
  pub get_registered-register :
      (t u : Text) {p n p' n' : Text} (spec : MsgSpec F) (ctx ctx' : MsgContext F)
      → package_resource_name (bare_msg_type t) ≡ ok (p, n)
      → package_resource_name (bare_msg_type u) ≡ ok (p', n')
      → register t spec ctx ≡ ok ctx'
      → get_registered u ctx' ≡ (if same p p' && same n n' then ok spec else get_registered u ctx)
  get_registered-register t u {p = p} {n = n} {p' = p'} {n' = n'} spec ctx ctx' h h' e =
      rw (get_registered-eq u p' n' ctx' h', get_registered-eq u p' n' ctx h', sym is_stored)
        (entry-stored p n p' n' spec ctx)
    where
      both : ◌≡◌ {A = Result Error (MsgContext F)} (ok (stored p n spec ctx)) (ok ctx')
      both = sym (register-eq t p n spec ctx h) ∙ e

      is_stored : stored p n spec ctx ≡ ctx'
      is_stored = ap (λ r. elim r [ ok c ↦ c | err x ↦ ctx ]) both
