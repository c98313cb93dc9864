-- ===== src/Genmsg/Search/Ranks.antt =====
-- src/genmsg/src/genmsg/msg_loader.py: contexts whose messages embed messages of lower ranks.
use xc_ros.Prelude.{
  ℕ, ◌<◌, ◌≡◌, refl, sym, ◌∙◌, ap, subst, inl, inr, ◌&&◌, List, [], ◌∷◌, arith, if◌then◌else◌,
  Bool-cases,
}
use xc_ros.Prelude.Text.{Text, same, same_iff, same_refl}
use xc_ros.Prelude.Result.{ok, >>=-eq-ok, ok_injective}
use xc_ros.Genmsg.{package_resource_name}
use xc_ros.Genmsg.Types.{bare_msg_type, is_builtin}
use xc_ros.Genmsg.Spec.{MsgSpec}
use xc_ros.Genmsg.Context.{MsgContext, register, is_registered, get_registered}
use xc_ros.Genmsg.Registry.{get_registered-register, bare_msg_type_idem}
use xc_ros.Genmsg.Search.Loading.{resolved_type}

-- The types of the fields that are not built in, resolved, in order.
abbrev pub direct : Text → List Text → List Text
direct pkg [] = []
direct pkg (t ∷ types) =
    let others = direct pkg types in
    if is_builtin (resolved_type pkg t) then others else resolved_type pkg t ∷ others

module _ {F : Type 0} where
  abbrev pub IsRegistered : MsgContext F → Text → Type 0
  IsRegistered ctx t = (spec : MsgSpec F) × (get_registered t ctx ≡ ok spec)

  abbrev pub AllRegistered : MsgContext F → List Text → Type 0
  AllRegistered ctx [] = Unit
  AllRegistered ctx (t ∷ ts) = IsRegistered ctx t × AllRegistered ctx ts

  -- What is registered in the first context is so in the second one.
  abbrev pub Grows : MsgContext F → MsgContext F → Type 0
  Grows ctx ctx' = (t : Text) → IsRegistered ctx t → IsRegistered ctx' t

  pub AllRegistered-Grows :
      (ctx ctx' : MsgContext F) (ts : List Text)
      → Grows ctx ctx'
      → AllRegistered ctx ts
      → AllRegistered ctx' ts
  AllRegistered-Grows ctx ctx' [] g h = tt
  AllRegistered-Grows ctx ctx' (t ∷ ts) g h = (g t h.0, AllRegistered-Grows ctx ctx' ts g h.1)

  -- A type that is registered has a name.
  pub registered_name :
      (t : Text) (ctx : MsgContext F) {spec : MsgSpec F}
      → get_registered t ctx ≡ ok spec
      → (p b : Text) × (package_resource_name (bare_msg_type t) ≡ ok (p, b))
  unfolding get_registered is_registered
  registered_name t ctx e =
      let (there, e', _) = >>=-eq-ok (is_registered (bare_msg_type t) ctx) e in
      let ((p, b), e'', _) =
        >>=-eq-ok (package_resource_name (bare_msg_type (bare_msg_type t))) e' in
      (p, b, ap package_resource_name (sym (bare_msg_type_idem t)) ∙ e'')

  register_name :
      (t : Text) (spec : MsgSpec F) (ctx : MsgContext F) {ctx' : MsgContext F}
      → register t spec ctx ≡ ok ctx'
      → (p b : Text) × (package_resource_name (bare_msg_type t) ≡ ok (p, b))
  unfolding register
  register_name t spec ctx e =
      let ((p, b), e', _) = >>=-eq-ok (package_resource_name (bare_msg_type t)) e in (p, b, e')

  pub register-Grows :
      (t : Text) (spec : MsgSpec F) (ctx ctx' : MsgContext F)
      → register t spec ctx ≡ ok ctx'
      → Grows ctx ctx'
  register-Grows t spec ctx ctx' e u (old, there) =
      let (p, b, named) = register_name t spec ctx e in
      let (p', b', named') = registered_name u ctx there in
      let now : get_registered u ctx'
          ≡ (if same p p' && same b b' then ok spec else get_registered u ctx) =
        get_registered-register t u spec ctx ctx' named named' e in
      elim (Bool-cases (same p p' && same b b')) [
        | inl one ↦ (spec, now ∙ rw one refl)
        | inr two ↦ (old, now ∙ rw two there)
      ]

  pub register-IsRegistered :
      (t : Text) (spec : MsgSpec F) (ctx ctx' : MsgContext F)
      → register t spec ctx ≡ ok ctx'
      → get_registered t ctx' ≡ ok spec
  register-IsRegistered t spec ctx ctx' e =
      let (p, b, named) = register_name t spec ctx e in
      get_registered-register t t spec ctx ctx' named named e ∙ rw (same_refl p, same_refl b) refl

-- A type, if it has a name, has a rank below the bound.
abbrev pub IsBelow : (Text → Text → ℕ) → ℕ → Text → Type 0
IsBelow rank n t = (p b : Text) → package_resource_name (bare_msg_type t) ≡ ok (p, b) → rank p b < n

abbrev pub AllBelow : (Text → Text → ℕ) → ℕ → List Text → Type 0
AllBelow rank n [] = Unit
AllBelow rank n (t ∷ ts) = IsBelow rank n t × AllBelow rank n ts

module _ {F : Type 0} (rank : Text → Text → ℕ) where
  abbrev pub SpecBelow : ℕ → MsgSpec F → Type 0
  SpecBelow n spec = AllBelow rank n (direct spec.pkg spec.types)

  -- The specification of a type embeds types of lower ranks.
  abbrev pub Falls : Text → MsgSpec F → Type 0
  Falls t spec =
      (p b : Text) → package_resource_name (bare_msg_type t) ≡ ok (p, b) → SpecBelow (rank p b) spec

  abbrev pub IsRanked : MsgContext F → Type 0
  IsRanked ctx = (t : Text) (spec : MsgSpec F) → get_registered t ctx ≡ ok spec → Falls t spec

  pub register-IsRanked :
      (t : Text) (spec : MsgSpec F) (ctx ctx' : MsgContext F)
      → register t spec ctx ≡ ok ctx'
      → Falls t spec
      → IsRanked ctx
      → IsRanked ctx'
  register-IsRanked t spec ctx ctx' e f h u other there p' b' named' =
      let (p, b, named) = register_name t spec ctx e in
      let now : get_registered u ctx'
          ≡ (if same p p' && same b b' then ok spec else get_registered u ctx) =
        get_registered-register t u spec ctx ctx' named named' e in
      elim (Bool-cases (same p p' && same b b')) [
        | inl one ↦
            subst (SpecBelow (rank p' b'))
              (ok_injective spec other (sym (now ∙ rw one refl) ∙ there))
              (subst (λ k. SpecBelow (rank p' k) spec) ((same_iff b b').0 (ground arith))
                (subst (λ k. SpecBelow (rank k b) spec) ((same_iff p p').0 (ground arith))
                  (f p b named)))
        | inr two ↦ h u other (sym (now ∙ rw two refl) ∙ there) p' b' named'
      ]
