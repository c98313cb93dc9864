-- ===== src/Names/Resolve.antt =====
-- src/ros/roslib/src/roslib/names.py: where names are resolved to.
use xc_ros.Prelude.{
  ℕ, ◌≡◌, refl, sym, subst, ◌∙◌, ap, inl, inr, true, false, not, ◌||◌, [], ◌∷◌, ◌++◌, arith,
  if◌then◌else◌, Bool-cases, Option-cases, some,
}
use xc_ros.Prelude.Text.{Text, same}
use xc_ros.Prelude.Str.{has}
use xc_ros.Prelude.Str.Split.{up_to_last}
use xc_ros.Prelude.Dict.{Dict, lookup}
use xc_ros.Prelude.Result.{ok}
use xc_ros.Names.{
  sep, is_global, is_private, ends_with, drop_last, or_sep, namespace, make_global_ns,
  canonicalize_name, remapped, rest, resolved, resolve_name,
}
use xc_ros.Names.Canonical.{canonicalize_name_lem}

-- Every name that a table maps to is global.
abbrev pub AllGlobal : Dict Text → Type 0
AllGlobal [] = Unit
AllGlobal ((k, v) ∷ m) = (is_global v ≡ true) × AllGlobal m

lookup-AllGlobal :
    (k : Text) (m : Dict Text) {v : Text} → AllGlobal m → lookup k m ≡ some v → is_global v ≡ true
unfolding lookup
lookup-AllGlobal k [] h e = cc
lookup-AllGlobal k ((j, w) ∷ m) h e = elim (Bool-cases (same j k)) [
  | inl here ↦ ground (arith, here)
  | inr there ↦ lookup-AllGlobal k m h.1 (rw there at e)
]

is_global-up_to_last :
    (s : Text) → is_global (or_sep (up_to_last sep s)) ≡ is_global (or_sep s) || not (has sep s)
unfolding up_to_last has
is_global-up_to_last [] = refl
is_global-up_to_last (c ∷ s) = ground arith

is_global-namespace : (ns : Text) → is_global ns ≡ true → is_global (namespace ns) ≡ true
unfolding namespace ends_with drop_last up_to_last has
is_global-namespace [] h = absurd (cc)
is_global-namespace (c ∷ []) h = ground arith
is_global-namespace (c ∷ d ∷ s) h = ground arith

is_global-append : (s t : Text) → is_global s ≡ true → is_global (s ++ t) ≡ true
is_global-append [] t h = absurd (cc)
is_global-append (c ∷ s) t h = h

is_global-canonicalize_name :
    (s : Text) → is_global s ≡ true → is_global (canonicalize_name s) ≡ true
is_global-canonicalize_name s h = (canonicalize_name_lem s).1 ∙ h

is_global-resolved : (ns name : Text) → is_global ns ≡ true → is_global (resolved ns name) ≡ true
unfolding resolved
is_global-resolved ns name h = elim (Bool-cases (is_global name)) [
  | inl global ↦ rw (global, global) refl
  | inr local ↦ elim (Bool-cases (is_private name)) [
    | inl private ↦
        rw (local, private)
          (is_global-canonicalize_name (ns ++ (sep ∷ rest name))
            (is_global-append ns (sep ∷ rest name) h))
    | inr public ↦
        rw (local, public) (is_global-append (namespace ns) name (is_global-namespace ns h))
  ]
]

is_global-remapped :
    (m : Dict Text) (name : Text)
    → AllGlobal m
    → is_global name ≡ true
    → is_global (remapped m name) ≡ true
is_global-remapped m name h k = elim (Option-cases (lookup name m)) [
  | inl none_there ↦ rw (remapped, none_there) k
  | inr (v, e) ↦ rw (remapped, e) (lookup-AllGlobal name m h e)
]

-- Resolved against a global name of the caller, with remappings to global names only, every name is
-- global.
pub is_global-resolve_name :
    (name caller_id : Text) (remappings : Dict Text)
    → is_global caller_id ≡ true
    → AllGlobal remappings
    → is_global (resolve_name name caller_id remappings) ≡ true
unfolding resolve_name
is_global-resolve_name [] caller_id remappings h k = is_global-namespace caller_id h
is_global-resolve_name (c ∷ s) caller_id remappings h k =
    is_global-remapped remappings (resolved caller_id (canonicalize_name (c ∷ s))) k
      (is_global-resolved caller_id (canonicalize_name (c ∷ s)) h)

ends_with-append : (c : ℕ) (s : Text) → ends_with c (s ++ c ∷ []) ≡ true
unfolding ends_with
ends_with-append c [] = ground arith
ends_with-append c (d ∷ []) = ground arith
ends_with-append c (d ∷ e ∷ s) = ends_with-append c (e ∷ s)

-- A global name with the separator behind it that it may lack.
abbrev closed : Text → Text
closed s = if ends_with sep s then s else s ++ sep ∷ []

ends_with-closed : (s : Text) → ends_with sep (closed s) ≡ true
ends_with-closed s = ground (arith, ends_with-append sep s)

is_global-closed : (s : Text) → is_global s ≡ true → is_global (closed s) ≡ true
is_global-closed s h = ground (arith, is_global-append s (sep ∷ []))

make_global_ns-eq : (s : Text) → is_global s ≡ true → make_global_ns s ≡ ok (closed s)
unfolding make_global_ns
make_global_ns-eq [] h = cc
make_global_ns-eq (c ∷ s) h = ground arith

make_global_ns-local :
    (s : Text)
    → is_private s ≡ false
    → is_global s ≡ false
    → make_global_ns s ≡ make_global_ns (sep ∷ s)
unfolding make_global_ns
make_global_ns-local s h k = rw (h, k) refl

-- A name that begins and ends with the separator, as the function leaves it.
abbrev pub IsClosed : Text → Type 0
IsClosed ns = (is_global ns ≡ true) × (ends_with sep ns ≡ true) × (make_global_ns ns ≡ ok ns)

-- What the function makes of a name that is not private.
abbrev pub IsNamespaceOf : Text → Text → Type 0
IsNamespaceOf name ns = (make_global_ns name ≡ ok ns) × IsClosed ns

closed-IsNamespaceOf : (s : Text) → is_global s ≡ true → IsNamespaceOf s (closed s)
closed-IsNamespaceOf s h = (
  make_global_ns-eq s h,
  (
    is_global-closed s h,
    ends_with-closed s,
    make_global_ns-eq (closed s) (is_global-closed s h)
        ∙ ap (λ b. ok (if b then closed s else closed s ++ sep ∷ [])) (ends_with-closed s),
  ),
)

-- A name that is not private becomes a name that begins and ends with the separator and that the
-- function leaves as it is.
pub make_global_ns-IsNamespaceOf :
    (name : Text) → is_private name ≡ false → (ns : Text) × IsNamespaceOf name ns
make_global_ns-IsNamespaceOf name h = elim (Bool-cases (is_global name)) [
  | inl global ↦ (closed name, closed-IsNamespaceOf name global)
  | inr local ↦ (
    closed (sep ∷ name),
    subst (λ r. (r ≡ ok (closed (sep ∷ name))) × IsClosed (closed (sep ∷ name)))
        (sym (make_global_ns-local name h local)) (closed-IsNamespaceOf (sep ∷ name) refl),
  )
]
