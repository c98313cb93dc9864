-- ===== src/Genmsg/Gentools/Md5.antt =====
-- src/genmsg/src/genmsg/gentools.py: the MD5 sum of a message that does not embed itself.
use xc_ros.Prelude.{
  ℕ, zero, suc, ◌≤◌, ◌<◌, ◌≡◌, refl, sym, ap, ◌∙◌, subst, ◌⊎◌, inl, inr, true, false, List, [], ◌∷◌,
  ◌++◌, arith, Bool-cases,
}
use xc_ros.Prelude.Text.{Text, same, same_iff}
use xc_ros.Prelude.Dict.{Dict, lookup}
use xc_ros.Prelude.Result.{ok, ok_injective}
use xc_ros.Genmsg.{package_resource_name}
use xc_ros.Genmsg.Types.{bare_msg_type, is_builtin}
use xc_ros.Genmsg.Constants.{Builtins}
use xc_ros.Genmsg.Spec.{MsgSpec}
use xc_ros.Genmsg.Context.{MsgContext, get_registered, found, table_of}
use xc_ros.Genmsg.Registry.{get_registered-eq, bare_msg_type_idem}
use xc_ros.Genmsg.Gentools.{
  type_part, field_lines, compute_md5_text, Spec, msg, srv, md5_of_msg, compute_md5, compute_hash,
}
use xc_ros.Genmsg.Gentools.Sum.{
  ended, declared_field, line_of-ended, content, content-eq, HasLines, no_field, simple, embedded,
  more_types, more_names, HasSum,
}

module _ {ℓ} {F : Type ℓ} (rank : Text → Text → ℕ) (ctx : MsgContext F) where
  -- The type of a field is built in, or that of a registered message of a rank below.
  abbrev pub IsBelow : ℕ → Text → Type ℓ
  IsBelow n type =
      (is_builtin (bare_msg_type type) ≡ true)
      ⊎ ((pkg base : Text) × (sub : MsgSpec F) × (is_builtin (bare_msg_type type) ≡ false)
          × (package_resource_name (bare_msg_type type) ≡ ok (pkg, base))
          × (get_registered (bare_msg_type type) ctx ≡ ok sub)
          × (rank pkg base < n))

  abbrev pub AllBelow : ℕ → List Text → Type ℓ
  AllBelow n [] = Unit
  AllBelow n (type ∷ types) = IsBelow n type × AllBelow n types

  abbrev pub TableRanked : Text → Dict (MsgSpec F) → Type ℓ
  TableRanked pkg [] = Unit
  TableRanked pkg ((base, spec) ∷ table) =
      AllBelow (rank pkg base) spec.types × TableRanked pkg table

  -- The messages of the tables embed registered messages of lower ranks.
  abbrev pub AllRanked : Dict (Dict (MsgSpec F)) → Type ℓ
  AllRanked [] = Unit
  AllRanked ((pkg, table) ∷ packages) = TableRanked pkg table × AllRanked packages

  table-AllBelow :
      (pkg base : Text) (table : Dict (MsgSpec F)) {spec : MsgSpec F}
      → TableRanked pkg table
      → found (lookup base table) ≡ ok spec
      → AllBelow (rank pkg base) spec.types
  unfolding lookup
  table-AllBelow pkg base [] h e = absurd (cc)
  table-AllBelow pkg base ((key, first) ∷ table) {spec = spec} h e =
      elim (Bool-cases (same key base)) [
        | inl here ↦
            subst (λ k. AllBelow (rank pkg k) spec.types) ((same_iff key base).0 here)
              (subst (λ (s : MsgSpec F). AllBelow (rank pkg key) s.types)
                (ok_injective first spec (rw here at e)) h.0)
        | inr there ↦ table-AllBelow pkg base table h.1 (rw there at e)
      ]

  entry-AllBelow :
      (pkg base : Text) (packages : Dict (Dict (MsgSpec F))) {spec : MsgSpec F}
      → AllRanked packages
      → found (lookup base (table_of pkg packages)) ≡ ok spec
      → AllBelow (rank pkg base) spec.types
  unfolding lookup
  entry-AllBelow pkg base [] h e = absurd (cc)
  entry-AllBelow pkg base ((key, table) ∷ packages) {spec = spec} h e =
      elim (Bool-cases (same key pkg)) [
        | inl here ↦
            subst (λ k. AllBelow (rank k base) spec.types) ((same_iff key pkg).0 here)
              (table-AllBelow key base table h.0 (rw (found, here) at e))
        | inr there ↦ entry-AllBelow pkg base packages h.1 (rw (found, there) at e)
      ]

  registered-AllBelow :
      (type pkg base : Text) {spec : MsgSpec F}
      → AllRanked ctx.registered_packages
      → package_resource_name (bare_msg_type type) ≡ ok (pkg, base)
      → get_registered (bare_msg_type type) ctx ≡ ok spec
      → AllBelow (rank pkg base) spec.types
  registered-AllBelow type pkg base h named there =
      entry-AllBelow pkg base ctx.registered_packages h (
        sym
          (get_registered-eq (bare_msg_type type) pkg base ctx (rw (bare_msg_type_idem type) named))
        ∙ there)

module _ (builtins : Builtins) (hexdigest : Text → Text) (rank : Text → Text → ℕ)
    (ctx : MsgContext builtins.F) (ranked : AllRanked rank ctx ctx.registered_packages) where
  -- From some fuel on, the text of a message is one and the same.
  abbrev Settles : ℕ → MsgSpec builtins.F → Type 0
  Settles n spec =
      (ls : List Text) × HasLines builtins hexdigest ctx spec.types spec.names ls
      × ((fuel : ℕ)
          → n ≤ fuel
          → compute_md5_text (md5_of_msg builtins hexdigest fuel ctx) ctx spec
            ≡ ok (content builtins spec ls))

  abbrev LinesSettle : ℕ → List Text → List Text → Type 0
  LinesSettle n types names =
      (ls : List Text) × HasLines builtins hexdigest ctx types names ls
      × ((fuel : ℕ)
          → n ≤ fuel
          → field_lines (md5_of_msg builtins hexdigest fuel ctx) ctx types names ≡ ok (ended ls))

  abbrev PartSettles : ℕ → Text → Type 0
  PartSettles n type =
      (first : Text) × ((name : Text) (types names ls : List Text)
        → HasLines builtins hexdigest ctx types names ls
        → HasLines builtins hexdigest ctx (type ∷ types) (name ∷ names)
            (declared_field first name ∷ ls))
      × ((fuel : ℕ)
          → n ≤ fuel
          → type_part (md5_of_msg builtins hexdigest fuel ctx) ctx type ≡ ok first)

  md5-Settles :
      (n : ℕ) (spec : MsgSpec builtins.F)
      → (s : Settles n spec) → (fuel : ℕ) → n < fuel
      → md5_of_msg builtins hexdigest fuel ctx spec ≡ ok (hexdigest (content builtins spec s.0))
  unfolding md5_of_msg
  md5-Settles n spec (ls, made, settled) = at_fuel
    where
      at_fuel :
          (fuel : ℕ)
          → n < fuel
          → md5_of_msg builtins hexdigest fuel ctx spec ≡ ok (hexdigest (content builtins spec ls))
      at_fuel zero h = absurd (omega arith)
      at_fuel (suc fuel) h = rw (settled fuel (omega arith)) refl

  part-Settles :
      (n : ℕ) (type : Text)
      → ((k : ℕ) (sub : MsgSpec builtins.F) → k < n → AllBelow rank ctx k sub.types → Settles k sub)
      → IsBelow rank ctx n type
      → PartSettles n type
  part-Settles n type below (inl is_simple) =
      (type, λ name types names ls h. simple type name is_simple h, λ fuel k. rw is_simple refl)
  part-Settles n type below (inr (pkg, base, sub, complex, named, there, lower)) =
      let s =
        below (rank pkg base) sub lower
          (registered-AllBelow rank ctx type pkg base ranked named there) in
      (
        hexdigest (content builtins sub s.0),
        λ name types names ls h. embedded type name sub complex there s.1 h,
        λ fuel k. rw (complex, named, there) (md5-Settles (rank pkg base) sub s fuel (omega arith)),
      )

  lines-Settle :
      (n : ℕ) (types names : List Text)
      → ((type : Text) → IsBelow rank ctx n type → PartSettles n type)
      → AllBelow rank ctx n types
      → LinesSettle n types names
  unfolding field_lines ended
  lines-Settle n [] [] part h = ([], no_field, λ fuel k. refl)
  lines-Settle n [] (name ∷ names) part h = ([], more_names name names, λ fuel k. refl)
  lines-Settle n (type ∷ types) [] part h = ([], more_types type types, λ fuel k. refl)
  lines-Settle n (type ∷ types) (name ∷ names) part h =
      let (first, onto, settled) = part type h.0 in
      let (ls, made, settled') = lines-Settle n types names part h.1 in
      (
        declared_field first name ∷ ls,
        onto name types names ls made,
        λ fuel k. rw (settled fuel k, settled' fuel k) (ap ok (line_of-ended first name ls)),
      )

  text-Settles :
      (n : ℕ) (spec : MsgSpec builtins.F) → LinesSettle n spec.types spec.names → Settles n spec
  unfolding compute_md5_text
  text-Settles n spec (ls, made, settled) =
      (ls, made, λ fuel k. rw (settled fuel k) (ap ok (content-eq builtins spec ls)))

  all-Settles :
      (m n : ℕ) (spec : MsgSpec builtins.F)
      → n ≤ m
      → AllBelow rank ctx n spec.types
      → Settles n spec
  all-Settles zero n spec h b = text-Settles n spec (
      lines-Settle n spec.types spec.names
        (λ type. part-Settles n type (λ k sub lower. absurd (omega arith))) b)
  all-Settles (suc m) n spec h b = text-Settles n spec (
      lines-Settle n spec.types spec.names
        (λ type. part-Settles n type (λ k sub lower. all-Settles m k sub (omega arith))) b)

  abbrev pub SpecBelow : ℕ → Spec builtins hexdigest → Type 0
  SpecBelow n (msg spec) = AllBelow rank ctx n spec.types
  SpecBelow n (srv spec) =
      AllBelow rank ctx n spec.request.types × AllBelow rank ctx n spec.response.types

  -- If the registered messages embed registered messages of lower ranks only, so do not embed
  -- themselves, and a message or service embeds registered messages of ranks below a bound, it has a
  -- sum, and any fuel from that bound on comes to it: the digest of the lines of its constants and
  -- fields, in which the sum of an embedded message stands for its type.
  pub compute_md5-settles :
      (n : ℕ) (spec : Spec builtins hexdigest)
      → SpecBelow n spec
      → (sum : Text) × HasSum builtins hexdigest ctx spec sum
        × ((fuel : ℕ) → n ≤ fuel → compute_md5 builtins hexdigest fuel ctx spec ≡ ok sum)
  unfolding compute_hash
  compute_md5-settles n (msg spec) b =
      let (ls, made, settled) = all-Settles n n spec (omega arith) b in
      (hexdigest (content builtins spec ls), (ls, made, refl), λ fuel k. rw (settled fuel k) refl)
  compute_md5-settles n (srv spec) b =
      let (ls, made, settled) = all-Settles n n spec.request (omega arith) b.0 in
      let (ms, made', settled') = all-Settles n n spec.response (omega arith) b.1 in
      (
        hexdigest (content builtins spec.request ls ++ content builtins spec.response ms),
        (ls, ms, made, made', refl),
        λ fuel k. rw (settled fuel k, settled' fuel k) refl,
      )
