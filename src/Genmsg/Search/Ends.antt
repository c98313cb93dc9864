-- ===== src/Genmsg/Search/Ends.antt =====
-- src/genmsg/src/genmsg/msg_loader.py: loading the dependencies of a message ends, and what it leaves.
use mathlib.Core.List.{append-nil, append_assoc}
use xc_ros.Prelude.{
  ℕ, zero, suc, ◌<◌, ◌≡◌, refl, sym, ◌∙◌, ap, subst, inl, inr, true, false, List, [], ◌∷◌, ◌++◌,
  Option, none, some, arith, Bool-cases,
}
use xc_ros.Prelude.Text.{Text, same_refl}
use xc_ros.Prelude.Dict.{Dict, lookup-insert}
use xc_ros.Genmsg.Types.{is_builtin}
use xc_ros.Genmsg.Constants.{Builtins}
use xc_ros.Genmsg.Spec.{MsgSpec}
use xc_ros.Genmsg.Context.{MsgContext, is_registered, get_registered, set_depends, get_depends}
use xc_ros.Genmsg.Search.{FileSystem}
use xc_ros.Genmsg.Search.Ranks.{
  direct, IsRegistered, AllRegistered, Grows, AllRegistered-Grows, AllBelow, SpecBelow, IsRanked,
  registered_name, IsBelow,
}
use xc_ros.Genmsg.Search.Files.{FilesRanked}
use xc_ros.Genmsg.Search.Loading.{
  Run, resolved_type, fetch, load_below, load_type, load_types, record_depends, load_msg_depends,
}
use xc_ros.Genmsg.Search.Rules.{Good, then_do-Good, weaken-Good, Fetched}
use xc_ros.Genmsg.Search.Fetch.{fetch-Good}

module _ (fs : FileSystem) (builtins : Builtins) (search_path : Dict (List Text))
    (rank : Text → Text → ℕ) (files : FilesRanked fs builtins search_path rank) where
  module _ (n : ℕ) (below : MsgContext builtins.F → MsgSpec builtins.F → Run builtins.F (List Text))
      (lower : (k : ℕ) (ctx : MsgContext builtins.F) (spec : MsgSpec builtins.F)
        → k < n
        → IsRanked rank ctx
        → SpecBelow rank k spec
        → Good rank (λ ctx' depends. Grows ctx ctx') (below ctx spec)) where
    load_below-Good :
        (k : ℕ) (spec : MsgSpec builtins.F) (ctx : MsgContext builtins.F) (o : Option (List Text))
        → k < n
        → IsRanked rank ctx
        → SpecBelow rank k spec
        → Good rank
            (λ ctx' done. Grows ctx ctx')
            (load_below fs builtins search_path below spec ctx o)
    load_below-Good k spec ctx (some depends) l h b = (h, λ u old. old)
    load_below-Good k spec ctx none l h b =
        then_do-Good rank (λ ctx' depends. Grows ctx ctx') (λ ctx' done. Grows ctx ctx')
          (below ctx spec) _ (lower k ctx spec l h b) (λ ctx' depends h' g. (h', g))

    -- A type that is not built in is registered behind its turn, and is appended.
    load_type-Good :
        (t : Text) (depends : List Text) (ctx : MsgContext builtins.F)
        → is_builtin t ≡ false
        → IsBelow rank n t
        → IsRanked rank ctx
        → Good rank
            (λ ctx' depends'. Grows ctx ctx' × IsRegistered ctx' t × (depends' ≡ depends ++ t ∷ []))
            (load_type fs builtins search_path below t depends ctx)
    unfolding load_type
    load_type-Good t depends ctx complex b h = rw complex (
        then_do-Good rank (Fetched rank t ctx) _ (some (fetch fs builtins search_path t ctx)) _
          (fetch-Good fs builtins search_path rank files t ctx h)
          (λ ctx' spec h' (g, there, falls).
            let (p, q, named) = registered_name t ctx' there in
            then_do-Good rank (λ ctx'' done. Grows ctx' ctx'') _
              (load_below fs builtins search_path below spec ctx' (get_depends t ctx')) _
              (load_below-Good (rank p q) spec ctx' (get_depends t ctx') (b p q named) h'
                (falls p q named))
              (λ ctx'' done h'' g'. (h'', ((λ u old. g' u (g u old)), g' t (spec, there), refl)))))

    abbrev TypesLoaded :
        List Text → List Text → MsgContext builtins.F → MsgContext builtins.F → List Text → Type 0
    TypesLoaded wanted depends start ctx result =
        Grows start ctx × AllRegistered ctx wanted × (result ≡ depends ++ wanted)

    direct-builtin :
        (pkg t : Text) (types : List Text)
        → is_builtin (resolved_type pkg t) ≡ true
        → direct pkg (t ∷ types) ≡ direct pkg types
    direct-builtin pkg t types simple = rw simple refl

    load_types-builtin :
        (pkg t : Text) (types depends : List Text) (ctx : MsgContext builtins.F)
        → is_builtin (resolved_type pkg t) ≡ true
        → load_types fs builtins search_path below pkg (t ∷ types) depends ctx
          ≡ load_types fs builtins search_path below pkg types depends ctx
    unfolding load_types load_type
    load_types-builtin pkg t types depends ctx simple = rw simple refl

    load_types-Good :
        (pkg : Text) (types depends : List Text) (ctx : MsgContext builtins.F)
        → AllBelow rank n (direct pkg types)
        → IsRanked rank ctx
        → Good rank
            (TypesLoaded (direct pkg types) depends ctx)
            (load_types fs builtins search_path below pkg types depends ctx)
    unfolding load_types
    load_types-Good pkg [] depends ctx b h = (h, ((λ u old. old), tt, sym (append-nil depends)))
    load_types-Good pkg (t ∷ types) depends ctx b h =
        elim (Bool-cases (is_builtin (resolved_type pkg t))) [
          | inl simple ↦
              subst (Good rank (TypesLoaded (direct pkg (t ∷ types)) depends ctx))
                (sym (load_types-builtin pkg t types depends ctx simple))
                (subst
                  (λ wanted.
                    Good rank (TypesLoaded wanted depends ctx)
                      (load_types fs builtins search_path below pkg types depends ctx))
                  (sym (direct-builtin pkg t types simple))
                  (load_types-Good pkg types depends ctx (rw simple at b) h))
          | inr complex ↦
              let b' : AllBelow rank n (resolved_type pkg t ∷ direct pkg types) = rw complex at b in
              then_do-Good rank _ (TypesLoaded (direct pkg (t ∷ types)) depends ctx)
                (load_type fs builtins search_path below (resolved_type pkg t) depends ctx)
                (λ ctx' depends'. load_types fs builtins search_path below pkg types depends' ctx')
                (load_type-Good (resolved_type pkg t) depends ctx complex b'.0 h)
                (λ ctx' depends' h' (g, there, e).
                  weaken-Good rank (TypesLoaded (direct pkg types) depends' ctx') _ _
                    (load_types-Good pkg types depends' ctx' b'.1 h')
                    (λ ctx'' result (g', all, e'). rw complex (
                      (λ u old. g' u (g u old)),
                      (g' (resolved_type pkg t) there, all),
                      e'
                          ∙ ap (λ ds. ds ++ direct pkg types) e
                          ∙ append_assoc depends (resolved_type pkg t ∷ []) (direct pkg types),
                    )))
        ]

  abbrev pub Loaded :
      MsgContext builtins.F → MsgSpec builtins.F → MsgContext builtins.F → List Text → Type 0
  Loaded start spec ctx depends =
      Grows start ctx
      × AllRegistered ctx depends
      × (depends ≡ direct spec.pkg spec.types)
      × (get_depends spec.full_name ctx ≡ some depends)

  set_depends-get_registered :
      (t u : Text) (depends : List Text) (ctx : MsgContext builtins.F)
      → get_registered u (set_depends t depends ctx) ≡ get_registered u ctx
  unfolding set_depends get_registered is_registered
  set_depends-get_registered t u depends ctx = refl

  set_depends-Grows :
      (t : Text) (depends : List Text) (ctx : MsgContext builtins.F)
      → Grows ctx (set_depends t depends ctx)
  set_depends-Grows t depends ctx u (spec, there) =
      (spec, set_depends-get_registered t u depends ctx ∙ there)

  record_depends-Good :
      (name : Text) (start ctx : MsgContext builtins.F) (depends wanted : List Text)
      → IsRanked rank ctx
      → Grows start ctx
      → AllRegistered ctx wanted
      → depends ≡ wanted
      → Good rank
          (λ ctx' ds.
            Grows start ctx'
            × AllRegistered ctx' ds
            × (ds ≡ wanted)
            × (get_depends name ctx' ≡ some ds))
          (record_depends fs builtins search_path name ctx depends)
  unfolding set_depends get_depends
  record_depends-Good [] start ctx depends wanted h g all e = tt
  record_depends-Good (c ∷ s) start ctx depends wanted h g all e = (
    (λ u spec there. h u spec (sym (set_depends-get_registered (c ∷ s) u depends ctx) ∙ there)),
    (
      (λ u old. set_depends-Grows (c ∷ s) depends ctx u (g u old)),
      AllRegistered-Grows ctx (set_depends (c ∷ s) depends ctx) depends
          (set_depends-Grows (c ∷ s) depends ctx) (subst (AllRegistered ctx) (sym e) all),
      e,
      rw (lookup-insert (c ∷ s) (c ∷ s) depends ctx.dependencies, same_refl (c ∷ s)) refl,
    ),
  )

  -- If what is registered and what lies on the search path embeds messages of lower ranks, then loading
  -- the dependencies of a message of at most the rank `n` ends with any fuel above `n`. Unless it
  -- raises, it returns the types of the fields, resolved, in order and without built-in ones; each of
  -- them is registered then, with all that was registered before, and they are kept as the
  -- dependencies of the message.
  pub load_msg_depends-Good :
      (fuel n : ℕ) (spec : MsgSpec builtins.F) (ctx : MsgContext builtins.F)
      → n < fuel
      → SpecBelow rank n spec
      → IsRanked rank ctx
      → Good rank (Loaded ctx spec) (load_msg_depends fs builtins search_path fuel ctx spec)
  unfolding load_msg_depends
  load_msg_depends-Good zero n spec ctx l b h = absurd (omega arith)
  load_msg_depends-Good (suc fuel) n spec ctx l b h =
      let below : MsgContext builtins.F → MsgSpec builtins.F → Run builtins.F (List Text) =
        load_msg_depends fs builtins search_path fuel in
      then_do-Good rank _ _ _ _
        (load_types-Good n below
          (λ k ctx' spec' l' h' b'.
            weaken-Good rank (Loaded ctx' spec') _ _
              (load_msg_depends-Good fuel k spec' ctx' (omega arith) b' h')
              (λ ctx'' depends loaded. loaded.0))
          spec.pkg spec.types [] ctx b h)
        (λ ctx' depends h' (g, all, e).
          record_depends-Good spec.full_name ctx ctx' depends _ h' g all e)
