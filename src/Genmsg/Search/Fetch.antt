-- ===== src/Genmsg/Search/Fetch.antt =====
-- src/genmsg/src/genmsg/msg_loader.py: fetching the specification of a type.
use xc_ros.Prelude.{ℕ, ◌≡◌, refl, Bool, true, false, List, some}
use xc_ros.Prelude.Text.{Text}
use xc_ros.Prelude.Dict.{Dict}
use xc_ros.Prelude.Result.{Result, ok, err}
use xc_ros.Genmsg.{Error}
use xc_ros.Genmsg.Constants.{Builtins}
use xc_ros.Genmsg.Spec.{MsgSpec}
use xc_ros.Genmsg.Context.{MsgContext, register, is_registered, get_registered}
use xc_ros.Genmsg.Search.{FileSystem, load_msg_by_type}
use xc_ros.Genmsg.Search.Ranks.{
  Grows, Falls, IsRanked, register-Grows, register-IsRegistered, register-IsRanked,
}
use xc_ros.Genmsg.Search.Files.{FilesRanked, load_msg_by_type-IsRanked}
use xc_ros.Genmsg.Search.Loading.{register_loaded, load_missing, fetch}
use xc_ros.Genmsg.Search.Rules.{Good, Fetched}

module _ (fs : FileSystem) (builtins : Builtins) (search_path : Dict (List Text))
    (rank : Text → Text → ℕ) (files : FilesRanked fs builtins search_path rank) where
  register_loaded-Good :
      (t : Text) (ctx loaded : MsgContext builtins.F) (spec : MsgSpec builtins.F)
      (r : Result Error (MsgContext builtins.F))
      → register t spec loaded ≡ r
      → IsRanked rank loaded
      → Grows ctx loaded
      → Falls rank t spec
      → Good rank
          (Fetched rank t ctx)
          (some (elim r [ err e ↦ (loaded, err e) | ok registered ↦ (registered, ok spec) ]))
  register_loaded-Good t ctx loaded spec (err e) made h g f = tt
  register_loaded-Good t ctx loaded spec (ok registered) made h g f = (
    register-IsRanked rank t spec loaded registered made f h,
    (
      (λ u there. register-Grows t spec loaded registered made u (g u there)),
      register-IsRegistered t spec loaded registered made,
      f,
    ),
  )

  loaded-Good :
      (t : Text) (ctx : MsgContext builtins.F)
      (r : Result Error (MsgContext builtins.F × MsgSpec builtins.F))
      → load_msg_by_type fs builtins ctx t search_path ≡ r
      → IsRanked rank ctx
      → Good rank (Fetched rank t ctx) (some (register_loaded fs builtins search_path t ctx r))
  loaded-Good t ctx (err e) made h = tt
  loaded-Good t ctx (ok (loaded, spec)) made h =
      let (h', g) =
        load_msg_by_type-IsRanked fs builtins search_path rank files ctx loaded t spec made h in
      register_loaded-Good t ctx loaded spec (register t spec loaded) refl h' g
        (files t ctx loaded spec made)

  found-Good :
      (t : Text) (ctx : MsgContext builtins.F) (r : Result Error (MsgSpec builtins.F))
      → get_registered t ctx ≡ r
      → IsRanked rank ctx
      → Good rank (Fetched rank t ctx) (some (ctx, r))
  found-Good t ctx (err e) there h = tt
  found-Good t ctx (ok spec) there h = (h, ((λ u old. old), there, h t spec there))

  missing-Good :
      (t : Text) (ctx : MsgContext builtins.F) (r : Result Error Bool)
      → IsRanked rank ctx
      → Good rank (Fetched rank t ctx) (some (load_missing fs builtins search_path t ctx r))
  missing-Good t ctx (err e) h = tt
  missing-Good t ctx (ok true) h = found-Good t ctx (get_registered t ctx) refl h
  missing-Good t ctx (ok false) h =
      loaded-Good t ctx (load_msg_by_type fs builtins ctx t search_path) refl h

  pub fetch-Good :
      (t : Text) (ctx : MsgContext builtins.F)
      → IsRanked rank ctx
      → Good rank (Fetched rank t ctx) (some (fetch fs builtins search_path t ctx))
  unfolding fetch
  fetch-Good t ctx h = missing-Good t ctx (is_registered t ctx) h
