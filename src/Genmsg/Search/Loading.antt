-- ===== src/Genmsg/Search/Loading.antt =====
-- src/genmsg/src/genmsg/msg_loader.py: loading what a message or service depends on.
use xc_ros.Prelude.{
  ℕ, zero, suc, Bool, true, false, List, [], ◌∷◌, ◌++◌, Option, none, some, if◌then◌else◌,
}
use xc_ros.Prelude.Text.{Text}
use xc_ros.Prelude.Dict.{Dict}
use xc_ros.Prelude.Result.{Result, ok, err}
use xc_ros.Genmsg.{Error, assertion_error}
use xc_ros.Genmsg.Types.{bare_msg_type, is_builtin, resolve_type}
use xc_ros.Genmsg.Constants.{Builtins}
use xc_ros.Genmsg.Spec.{MsgSpec}
use xc_ros.Genmsg.Context.{
  MsgContext, register, is_registered, get_registered, set_depends, get_depends,
}
use xc_ros.Genmsg.Loader.{SrvSpec}
use xc_ros.Genmsg.Search.{FileSystem, load_msg_by_type}

-- What a call leaves: the context, which outlives an exception, and what it returns or raises.
abbrev pub Out : Type 0 → Type 0 → Type 0
Out F A = MsgContext F × Result Error A

-- On fuel, since the source does not end on messages that embed one another in a cycle: `none` is a
-- call that has not ended.
abbrev pub Run : Type 0 → Type 0 → Type 0
Run F A = Option (Out F A)

abbrev pub then_do : {F A B : Type 0} → Run F A → (MsgContext F → A → Run F B) → Run F B
then_do none next = none
then_do (some (ctx, err e)) next = some (ctx, err e)
then_do (some (ctx, ok value)) next = next ctx value

-- `resolve_type(bare_msg_type(t), package_context)`
abbrev pub resolved_type : Text → Text → Text
resolved_type package_context unresolved_type =
    resolve_type (bare_msg_type unresolved_type) package_context

module _ (fs : FileSystem) (builtins : Builtins) (search_path : Dict (List Text)) where
  abbrev pub Context : Type 0
  Context = MsgContext builtins.F

  abbrev pub register_loaded :
      Text
      → Context
      → Result Error (Context × MsgSpec builtins.F)
      → Out builtins.F (MsgSpec builtins.F)
  register_loaded resolved ctx (err e) = (ctx, err e)
  register_loaded resolved ctx (ok (loaded, depspec)) = elim (register resolved depspec loaded) [
    | err e ↦ (loaded, err e)
    | ok registered ↦ (registered, ok depspec)
  ]

  abbrev pub load_missing : Text → Context → Result Error Bool → Out builtins.F (MsgSpec builtins.F)
  load_missing resolved ctx (err e) = (ctx, err e)
  load_missing resolved ctx (ok true) = (ctx, get_registered resolved ctx)
  load_missing resolved ctx (ok false) =
      register_loaded resolved ctx (load_msg_by_type fs builtins ctx resolved search_path)

  -- the specification of a field's type, loaded and registered on demand
  unfoldable pub fetch : Text → Context → Out builtins.F (MsgSpec builtins.F)
  fetch resolved ctx = load_missing resolved ctx (is_registered resolved ctx)

  abbrev pub load_below :
      (Context → MsgSpec builtins.F → Run builtins.F (List Text))
      → MsgSpec builtins.F
      → Context
      → Option (List Text)
      → Run builtins.F (Unit {0})
  load_below below depspec ctx (some depends) = some (ctx, ok tt)
  load_below below depspec ctx none =
      then_do (below ctx depspec) (λ ctx' depends. some (ctx', ok tt))

  -- the body of the loop over the types of the fields
  unfoldable pub load_type :
      (Context → MsgSpec builtins.F → Run builtins.F (List Text))
      → Text
      → List Text
      → Context
      → Run builtins.F (List Text)
  unfolding fetch
  load_type below resolved depends ctx =
      if is_builtin resolved
      then some (ctx, ok depends)
      else then_do (some (fetch resolved ctx)) (λ ctx' depspec.
        then_do (load_below below depspec ctx' (get_depends resolved ctx'))
          (λ ctx'' done. some (ctx'', ok (depends ++ resolved ∷ []))))

  unfoldable pub load_types :
      (Context → MsgSpec builtins.F → Run builtins.F (List Text))
      → Text
      → List Text
      → List Text
      → Context
      → Run builtins.F (List Text)
  unfolding load_type
  load_types below package_context [] depends ctx = some (ctx, ok depends)
  load_types below package_context (t ∷ types) depends ctx =
      then_do (load_type below (resolved_type package_context t) depends ctx)
        (λ ctx' depends'. load_types below package_context types depends' ctx')

  abbrev pub record_depends : Text → Context → List Text → Run builtins.F (List Text)
  record_depends [] ctx depends = some (ctx, err assertion_error)
  record_depends (c ∷ s) ctx depends = some (set_depends (c ∷ s) depends ctx, ok depends)

  unfoldable pub load_msg_depends : ℕ → Context → MsgSpec builtins.F → Run builtins.F (List Text)
  unfolding load_types
  load_msg_depends zero ctx spec = none
  load_msg_depends (suc fuel) ctx spec =
      then_do (load_types (load_msg_depends fuel) spec.pkg spec.types [] ctx)
        (record_depends spec.full_name)

  -- `load_depends` of a service; of a message it is `load_msg_depends`
  unfoldable pub load_srv_depends : ℕ → Context → SrvSpec builtins → Run builtins.F (List Text)
  load_srv_depends fuel ctx spec = then_do (load_msg_depends fuel ctx spec.request) (λ ctx' depends.
      then_do (load_msg_depends fuel ctx' spec.response)
        (λ ctx'' others. some (ctx'', ok (depends ++ others))))
