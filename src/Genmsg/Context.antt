-- ===== src/Genmsg/Context.antt =====
-- src/genmsg/src/genmsg/msg_loader.py: `MsgContext`.
use xc_ros.Prelude.{Bool, false, List, [], Option, none, some, if◌then◌else◌}
use xc_ros.Prelude.Text.{Text}
use xc_ros.Prelude.Dict.{Dict, lookup, insert, has_key}
use xc_ros.Prelude.Result.{Result, ok, err, ◌>>=◌}
use xc_ros.Genmsg.{Error, key_error, package_resource_name}
use xc_ros.Genmsg.Types.{bare_msg_type}
use xc_ros.Genmsg.Spec.{MsgSpec}

pub record MsgContext {ℓ} (F : Type ℓ) : Type ℓ where
  pub registered_packages : Dict (Dict (MsgSpec F))
  pub files : Dict Text
  pub dependencies : Dict (List Text)

module _ {ℓ} {F : Type ℓ} where
  abbrev pub new_context : MsgContext F
  new_context = record { registered_packages = []; files = []; dependencies = [] }

  unfoldable pub set_file : Text → Text → MsgContext F → MsgContext F
  set_file full_msg_type file_path ctx = record ctx {
    files = insert full_msg_type file_path ctx.files;
  }

  unfoldable pub get_file : Text → MsgContext F → Option Text
  get_file full_msg_type ctx = lookup full_msg_type ctx.files

  unfoldable pub set_depends : Text → List Text → MsgContext F → MsgContext F
  set_depends full_msg_type depends ctx = record ctx {
    dependencies = insert full_msg_type depends ctx.dependencies;
  }

  unfoldable pub get_depends : Text → MsgContext F → Option (List Text)
  get_depends full_msg_type ctx = lookup full_msg_type ctx.dependencies

  -- the table of a package, empty where there was none
  abbrev pub table_of : Text → Dict (Dict (MsgSpec F)) → Dict (MsgSpec F)
  table_of pkg packages = elim (lookup pkg packages) [ none ↦ [] | some table ↦ table ]

  unfoldable pub register : Text → MsgSpec F → MsgContext F → Result Error (MsgContext F)
  register full_msg_type msgspec ctx = do
    (pkg, base_type) ← package_resource_name (bare_msg_type full_msg_type)
    let packages = ctx.registered_packages
    let table = insert base_type msgspec (table_of pkg packages)
    ok (record ctx { registered_packages = insert pkg table packages })

  unfoldable pub is_registered : Text → MsgContext F → Result Error Bool
  is_registered full_msg_type ctx = do
    (pkg, base_type) ← package_resource_name (bare_msg_type full_msg_type)
    ok (elim (lookup pkg ctx.registered_packages) [
      | none ↦ false
      | some table ↦ has_key base_type table
    ])

  abbrev pub found : Option (MsgSpec F) → Result Error (MsgSpec F)
  found none = err key_error
  found (some msgspec) = ok msgspec

  unfoldable pub get_registered : Text → MsgContext F → Result Error (MsgSpec F)
  unfolding is_registered
  get_registered full_msg_type ctx = do
    let bare = bare_msg_type full_msg_type
    there ← is_registered bare ctx
    let msgspec = package_resource_name bare >>= λ (pkg, base_type).
        found (lookup base_type (table_of pkg ctx.registered_packages))
    if there then msgspec else err key_error
