-- ===== src/Genmsg/Gentools.antt =====
-- src/genmsg/src/genmsg/gentools.py: the MD5 text and the full text of messages and services.
pub mod Sum
pub mod Md5
pub mod Unique
mod Tests
use xc_ros.Prelude.{
  ℕ, zero, suc, Bool, true, false, List, [], ◌∷◌, ◌++◌, Option, none, some, if◌then◌else◌,
}
use xc_ros.Prelude.Text.{Text, codes, same, mem}
use xc_ros.Prelude.Str.{strip}
use xc_ros.Prelude.Result.{Result, ok, err, ◌>>=◌}
use xc_ros.Names.{sep, drop_last}
use xc_ros.Genmsg.{Error, out_of_fuel, generation_error, package_resource_name}
use xc_ros.Genmsg.Types.{bare_msg_type, is_builtin}
use xc_ros.Genmsg.Constants.{Builtins, Constant}
use xc_ros.Genmsg.Spec.{MsgSpec}
use xc_ros.Genmsg.Context.{MsgContext, get_registered}
use xc_ros.Genmsg.Depends.{get_all_depends}
use xc_ros.Genmsg.Loader.{SrvSpec}

-- `EXT_MSG` and `EXT_SRV`
abbrev pub ext_msg : Text
ext_msg = codes ".msg"

abbrev pub ext_srv : Text
ext_srv = codes ".srv"

abbrev pub separator : Text
separator =
    codes "================================================================================\n"

unfoldable pub unique_from : List Text → List Text → List Text
unique_from uniques [] = uniques
unique_from uniques (d ∷ ds) = unique_from (if mem d uniques then uniques else uniques ++ d ∷ []) ds

unfoldable pub unique_deps : List Text → List Text
unfolding unique_from
unique_deps dep_list = unique_from [] dep_list

-- `"%s %s\n"`
abbrev pub line_of : Text → Text → Text
line_of first name = first ++ (32 ∷ name ++ 10 ∷ [])

module _ {ℓ} {F : Type ℓ} where
  unfoldable pub constant_lines : List (Constant F) → Text
  constant_lines [] = []
  constant_lines (c ∷ cs) =
      c.type ++ (32 ∷ c.name ++ (b'=' ∷ c.val_text ++ (10 ∷ constant_lines cs)))

  -- The first part of a line: the type, or the sum of the message that it names.
  abbrev pub type_part : (MsgSpec F → Result Error Text) → MsgContext F → Text → Result Error Text
  type_part md5_of ctx type =
      let msg_type = bare_msg_type type in
      if is_builtin msg_type
      then ok type
      else (package_resource_name msg_type >>= λ named. get_registered msg_type ctx >>= md5_of)

  -- the loop over the zipped types and names
  unfoldable pub field_lines :
      (MsgSpec F → Result Error Text) → MsgContext F → List Text → List Text → Result Error Text
  field_lines md5_of ctx [] names = ok []
  field_lines md5_of ctx (type ∷ types) [] = ok []
  field_lines md5_of ctx (type ∷ types) (name ∷ names) = do
    first ← type_part md5_of ctx type
    others ← field_lines md5_of ctx types names
    ok (line_of first name ++ others)

  unfoldable pub compute_md5_text :
      (MsgSpec F → Result Error Text) → MsgContext F → MsgSpec F → Result Error Text
  unfolding constant_lines field_lines
  compute_md5_text md5_of ctx spec = do
    fields ← field_lines md5_of ctx spec.types spec.names
    ok (strip (constant_lines spec.constants ++ fields))

  unfoldable pub dep_texts : MsgContext F → List Text → Result Error Text
  dep_texts ctx [] = ok []
  dep_texts ctx (d ∷ ds) = do
    dep ← get_registered d ctx
    others ← dep_texts ctx ds
    ok (separator ++ (codes "MSG: " ++ (d ++ (10 ∷ dep.text ++ (10 ∷ others)))))

-- What `hashlib.md5` makes of a text: the digest of its encoding, in hexadecimal. The updates with two
-- texts are one with both.
module _ (builtins : Builtins) (hexdigest : Text → Text) where
  pub data Spec : Type 0 where
    msg : MsgSpec builtins.F → Spec
    srv : SrvSpec builtins → Spec

  -- `compute_md5` of a message, on fuel, since the source does not end on a message that embeds itself
  unfoldable pub md5_of_msg : ℕ → MsgContext builtins.F → MsgSpec builtins.F → Result Error Text
  unfolding compute_md5_text
  md5_of_msg zero ctx spec = err out_of_fuel
  md5_of_msg (suc fuel) ctx spec = do
    text ← compute_md5_text (md5_of_msg fuel ctx) ctx spec
    ok (hexdigest text)

  unfoldable pub compute_hash : ℕ → MsgContext builtins.F → Spec → Result Error Text
  compute_hash fuel ctx (msg spec) = do
    text ← compute_md5_text (md5_of_msg fuel ctx) ctx spec
    ok (hexdigest text)
  compute_hash fuel ctx (srv spec) = do
    request ← compute_md5_text (md5_of_msg fuel ctx) ctx spec.request
    response ← compute_md5_text (md5_of_msg fuel ctx) ctx spec.response
    ok (hexdigest (request ++ response))

  abbrev pub compute_md5 : ℕ → MsgContext builtins.F → Spec → Result Error Text
  compute_md5 = compute_hash

  abbrev pub text_of : Spec → Text
  text_of (msg spec) = spec.text
  text_of (srv spec) = spec.text

  abbrev pub full_name_of : Spec → Text
  full_name_of (msg spec) = spec.full_name
  full_name_of (srv spec) = spec.full_name

  unfoldable pub compute_full_text : ℕ → MsgContext builtins.F → Spec → Result Error Text
  unfolding dep_texts unique_deps
  compute_full_text fuel ctx spec = do
    depends ← get_all_depends fuel (full_name_of spec) ctx
    texts ← dep_texts ctx (unique_deps depends)
    ok (drop_last (text_of spec ++ (10 ∷ texts)))

-- `s[:-len(ext)]` if `s.endswith(ext)`
unfoldable pub without_ext : Text → Text → Option Text
without_ext ext [] = if same [] ext then some [] else none
without_ext ext (c ∷ s) =
    let rest = without_ext ext s in
    if same (c ∷ s) ext then some [] else elim rest [ none ↦ none | some short ↦ some (c ∷ short) ]

abbrev or_srv : Text → Option Text → Option Text
or_srv file_name none = without_ext ext_srv file_name
or_srv file_name (some short) = some short

unfoldable pub compute_full_type_name : Text → Text → Result Error Text
unfolding without_ext
compute_full_type_name package_name file_name =
    elim (or_srv file_name (without_ext ext_msg file_name)) [
      | none ↦ err generation_error
      | some short_name ↦ ok (package_name ++ (sep ∷ short_name))
    ]
