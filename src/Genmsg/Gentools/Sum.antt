-- ===== src/Genmsg/Gentools/Sum.antt =====
-- src/genmsg/src/genmsg/gentools.py: what an MD5 sum is the digest of, without the recursion of
-- `compute_md5` and its buffers.
use mathlib.Core.List.{append_assoc}
use xc_ros.Prelude.{◌≡◌, refl, sym, ap, ◌∙◌, true, false, List, [], ◌∷◌, ◌++◌, map}
use xc_ros.Prelude.Text.{Text}
use xc_ros.Prelude.Str.{strip}
use xc_ros.Prelude.Result.{ok}
use xc_ros.Genmsg.Types.{bare_msg_type, is_builtin}
use xc_ros.Genmsg.Constants.{Builtins, Constant}
use xc_ros.Genmsg.Spec.{MsgSpec}
use xc_ros.Genmsg.Context.{MsgContext, get_registered}
use xc_ros.Genmsg.Gentools.{line_of, constant_lines, Spec, msg, srv}

-- Lines, each with its line end.
unfoldable pub ended : List Text → Text
ended [] = []
ended (l ∷ ls) = l ++ (10 ∷ ended ls)

ended-append : (ls ms : List Text) → ended (ls ++ ms) ≡ ended ls ++ ended ms
unfolding ended
ended-append [] ms = refl
ended-append (l ∷ ls) ms =
    ap (λ t. l ++ (10 ∷ t)) (ended-append ls ms) ∙ sym (append_assoc l (10 ∷ ended ls) (ended ms))

abbrev pub declared_field : Text → Text → Text
declared_field first name = first ++ (32 ∷ name)

pub line_of-ended :
    (first name : Text) (ls : List Text)
    → line_of first name ++ ended ls ≡ ended (declared_field first name ∷ ls)
unfolding ended
line_of-ended [] name ls = ap (λ t. 32 ∷ t) (append_assoc name (10 ∷ []) (ended ls))
line_of-ended (c ∷ first) name ls = ap (λ t. c ∷ t) (line_of-ended first name ls)

module _ (builtins : Builtins) where
  abbrev pub declared : Constant builtins.F → Text
  declared c = c.type ++ (32 ∷ c.name ++ (b'=' ∷ c.val_text))

  declared-append :
      (c : Constant builtins.F) (rest : Text)
      → declared c ++ rest ≡ c.type ++ (32 ∷ c.name ++ (b'=' ∷ c.val_text ++ rest))
  declared-append c rest =
      append_assoc c.type (32 ∷ c.name ++ (b'=' ∷ c.val_text)) rest
      ∙ ap (λ t. c.type ++ (32 ∷ t)) (append_assoc c.name (b'=' ∷ c.val_text) rest)

  constant_lines-ended :
      (cs : List (Constant builtins.F)) → constant_lines cs ≡ ended (map declared cs)
  unfolding constant_lines ended
  constant_lines-ended [] = refl
  constant_lines-ended (c ∷ cs) =
      ap (λ t. c.type ++ (32 ∷ c.name ++ (b'=' ∷ c.val_text ++ (10 ∷ t)))) (constant_lines-ended cs)
      ∙ sym (declared-append c (10 ∷ ended (map declared cs)))

  -- The text of a message: a line for each constant, then those of its fields.
  abbrev pub content : MsgSpec builtins.F → List Text → Text
  content spec ls = strip (ended (map declared spec.constants ++ ls))

  pub content-eq :
      (spec : MsgSpec builtins.F) (ls : List Text)
      → strip (constant_lines spec.constants ++ ended ls) ≡ content spec ls
  content-eq spec ls = ap strip (
      ap (λ t. t ++ ended ls) (constant_lines-ended spec.constants)
      ∙ sym (ended-append (map declared spec.constants) ls))

  module _ (hexdigest : Text → Text) (ctx : MsgContext builtins.F) where
    -- The lines of the fields: a built-in type stands as it is written, an embedded message as the sum of
    -- the registered message that the type names, without the brackets of an array.
    pub data HasLines : List Text → List Text → List Text → Type 0 where
      no_field : HasLines [] [] []
      simple :
          {types names ls : List Text} (type name : Text)
          → is_builtin (bare_msg_type type) ≡ true
          → HasLines types names ls
          → HasLines (type ∷ types) (name ∷ names) (declared_field type name ∷ ls)
      embedded :
          {types names ls sub_lines : List Text} (type name : Text) (sub : MsgSpec builtins.F)
          → is_builtin (bare_msg_type type) ≡ false
          → get_registered (bare_msg_type type) ctx ≡ ok sub
          → HasLines sub.types sub.names sub_lines
          → HasLines types names ls
          → HasLines
              (type ∷ types)
              (name ∷ names)
              (declared_field (hexdigest (content sub sub_lines)) name ∷ ls)
      more_types : (type : Text) (types : List Text) → HasLines (type ∷ types) [] []
      more_names : (name : Text) (names : List Text) → HasLines [] (name ∷ names) []

    -- A sum is the digest of the text of a message, or of those of the two messages of a service.
    abbrev pub HasSum : Spec builtins hexdigest → Text → Type 0
    HasSum (msg spec) sum =
        (ls : List Text) × HasLines spec.types spec.names ls × (sum ≡ hexdigest (content spec ls))
    HasSum (srv spec) sum =
        (ls ms : List Text) × HasLines spec.request.types spec.request.names ls
        × HasLines spec.response.types spec.response.names ms
        × (sum ≡ hexdigest (content spec.request ls ++ content spec.response ms))
