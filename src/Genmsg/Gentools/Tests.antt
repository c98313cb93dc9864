-- ===== src/Genmsg/Gentools/Tests.antt =====
-- A message that embeds another one, and the theorems at them.
use xc_ros.Prelude.{
  ℕ, ◌≤◌, ◌≡◌, refl, inl, inr, false, List, [], ◌∷◌, ◌++◌, none, arith, if◌then◌else◌,
}
use xc_ros.Prelude.Text.{Text, codes, same, mem}
use xc_ros.Prelude.Str.{has, strip, lstrip, rstrip, is_space, before}
use xc_ros.Prelude.Str.Split.{split_on}
use xc_ros.Prelude.Dict.{lookup, has_key}
use xc_ros.Prelude.Result.{ok, err}
use xc_ros.Names.{drop_last}
use xc_ros.Genmsg.{key_error, generation_error, package_resource_name}
use xc_ros.Genmsg.Types.{is_builtin, bare_msg_type}
use xc_ros.Genmsg.Constants.{Builtins, int, new_constant}
use xc_ros.Prelude.Int.{pos}
use xc_ros.Genmsg.Spec.{MsgSpec}
use xc_ros.Genmsg.Context.{MsgContext, is_registered, get_registered, get_depends}
use xc_ros.Genmsg.Depends.{depends_of, get_all_depends}
use xc_ros.Genmsg.Loader.{SrvSpec}
use xc_ros.Genmsg.Gentools.{
  constant_lines, field_lines, compute_md5_text, unique_from, unique_deps, dep_texts, msg, srv,
  md5_of_msg, compute_hash, compute_md5, compute_full_text, without_ext, compute_full_type_name,
}
use xc_ros.Genmsg.Gentools.Sum.{HasSum}
use xc_ros.Genmsg.Gentools.Md5.{AllRanked, IsBelow, compute_md5-settles}

abbrev builtins : Builtins
builtins = record {
  F = Unit {0};
  unicode = record { word = λ c. false; decimal = λ c. none };
  float_of = λ s. none;
  literal_truth = λ s. none;
}

-- A stand-in for the digest: the text in angle brackets.
abbrev hexdigest : Text → Text
hexdigest s = b'<' ∷ s ++ b'>' ∷ []

abbrev spec_of : List Text → List Text → Text → Text → MsgSpec builtins.F
spec_of types names text short_name = record {
  types = types;
  names = names;
  constants = [];
  header_present = false;
  text = text;
  full_name = codes "nav/" ++ short_name;
  short_name = short_name;
  pkg = codes "nav";
  parsed_fields = [];
}

abbrev point : MsgSpec builtins.F
point =
    record (spec_of (codes "int8" ∷ []) (codes "x" ∷ []) (codes "int8 X=1\nint8 x # m")
      (codes "Point")) {
        constants = new_constant (codes "int8") (codes "X") (int (pos 1)) (codes "1") ∷ [];
      }

abbrev pose : MsgSpec builtins.F
pose =
    spec_of (codes "nav/Point[]" ∷ codes "bool" ∷ []) (codes "ps" ∷ codes "b" ∷ [])
      (codes "Point[] ps\nbool b") (codes "Pose")

abbrev ctx : MsgContext builtins.F
ctx = record {
  registered_packages = (codes "nav", (codes "Point", point) ∷ (codes "Pose", pose) ∷ []) ∷ [];
  files = [];
  dependencies =
      (codes "nav/Point", []) ∷ (codes "nav/Pose", codes "nav/Point" ∷ codes "nav/Point" ∷ []) ∷ [];
}

abbrev service : SrvSpec builtins
service = record {
  request = point;
  response = pose;
  text = [];
  full_name = codes "nav/Move";
  short_name = codes "Move";
  pkg = codes "nav";
}

program : Unit {0}
unfolding same mem has strip lstrip rstrip is_space before split_on lookup has_key drop_last
    package_resource_name is_builtin bare_msg_type is_registered get_registered get_depends
    depends_of get_all_depends constant_lines field_lines compute_md5_text unique_from unique_deps
    dep_texts md5_of_msg compute_hash compute_full_text without_ext compute_full_type_name
program = tt

sums :
    (compute_md5 builtins hexdigest 2 ctx (msg pose) ≡ ok (codes "<<int8 X=1\nint8 x> ps\nbool b>"))
    × (compute_md5 builtins hexdigest 2 ctx (srv service)
        ≡ ok (codes "<int8 X=1\nint8 x<int8 X=1\nint8 x> ps\nbool b>"))
    × (compute_md5 builtins hexdigest 2 (record ctx { registered_packages = [] }) (msg pose)
        ≡ err key_error)
unfolding program
sums = (refl, refl, refl)

full_text :
    compute_full_text builtins hexdigest 2 ctx (msg pose)
    ≡ ok (
        codes
          "Point[] ps\nbool b\n================================================================================\nMSG: nav/Point\nint8 X=1\nint8 x # m")
unfolding program
full_text = refl

type_names :
    (compute_full_type_name (codes "nav") (codes "Pose.msg") ≡ ok (codes "nav/Pose"))
    × (compute_full_type_name (codes "nav") (codes "Move.srv") ≡ ok (codes "nav/Move"))
    × (compute_full_type_name (codes "nav") (codes "Pose.txt") ≡ err generation_error)
unfolding program
type_names = (refl, refl, refl)

abbrev rank : Text → Text → ℕ
rank pkg base = if same base (codes "Point") then 0 else 1

int8_IsBelow : IsBelow rank ctx 0 (codes "int8")
unfolding program
int8_IsBelow = inl refl

bool_IsBelow : IsBelow rank ctx 1 (codes "bool")
unfolding program
bool_IsBelow = inl refl

point_IsBelow : IsBelow rank ctx 1 (codes "nav/Point[]")
unfolding program
point_IsBelow = inr (codes "nav", codes "Point", point, refl, refl, refl, ground arith)

ranked : AllRanked rank ctx ctx.registered_packages
unfolding program
ranked = (((int8_IsBelow, tt), ((point_IsBelow, (bool_IsBelow, tt)), tt)), tt)

compute_md5-settles_example :
    (sum : Text) × HasSum builtins hexdigest ctx (msg pose) sum
    × ((fuel : ℕ) → 1 ≤ fuel → compute_md5 builtins hexdigest fuel ctx (msg pose) ≡ ok sum)
compute_md5-settles_example =
    compute_md5-settles builtins hexdigest rank ctx ranked 1 (msg pose)
      (point_IsBelow, (bool_IsBelow, tt))
