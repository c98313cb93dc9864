-- ===== src/Engine/Outcome.antt =====
-- src/ros/rosmake/src/rosmake/engine.py: `RosMakeAll.build`, with the tracker of package_stats.py that
-- it asks first, and the verdict of `parallel_build_pkgs`.
use xc_ros.Prelude.{
  Bool, true, false, ◌&&◌, ◌||◌, List, [], ◌∷◌, ◌++◌, Option, none, some, if◌then◌else◌,
}
use xc_ros.Prelude.Text.{Text, codes}
use xc_ros.Prelude.Str.Substring.{finds}
use xc_ros.Prelude.Dict.{Dict, insert}
use xc_ros.Prelude.Int.{ℤ, pos, eqb_ℤ}
use xc_ros.Prelude.Result.{Result, ok, err}
use xc_ros.BuildQueue.{Queue, succeeded}
use xc_ros.Flags.{World, Flags, Outcome, Error, resource_not_found}
use xc_ros.Flags.Verdict.{Reason, Verdict, can_build}

-- what make has returned
pub record Output : Type 0 where
  pub returncode : ℤ
  pub std_out : Text

-- the kinds of `return_string`
pub data Notice : Type 0 where
  passed : Notice
  no_rule : Notice
  interrupted : Notice
  failed : Notice
  not_buildable : List Reason → Notice
  not_found : Notice

-- `self.result[argument]`, `self.output[argument]` and the flag tracker
pub record Log : Type 0 where
  pub result : Dict Bool
  pub output : Dict Text
  pub flags : Flags

-- the packages whose result is not True
unfoldable pub not_true : Dict Bool → List Text
not_true [] = []
not_true ((p, v) ∷ result) = let rest = not_true result in if v then rest else p ∷ rest

abbrev pub failed_packages : Bool → Dict Bool → List Text
failed_packages true result = []
failed_packages false result = not_true result

abbrev pub Returned : Type 0
Returned = Result Error (Bool × Notice) × Log

-- The kind of a return code other than zero; `re.findall` is on a text without special characters.
abbrev pub blame : Bool → Bool → Bool × Notice
blame true interrupt = (true, no_rule)
blame false true = (false, interrupted)
blame false false = (false, failed)

abbrev pub judge : Output → Bool × Notice
judge out =
    if eqb_ℤ out.returncode (pos 0)
    then (true, passed)
    else blame (finds (codes "No rule to make target") out.std_out)
        (finds (codes "Interrupt") out.std_out)

abbrev pub recorded : Text → Bool × Notice → Log → Returned
recorded p verdict s = (ok verdict, record s { result = insert p verdict.0 s.result })

-- `make` is `_build_package`: `none` is its ResourceNotFound, for which `shown` is the message.
module _ (world : World) (shown : Text → Text) (robust_build skip_blacklist : Bool)
    (make : Text → Option Output) where
  abbrev pub absent : Text → Text → Log → Returned
  absent p q s =
      recorded p (false, not_found)
        (record s { output = insert p (codes "Package not found " ++ shown q) s.output })

  abbrev pub made : Text → Option Output → Log → Returned
  made p none s = absent p p s
  made p (some out) s = recorded p (judge out) (record s { output = insert p out.std_out s.output })

  abbrev pub asked : Text → Outcome Verdict → Log → Returned
  asked p (err (resource_not_found q), flags) s = absent p q (record s { flags = flags })
  asked p (err e, flags) s = (err e, record s { flags = flags })
  asked p (ok v, flags) s =
      if v.buildable || robust_build
      then made p (make p) (record s { flags = flags })
      else recorded p (v.output_state, not_buildable v.why) (record s { flags = flags })

  unfoldable pub build : Text → Bool → Log → Returned
  build p is_test s =
      asked p (can_build world p skip_blacklist (failed_packages is_test s.result) true s.flags) s

-- the end of `parallel_build_pkgs`
unfoldable pub all_passed : Dict Bool → Bool
all_passed [] = true
all_passed ((p, v) ∷ result) = v && all_passed result

unfoldable pub build_passed : Queue → Dict Bool → Bool
unfolding all_passed
build_passed queue result = succeeded queue && all_passed result
