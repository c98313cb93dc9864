-- ===== src/Flags/Platform.antt =====
-- src/ros/rosmake/src/rosmake/package_stats.py: `platform_supported`.
use xc_ros.Prelude.{Bool, false, ◌&&◌, ◌||◌, List, [], ◌∷◌}
use xc_ros.Prelude.Text.{Text, same}

-- an entry of the manifest's `platforms`
pub record Platform : Type 0 where
  pub os : Text
  pub version : Text

-- `_platform_supported`, on the platforms of `rospack.get_manifest(pkg)`
unfoldable pub platform_supported : List Platform → Text → Text → Bool
platform_supported [] os version = false
platform_supported (p ∷ platforms) os version =
    (same os p.os && same version p.version) || platform_supported platforms os version
