-- ===== src/BuildQueue/Spec.antt =====
-- What a build promises, with no lock, list or thread: a package waits, is built by someone, and then
-- is built or failed, and it is begun only when its dependencies allow it.
use xc_ros.Prelude.{ℕ, ◌+◌, ◌<◌, ◌≡◌, ◌⊎◌, Bool, true, List, [], ◌∷◌, if◌then◌else◌}
use xc_ros.Prelude.Text.{Text, same}

-- How often each package is at a place: the order in which it came there is forgotten.
abbrev pub Bag : Type 0
Bag = Text → ℕ

pub record Board : Type 0 where
  pub robust : Bool
  pub pending : Bag
  pub active : Bag
  pub built : Bag
  pub failed : Bag

abbrev pub one : Text → Bag
one p x = if same p x then 1 else 0

abbrev pub Same : Bag → Bag → Type 0
Same b b' = (x : Text) → b' x ≡ b x

-- One copy of a package goes from one place to another.
pub record Passes (p : Text) (from from' to to' : Bag) : Type 0 where
  pub there : 0 < from p
  pub leaves : (x : Text) → from' x + one p x ≡ from x
  pub arrives : (x : Text) → to' x ≡ to x + one p x

-- Every dependency is built, or has failed in a robust build.
abbrev pub IsReady : Board → List Text → Type 0
IsReady b [] = Unit
IsReady b (d ∷ ds) = ((0 < b.built d) ⊎ ((b.robust ≡ true) × (0 < b.failed d))) × IsReady b ds

module _ (get_deps : Text → List Text) where
  pub data Move (b b' : Board) : Type 0 where
    idle :
        b'.robust ≡ b.robust
        → Same b.pending b'.pending
        → Same b.active b'.active
        → Same b.built b'.built
        → Same b.failed b'.failed
        → Move b b'
    begin :
        (p : Text)
        → IsReady b (get_deps p)
        → b'.robust ≡ b.robust
        → Passes p b.pending b'.pending b.active b'.active
        → Same b.built b'.built
        → Same b.failed b'.failed
        → Move b b'
    finish :
        (p : Text)
        → b'.robust ≡ b.robust
        → Same b.pending b'.pending
        → Passes p b.active b'.active b.built b'.built
        → Same b.failed b'.failed
        → Move b b'
    fail :
        (p : Text)
        → b'.robust ≡ b.robust
        → Same b.pending b'.pending
        → Passes p b.active b'.active b.failed b'.failed
        → Same b.built b'.built
        → Move b b'

  pub data Moves (b : Board) : Board → Type 0 where
    here : Moves b b
    next : {c d : Board} → Moves b c → Move c d → Moves b d
