-- ===== src/Genmsg/Search/Rules.antt =====
-- src/genmsg/src/genmsg/msg_loader.py: what holds of a call that has ended.
use xc_ros.Prelude.{ℕ, ◌≡◌, none, some}
use xc_ros.Prelude.Text.{Text}
use xc_ros.Prelude.Result.{ok, err}
use xc_ros.Genmsg.Spec.{MsgSpec}
use xc_ros.Genmsg.Context.{MsgContext, get_registered}
use xc_ros.Genmsg.Search.Ranks.{Grows, Falls, IsRanked}
use xc_ros.Genmsg.Search.Loading.{Run, then_do}

module _ {F : Type 0} (rank : Text → Text → ℕ) where
  -- A call that has ended; if it has returned, then with a ranked context and the given property.
  abbrev pub Good : {A : Type 0} → (MsgContext F → A → Type 0) → Run F A → Type 0
  Good P none = ⊥
  Good P (some (ctx, err e)) = Unit
  Good P (some (ctx, ok value)) = IsRanked rank ctx × P ctx value

  pub then_do-Good :
      {A B : Type 0} (P : MsgContext F → A → Type 0) (Q : MsgContext F → B → Type 0)
      (first : Run F A) (next : MsgContext F → A → Run F B)
      → Good P first
      → ((ctx : MsgContext F) (value : A)
          → IsRanked rank ctx
          → P ctx value
          → Good Q (next ctx value))
      → Good Q (then_do first next)
  then_do-Good P Q none next h k = absurd h
  then_do-Good P Q (some (ctx, err e)) next h k = tt
  then_do-Good P Q (some (ctx, ok value)) next h k = k ctx value h.0 h.1

  pub weaken-Good :
      {A : Type 0} (P Q : MsgContext F → A → Type 0) (r : Run F A)
      → Good P r
      → ((ctx : MsgContext F) (value : A) → P ctx value → Q ctx value)
      → Good Q r
  weaken-Good P Q none h k = h
  weaken-Good P Q (some (ctx, err e)) h k = tt
  weaken-Good P Q (some (ctx, ok value)) h k = (h.0, k ctx value h.1)

  -- What fetching a type comes to.
  abbrev pub Fetched : Text → MsgContext F → MsgContext F → MsgSpec F → Type 0
  Fetched t start ctx spec = Grows start ctx × (get_registered t ctx ≡ ok spec) × Falls rank t spec
