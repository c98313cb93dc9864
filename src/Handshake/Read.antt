-- ===== src/Handshake/Read.antt =====
-- src/ros/roslib/src/roslib/network.py: the header read off a socket, in whatever pieces it comes.
use xc_ros.Prelude.{ℕ, ◌+◌, ◌-◌, List, [], ◌∷◌, ◌++◌, ltb, leb, length, take, drop, if◌then◌else◌}
use xc_ros.Prelude.Text.{Text}
use xc_ros.Prelude.Dict.{Dict}
use xc_ros.Prelude.Result.{Result, ok, err, ◌>>=◌}
use xc_ros.Handshake.{Error, Bytes, terminated, unpack, decode_ros_handshake_header}

-- `bytes` that follow a whole header in the buffer are kept for the next read.
pub record Received : Type 0 where
  pub header : Dict Text
  pub leftovers : Bytes

module _ (decode_text : Bytes → Result Error Text) where
  -- the header of what the buffer holds, which is whole
  abbrev finish : Bytes → ℕ → Result Error Received
  finish bval size = do
    header ← decode_ros_handshake_header decode_text bval
    ok (record { header = header; leftovers = drop (size + 4) bval })

  -- `read_ros_handshake_header`: `received` is what each `recv` returns, and nothing after it; `b` is
  -- what the buffer holds.
  unfoldable pub read_ros_handshake_header : List Bytes → Bytes → Result Error Received
  read_ros_handshake_header [] b = err terminated
  read_ros_handshake_header ([] ∷ received) b = err terminated
  read_ros_handshake_header ((x ∷ d) ∷ received) b =
      let bval = b ++ (x ∷ d) in
      let more = read_ros_handshake_header received bval in
      if ltb 4 (length bval)
      then (unpack (take 4 bval) >>= λ size.
          if leb size (length bval - 4) then finish bval size else more)
      else more
