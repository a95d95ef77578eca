-- ===== src/Modes.antt =====
-- parser/types.go: the lists of modes that users, channels and the client's state keep. UserMode
-- and ChannelMode have the same fields, and the three owners run the same loops.
pub mod Map
use ircparser.Base.{ℕ, Bool, true, false, List, [], ◌∷◌, Bytes, ◌==◌, if◌then◌else◌}

pub record ModeEntry : Type 0 where
  pub mode : ℕ
  pub parameter : Bytes

unfoldable pub has_mode : ℕ → List ModeEntry → Bool
has_mode mode [] = false
has_mode mode (m ∷ ms) = if m.mode == mode then true else has_mode mode ms

-- An entry that is there is replaced in its place; a new one goes to the end.
unfoldable pub add_mode : ℕ → Bytes → List ModeEntry → List ModeEntry
add_mode mode parameter [] = record { mode = mode; parameter = parameter } ∷ []
add_mode mode parameter (m ∷ ms) =
    if m.mode == mode
    then record { mode = mode; parameter = parameter } ∷ ms
    else m ∷ add_mode mode parameter ms

-- The first entry of the mode is cut out.
unfoldable pub remove_mode : ℕ → List ModeEntry → List ModeEntry
remove_mode mode [] = []
remove_mode mode (m ∷ ms) = if m.mode == mode then ms else m ∷ remove_mode mode ms
