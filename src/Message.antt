-- ===== src/Message.antt =====
-- parser/message.go: the message and its accessors.
pub mod Tags
pub mod Escape
pub mod Parse
pub mod Print
pub mod RoundTrip
pub mod Sound
mod Tests
use ircparser.Base.{
  ℕ, ◌-◌, Bool, true, false, ◌&&◌, List, [], ◌∷◌, Option, none, some, Bytes, Dict, bytes_eq, lookup,
  ◌==◌, leb, if◌then◌else◌, length, get_or, ℤ, pos, negsuc,
}
use ircparser.Text.Runes.{runes}

abbrev pub max_message_length : ℕ
max_message_length = 512

abbrev pub max_tag_length : ℕ
max_tag_length = 8192

pub record Message : Type 0 where
  pub tags : Dict Bytes Bytes
  pub source : Bytes
  pub command : Bytes
  pub params : List Bytes
  pub raw : Bytes

-- m.GetTag(key): `none` for the pair ("", false)
unfoldable pub get_tag : Message → Bytes → Option Bytes
get_tag m key = lookup key m.tags

unfoldable pub has_tag : Message → Bytes → Bool
has_tag m key = elim (lookup key m.tags) [ none ↦ false | some _ ↦ true ]

all_digits : List ℕ → Bool
all_digits [] = true
all_digits (r ∷ rs) = leb b'0' r && leb r b'9' && all_digits rs

unfoldable pub is_numeric : Message → Bool
unfolding all_digits
is_numeric m = if length m.command == 3 then all_digits (runes m.command) else false

unfoldable pub param_count : Message → ℕ
param_count m = length m.params

unfoldable pub get_param : Message → ℤ → Bytes
get_param m (negsuc _) = []
get_param m (pos i) = get_or m.params i []

last_or_empty : List Bytes → Bytes
last_or_empty [] = []
last_or_empty (p ∷ []) = p
last_or_empty (p ∷ q ∷ ps) = last_or_empty (q ∷ ps)

unfoldable pub get_trailing : Message → Bytes
unfolding last_or_empty
get_trailing m = last_or_empty m.params
