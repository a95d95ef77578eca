-- ===== src/Channel.antt =====
-- parser/types.go: users and channels. The code makes a new User for every channel that it adds
-- it to, so a user belongs to one channel, and is a value in that channel's map here.
pub mod Users
mod Tests
use ircparser.Base.{
  ℕ, Bool, List, [], ◌∷◌, ◌++◌, Option, none, some, Bytes, Dict, bytes_eq, nat_eq, lookup, insert,
  delete, length, if◌then◌else◌,
}
use mathlib.Core.List.{flat_map}
use ircparser.Text.Runes.{encode}
use ircparser.Modes
use ircparser.Modes.{ModeEntry}

-- time.Time: what its clock shows, and 0 for the zero time.
abbrev pub Time : Type 0
Time = ℕ

pub record User : Type 0 where
  pub nick : Bytes
  pub username : Bytes
  pub host : Bytes
  pub modes : List ModeEntry

pub record Channel : Type 0 where
  pub name : Bytes
  pub topic : Bytes
  pub topic_by : Bytes
  pub topic_at : Time
  pub users : Dict Bytes User
  pub modes : List ModeEntry

unfoldable pub new_user : Bytes → Bytes → Bytes → User
new_user nick username host = record { nick = nick; username = username; host = host; modes = [] }

unfoldable pub user_has_mode : User → ℕ → Bool
user_has_mode u mode = Modes.has_mode mode u.modes

unfoldable pub user_add_mode : User → ℕ → Bytes → User
user_add_mode u mode parameter = record u { modes = Modes.add_mode mode parameter u.modes }

unfoldable pub user_remove_mode : User → ℕ → User
user_remove_mode u mode = record u { modes = Modes.remove_mode mode u.modes }

unfoldable pub user_get_modes : User → List ModeEntry
user_get_modes u = u.modes

unfoldable pub new_channel : Bytes → Channel
new_channel name = record {
  name = name;
  topic = [];
  topic_by = [];
  topic_at = 0;
  users = [];
  modes = [];
}

unfoldable pub add_user : Channel → User → Channel
add_user c user = record c { users = insert user.nick user c.users }

unfoldable pub remove_user : Channel → Bytes → Channel
remove_user c nick = record c { users = delete nick c.users }

unfoldable pub get_user : Channel → Bytes → Option User
get_user c nick = lookup nick c.users

unfoldable pub get_users : Channel → Dict Bytes User
get_users c = c.users

unfoldable pub get_user_count : Channel → ℕ
get_user_count c = length c.users

unfoldable pub rename_user : Channel → Bytes → Bytes → Channel
rename_user c old_nick new_nick = elim (lookup old_nick c.users) [
  | none ↦ c
  | some user ↦ record c {
    users = delete old_nick (insert new_nick (record user { nick = new_nick }) c.users);
  }
]

unfoldable pub set_topic : Channel → Bytes → Bytes → Time → Channel
set_topic c topic by at = record c { topic = topic; topic_by = by; topic_at = at }

unfoldable pub has_mode : Channel → ℕ → Bool
has_mode c mode = Modes.has_mode mode c.modes

unfoldable pub add_mode : Channel → ℕ → Bytes → Channel
add_mode c mode parameter = record c { modes = Modes.add_mode mode parameter c.modes }

unfoldable pub remove_mode : Channel → ℕ → Channel
remove_mode c mode = record c { modes = Modes.remove_mode mode c.modes }

unfoldable pub get_modes : Channel → List ModeEntry
get_modes c = c.modes

-- The map from modes to prefixes that GetPrefixString builds.
reverse_onto : Dict ℕ ℕ → Dict ℕ ℕ → Dict ℕ ℕ
reverse_onto [] m = m
reverse_onto ((prefix, mode) ∷ rest) m = reverse_onto rest (insert mode prefix m)

prefixes_of : Dict ℕ ℕ → List ModeEntry → List ℕ
prefixes_of m [] = []
prefixes_of m (e ∷ es) =
    let rest = prefixes_of m es in
    elim (lookup e.mode m) [ none ↦ rest | some prefix ↦ prefix ∷ rest ]

unfoldable pub get_prefix_string : User → Dict ℕ ℕ → Bytes
unfolding reverse_onto prefixes_of encode flat_map
get_prefix_string u prefix_to_mode =
    flat_map encode (prefixes_of (reverse_onto prefix_to_mode []) u.modes)
