-- ===== src/Channel/Tests.antt =====
-- The properties of channels at a fixed channel.
use ircparser.Base.{◌≡◌, refl, [], ◌∷◌, some, codes, lookup, insert, delete, equal}
use ircparser.Channel.{
  User, Channel, new_user, new_channel, add_user, get_user, rename_user, remove_user,
}
use ircparser.Channel.Users.{get_user-rename_user}

abbrev alice : User
alice = record { nick = codes "alice"; username = []; host = []; modes = [] }

abbrev bob : User
bob = record { nick = codes "bob"; username = []; host = []; modes = [] }

abbrev room : Channel
room = record {
  name = codes "#room";
  topic = [];
  topic_by = [];
  topic_at = 0;
  users = (codes "alice", alice) ∷ (codes "bob", bob) ∷ [];
  modes = [];
}

-- Names at once all that a run computes with.
running : Unit {0}
unfolding lookup insert delete equal get_user add_user remove_user rename_user new_user new_channel
running = tt

get_user-rename_user_example :
    get_user (rename_user room (codes "alice") (codes "bob")) (codes "bob")
    ≡ some (record alice { nick = codes "bob" })
unfolding running
get_user-rename_user_example =
    get_user-rename_user room (codes "alice") (codes "bob") (codes "bob") alice refl
