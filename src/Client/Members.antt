-- ===== src/Client/Members.antt =====
-- client/client.go: who is in which channel, as a relation that forgets how the state keeps it.
mod Changes
use ircparser.Base.{
  ◌≡◌, refl, sym, ap, ◌∙◌, Bool, true, false, not, ◌&&◌, ◌||◌, [], ◌∷◌, Bytes, equal, equal_iff,
  Dict, bytes_eq, lookup, lookup-insert, lookup-delete, Option, none, some, if◌then◌else◌,
  Bool-cases, inl, inr, arith,
}
use ircparser.Channel.{
  rename_user, User, Channel, get_user, remove_user, add_user, new_user, new_channel,
}
use ircparser.Channel.Users.{get_user-remove_user, get_user-add_user}
use ircparser.Event.{
  NickData, nick_data, QuitData, PartData, JoinData, KickData, quit_data, part_data, join_data,
  kick_data,
}
use ircparser.State.{set_current_nick, State, remove_channel, add_channel}
use ircparser.Client.{
  handle_nick, update_channel, map_channels, handle_quit, handle_part, handle_join, handle_kick,
}
use Changes.{
  after_rename, has_user-renamed, is_some, has_user, changed, lookup-map_channels, changed_nothing,
  changed_found, lookup-update_channel, has_user-removed, has_user-added, has_user-deleted,
  has_user-opened,
}

-- The nick is in the channel, the channel is one that the client is in.
abbrev pub member : State → Bytes → Bytes → Bool
member cs name nick = has_user (lookup name cs.channels) nick

abbrev pub tracked : State → Bytes → Bool
tracked cs name = is_some (lookup name cs.channels)

-- What moves users.
pub data Move : Type 0 where
  joins : JoinData → Move
  parts : PartData → Move
  kicks : KickData → Move
  quits : QuitData → Move
  renames : NickData → Move

abbrev pub move : State → Move → State
move cs (joins d) = handle_join cs (join_data d)
move cs (parts d) = handle_part cs (part_data d)
move cs (kicks d) = handle_kick cs (kick_data d)
move cs (quits d) = handle_quit cs (quit_data d)
move cs (renames d) = handle_nick cs (nick_data d)

-- A user of that nick goes from a channel; when it is this client, so do all the others.
abbrev gone : State → Bytes → Bytes → Bytes → Bytes → Bool
gone cs channel goer name nick =
    member cs name nick
    && not (equal channel name && (equal goer cs.current_nick || equal goer nick))

-- Who is in which channel behind a move.
abbrev pub moved : State → Move → Bytes → Bytes → Bool
moved cs (joins d) name nick =
    if equal d.channel name
    then if equal d.nick cs.current_nick
      then equal d.nick nick
      else member cs name nick || (tracked cs name && equal d.nick nick)
    else member cs name nick
moved cs (parts d) name nick = gone cs d.channel d.nick name nick
moved cs (kicks d) name nick = gone cs d.channel d.kicked name nick
moved cs (quits d) name nick = member cs name nick && not (equal d.nick nick)
moved cs (renames d) name nick =
    after_rename (member cs name d.old_nick) d.old_nick d.new_nick nick (member cs name nick)

member-gone :
    (cs : State) (channel goer name nick : Bytes)
    → has_user
        (lookup name
          (if equal goer cs.current_nick
            then remove_channel cs channel
            else update_channel cs channel (λ c. remove_user c goer)).channels)
        nick
      ≡ gone cs channel goer name nick
unfolding remove_channel
member-gone cs channel goer name nick = elim (Bool-cases (equal goer cs.current_nick)) [
  | inl own ↦ rw own (
      ap (λ o. has_user o nick) (lookup-delete channel name cs.channels)
      ∙ has_user-deleted (equal channel name) nick (lookup name cs.channels))
  | inr other ↦ rw other (
      ap (λ o. has_user o nick) (lookup-update_channel cs channel (λ c. remove_user c goer) name)
      ∙ has_user-removed (equal channel name) goer nick (lookup name cs.channels))
]

-- The handlers of JOIN, PART, KICK, QUIT and NICK change who is in which channel just as the protocol
-- says: a user comes into or goes from the channel that is named, or goes from all channels, or is
-- in its channels under the new nick only, if that is another one (under the same nick it is gone);
-- the client's own coming and going opens a channel that it is in alone, and closes one. Nobody else
-- moves.
pub member-move :
    (cs : State) (v : Move) (name nick : Bytes)
    → member (move cs v) name nick ≡ moved cs v name nick
unfolding handle_nick handle_join handle_part handle_kick handle_quit add_channel new_channel
    add_user new_user
member-move cs (joins d) name nick = elim (Bool-cases (equal d.nick cs.current_nick)) [
  | inl own ↦ rw own (
      ap (λ o. has_user o nick)
        (lookup-insert d.channel name (add_user (new_channel d.channel) (new_user d.nick [] []))
          cs.channels)
      ∙ ground (arith, has_user-opened d.channel d.nick nick))
  | inr other ↦ rw other (
      ap (λ o. has_user o nick)
        (lookup-update_channel cs d.channel (λ c. add_user c (new_user d.nick [] [])) name)
      ∙ has_user-added (equal d.channel name) (new_user d.nick [] []) nick (lookup name cs.channels)
      ∙ ground arith)
]
member-move cs (parts d) name nick = member-gone cs d.channel d.nick name nick
member-move cs (kicks d) name nick = member-gone cs d.channel d.kicked name nick
member-move cs (quits d) name nick =
    ap (λ o. has_user o nick) (lookup-map_channels (λ c. remove_user c d.nick) name cs.channels)
    ∙ has_user-removed true d.nick nick (lookup name cs.channels)
member-move cs (renames d) name nick =
    ap (λ o. has_user o nick)
      (lookup-map_channels (λ c. rename_user c d.old_nick d.new_nick) name
          (if equal d.old_nick cs.current_nick then set_current_nick cs d.new_nick else cs).channels
        ∙ ap (λ m. changed true (λ c. rename_user c d.old_nick d.new_nick) (lookup name m))
            (same_channels (equal d.old_nick cs.current_nick)))
    ∙ has_user-renamed d.old_nick d.new_nick nick (lookup name cs.channels)
  where
    same_channels :
        (b : Bool) → (if b then set_current_nick cs d.new_nick else cs).channels ≡ cs.channels
    same_channels true = unfold set_current_nick in refl
    same_channels false = refl
