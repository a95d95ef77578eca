-- ===== src/Client/Tracking/Parts.antt =====
-- Changes of one channel that keep its name and its shape.
use mathlib.Core.Path.{subst}
use ircparser.Base.{
  ℕ, ◌≡◌, refl, sym, ◌∙◌, Bool, true, false, List, [], ◌∷◌, Bytes, Dict, bytes_eq, nat_eq, lookup,
  insert, Option, none, some, All, All-insert, All-delete, All-lookup, Option-cases, inl, inr,
}
use ircparser.Modes.Map.{AreModes, add_mode-AreModes, remove_mode-AreModes}
use ircparser.Channel
use ircparser.Channel.{
  Time, User, Channel, new_user, new_channel, rename_user, user_add_mode, user_remove_mode,
}
use ircparser.Channel.Users.{rename_user_present, rename_user_missing}
use ircparser.Client.{update_user, change_channel_mode}
use ircparser.Client.Names.{strip_prefixes, give_modes, add_named, add_names}

-- A user filed under its nick, with no mode twice.
pub record IsUser (nick : Bytes) (u : User) : Type 0 where
  pub filed : u.nick ≡ nick
  pub modes : AreModes u.modes

pub record IsChannel (c : Channel) : Type 0 where
  pub users : All (λ e. IsUser e.0 e.1) c.users
  pub modes : AreModes c.modes

abbrev pub Keeps : (Channel → Channel) → Type 0
Keeps f = (c : Channel) → IsChannel c → ((f c).name ≡ c.name) × IsChannel (f c)

pub new_channel-IsChannel : (name : Bytes) → IsChannel (new_channel name)
unfolding new_channel
new_channel-IsChannel name = record { users = tt; modes = tt }

pub add_user-Keeps : (u : User) → AreModes u.modes → Keeps (λ c. Channel.add_user c u)
unfolding Channel.add_user
add_user-Keeps u h c is = (
  refl,
  record {
    users = All-insert _ u.nick u c.users (record { filed = refl; modes = h }) is.users;
    modes = is.modes;
  },
)

pub remove_user-Keeps : (nick : Bytes) → Keeps (λ c. Channel.remove_user c nick)
unfolding Channel.remove_user
remove_user-Keeps nick c is =
    (refl, record { users = All-delete _ nick c.users is.users; modes = is.modes })

pub rename_user-Keeps : (old new : Bytes) → Keeps (λ c. rename_user c old new)
rename_user-Keeps old new c is = elim (Option-cases (lookup old c.users)) [
  | inl e ↦
      subst (λ d. (d.name ≡ c.name) × IsChannel d) (sym (rename_user_missing c old new e))
        (refl, is)
  | inr (u, e) ↦
      let there = All-lookup _ old c.users is.users e in
      subst (λ d. (d.name ≡ c.name) × IsChannel d) (sym (rename_user_present c old new e))
        (
          refl,
          record {
            users = All-delete _ old _ (
                All-insert _ new (record u { nick = new }) c.users
                  (record { filed = refl; modes = there.modes }) is.users);
            modes = is.modes;
          },
        )
]

pub set_topic-Keeps : (topic by : Bytes) (at : Time) → Keeps (λ c. Channel.set_topic c topic by at)
unfolding Channel.set_topic
set_topic-Keeps topic by at c is = (refl, record { users = is.users; modes = is.modes })

pub topic_by-Keeps : (by : Bytes) → Keeps (λ c. record c { topic_by = by })
topic_by-Keeps by c is = (refl, record { users = is.users; modes = is.modes })

add_mode-Keeps : (char : ℕ) (parameter : Bytes) → Keeps (λ c. Channel.add_mode c char parameter)
unfolding Channel.add_mode
add_mode-Keeps char parameter c is =
    (refl, record { users = is.users; modes = add_mode-AreModes char parameter c.modes is.modes })

remove_mode-Keeps : (char : ℕ) → Keeps (λ c. Channel.remove_mode c char)
unfolding Channel.remove_mode
remove_mode-Keeps char c is =
    (refl, record { users = is.users; modes = remove_mode-AreModes char c.modes is.modes })

-- A change of one user that keeps its nick and its shape.
update_user-Keeps :
    (nick : Bytes) (f : User → User)
    → ((u : User) → IsUser nick u → IsUser nick (f u))
    → Keeps (λ c. update_user c nick f)
unfolding update_user
update_user-Keeps nick f k c is = go (lookup nick c.users) refl
  where
    go :
        (o : Option User)
        → lookup nick c.users ≡ o
        → let d : Channel = elim o [
          | none ↦ c
          | some u ↦ record c { users = insert nick (f u) c.users }
        ] in
          (d.name ≡ c.name) × IsChannel d
    go none e = (refl, is)
    go (some u) e = (
      refl,
      record {
        users =
            All-insert _ nick (f u) c.users (k u (All-lookup _ nick c.users is.users e)) is.users;
        modes = is.modes;
      },
    )

then-Keeps : (f g : Channel → Channel) → Keeps f → Keeps g → Keeps (λ c. g (f c))
then-Keeps f g hf hg c is =
    let (n, is') = hf c is in let (n', is'') = hg (f c) is' in (n' ∙ n, is'')

user_add_mode-IsUser :
    (char : ℕ) (nick : Bytes) (u : User) → IsUser nick u → IsUser nick (user_add_mode u char [])
unfolding user_add_mode
user_add_mode-IsUser char nick u h = record {
  filed = h.filed;
  modes = add_mode-AreModes char [] u.modes h.modes;
}

user_remove_mode-IsUser :
    (char : ℕ) (nick : Bytes) (u : User) → IsUser nick u → IsUser nick (user_remove_mode u char)
unfolding user_remove_mode
user_remove_mode-IsUser char nick u h = record {
  filed = h.filed;
  modes = remove_mode-AreModes char u.modes h.modes;
}

pub change_channel_mode-Keeps :
    (adding : Bool) (char : ℕ) (parameter : Bytes)
    → Keeps (change_channel_mode adding char parameter)
unfolding change_channel_mode
change_channel_mode-Keeps true char [] = add_mode-Keeps char []
change_channel_mode-Keeps true char (p ∷ ps) =
    then-Keeps _ _ (add_mode-Keeps char (p ∷ ps))
      (update_user-Keeps (p ∷ ps) _ (user_add_mode-IsUser char (p ∷ ps)))
change_channel_mode-Keeps false char [] = remove_mode-Keeps char
change_channel_mode-Keeps false char (p ∷ ps) =
    then-Keeps _ _ (remove_mode-Keeps char)
      (update_user-Keeps (p ∷ ps) _ (user_remove_mode-IsUser char (p ∷ ps)))

give_modes-AreModes :
    (modes : List ℕ) (u : User) → AreModes u.modes → AreModes (give_modes modes u).modes
unfolding give_modes user_add_mode
give_modes-AreModes [] u h = h
give_modes-AreModes (m ∷ modes) u h = give_modes-AreModes modes _ (add_mode-AreModes m [] u.modes h)

add_named-Keeps : (named : List ℕ × Bytes) → Keeps (add_named named)
unfolding add_named new_user
add_named-Keeps (modes, []) c is = (refl, is)
add_named-Keeps (modes, n ∷ nick) c is =
    add_user-Keeps _ (give_modes-AreModes modes (new_user (n ∷ nick) [] []) tt) c is

pub add_names-Keeps : (prefixes : Dict ℕ ℕ) (nicks : List Bytes) → Keeps (add_names prefixes nicks)
unfolding add_names
add_names-Keeps prefixes [] c is = (refl, is)
add_names-Keeps prefixes (n ∷ nicks) c is =
    then-Keeps _ (add_names prefixes nicks) (add_named-Keeps (strip_prefixes prefixes [] n))
      (add_names-Keeps prefixes nicks) c is
