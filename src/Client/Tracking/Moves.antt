-- ===== src/Client/Tracking/Moves.antt =====
-- The invariant under the changes that the handlers are made of.
use mathlib.Core.Path.{subst}
use ircparser.Base.{
  ℕ, ◌≡◌, refl, sym, ◌∙◌, Bool, true, false, List, [], ◌∷◌, Bytes, equal, Dict, bytes_eq, nat_eq,
  lookup, insert, Option, none, some, if◌then◌else◌, All, All-insert, All-delete, All-lookup, arith,
  get_or, drop, ◌==◌,
}
use ircparser.Modes.Map.{AreModes, add_mode-AreModes, remove_mode-AreModes}
use ircparser.Channel.{Channel}
use ircparser.State.{State, add_channel, remove_channel, add_user_mode, remove_user_mode}
use ircparser.Client.{update_channel, map_channels, apply_modes, apply_mode}
use ircparser.Client.Tracking.Parts.{IsChannel, Keeps, change_channel_mode-Keeps}

-- Every channel is filed under its name, every user in it under its nick, and no list of modes
-- holds a mode twice.
pub record IsTracked (cs : State) : Type 0 where
  pub channels : All (λ e. (e.1.name ≡ e.0) × IsChannel e.1) cs.channels
  pub user_modes : AreModes cs.user_modes

abbrev AreChannels : Dict Bytes Channel → Type 0
AreChannels = All (λ e. (e.1.name ≡ e.0) × IsChannel e.1)

update-AreChannels :
    (cs : State) (name : Bytes) (f : Channel → Channel)
    → Keeps f
    → AreChannels cs.channels
    → AreChannels (update_channel cs name f).channels
unfolding update_channel
update-AreChannels cs name f k h = go (lookup name cs.channels) refl
  where
    go :
        (o : Option Channel)
        → lookup name cs.channels ≡ o
        → AreChannels
            (elim o as (λ _. State) [
              | none ↦ cs
              | some c ↦ record cs { channels = insert name (f c) cs.channels }
            ]).channels
    go none e = h
    go (some c) e =
        let (named, is) = All-lookup _ name cs.channels h e in
        let (kept, is') = k c is in All-insert _ name (f c) cs.channels (kept ∙ named, is') h

update-user_modes :
    (cs : State) (name : Bytes) (f : Channel → Channel)
    → (update_channel cs name f).user_modes ≡ cs.user_modes
unfolding update_channel
update-user_modes cs name f = ground arith

pub update-IsTracked :
    (cs : State) (name : Bytes) (f : Channel → Channel)
    → Keeps f
    → IsTracked cs
    → IsTracked (update_channel cs name f)
update-IsTracked cs name f k h = record {
  channels = update-AreChannels cs name f k h.channels;
  user_modes = subst AreModes (sym (update-user_modes cs name f)) h.user_modes;
}

pub map-AreChannels :
    (f : Channel → Channel) (m : Dict Bytes Channel)
    → Keeps f
    → AreChannels m
    → AreChannels (map_channels f m)
unfolding map_channels
map-AreChannels f [] k h = tt
map-AreChannels f ((n, c) ∷ m) k ((named, is), hs) =
    let (kept, is') = k c is in ((kept ∙ named, is'), map-AreChannels f m k hs)

pub add-IsTracked :
    (cs : State) (c : Channel) → IsChannel c → IsTracked cs → IsTracked (add_channel cs c)
unfolding add_channel
add-IsTracked cs c is h = record {
  channels = All-insert _ c.name c cs.channels (refl, is) h.channels;
  user_modes = h.user_modes;
}

pub remove-IsTracked :
    (cs : State) (name : Bytes) → IsTracked cs → IsTracked (remove_channel cs name)
unfolding remove_channel
remove-IsTracked cs name h = record {
  channels = All-delete _ name cs.channels h.channels;
  user_modes = h.user_modes;
}

pub if-IsTracked :
    (b : Bool) {s t : State} → IsTracked s → IsTracked t → IsTracked (if b then s else t)
if-IsTracked true h k = h
if-IsTracked false h k = k

apply_mode-IsTracked :
    (cs : State) (target : Bytes) (adding : Bool) (char : ℕ) (parameter : Bytes)
    → IsTracked cs
    → IsTracked (apply_mode cs target adding char parameter)
unfolding apply_mode add_user_mode remove_user_mode
apply_mode-IsTracked cs target adding char parameter h =
    if-IsTracked _
      (update-IsTracked cs target _ (change_channel_mode-Keeps adding char parameter) h)
      (if-IsTracked (equal target cs.current_nick)
        (if-IsTracked adding
          (record {
            channels = h.channels;
            user_modes = add_mode-AreModes char parameter cs.user_modes h.user_modes;
          })
          (record {
            channels = h.channels;
            user_modes = remove_mode-AreModes char cs.user_modes h.user_modes;
          }))
        h)

pub apply_modes-IsTracked :
    (target : Bytes) (adding : Bool) (args : List Bytes) (chars : List ℕ) (cs : State)
    → IsTracked cs
    → IsTracked (apply_modes target adding args chars cs)
unfolding apply_modes
apply_modes-IsTracked target adding args [] cs h = h
apply_modes-IsTracked target adding args (char ∷ chars) cs h =
    if-IsTracked (char == b'+') (apply_modes-IsTracked target true args chars cs h) (
      if-IsTracked (char == b'-') (apply_modes-IsTracked target false args chars cs h) (
        apply_modes-IsTracked target adding (drop 1 args) chars _
          (apply_mode-IsTracked cs target adding char (get_or args 0 []) h)))
