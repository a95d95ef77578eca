-- ===== src/Client/Members/Changes.antt =====
-- Who is in a channel behind a change of it.
use ircparser.Base.{
  Option-cases, inl, inr, not, ◌&&◌, ◌||◌, ◌≡◌, refl, sym, ap, ◌∙◌, Bool, true, false, not, ◌&&◌,
  ◌||◌, [], ◌∷◌, Bytes, equal, equal_iff, Dict, bytes_eq, lookup, lookup-insert, Option, none, some,
  if◌then◌else◌, arith,
}
use ircparser.Channel.{
  rename_user, User, Channel, get_user, remove_user, add_user, new_user, new_channel,
}
use ircparser.Channel.Users.{
  rename_user_absent, get_user-rename_user, get_user-remove_user, get_user-add_user,
}
use ircparser.State.{State}
use ircparser.Client.{update_channel, map_channels}

abbrev pub is_some {ℓ} : {A : Type ℓ} → Option A → Bool
is_some none = false
is_some (some _) = true

abbrev pub has_user : Option Channel → Bytes → Bool
has_user none nick = false
has_user (some c) nick = is_some (get_user c nick)

abbrev pub changed : Bool → (Channel → Channel) → Option Channel → Option Channel
changed b f none = none
changed true f (some c) = some (f c)
changed false f (some c) = some c

pub lookup-map_channels :
    (f : Channel → Channel) (name : Bytes) (m : Dict Bytes Channel)
    → lookup name (map_channels f m) ≡ changed true f (lookup name m)
unfolding map_channels lookup
lookup-map_channels f name [] = refl
lookup-map_channels f name ((j, c) ∷ m) = ground (arith, lookup-map_channels f name m)

pub changed_nothing :
    (b : Bool) (f : Channel → Channel) (o : Option Channel)
    → (b ≡ true → o ≡ none)
    → o ≡ changed b f o
changed_nothing b f none h = refl
changed_nothing false f (some c) h = refl
changed_nothing true f (some c) h = let e = h refl in cc e

pub changed_found :
    (b : Bool) (f : Channel → Channel) (c : Channel) (o : Option Channel)
    → (b ≡ true → o ≡ some c)
    → (if b then some (f c) else o) ≡ changed b f o
changed_found false f c none h = refl
changed_found false f c (some d) h = refl
changed_found true f c o h = sym (ap (changed true f) (h refl))

pub lookup-update_channel :
    (cs : State) (k : Bytes) (f : Channel → Channel) (name : Bytes)
    → lookup name (update_channel cs k f).channels
      ≡ changed (equal k name) f (lookup name cs.channels)
unfolding update_channel lookup
lookup-update_channel cs k f name = go (lookup k cs.channels) refl
  where
    same : equal k name ≡ true → lookup name cs.channels ≡ lookup k cs.channels
    same h = ap (λ n. lookup n cs.channels) (sym ((equal_iff k name).0 h))

    go :
        (o : Option Channel)
        → lookup k cs.channels ≡ o
        → lookup name (update_channel cs k f).channels
          ≡ changed (equal k name) f (lookup name cs.channels)
    go none e =
        rw (update_channel, e)
          (changed_nothing (equal k name) f (lookup name cs.channels) (λ h. same h ∙ e))
    go (some c) e =
        rw (update_channel, e)
          (lookup-insert k name (f c) cs.channels
            ∙ changed_found (equal k name) f c (lookup name cs.channels) (λ h. same h ∙ e))

pub has_user-removed :
    (b : Bool) (goer nick : Bytes) (o : Option Channel)
    → has_user (changed b (λ c. remove_user c goer) o) nick
      ≡ (has_user o nick && not (b && equal goer nick))
has_user-removed b goer nick none = refl
has_user-removed true goer nick (some c) = ground (arith, get_user-remove_user c goer nick)
has_user-removed false goer nick (some c) = ground arith

pub has_user-added :
    (b : Bool) (u : User) (nick : Bytes) (o : Option Channel)
    → has_user (changed b (λ c. add_user c u) o) nick
      ≡ (has_user o nick || (is_some o && (b && equal u.nick nick)))
has_user-added b u nick none = refl
has_user-added true u nick (some c) = ground (arith, get_user-add_user c u nick)
has_user-added false u nick (some c) = ground arith

pub has_user-deleted :
    (b : Bool) (nick : Bytes) (o : Option Channel)
    → has_user (if b then none else o) nick ≡ (has_user o nick && not (b && true))
has_user-deleted b nick none = ground arith
has_user-deleted true nick (some c) = ground arith
has_user-deleted false nick (some c) = ground arith

pub has_user-opened :
    (channel own nick : Bytes)
    → has_user (some (add_user (new_channel channel) (new_user own [] []))) nick ≡ equal own nick
unfolding new_channel new_user get_user lookup
has_user-opened channel own nick =
    ap is_some (get_user-add_user (new_channel channel) (new_user own [] []) nick) ∙ ground arith

-- Renaming the old nick: it goes, and the new one is there.
abbrev pub after_rename : Bool → Bytes → Bytes → Bytes → Bool → Bool
after_rename was old new nick is =
    if was then not (equal old nick) && (equal new nick || is) else is

pub has_user-renamed :
    (old new nick : Bytes) (o : Option Channel)
    → has_user (changed true (λ c. rename_user c old new) o) nick
      ≡ after_rename (has_user o old) old new nick (has_user o nick)
has_user-renamed old new nick none = refl
has_user-renamed old new nick (some c) = elim (Option-cases (get_user c old)) [
  | inl absent ↦
      ap (λ d. is_some (get_user d nick)) (rename_user_absent c old new absent)
      ∙ ap (λ was. after_rename was old new nick (is_some (get_user c nick)))
          (sym (ap is_some absent))
  | inr (u, present) ↦
      ap is_some (get_user-rename_user c old new nick u present)
      ∙ ground arith
      ∙ ap (λ was. after_rename was old new nick (is_some (get_user c nick)))
          (sym (ap is_some present))
]
