-- ===== src/Channel/Users.antt =====
-- Who is in a channel after its operations.
use mathlib.Core.Path.{subst}
use ircparser.Base.{
  ◌≡◌, refl, sym, ap, ◌∙◌, [], ◌∷◌, none, some, Bytes, Dict, bytes_eq, equal, equal_self, lookup,
  insert, delete, lookup-insert, lookup-delete, if◌then◌else◌, All, Option-cases, Bool-cases, inl,
  inr,
}
use ircparser.Channel.{User, Channel, add_user, remove_user, get_user, rename_user}

-- A joining user is found under its nick, and nobody else is touched.
pub get_user-add_user :
    (c : Channel) (u : User) (n : Bytes)
    → get_user (add_user c u) n ≡ (if equal u.nick n then some u else get_user c n)
unfolding get_user add_user
get_user-add_user c u n = lookup-insert u.nick n u c.users

pub get_user-remove_user :
    (c : Channel) (k n : Bytes)
    → get_user (remove_user c k) n ≡ (if equal k n then none else get_user c n)
unfolding get_user remove_user
get_user-remove_user c k n = lookup-delete k n c.users

-- The nick that a user holds behind a change.
abbrev pub renamed : User → Bytes → User
renamed u nick = record u { nick = nick }

pub rename_user_present :
    (c : Channel) (old new : Bytes) {u : User}
    → lookup old c.users ≡ some u
    → rename_user c old new ≡ record c { users = delete old (insert new (renamed u new) c.users) }
unfolding rename_user
rename_user_present c old new h = rw (h, rename_user)

pub rename_user_missing :
    (c : Channel) (old new : Bytes) → lookup old c.users ≡ none → rename_user c old new ≡ c
unfolding rename_user
rename_user_missing c old new h = rw (h, rename_user)

-- A user that is renamed leaves the old nick and is found under the new one, which it takes over
-- from whoever held it; other nicks are not touched. If the two nicks are the same, it is gone.
pub get_user-rename_user :
    (c : Channel) (old new n : Bytes) (u : User)
    → get_user c old ≡ some u
    → get_user (rename_user c old new) n ≡ (
        if equal old n
        then none
        else if equal new n
        then some (record u { nick = new })
        else get_user c n)
unfolding get_user rename_user
get_user-rename_user c old new n u h =
    ap (λ d. lookup n d.users) (rename_user_present c old new h)
    ∙ lookup-delete old n (insert new (renamed u new) c.users)
    ∙ ap (λ r. if equal old n then none else r) (lookup-insert new n (renamed u new) c.users)

-- A nick that is not in the channel cannot be renamed.
pub rename_user_absent :
    (c : Channel) (old new : Bytes) → get_user c old ≡ none → rename_user c old new ≡ c
unfolding get_user
rename_user_absent c old new h = rename_user_missing c old new h

-- Renaming a user to the nick that it has removes it from the channel.
rename_user_same :
    (c : Channel) (nick : Bytes) {u : User}
    → get_user c nick ≡ some u
    → get_user (rename_user c nick nick) nick ≡ none
rename_user_same c nick {u} h = get_user-rename_user c nick nick nick u h ∙ rw (equal_self nick)

-- Every user is filed under its own nick.
abbrev pub IsFiled : Dict Bytes User → Type 0
IsFiled = All (λ e. e.1.nick ≡ e.0)

insert-IsFiled :
    (k : Bytes) (u : User) (m : Dict Bytes User) → u.nick ≡ k → IsFiled m → IsFiled (insert k u m)
unfolding insert
insert-IsFiled k u [] e h = (e, tt)
insert-IsFiled k u ((j, w) ∷ m) e (hj, hm) = elim (Bool-cases (equal j k)) [
  | inl same ↦ rw same (e, hm)
  | inr other ↦ rw other (hj, insert-IsFiled k u m e hm)
]

delete-IsFiled : (k : Bytes) (m : Dict Bytes User) → IsFiled m → IsFiled (delete k m)
unfolding delete
delete-IsFiled k [] h = tt
delete-IsFiled k ((j, w) ∷ m) (hj, hm) = elim (Bool-cases (equal j k)) [
  | inl same ↦ rw same (delete-IsFiled k m hm)
  | inr other ↦ rw other (hj, delete-IsFiled k m hm)
]

-- The operations that change who is in a channel, and that every user keeps being filed under its
-- own nick.
pub data UserChange : Type 0 where
  joins : User → UserChange
  leaves : Bytes → UserChange
  renames : Bytes → Bytes → UserChange

abbrev pub change_users : Channel → UserChange → Channel
change_users c (joins u) = add_user c u
change_users c (leaves nick) = remove_user c nick
change_users c (renames old new) = rename_user c old new

-- A user who joins, leaves or is renamed leaves every user of the channel filed under its own
-- nick, if that was so before.
change_users-IsFiled :
    (c : Channel) (change : UserChange) → IsFiled c.users → IsFiled (change_users c change).users
unfolding add_user remove_user
change_users-IsFiled c (joins u) h = insert-IsFiled u.nick u c.users refl h
change_users-IsFiled c (leaves nick) h = delete-IsFiled nick c.users h
change_users-IsFiled c (renames old new) h = elim (Option-cases (lookup old c.users)) [
  | inl e ↦ subst (λ d. IsFiled d.users) (sym (rename_user_missing c old new e)) h
  | inr (u, e) ↦
      subst (λ d. IsFiled d.users) (sym (rename_user_present c old new e))
        (delete-IsFiled old _ (insert-IsFiled new (renamed u new) c.users refl h))
]
