-- ===== src/Capabilities/Answers.antt =====
-- parser/capabilities.go: what the server's answers do.
use ircparser.Base.{
  ◌≡◌, refl, ◌∙◌, List, [], ◌∷◌, Bytes, equal, equal_iff, bytes_eq, lookup, lookup-insert,
  lookup-delete, none, some, if◌then◌else◌, arith,
}
use ircparser.Event.{EventType, cap_added_data, cap_removed_data}
use ircparser.Capabilities.{
  CapabilitiesHandler, is_some, value_or_empty, is_among, add_capability, remove_capability,
  remove_pending_capability, acknowledge, take_away, emit,
}

add-available :
    (ch : CapabilitiesHandler) (cap : Bytes) → (add_capability ch cap).available ≡ ch.available
unfolding add_capability
add-available ch cap = ground arith

lookup-add_capability :
    (ch : CapabilitiesHandler) (cap name : Bytes)
    → lookup name (add_capability ch cap).acked ≡ (
        if is_some (lookup name ch.acked)
        then lookup name ch.acked
        else if equal cap name
        then some (value_or_empty (lookup name ch.available))
        else none)
unfolding add_capability
lookup-add_capability ch cap name = ground (
  arith,
  equal_iff cap name,
  lookup-insert cap name (value_or_empty (lookup cap ch.available)) ch.acked,
)

-- Acknowledged capabilities are active: with the value that they were advertised with, or with the
-- one that they had. No other capability changes.
pub lookup-acknowledge :
    (ch : CapabilitiesHandler) (caps : List Bytes) (name : Bytes)
    → lookup name (acknowledge ch caps).acked ≡ (
        if is_some (lookup name ch.acked)
        then lookup name ch.acked
        else if is_among name caps
        then some (value_or_empty (lookup name ch.available))
        else none)
unfolding acknowledge is_among remove_pending_capability emit
lookup-acknowledge ch [] name = ground arith
lookup-acknowledge ch (cap ∷ caps) name = ground (
  arith,
  lookup-acknowledge
      (emit (remove_pending_capability (add_capability ch cap) cap) EventType.cap_added
        (cap_added_data cap))
      caps name,
  lookup-add_capability ch cap name,
  add-available ch cap,
)

-- After DEL the capabilities of the line are not active; the others are what they were.
pub lookup-take_away :
    (ch : CapabilitiesHandler) (caps : List Bytes) (name : Bytes)
    → lookup name (take_away ch caps).acked
      ≡ (if is_among name caps then none else lookup name ch.acked)
unfolding take_away is_among remove_capability emit
lookup-take_away ch [] name = refl
lookup-take_away ch (cap ∷ caps) name =
    lookup-take_away (emit (remove_capability ch cap) EventType.cap_removed (cap_removed_data cap))
      caps name
    ∙ ground (arith, lookup-delete cap name ch.acked)
