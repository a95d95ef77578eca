-- ===== src/Capabilities.antt =====
-- parser/capabilities.go: the handler that negotiates capabilities. The goroutine that waits for the
-- other handlers is a Waiter, with one operation for each of the things that it may see.
pub mod Negotiation
pub mod Offers
pub mod Request
pub mod Answers
pub mod Progress
pub mod Waiting
pub mod Late
mod Tests
use ircparser.Base.{
  ℕ, zero, suc, ◌+◌, ◌-◌, Bool, true, false, ◌||◌, not, List, [], ◌∷◌, ◌++◌, Bytes, codes, equal,
  Dict, bytes_eq, lookup, insert, delete, Option, none, some, if◌then◌else◌, ltb, leb, get_or,
}
use ircparser.Text.{contains, split_two, join}
use ircparser.Text.Runes.{fields}
use ircparser.Message.{Message, get_trailing}
use ircparser.Event.{EventType, EventData, cap_added_data, cap_removed_data, cap_pre_end_data}
use ircparser.Output.{Output, Sender, emitted, send_line}

-- A goroutine of EndCapabilityNegotiation: it has not asked for the number of listeners yet, or it
-- waits for that many signals and has had some.
pub data Waiter : Type 0 where
  fresh : Waiter
  counting : ℕ → ℕ → Waiter

-- `ready` is the number of signals in `readyCh`, `waiters` the goroutines that wait, oldest first.
-- The Boolean of a pending capability is always true, as in the code.
pub record CapabilitiesHandler : Type 0 where
  pub requested : List Bytes
  pub pending : Dict Bytes Bool
  pub available : Dict Bytes Bytes
  pub acked : Dict Bytes Bytes
  pub negotiating : Bool
  pub ready : ℕ
  pub waiters : List Waiter
  pub output : List Output

unfoldable pub new_capabilities_handler : Dict Bytes Bytes → List Bytes → CapabilitiesHandler
new_capabilities_handler capabilities caps = record {
  requested = caps;
  pending = [];
  available = [];
  acked = capabilities;
  negotiating = false;
  ready = 0;
  waiters = [];
  output = [];
}

unfoldable pub emit : CapabilitiesHandler → EventType → EventData → CapabilitiesHandler
emit ch t body = record ch { output = ch.output ++ emitted t body ∷ [] }

abbrev pub is_some {ℓ} : {A : Type ℓ} → Option A → Bool
is_some none = false
is_some (some a) = true

abbrev pub is_empty {ℓ} : {A : Type ℓ} → List A → Bool
is_empty [] = true
is_empty (x ∷ xs) = false

abbrev pub keys_of {ℓ} : {V : Type ℓ} → Dict Bytes V → List Bytes
keys_of [] = []
keys_of ((k, v) ∷ m) = k ∷ keys_of m

unfoldable pub is_capability_active : CapabilitiesHandler → Bytes → Bool
is_capability_active ch capability = is_some (lookup capability ch.acked)

unfoldable pub get_active_caps : CapabilitiesHandler → List Bytes
get_active_caps ch = keys_of ch.acked

abbrev pub value_or_empty : Option Bytes → Bytes
value_or_empty none = []
value_or_empty (some value) = value

-- An active capability keeps its value.
unfoldable pub add_capability : CapabilitiesHandler → Bytes → CapabilitiesHandler
add_capability ch capability = if is_some (lookup capability ch.acked) then ch else record ch {
  acked = insert capability (value_or_empty (lookup capability ch.available)) ch.acked;
}

unfoldable pub remove_capability : CapabilitiesHandler → Bytes → CapabilitiesHandler
remove_capability ch capability = record ch { acked = delete capability ch.acked }

unfoldable pub remove_pending_capability : CapabilitiesHandler → Bytes → CapabilitiesHandler
remove_pending_capability ch capability = record ch { pending = delete capability ch.pending }

unfoldable pub has_pending_capabilities : CapabilitiesHandler → Bool
has_pending_capabilities ch = not (is_empty ch.pending)

abbrev pub set_negotiating : CapabilitiesHandler → Bool → CapabilitiesHandler
set_negotiating ch negotiating = record ch { negotiating = negotiating }

-- A copy of the map.
abbrev pub get_capability_values : CapabilitiesHandler → Dict Bytes Bytes
get_capability_values ch = ch.acked

-- The goroutine is started behind the event.
unfoldable pub end_capability_negotiation : CapabilitiesHandler → CapabilitiesHandler
end_capability_negotiation ch =
    if ch.negotiating
    then record (emit ch EventType.cap_pre_end
        (cap_pre_end_data (get_active_caps ch) (get_capability_values ch))) {
          waiters = ch.waiters ++ fresh ∷ [];
        }
    else ch

unfoldable pub check_end_negotiation : CapabilitiesHandler → CapabilitiesHandler
check_end_negotiation ch = if has_pending_capabilities ch then ch else end_capability_negotiation ch

-- The loops over the capabilities of a line.
unfoldable pub acknowledge : CapabilitiesHandler → List Bytes → CapabilitiesHandler
acknowledge ch [] = ch
acknowledge ch (capability ∷ caps) =
    acknowledge
      (emit (remove_pending_capability (add_capability ch capability) capability)
        EventType.cap_added (cap_added_data capability))
      caps

unfoldable pub give_up : CapabilitiesHandler → List Bytes → CapabilitiesHandler
give_up ch [] = ch
give_up ch (capability ∷ caps) = give_up (remove_pending_capability ch capability) caps

unfoldable pub take_away : CapabilitiesHandler → List Bytes → CapabilitiesHandler
take_away ch [] = ch
take_away ch (capability ∷ caps) =
    take_away
      (emit (remove_capability ch capability) EventType.cap_removed (cap_removed_data capability))
      caps

unfoldable pub handle_cap_ack : CapabilitiesHandler → Option Message → CapabilitiesHandler
handle_cap_ack ch none = ch
handle_cap_ack ch (some m) =
    if ch.negotiating then check_end_negotiation (acknowledge ch (fields (get_trailing m))) else ch

unfoldable pub handle_cap_nak : CapabilitiesHandler → Option Message → CapabilitiesHandler
handle_cap_nak ch none = ch
handle_cap_nak ch (some m) =
    if ch.negotiating then check_end_negotiation (give_up ch (fields (get_trailing m))) else ch

unfoldable pub handle_cap_del : CapabilitiesHandler → Option Message → CapabilitiesHandler
handle_cap_del ch none = ch
handle_cap_del ch (some m) = take_away ch (fields (get_trailing m))

-- The name and the value of an advertised capability.
unfoldable pub name_of : Bytes → Bytes
name_of capability =
    if contains b'=' capability then get_or (split_two b'=' capability) 0 [] else capability

unfoldable pub value_of : Bytes → Bytes
value_of capability =
    if contains b'=' capability then get_or (split_two b'=' capability) 1 [] else []

unfoldable pub parse_capabilities : List Bytes → Dict Bytes Bytes → Dict Bytes Bytes
parse_capabilities [] target = target
parse_capabilities (capability ∷ caps) target =
    parse_capabilities caps (insert (name_of capability) (value_of capability) target)

unfoldable pub parse_available_capabilities : CapabilitiesHandler → Bytes → CapabilitiesHandler
parse_available_capabilities ch line = record ch {
  available = parse_capabilities (fields line) ch.available;
}

unfoldable pub is_among : Bytes → List Bytes → Bool
is_among name [] = false
is_among name (cap ∷ caps) = equal cap name || is_among name caps

-- The names of the new capabilities that were asked for.
unfoldable pub caps_to_request : List Bytes → List Bytes → List Bytes
caps_to_request requested [] = []
caps_to_request requested (cap ∷ caps) =
    let rest = caps_to_request requested caps in
    if is_among (name_of cap) requested then name_of cap ∷ rest else rest

-- Those that the server has advertised.
unfoldable pub advertised : Dict Bytes Bytes → List Bytes → List Bytes
advertised available [] = []
advertised available (cap ∷ caps) =
    let rest = advertised available caps in
    if is_some (lookup cap available) then cap ∷ rest else rest

unfoldable pub mark_pending : List Bytes → Dict Bytes Bool → Dict Bytes Bool
mark_pending [] pending = pending
mark_pending (cap ∷ caps) pending = mark_pending caps (insert cap true pending)

-- A full channel drops the signal.
unfoldable pub handle_cap_end_ready : CapabilitiesHandler → CapabilitiesHandler
handle_cap_end_ready ch = if ltb ch.ready 100 then record ch { ready = ch.ready + 1 } else ch

unfoldable pub reset : CapabilitiesHandler → CapabilitiesHandler
reset ch = record ch { acked = []; available = []; negotiating = false }
