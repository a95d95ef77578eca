-- ===== src/Session/Flood.antt =====
-- parser/capabilities.go and parser/eventbus.go: an ACK with many capabilities on the event bus.
use mathlib.Core.Path.{subst}
use ircparser.Base.{
  Bool, if◌then◌else◌, ℕ, ◌+◌, ◌≤◌, ◌<◌, ◌≡◌, refl, sym, ap, ◌∙◌, true, false, List, [], ◌∷◌, ◌++◌,
  Bytes, bytes_eq, lookup, some, length, length-append, arith,
}
use ircparser.Text.Runes.{fields}
use ircparser.Message.{Message, get_trailing}
use ircparser.Event.{Event, EventData, EventType, cap_added_data}
use ircparser.Output.{Output, sent, refused, emitted}
use ircparser.Capabilities.{
  CapabilitiesHandler, acknowledge, add_capability, is_some, remove_pending_capability, emit,
  check_end_negotiation, end_capability_negotiation, has_pending_capabilities, handle_cap_ack,
}
use ircparser.EventBus.Queue.{Loop, Run}
use ircparser.EventBus.Queue.Stuck.{IsStuck, fills}
use ircparser.Session.{emissions, event_of}

emissions-++ : (o p : List Output) → emissions (o ++ p) ≡ emissions o ++ emissions p
unfolding emissions event_of
emissions-++ [] p = refl
emissions-++ (sent line ∷ o) p = emissions-++ o p
emissions-++ (refused line ∷ o) p = emissions-++ o p
emissions-++ (emitted t body ∷ o) p = ap (λ r. event_of t body ∷ r) (emissions-++ o p)

abbrev count : CapabilitiesHandler → ℕ
count ch = length (emissions ch.output)

count-emit :
    (ch : CapabilitiesHandler) (t : EventType) (body : EventData)
    → count (emit ch t body) ≡ count ch + 1
unfolding emit emissions event_of
count-emit ch t body =
    ap length (emissions-++ ch.output (emitted t body ∷ []))
    ∙ length-append (emissions ch.output) (emissions (emitted t body ∷ []))

if-count :
    (P : ℕ → Type 0) (b : Bool) (x y : CapabilitiesHandler)
    → P (count x)
    → P (count y)
    → P (count (if b then x else y))
if-count P true x y h k = h
if-count P false x y h k = k

count-add_capability :
    (ch : CapabilitiesHandler) (capability : Bytes)
    → count (add_capability ch capability) ≡ count ch
unfolding add_capability
count-add_capability ch capability =
    if-count (λ n. n ≡ count ch) (is_some (lookup capability ch.acked)) ch _ refl refl

count-acknowledge :
    (ch : CapabilitiesHandler) (caps : List Bytes)
    → count (acknowledge ch caps) ≡ count ch + length caps
unfolding acknowledge remove_pending_capability
count-acknowledge ch [] = omega arith
count-acknowledge ch (capability ∷ caps) =
    let added = remove_pending_capability (add_capability ch capability) capability in
    count-acknowledge (emit added EventType.cap_added (cap_added_data capability)) caps
    ∙ ap (λ n. n + length caps)
        (count-emit added EventType.cap_added (cap_added_data capability)
          ∙ ap (λ n. n + 1) (count-add_capability ch capability))
    ∙ omega arith

count-check_end_negotiation :
    (ch : CapabilitiesHandler) → count ch ≤ count (check_end_negotiation ch)
unfolding check_end_negotiation end_capability_negotiation
count-check_end_negotiation ch =
    if-count (λ n. count ch ≤ n) (has_pending_capabilities ch) ch _ (omega arith)
      (if-count (λ n. count ch ≤ n) ch.negotiating _ ch
        (rw (count-emit ch EventType.cap_pre_end _) (omega arith)) (omega arith))

-- What the handler emits for the line.
abbrev pub ack_events : CapabilitiesHandler → Message → List Event
ack_events ch m = emissions (handle_cap_ack (record ch { output = [] }) (some m)).output

ack_events_lem :
    (ch : CapabilitiesHandler) (m : Message)
    → ch.negotiating ≡ true
    → length (fields (get_trailing m)) ≤ length (ack_events ch m)
unfolding handle_cap_ack emissions
ack_events_lem ch m h =
    let empty = record ch { output = [] } in
    let all = count-acknowledge empty (fields (get_trailing m)) in
    let more = count-check_end_negotiation (acknowledge empty (fields (get_trailing m))) in
    subst
      (λ b.
        length (fields (get_trailing m))
        ≤ count (
            if b
            then check_end_negotiation (acknowledge empty (fields (get_trailing m)))
            else empty))
      (sym h) (omega arith)

-- During a negotiation, a single line of the server that acknowledges more than 100 capabilities
-- brings the event bus to a stand, also when its queue is empty: its handler emits an event for each
-- of them in the loop that has to take them out.
pub ack_events-IsStuck :
    (ch : CapabilitiesHandler) (m : Message) (l : Loop Event)
    → ch.negotiating ≡ true
    → 100 < length (fields (get_trailing m))
    → l.queue ≡ []
    → l.emitting ≡ some (ack_events ch m)
    → (n : Loop Event) × (a : List Event) × Run l a [] n × IsStuck n × (n.cancelled ≡ l.cancelled)
ack_events-IsStuck ch m l h many q i =
    let empty : length l.queue ≡ 0 = ap length q in
    let enough = ack_events_lem ch m h in fills l (ack_events ch m) i (omega arith) (omega arith)
