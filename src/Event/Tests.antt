-- ===== src/Event/Tests.antt =====
-- The properties of events at fixed messages.
use ircparser.Base.{
  true, All, lookup, equal, bytes_eq, ◌≡◌, ◌<◌, ◌↔◌, refl, [], ◌∷◌, none, some, codes, length,
  arith,
}
use ircparser.Message.{Message, get_param}
use ircparser.Text.{index}
use ircparser.Event.{Event, EventType, join_data}
use ircparser.Event.Classify.{determine_event_type, event_types, extract_nick}
use ircparser.Event.Typed.{has_data, create_events-AreTyped}
use ircparser.Event.Create.{Env, create_events, events_of, event_data, parse_server_time}
use ircparser.Event.Shape.{create_panics}

abbrev quiet : Env
quiet = record { unicode_upper = λ r. r; now = 7; parse_time = λ s. none }

abbrev short_mode : Message
short_mode = record {
  tags = [];
  source = codes "srv";
  command = codes "MODE";
  params = codes "#room" ∷ [];
  raw = [];
}

create_panics_example :
    (create_events quiet (some short_mode) ≡ none)
    ↔ ((short_mode.command ≡ codes "MODE") × (length short_mode.params < 2))
create_panics_example = create_panics quiet short_mode

short_mode_panics : create_events quiet (some short_mode) ≡ none
short_mode_panics = (create_panics quiet short_mode).1 (refl, omega arith)

abbrev a_join : Message
a_join = record {
  tags = [];
  source = codes "amy!a@host";
  command = codes "JOIN";
  params = codes "#room" ∷ [];
  raw = [];
}

abbrev its_event : Event
its_event = record {
  type = EventType.join;
  message = some a_join;
  body = join_data (record { channel = codes "#room"; nick = codes "amy" });
  time = 7;
}

create_events-AreTyped_example : All (λ e. has_data e.type e.body ≡ true) (its_event ∷ [])
unfolding create_events determine_event_type event_types events_of event_data parse_server_time
    lookup equal get_param extract_nick index
create_events-AreTyped_example = create_events-AreTyped quiet a_join (its_event ∷ []) refl
