-- ===== src/Session.antt =====
-- parser/factory.go, parser/eventbus.go and the handlers of parser/: the handlers of a parser run
-- together on its event bus. What one emits goes through the queue to the others; each step runs one
-- handler or one goroutine. The queue is as long as it needs to be (EventBus/Queue has its bound).
mod Log
pub mod Turns
pub mod Login
pub mod GivenUp
pub mod Split
pub mod Plain
pub mod Flood
mod Tests
use ircparser.Base.{
  Bool, true, false, not, ◌&&◌, List, [], ◌∷◌, ◌++◌, map, Bytes, bytes_eq, Option, none, some, ltb,
  if◌then◌else◌,
}
use ircparser.Channel.{Time}
use ircparser.Message.{Message}
use ircparser.Event.{Event, EventType, EventData, connected_data, raw_incoming_data}
use ircparser.Event.Texts.{type_text}
use ircparser.Event.Create.{Env, create_events}
use ircparser.EventBus.{
  Outcome, done, panicked, HandlerWrapper, handlers_of, count_listeners, unsubscribe_by_id,
  new_event_bus, run_handlers,
}
use ircparser.Config.{ConnectionConfig}
use ircparser.Output.{Output, Sender, sent, refused, emitted}
use ircparser.Sasl.{SaslHandler, SaslError}
use ircparser.Sasl.Handlers.{
  handle_authenticate, handle_sasl, handle_sasl_success, handle_sasl_fail,
}
use ircparser.Capabilities
use ircparser.Capabilities.{CapabilitiesHandler, Waiter, fresh, counting}
use ircparser.Capabilities.Negotiation
use ircparser.Capabilities.Negotiation.{count_expected, take_signal}
use ircparser.Registration
use ircparser.Registration.{RegistrationHandler}
use ircparser.Ping
use ircparser.Ping.{PingHandler}
use ircparser.Factory
use ircparser.Factory.{Subscriber, Handlers, setup_default_handlers}

-- What the handlers have from outside: the errors of the connection's Send, the text of an error,
-- encoding/base64, the Env of the events with the clock, and the time as the ping handler writes it.
pub record World : Type 0 where
  pub send_error : Sender
  pub describe : SaslError → Bytes
  pub encode64 : Bytes → Bytes
  pub decode64 : Bytes → Option Bytes
  pub env : Env
  pub stamp : Bytes

-- `log` is all that was sent and emitted, `queue` what was emitted and is not handed out yet, both
-- oldest first. The outputs of the handlers are moved there behind each call.
pub record Session : Type 0 where
  pub handlers : Handlers
  pub log : List Output
  pub queue : List Event

unfoldable pub event_of : EventType → EventData → Event
event_of t body = record { type = t; message = none; body = body; time = 0 }

unfoldable pub emissions : List Output → List Event
emissions [] = []
emissions (sent line ∷ output) = emissions output
emissions (refused line ∷ output) = emissions output
emissions (emitted t body ∷ output) = event_of t body ∷ emissions output

unfoldable pub sent_lines : List Output → List (List Bytes)
sent_lines [] = []
sent_lines (sent line ∷ output) = line ∷ sent_lines output
sent_lines (refused line ∷ output) = sent_lines output
sent_lines (emitted t body ∷ output) = sent_lines output

-- The handlers behind a call, and what was put out in it.
abbrev pub absorb : Session → Handlers → List Output → Session
absorb s h output = record {
  handlers = h;
  log = s.log ++ output;
  queue = s.queue ++ emissions output;
}

-- The bus of NewParser with its handlers, and the event of Connect.
unfoldable pub new_session : ConnectionConfig → Session
new_session config = record {
  handlers = setup_default_handlers config [] new_event_bus;
  log = [];
  queue = event_of EventType.connected (connected_data config.host) ∷ [];
}

module _ (w : World) where
  -- The connection's errors, behind what was sent already.
  abbrev pub sender : Session → Sender
  sender s output line = w.send_error (s.log ++ output) line

  abbrev pub with_sasl : (SaslHandler → SaslHandler) → Session → Session
  with_sasl f s = elim s.handlers.sasl [
    | none ↦ s
    | some sh ↦
        let sh' = f sh in
        absorb s (record s.handlers { sasl = some (record sh' { output = [] }) }) sh'.output
  ]

  abbrev pub with_capabilities : (CapabilitiesHandler → CapabilitiesHandler) → Session → Session
  with_capabilities f s =
      let ch = f s.handlers.capabilities in
      absorb s (record s.handlers { capabilities = record ch { output = [] } }) ch.output

  abbrev pub with_registration : (RegistrationHandler → RegistrationHandler) → Session → Session
  with_registration f s =
      let rh = f s.handlers.registration in
      absorb s (record s.handlers { registration = record rh { output = [] } }) rh.output

  abbrev pub with_ping : (PingHandler → PingHandler) → Session → Session
  with_ping f s =
      let h = f s.handlers.ping in
      absorb s (record s.handlers { ping = record h { output = [] } }) h.output

  -- The welcome gives the subscription to numerics back.
  unfoldable pub leave_bus : RegistrationHandler → Session → Session
  leave_bus rh s =
      if rh.unsubscribed && not s.handlers.registration.unsubscribed
      then record s {
        handlers = record s.handlers {
          bus =
              unsubscribe_by_id s.handlers.bus (type_text EventType.numeric)
                s.handlers.registration.nick_in_use_id;
        };
      }
      else s

  abbrev pub with_welcome : Outcome RegistrationHandler → Session → Outcome Session
  with_welcome (done rh) s = done (with_registration (λ _. rh) (leave_bus rh s))
  with_welcome (panicked rh) s = panicked (with_registration (λ _. rh) (leave_bus rh s))

  -- What a subscriber does with an event.
  unfoldable pub run : Subscriber → Event → Session → Outcome Session
  run Subscriber.sasl_authenticate e s =
      done
        (with_sasl (λ sh. handle_authenticate (sender s) w.describe w.encode64 w.decode64 sh e) s)
  run Subscriber.sasl_succeeds e s = done (with_sasl handle_sasl_success s)
  run Subscriber.sasl_fails e s = done (with_sasl (λ sh. handle_sasl_fail sh e) s)
  run Subscriber.sasl_begins e s =
      done (with_sasl (λ sh. handle_sasl (sender s) w.describe sh e.body) s)
  run Subscriber.only_counts e s = done s
  run Subscriber.cap_connected e s =
      done (with_capabilities (Negotiation.handle_connected (sender s)) s)
  run Subscriber.cap_ls e s =
      done (with_capabilities (λ ch. Negotiation.handle_cap_ls (sender s) ch e.message) s)
  run Subscriber.cap_ack e s =
      done (with_capabilities (λ ch. Capabilities.handle_cap_ack ch e.message) s)
  run Subscriber.cap_nak e s =
      done (with_capabilities (λ ch. Capabilities.handle_cap_nak ch e.message) s)
  run Subscriber.cap_del e s =
      done (with_capabilities (λ ch. Capabilities.handle_cap_del ch e.message) s)
  run Subscriber.cap_new e s =
      done (with_capabilities (λ ch. Negotiation.handle_cap_new (sender s) ch e.message) s)
  run Subscriber.cap_end e s = done (with_capabilities (Negotiation.handle_cap_end (sender s)) s)
  run Subscriber.cap_end_ready e s = done (with_capabilities Capabilities.handle_cap_end_ready s)
  run Subscriber.registration_connected e s =
      done (with_registration (Registration.handle_connected (sender s)) s)
  run Subscriber.registration_welcome e s =
      with_welcome (Registration.handle_welcome s.handlers.registration e) s
  run Subscriber.registration_numeric e s =
      done (with_registration (λ rh. Registration.handle_numeric (sender s) rh e.body) s)
  run Subscriber.ping_ping e s = done (with_ping (λ h. Ping.handle_ping (sender s) h e.body) s)
  run Subscriber.ping_raw e s = done (with_ping (Ping.handle_raw w.env.now) s)
  run Subscriber.ping_welcome e s = done (with_ping (Ping.handle_welcome w.env.now) s)

  abbrev pub running :
      HandlerWrapper Subscriber → HandlerWrapper (Event → Session → Outcome Session)
  running wrapper = record { id = wrapper.id; handler = run wrapper.handler }

  unfoldable pub dispatch_event : Event → Session → Session
  dispatch_event e s =
      run_handlers (map running (handlers_of s.handlers.bus (type_text e.type))) e s

  -- A round of the event loop; nothing happens on an empty queue.
  unfoldable pub loop_round : Session → Session
  loop_round s = elim s.queue [ [] ↦ s | e ∷ rest ↦ dispatch_event e (record s { queue = rest }) ]

  -- The read loop emits the event of the line and those of the message that it is parsed into;
  -- `none` is a panic there.
  unfoldable pub receive : Bytes → Message → Session → Option Session
  receive line m s = elim (create_events w.env (some m)) [
    | none ↦ none
    | some es ↦ some (record s {
      queue = s.queue ++ event_of EventType.raw_incoming (raw_incoming_data line w.env.now) ∷ es;
    })
  ]

  -- A goroutine that has not ended stays in front of the others.
  abbrev pub put_back : List Waiter → CapabilitiesHandler × Option Waiter → CapabilitiesHandler
  put_back ws (ch, none) = record ch { waiters = ws }
  put_back ws (ch, some waiter) = record ch { waiters = waiter ∷ ws }

  abbrev pub go_on : Session → Waiter → CapabilitiesHandler → CapabilitiesHandler × Option Waiter
  go_on s fresh ch =
      count_expected (sender s) (count_listeners s.handlers.bus (type_text EventType.cap_pre_end))
        ch
  go_on s (counting expected count) ch =
      if ltb 0 ch.ready
      then take_signal (sender s) expected count ch
      else (ch, some (counting expected count))

  -- The oldest goroutine of EndCapabilityNegotiation goes on, if there is one; it waits while there
  -- is no signal.
  unfoldable pub wait_round : Session → Session
  wait_round s = elim s.handlers.capabilities.waiters [
    | [] ↦ s
    | waiter ∷ ws ↦ with_capabilities (λ ch. put_back ws (go_on s waiter ch)) s
  ]
