-- ===== src/Factory.antt =====
-- parser/factory.go: the handlers that NewParser makes, and what they subscribe to. The subscriptions
-- stand in the constructors of parser/sasl.go, parser/capabilities.go, parser/registration.go and
-- parser/ping.go.
use ircparser.Base.{
  ℕ, Bool, not, ◌&&◌, List, [], ◌∷◌, Bytes, codes, bytes_eq, Dict, Option, none, some,
  if◌then◌else◌, equal,
}
use ircparser.Event.{EventType}
use ircparser.Event.Texts.{type_text}
use ircparser.EventBus.{EventBus, subscribe}
use ircparser.Config.{ConnectionConfig}
use ircparser.Sasl.{SaslHandler, new_sasl_handler}
use ircparser.Capabilities.{CapabilitiesHandler, new_capabilities_handler}
use ircparser.Registration.{RegistrationHandler, new_registration_handler}
use ircparser.Ping.{PingHandler, new_ping_handler}

-- The functions that are subscribed; `only_counts` is the empty function of the SASL handler.
pub data Subscriber : Type 0 where
  sasl_authenticate sasl_succeeds sasl_fails sasl_begins only_counts : Subscriber
  cap_connected cap_ls cap_ack cap_nak cap_del cap_new cap_end cap_end_ready : Subscriber
  registration_connected registration_welcome registration_numeric : Subscriber
  ping_ping ping_raw ping_welcome : Subscriber

abbrev pub Bus : Type 0
Bus = EventBus Bytes Subscriber

-- Subscriptions in their order; the ids are not kept.
unfoldable pub subscribe_all : Bus → List (EventType × Subscriber) → Bus
subscribe_all bus [] = bus
subscribe_all bus ((type, subscriber) ∷ rest) =
    subscribe_all (subscribe bus (type_text type) subscriber).0 rest

unfoldable pub subscribe_sasl : Bus → Bus
subscribe_sasl bus = subscribe_all bus (
    (EventType.sasl_auth, sasl_authenticate)
    ∷ (EventType.sasl_success, sasl_succeeds)
    ∷ (EventType.sasl_fail, sasl_fails)
    ∷ (EventType.cap_pre_end, sasl_begins)
    ∷ (EventType.cap_end_ready, only_counts)
    ∷ [])

unfoldable pub subscribe_capabilities : Bus → Bus
subscribe_capabilities bus = subscribe_all bus (
    (EventType.connected, cap_connected)
    ∷ (EventType.cap_ls, cap_ls)
    ∷ (EventType.cap_ack, cap_ack)
    ∷ (EventType.cap_nak, cap_nak)
    ∷ (EventType.cap_del, cap_del)
    ∷ (EventType.cap_new, cap_new)
    ∷ (EventType.cap_end, cap_end)
    ∷ (EventType.cap_end_ready, cap_end_ready)
    ∷ [])

-- The last subscription's id is the handler's `nickInUseHandlerID`.
unfoldable pub subscribe_registration : Bus → Bus × ℕ
subscribe_registration bus =
    subscribe
      (subscribe_all bus (
        (EventType.connected, registration_connected)
        ∷ (EventType.registered, registration_welcome)
        ∷ []))
      (type_text EventType.numeric) registration_numeric

unfoldable pub subscribe_ping : Bus → Bus
subscribe_ping bus = subscribe_all bus (
    (EventType.ping, ping_ping)
    ∷ (EventType.raw_incoming, ping_raw)
    ∷ (EventType.registered, ping_welcome)
    ∷ [])

pub record Handlers : Type 0 where
  pub bus : Bus
  pub sasl : Option SaslHandler
  pub capabilities : CapabilitiesHandler
  pub registration : RegistrationHandler
  pub ping : PingHandler

-- The guard of the SASL handler.
unfoldable pub has_sasl : ConnectionConfig → Bool
has_sasl config = not (equal config.sasl_user []) && not (equal config.sasl_pass [])

-- The handlers behind the SASL handler.
unfoldable pub setup_others :
    ConnectionConfig → Dict Bytes Bytes → Bus → Option SaslHandler → Handlers
setup_others config capabilities bus sasl =
    let (registered, id) = subscribe_registration (subscribe_capabilities bus) in
    record {
      bus = subscribe_ping registered;
      sasl = sasl;
      capabilities =
          new_capabilities_handler capabilities (codes "sasl" ∷ codes "echo-message" ∷ []);
      registration = new_registration_handler config id;
      ping = new_ping_handler;
    }

unfoldable pub setup_default_handlers : ConnectionConfig → Dict Bytes Bytes → Bus → Handlers
setup_default_handlers config capabilities bus =
    if has_sasl config
    then setup_others config capabilities (subscribe_sasl bus)
        (some (new_sasl_handler config.sasl_user config.sasl_pass))
    else setup_others config capabilities bus none
