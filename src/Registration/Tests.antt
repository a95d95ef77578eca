-- ===== src/Registration/Tests.antt =====
-- The properties of the registration handler at a fixed configuration.
use ircparser.Base.{
  ◌≡◌, ◌⊎◌, refl, false, true, ◌∷◌, [], ◌++◌, List, map, Bytes, codes, Option, none, some,
}
use ircparser.Event.{Event, EventType, no_data}
use ircparser.EventBus.{after}
use ircparser.Config.{
  seconds, ConnectionConfig, new_connection_config, with_nick, with_username, with_realname,
  with_password,
}
use ircparser.Output.{Output, sent}
use ircparser.Registration.{
  RegistrationHandler, RegistrationState, start, handle_welcome, handle_numeric, is_active,
}
use ircparser.Registration.Start.{registration_lines, Refused, start-Sends}
use ircparser.Registration.Final.{numbers, ends, goes, welcome-is_final}

abbrev never : List Output → List Bytes → Option Bytes
never o line = none

-- The second line is refused.
abbrev once : List Output → List Bytes → Option Bytes
once [] line = none
once (o ∷ os) line = some (codes "closed")

abbrev config : ConnectionConfig
config = new_connection_config (codes "irc.example.org") (
    with_nick (codes "amy")
    ∷ with_password (codes "key")
    ∷ with_username (codes "a")
    ∷ with_realname (codes "Amy")
    ∷ [])

abbrev fresh : RegistrationHandler
fresh = record {
  config = config;
  state = RegistrationState.inactive;
  timeout = seconds 60;
  timer = false;
  nick_in_use_id = 3;
  unsubscribed = false;
  output = [];
}

abbrev under_way : RegistrationHandler
under_way = record fresh { state = RegistrationState.started; timer = true }

start-Sends_example :
    ((start once fresh).0 ≡ record fresh {
      state = RegistrationState.started;
      timer = true;
      output = [] ++ map sent (registration_lines config);
    })
    ⊎ Refused (record fresh { timer = true }) (registration_lines config) (start once fresh).0
unfolding is_active
start-Sends_example = start-Sends once fresh refl

abbrev welcome : Event
welcome = record {
  type = EventType.registered;
  message = some (record {
    tags = [];
    source = codes "irc";
    command = codes "001";
    params = codes "amy" ∷ [];
    raw = [];
  });
  body = no_data;
  time = 0;
}

welcome-is_final_example :
    (handle_numeric never (after (handle_welcome under_way welcome)) no_data
      ≡ after (handle_welcome under_way welcome))
    × ((handle_numeric never (after (handle_welcome under_way welcome)) no_data).state
        ≡ RegistrationState.complete)
unfolding is_active
welcome-is_final_example =
    welcome-is_final never under_way welcome refl (goes (numbers _ no_data) (ends _))
