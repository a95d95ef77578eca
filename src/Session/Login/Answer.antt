-- ===== src/Session/Login/Answer.antt =====
-- A login: the answer of PLAIN to the challenge.
use ircparser.Base.{
  ◌<◌, ok, ℕ, ◌≡◌, refl, ap, ◌∙◌, true, List, [], ◌∷◌, ◌++◌, map, Bytes, codes, bytes_eq, equal,
  Option, none, some, lookup, insert, arith,
}
use ircparser.Message.{get_trailing}
use ircparser.Event.Texts.{type_text}
use ircparser.Event.Create.{Env, create_events, parse_server_time, event_data, events_of}
use ircparser.EventBus.{new_event_bus, subscribe, run_handlers}
use ircparser.Config.{ConnectionConfig, with_sasl}
use ircparser.Output.{Output}
use ircparser.Sasl.{
  cap_end_ready, mechanism_name, SaslHandler, send_auth_data, SaslError, SaslState,
  new_plain_mechanism, new_sasl_handler, has_mechanism,
}
use ircparser.Sasl.Chunks.{auth_line, closing, AreChunks, send_auth_data_lem}
use ircparser.Sasl.Handlers.{
  announce_success, handle_sasl_success, handle_sasl_fail, reset_mechanism, fail_reason,
  handle_authenticate, respond, start_plain, handle_sasl, offered, begin_plain,
  start_plain_authentication, start_authentication, request, check_begun,
}
use ircparser.Ping.{new_ping_handler}
use ircparser.Event.Classify.{determine_event_type, event_types, talk_types}
use ircparser.Factory.{
  setup_default_handlers, setup_others, has_sasl, subscribe_all, subscribe_sasl,
  subscribe_capabilities, subscribe_registration, subscribe_ping,
}
use ircparser.Session.{
  with_sasl as with_sasl_handler, event_of, loop_round, dispatch_event, run, receive, emissions,
  Session,
}
use ircparser.Session.Turns.{Turn, line_in, event_loop, take_turns, take_turn}
use ircparser.Session.Login.Begin.{taking, reply, at_challenge}
use ircparser.Sasl
use ircparser.Sasl.Handlers
use ircparser.Ping

abbrev pub challenge : Bytes → Bytes → List Turn
challenge source line =
    line_in line (reply source (codes "AUTHENTICATE") (codes "+" ∷ []))
    ∷ event_loop
    ∷ event_loop
    ∷ []

-- What PLAIN sends: user, NUL, user, NUL, password.
abbrev pub plain_text : Bytes → Bytes → Bytes
plain_text user pass = user ++ 0 ∷ user ++ 0 ∷ pass

abbrev pub answered : Session → Bytes → Bytes → List Bytes → Session
answered s user pass lines = record s {
  handlers = record s.handlers {
    sasl = some (record (new_sasl_handler user pass) {
      state = SaslState.authenticating;
      mechanism = some (record { username = []; password = []; complete = true });
      timer = true;
      available_mechs = codes "PLAIN" ∷ [];
    });
  };
  log = (s.log ++ []) ++ map auth_line lines;
}

module _ (describe : SaslError → Bytes) (encode64 : Bytes → Bytes) (decode64 : Bytes → Option Bytes)
    (env : Env) (stamp source line : Bytes) where
  -- The answer of PLAIN goes out whole, in chunks.
  reply-Sends :
      (sender : List Output → List Bytes → Option Bytes) (sh : SaslHandler) (payload : Bytes)
      → ((o : List Output) (l : List Bytes) → sender o l ≡ none)
      → 0 < sh.max_chunk_size
      → (chunks : List Bytes) × (Handlers.reply sender describe sh (ok payload) ≡ record sh {
        output = sh.output ++ map auth_line (chunks ++ closing sh.max_chunk_size payload);
      })
        × AreChunks sh.max_chunk_size payload chunks
  unfolding Handlers.reply send_auth_data
  reply-Sends sender sh [] accepts p = send_auth_data_lem sender describe accepts sh [] p
  reply-Sends sender sh (b ∷ bs) accepts p =
      send_auth_data_lem sender describe accepts sh (b ∷ bs) p

  emissions-auth_lines : (chunks : List Bytes) → emissions (map auth_line chunks) ≡ []
  unfolding emissions
  emissions-auth_lines [] = refl
  emissions-auth_lines (c ∷ cs) = emissions-auth_lines cs

  pub challenge_lem :
      (config : ConnectionConfig) (u p : ℕ) (us ps : Bytes)
      → let c = with_sasl (u ∷ us) (p ∷ ps) config in
        (chunks : List Bytes) × (take_turns
            (taking describe encode64 decode64 env stamp)
            (challenge source line)
            (at_challenge env.now c)
          ≡ some (
              answered
                (at_challenge env.now c)
                (u ∷ us)
                (p ∷ ps)
                (chunks ++ closing 400 (encode64 (plain_text (u ∷ us) (p ∷ ps))))))
        × AreChunks 400 (encode64 (plain_text (u ∷ us) (p ∷ ps))) chunks
  unfolding take_turns take_turn with_sasl loop_round dispatch_event run receive event_of
      setup_default_handlers setup_others has_sasl subscribe_all subscribe_sasl
      subscribe_capabilities subscribe_registration subscribe_ping new_event_bus subscribe type_text
      lookup insert equal new_sasl_handler new_ping_handler run_handlers emissions create_events
      determine_event_type event_types talk_types parse_server_time event_data events_of
      get_trailing handle_authenticate Sasl.is_requesting respond start_plain Ping.handle_raw
  challenge_lem config u p us ps =
      let c = with_sasl (u ∷ us) (p ∷ ps) config in
      let s = at_challenge env.now c in
      let payload = encode64 (plain_text (u ∷ us) (p ∷ ps)) in
      let sh : SaslHandler = record (new_sasl_handler (u ∷ us) (p ∷ ps)) {
        state = SaslState.authenticating;
        mechanism = some (record { username = []; password = []; complete = true });
        timer = true;
        available_mechs = codes "PLAIN" ∷ [];
      } in
      let (chunks, run, pieces) =
        reply-Sends (λ o l. none) sh payload (λ o l. refl) (omega arith) in
      (
        chunks,
        ap
              (λ sh'. some (
                with_sasl_handler (taking describe encode64 decode64 env stamp) (λ _. sh')
                  (record s { log = s.log ++ [] })))
              run
            ∙ ap
                (λ q. some (record (answered s (u ∷ us) (p ∷ ps) (chunks ++ closing 400 payload)) {
                  queue = q;
                }))
                (emissions-auth_lines (chunks ++ closing 400 payload)),
        pieces,
      )
