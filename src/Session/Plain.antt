-- ===== src/Session/Plain.antt =====
-- parser/factory.go and the handlers of parser/: a login without SASL, with nicks that are in use.
pub mod Begin
pub mod Refusals
use ircparser.Message.{is_numeric}
use ircparser.Text.Runes.{runes}
use ircparser.Base.{
  ◌∙◌, ap, ℕ, ◌≡◌, refl, true, List, [], ◌∷◌, ◌++◌, map, Bytes, codes, bytes_eq, equal, Dict,
  Option, none, some, lookup, insert, false, zero, suc, Bool-cases, inl, inr, append-nil,
  append_assoc, sym, if◌then◌else◌,
}
use ircparser.Channel.{Time}
use ircparser.Message.{Message, get_trailing}
use ircparser.Event.{
  Event, EventType, cap_pre_end_data, raw_incoming_data, no_data, connected_data, error_data,
}
use ircparser.Event.Texts.{type_text}
use ircparser.Event.Create.{Env, create_events, parse_server_time, event_data, events_of}
use ircparser.EventBus.{
  new_event_bus, subscribe, run_handlers, count_listeners, unsubscribe_by_id, remove_last,
}
use ircparser.Config.{ConnectionConfig, with_sasl, with_password}
use ircparser.Output.{Output, sent, emitted, send_line}
use ircparser.Sasl.{SaslError, new_sasl_handler, SaslState, cap_end_ready, has_mechanism}
use ircparser.Capabilities.{
  fresh, new_capabilities_handler, caps_to_request, parse_capabilities, is_among, name_of,
}
use ircparser.Capabilities.Negotiation.{take_signal, count_expected}
use ircparser.Capabilities.Offers.{pre_end, wanted, negotiating, nothing_wanted, one_wanted}
use ircparser.Registration.{RegistrationState, new_registration_handler, leave_numerics}
use ircparser.Registration.Start.{registration_lines}
use ircparser.Ping.{new_ping_handler}
use ircparser.Text.{contains}
use ircparser.Text.Runes.{fields}
use ircparser.Event.Classify.{
  determine_event_type, event_types, talk_types, cap_types, numeric_types, one_of,
}
use ircparser.Factory.{
  setup_default_handlers, setup_others, has_sasl, subscribe_all, subscribe_sasl,
  subscribe_capabilities, subscribe_registration, subscribe_ping,
}
use ircparser.Session.{
  with_capabilities, event_of, loop_round, dispatch_event, run, receive, wait_round, emissions,
  Session, new_session, sent_lines, leave_bus,
}
use ircparser.Session.Turns.{
  Turn, line_in, event_loop, take_turns, take_turn, goroutine, take_turns-++,
}
use ircparser.Session.Login.Begin.{taking, reply}
use ircparser.Sasl.Handlers.{handle_sasl, offered}
use ircparser.Session.Log.{sent_lines-grown, sent_lines-map, grown}
use ircparser.Session.Login.Finish.{state_of}
use ircparser.Capabilities.Negotiation
use ircparser.Registration
use ircparser.Ping
use ircparser.Sasl
use ircparser.Capabilities
use Refusals.{refusals, repeated, refused_nick, refusals_lem}
use Begin.{
  plain_session, registering, begun, waits_on, over, offers, plain_start, start_lem, offers_lem,
  ends_lem,
}

abbrev welcome : Bytes → Bytes → Bytes → Bytes → List Turn
welcome source line nick text =
    line_in line (reply source (codes "001") (nick ∷ text ∷ []))
    ∷ event_loop
    ∷ event_loop
    ∷ event_loop
    ∷ event_loop
    ∷ []

-- What comes in, and who goes on in between. Each line is handled before the next comes in.
abbrev pub plain_login : ℕ → ℕ → ℕ → Bytes → Bytes → Bytes → List Bytes → Bytes → Bytes → List Turn
plain_login i j n source line offer params nick text =
    (event_loop ∷ [])
    ++ (refusals i source line params
        ++ (offers source line offer
            ++ (refusals j source line params
                ++ ((goroutine ∷ [])
                    ++ (refusals n source line params ++ welcome source line nick text)))))

-- What the client sends.
abbrev pub plain_lines : ConnectionConfig → ℕ → ℕ → ℕ → List (List Bytes)
plain_lines config i j n =
    ((((codes "CAP" ∷ codes "LS" ∷ codes "302" ∷ []) ∷ registration_lines config)
        ++ repeated i (refused_nick config))
      ++ repeated j (refused_nick config)
      ++ (codes "CAP" ∷ codes "END" ∷ []) ∷ [])
    ++ repeated n (refused_nick config)

-- The client is registered, and nothing is left to do.
pub record IsRegistered (s : Session) : Type 0 where
  pub registration_is : s.handlers.registration.state ≡ RegistrationState.complete
  pub negotiating_is : s.handlers.capabilities.negotiating ≡ false
  pub active_is : s.handlers.capabilities.acked ≡ []
  pub waiters_are : s.handlers.capabilities.waiters ≡ []
  pub queue_is : s.queue ≡ []

module _ (describe : SaslError → Bytes) (encode64 : Bytes → Bytes) (decode64 : Bytes → Option Bytes)
    (env : Env) (stamp source line : Bytes) where
  welcome_lem :
      (heard : Time) (config : ConnectionConfig) (offer nick text : Bytes) (log : List Output)
      → (s : Session) × (take_turns
            (taking describe encode64 decode64 env stamp)
            (welcome source line nick text)
            (registering heard config (over offer) log)
          ≡ some s)
        × (sent_lines s.log ≡ sent_lines log)
        × IsRegistered s
  unfolding take_turns take_turn event_of loop_round dispatch_event run receive emissions sent_lines
      setup_others subscribe_all subscribe_capabilities subscribe_registration subscribe_ping
      new_event_bus subscribe type_text lookup insert equal new_registration_handler
      new_capabilities_handler new_ping_handler run_handlers create_events determine_event_type
      event_types talk_types numeric_types one_of parse_server_time event_data events_of
      get_trailing send_line Registration.is_active Registration.handle_numeric
      Registration.handle_welcome leave_numerics Registration.emit leave_bus unsubscribe_by_id
      remove_last Ping.handle_raw Ping.handle_welcome is_numeric runes
  welcome_lem heard config offer nick text log = (
    _,
    refl,
    sent_lines-grown log
          ([] ∷ (emitted EventType.registered (connected_data source) ∷ []) ∷ [] ∷ [] ∷ [] ∷ [])
        ∙ append-nil (sent_lines log),
    record {
      registration_is = refl;
      negotiating_is = refl;
      active_is = refl;
      waiters_are = refl;
      queue_is = refl;
    },
  )

  -- Without a user or without a password for SASL, on a connection that takes every line, and with a
  -- server that offers nothing that is wanted, refuses the nick by 433 any number of times and then
  -- welcomes the client. The schedule: CAP LS and the registration go out first; the nick is refused
  -- `i` times before the offer, `j` times behind it while the goroutine that ends the negotiation
  -- has not gone on, and `n` times behind that; each line is handled, with all the events that it
  -- leads to, before the next one comes in. Then the handlers send CAP LS, the registration, `i` and
  -- `j` times NICK with the configured nick and one underscore, CAP END, `n` times the same NICK, in
  -- this order and nothing else; and in the end the registration is complete, the negotiation is
  -- over, no capability is active, nobody waits, and no event is left.
  pub plain_login_lem :
      (config : ConnectionConfig) (offer : Bytes) (params : List Bytes) (i j n : ℕ)
      (nick text : Bytes)
      → has_sasl config ≡ false
      → caps_to_request wanted (fields offer) ≡ []
      → (s : Session) × (take_turns
            (taking describe encode64 decode64 env stamp)
            (plain_login i j n source line offer params nick text)
            (new_session config)
          ≡ some s)
        × (sent_lines s.log ≡ plain_lines config i j n)
        × IsRegistered s
  unfolding with_password sent_lines
  plain_login_lem config offer params i j n nick text plain nothing =
      let w = taking describe encode64 decode64 env stamp in
      let cap_end = codes "CAP" ∷ codes "END" ∷ [] in
      let again : ℕ → List (List Bytes) = λ k. repeated k (refused_nick config) in
      let s1 = registering 0 config (negotiating [] []) (begun config) in
      let (t2, log2, refused2, lines2) =
        refusals_lem describe encode64 decode64 env stamp source line config (negotiating [] [])
          params i 0 (begun config) in
      let s2 = registering t2 config (negotiating [] []) log2 in
      let log3 = (log2 ++ []) ++ pre_end ∷ [] in
      let s3 = registering env.now config (waits_on offer) log3 in
      let (t4, log4, refused4, lines4) =
        refusals_lem describe encode64 decode64 env stamp source line config (waits_on offer) params
          j env.now log3 in
      let s4 = registering t4 config (waits_on offer) log4 in
      let log5 = log4 ++ sent cap_end ∷ [] in
      let s5 = registering t4 config (over offer) log5 in
      let (t6, log6, refused6, lines6) =
        refusals_lem describe encode64 decode64 env stamp source line config (over offer) params n
          t4 log5 in
      let s6 = registering t6 config (over offer) log6 in
      let (s, welcomed, same, registered) = welcome_lem t6 config offer nick text log6 in
      let to_end = welcome source line nick text in
      let from5 = refusals n source line params ++ to_end in
      let from4 = (goroutine ∷ []) ++ from5 in
      let from3 = refusals j source line params ++ from4 in
      let from2 = offers source line offer ++ from3 in
      let from1 = refusals i source line params ++ from2 in
      (
        s,
        ap (take_turns w ((event_loop ∷ []) ++ from1))
              (plain_start describe encode64 decode64 env stamp source line config plain)
            ∙ take_turns-++ w (event_loop ∷ []) from1 (plain_session config) s1
                (start_lem describe encode64 decode64 env stamp source line config config.password)
            ∙ take_turns-++ w (refusals i source line params) from2 s1 s2 refused2
            ∙ take_turns-++ w (offers source line offer) from3 s2 s3 (
                offers_lem describe encode64 decode64 env stamp source line t2 config offer log2
                  nothing)
            ∙ take_turns-++ w (refusals j source line params) from4 s3 s4 refused4
            ∙ take_turns-++ w (goroutine ∷ []) from5 s4 s5
                (ends_lem describe encode64 decode64 env stamp source line t4 config offer log4)
            ∙ take_turns-++ w (refusals n source line params) to_end s5 s6 refused6
            ∙ welcomed,
        same
            ∙ lines6
            ∙ ap (λ r. r ++ again n)
                (sent_lines-grown log4 ((sent cap_end ∷ []) ∷ [])
                  ∙ ap (λ r. r ++ cap_end ∷ [])
                      (lines4
                        ∙ ap (λ r. r ++ again j)
                            (sent_lines-grown log2 ([] ∷ (pre_end ∷ []) ∷ [])
                              ∙ append-nil (sent_lines log2)
                              ∙ lines2
                              ∙ ap
                                  (λ r.
                                    ((codes "CAP" ∷ codes "LS" ∷ codes "302" ∷ []) ∷ r) ++ again i)
                                  (sent_lines-map (registration_lines config))))),
        registered,
      )
