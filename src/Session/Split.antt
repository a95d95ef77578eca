-- ===== src/Session/Split.antt =====
-- parser/capabilities.go and parser/sasl.go: a server that lists its capabilities in two lines.
pub mod Listing
pub mod Skipped
pub mod Late
use ircparser.Base.{
  Bool, true, false, ◌≡◌, refl, ap, ◌∙◌, ℕ, List, [], ◌∷◌, ◌++◌, Bytes, codes, Option, some,
}
use ircparser.Event.Create.{Env}
use ircparser.Config.{ConnectionConfig, with_sasl, with_password}
use ircparser.Sasl.{SaslError}
use ircparser.Capabilities.{caps_to_request}
use ircparser.Capabilities.Offers.{wanted}
use ircparser.Registration.Start.{registration_lines}
use ircparser.Text.Runes.{fields}
use ircparser.Session.{Session, new_session, sent_lines}
use ircparser.Session.Turns.{Turn, event_loop, take_turns, take_turn, take_turns-++}
use ircparser.Session.Log.{sent_lines-map}
use ircparser.Session.Login.Begin.{taking}
use Listing.{to_first, at_first, at_second, at_request, to_first_lem, first_round, second_round}
use Skipped.{from_request, from_request_lem, IsSkipped}
use Late.{to_alone, at_alone, at_pre_end, from_pre_end, to_alone_lem, alone_round, from_pre_end_lem}

-- What comes in, and who goes on in between: the second line comes in behind the end of the
-- negotiation (`true`), or before the first one is handled.
abbrev pub split_listing : Bool → Bytes → Bytes → Bytes → Bytes → Bytes → List Turn
split_listing true source line offer nick text =
    to_alone source line offer ++ event_loop ∷ from_pre_end source line nick text
split_listing false source line offer nick text =
    to_first source line offer
    ++ event_loop ∷ event_loop ∷ event_loop ∷ from_request source line nick text

abbrev asked : Bool → List (List Bytes)
asked true = []
asked false = (codes "CAP" ∷ codes "REQ" ∷ codes "sasl" ∷ []) ∷ []

-- What the client sends: no AUTHENTICATE is among the lines.
abbrev pub unauthenticated_lines : Bool → ConnectionConfig → List (List Bytes)
unauthenticated_lines late config =
    ((codes "CAP" ∷ codes "LS" ∷ codes "302" ∷ []) ∷ registration_lines config)
    ++ (asked late ++ (codes "CAP" ∷ codes "END" ∷ []) ∷ [])

module _ (describe : SaslError → Bytes) (encode64 : Bytes → Bytes) (decode64 : Bytes → Option Bytes)
    (env : Env) (stamp source line : Bytes) where
  -- SASL is configured, the connection takes every line, and the server lists its capabilities in two
  -- lines, of which the first has an asterisk in front of the list and offers nothing that is wanted,
  -- and the second offers "sasl". There are runs in which the client is registered without
  -- authentication, and no AUTHENTICATE is sent, in two schedules. If the second line comes in
  -- behind the CAP END to which the first has led, the client sends CAP LS, the registration and CAP
  -- END, and nothing else: it never asks for "sasl". If both lines are in before the first is
  -- handled, it sends CAP LS, the registration, CAP REQ for "sasl" and CAP END, and nothing else, as
  -- the goroutine goes on before the server acknowledges; the acknowledgement behind that is passed
  -- over, and "sasl" stays pending. In both, the registration is complete, the negotiation is over,
  -- no capability is active, the SASL handler has not begun, and nothing is left to do.
  pub split_listing_lem :
      (late : Bool) (config : ConnectionConfig) (u p : ℕ) (us ps offer nick text : Bytes)
      → caps_to_request wanted (fields offer) ≡ []
      → let c = with_sasl (u ∷ us) (p ∷ ps) config in
        (s : Session) × (take_turns
            (taking describe encode64 decode64 env stamp)
            (split_listing late source line offer nick text)
            (new_session c)
          ≡ some s)
        × (sent_lines s.log ≡ unauthenticated_lines late c)
        × IsSkipped late s
  unfolding with_sasl with_password sent_lines take_turns take_turn
  split_listing_lem true config u p us ps offer nick text nothing =
      let c = with_sasl (u ∷ us) (p ∷ ps) config in
      let w = taking describe encode64 decode64 env stamp in
      let rest = from_pre_end source line nick text in
      let (s, last, lines, skipped) =
        from_pre_end_lem describe encode64 decode64 env stamp source line nick text config offer u p
          us ps in
      (
        s,
        take_turns-++ w (to_alone source line offer) (event_loop ∷ rest) (new_session c)
              (at_alone env.now source line offer c)
              (to_alone_lem describe encode64 decode64 env stamp source line config config.password
                offer u p us ps)
            ∙ ap (take_turns w rest) (
                alone_round describe encode64 decode64 env stamp source line config offer u p us ps
                  nothing)
            ∙ last,
        lines
            ∙ ap
                (λ r.
                  ((codes "CAP" ∷ codes "LS" ∷ codes "302" ∷ []) ∷ r)
                  ++ (codes "CAP" ∷ codes "END" ∷ []) ∷ [])
                (sent_lines-map (registration_lines c)),
        skipped,
      )
  split_listing_lem false config u p us ps offer nick text nothing =
      let c = with_sasl (u ∷ us) (p ∷ ps) config in
      let w = taking describe encode64 decode64 env stamp in
      let rest = from_request source line nick text in
      let (s, last, lines, skipped) =
        from_request_lem describe encode64 decode64 env stamp source line nick text config offer u p
          us ps in
      (
        s,
        take_turns-++ w (to_first source line offer) (event_loop ∷ event_loop ∷ event_loop ∷ rest)
              (new_session c) (at_first env.now source line offer c)
              (to_first_lem describe encode64 decode64 env stamp source line config config.password
                offer u p us ps)
            ∙ ap (take_turns w (event_loop ∷ event_loop ∷ rest)) (
                first_round describe encode64 decode64 env stamp source line config offer u p us ps
                  nothing)
            ∙ ap (take_turns w rest) (
                second_round describe encode64 decode64 env stamp source line config offer u p us
                  ps)
            ∙ last,
        lines
            ∙ ap
                (λ r.
                  ((codes "CAP" ∷ codes "LS" ∷ codes "302" ∷ []) ∷ r)
                  ++ (codes "CAP" ∷ codes "REQ" ∷ codes "sasl" ∷ [])
                    ∷ (codes "CAP" ∷ codes "END" ∷ [])
                    ∷ [])
                (sent_lines-map (registration_lines c)),
        skipped,
      )
