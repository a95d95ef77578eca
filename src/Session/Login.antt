-- ===== src/Session/Login.antt =====
-- parser/factory.go and the handlers of parser/: a login with capabilities and SASL, from the first
-- line to the welcome.
pub mod Begin
pub mod Answer
pub mod Finish
use ircparser.Base.{
  ℕ, ◌≡◌, refl, ap, ◌∙◌, Bool, List, [], ◌∷◌, ◌++◌, map, Bytes, codes, Option, none, some,
  append-nil, Option-cases, inl, inr, sym,
}
use ircparser.Channel.{Time}
use ircparser.Event.{EventType, cap_added_data, cap_pre_end_data}
use ircparser.Event.Create.{Env}
use ircparser.Config.{ConnectionConfig, with_sasl, with_password}
use ircparser.Output.{Output, sent, emitted}
use ircparser.Sasl.{SaslError}
use ircparser.Sasl.Chunks.{auth_line, closing, AreChunks}
use ircparser.Registration.Start.{registration_lines}
use ircparser.Session.{World, Session, new_session, sent_lines}
use ircparser.Session.Turns.{Turn, take_turns, take_turn, take_turns-++}
use ircparser.Session.Log.{sent_lines-grown, sent_lines-map, all_lines}
use Begin.{opening_lines, begun_lines, taking, to_challenge, at_challenge, to_challenge_lem}
use Answer.{challenge, answered, plain_text, challenge_lem}
use Finish.{to_welcome, IsLoggedIn, to_welcome_lem}

abbrev auth_lines : List Bytes → List (List Bytes)
auth_lines = map (λ payload. codes "AUTHENTICATE" ∷ payload ∷ [])

-- What the client sends.
abbrev pub login_lines : ConnectionConfig → List Bytes → List (List Bytes)
login_lines config payloads =
    opening_lines config ++ auth_lines payloads ++ (codes "CAP" ∷ codes "END" ∷ []) ∷ []

-- What comes in, and who goes on in between. The server offers "sasl" and acknowledges it, sends the
-- empty challenge and its verdict, and welcomes the client.
abbrev pub login : Bytes → Bytes → Bool → Bytes → Bytes → List Turn
login source line verdict nick text =
    to_challenge source line ++ challenge source line ++ to_welcome source line verdict nick text

sent_lines-auth_line :
    (payloads : List Bytes) → sent_lines (map auth_line payloads) ≡ auth_lines payloads
unfolding sent_lines
sent_lines-auth_line [] = refl
sent_lines-auth_line (p ∷ ps) =
    ap (λ r. (codes "AUTHENTICATE" ∷ p ∷ []) ∷ r) (sent_lines-auth_line ps)

answered_lines :
    (s : Session) (user pass : Bytes) (payloads : List Bytes)
    → sent_lines (answered s user pass payloads).log ≡ sent_lines s.log ++ auth_lines payloads
unfolding sent_lines
answered_lines s user pass payloads =
    sent_lines-grown s.log ([] ∷ map auth_line payloads ∷ [])
    ∙ ap (λ r. sent_lines s.log ++ r)
        (append-nil (sent_lines (map auth_line payloads)) ∙ sent_lines-auth_line payloads)

module _ (describe : SaslError → Bytes) (encode64 : Bytes → Bytes) (decode64 : Bytes → Option Bytes)
    (env : Env) (stamp source line : Bytes) where
  -- On a connection that takes every line, the handlers of a parser with a user and a password for
  -- SASL carry a login through: when the server offers and acknowledges the capability, asks, gives
  -- its verdict and welcomes the client, they send CAP LS, the registration, CAP REQ, AUTHENTICATE
  -- with the mechanism and then with the whole of the encoded credentials in chunks of at most 400
  -- bytes, "+" behind them if they are none or do not fit into one, and CAP END, in this order and
  -- nothing else. Then the registration is complete, the negotiation is over, nobody waits, no
  -- event is left, and the SASL handler has the verdict, be it a success or a failure.
  pub login_lem :
      (config : ConnectionConfig) (u p : ℕ) (us ps : Bytes) (verdict : Bool) (nick text : Bytes)
      → let c = with_sasl (u ∷ us) (p ∷ ps) config in
        (s : Session) × (payloads : List Bytes) × (take_turns
            (taking describe encode64 decode64 env stamp)
            (login source line verdict nick text)
            (new_session c)
          ≡ some s)
        × (sent_lines s.log
            ≡ login_lines c (payloads ++ closing 400 (encode64 (plain_text (u ∷ us) (p ∷ ps)))))
        × AreChunks 400 (encode64 (plain_text (u ∷ us) (p ∷ ps))) payloads
        × IsLoggedIn verdict s
  unfolding with_sasl with_password sent_lines
  login_lem config u p us ps verdict nick text =
      let c = with_sasl (u ∷ us) (p ∷ ps) config in
      let w = taking describe encode64 decode64 env stamp in
      let s1 = at_challenge env.now c in
      let (payloads, second, pieces) =
        challenge_lem describe encode64 decode64 env stamp source line config u p us ps in
      let all = payloads ++ closing 400 (encode64 (plain_text (u ∷ us) (p ∷ ps))) in
      let s2 = answered s1 (u ∷ us) (p ∷ ps) all in
      let (s3, third, lines, logged_in) =
        to_welcome_lem describe encode64 decode64 env stamp source line verdict nick text config u p
          us ps all in
      let first =
        to_challenge_lem describe encode64 decode64 env stamp source line config config.password u p
          us ps in
      (
        s3,
        payloads,
        take_turns-++ w (to_challenge source line ++ challenge source line)
              (to_welcome source line verdict nick text) (new_session c) s2
              (take_turns-++ w (to_challenge source line) (challenge source line) (new_session c) s1
                  first
                ∙ second)
            ∙ third,
        lines
            ∙ ap (λ r. r ++ (codes "CAP" ∷ codes "END" ∷ []) ∷ [])
                (answered_lines s1 (u ∷ us) (p ∷ ps) all
                  ∙ ap (λ r. r ++ auth_lines all) (begun_lines env.now c)),
        pieces,
        logged_in,
      )
