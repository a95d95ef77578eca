-- ===== src/Session/Turns.antt =====
-- What may happen in a session, one thing after the other.
use ircparser.Base.{
  ◌≡◌, sym, ap, ◌∙◌, List, [], ◌∷◌, ◌++◌, Bytes, Option, none, some, Option-cases, inl, inr,
  if◌then◌else◌,
}
use ircparser.Message.{Message}
use ircparser.Sasl.Handlers
use ircparser.Capabilities.{fresh, counting}
use ircparser.Capabilities.Negotiation.{wait_times_out}
use ircparser.Registration
use ircparser.Ping
use ircparser.Session.{
  World, Session, sender, with_sasl, with_capabilities, with_registration, with_ping, put_back,
  receive, loop_round, wait_round,
}

-- A timer that is set runs out.
unfoldable pub sasl_times_out : World → Session → Session
sasl_times_out w s = with_sasl w (λ sh. if sh.timer then Handlers.time_out sh else sh) s

unfoldable pub registration_times_out : World → Session → Session
registration_times_out w s =
    with_registration w (λ rh. if rh.timer then Registration.time_out rh else rh) s

unfoldable pub ping_times_out : World → Session → Session
ping_times_out w s = elim s.handlers.ping.timer [
  | none ↦ s
  | some set ↦ with_ping w (Ping.send_ping (sender w s) w.stamp) s
]

-- The timer of the oldest goroutine, once it has asked for the number of listeners.
unfoldable pub wait_times_out_round : World → Session → Session
wait_times_out_round w s = elim s.handlers.capabilities.waiters [
  | [] ↦ s
  | fresh ∷ ws ↦ s
  | counting expected count ∷ ws ↦
      with_capabilities w (λ ch. put_back w ws (wait_times_out (sender w s) ch)) s
]

-- What happens next: a line of the server comes in, the event loop or the goroutine goes on, or a
-- timer runs out.
pub data Turn : Type 0 where
  line_in : Bytes → Message → Turn
  event_loop goroutine : Turn
  sasl_timer registration_timer ping_timer wait_timer : Turn

unfoldable pub take_turn : World → Turn → Session → Option Session
take_turn w (line_in line m) s = receive w line m s
take_turn w event_loop s = some (loop_round w s)
take_turn w goroutine s = some (wait_round w s)
take_turn w sasl_timer s = some (sasl_times_out w s)
take_turn w registration_timer s = some (registration_times_out w s)
take_turn w ping_timer s = some (ping_times_out w s)
take_turn w wait_timer s = some (wait_times_out_round w s)

unfoldable pub take_turns : World → List Turn → Session → Option Session
take_turns w [] s = some s
take_turns w (turn ∷ turns) s = elim (take_turn w turn s) [
  | none ↦ none
  | some s' ↦ take_turns w turns s'
]

pub take_turns-++ :
    (w : World) (a b : List Turn) (s s' : Session)
    → take_turns w a s ≡ some s'
    → take_turns w (a ++ b) s ≡ take_turns w b s'
unfolding take_turns
take_turns-++ w [] b s s' h =
    ap (λ o. elim o as (λ _. Option Session) [ none ↦ none | some s ↦ take_turns w b s ]) h
take_turns-++ w (turn ∷ a) b s s' h = elim (Option-cases (take_turn w turn s)) [
  | inl e ↦
      let f =
        ap (λ o. elim o as (λ _. Option Session) [ none ↦ none | some s ↦ take_turns w a s ]) e in
      cc
  | inr (s1, e) ↦
      ap (λ o. elim o as (λ _. Option Session) [ none ↦ none | some s ↦ take_turns w (a ++ b) s ]) e
      ∙ take_turns-++ w a b s1 s' (
          sym (
            ap (λ o. elim o as (λ _. Option Session) [ none ↦ none | some s ↦ take_turns w a s ]) e)
          ∙ h)
]
