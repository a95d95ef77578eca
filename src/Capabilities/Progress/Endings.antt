-- ===== src/Capabilities/Progress/Endings.antt =====
-- parser/capabilities.go: checkEndNegotiation, and how often the event before the end is emitted.
use ircparser.Base.{
  ℕ, ◌+◌, ◌++◌, ◌<◌, ◌≤◌, ◌≡◌, ap, true, List, [], ◌∷◌, bytes_eq, arith, length, length-append,
}
use ircparser.Event.{EventType, cap_pre_end_data}
use ircparser.Output.{Output, sent, refused, emitted}
use ircparser.Capabilities.{
  CapabilitiesHandler, fresh, is_empty, has_pending_capabilities, check_end_negotiation,
  end_capability_negotiation, emit, get_active_caps, get_capability_values,
}

-- How often the event before the end is among the outputs.
abbrev one_if_pre_end : EventType → ℕ
one_if_pre_end EventType.cap_pre_end = 1
one_if_pre_end _ = 0

abbrev pub endings : List Output → ℕ
endings [] = 0
endings (sent line ∷ output) = endings output
endings (refused line ∷ output) = endings output
endings (emitted t body ∷ output) = one_if_pre_end t + endings output

pub endings-append : (o p : List Output) → endings (o ++ p) ≡ endings o + endings p
endings-append [] p = omega arith
endings-append (sent line ∷ o) p = endings-append o p
endings-append (refused line ∷ o) p = endings-append o p
endings-append (emitted t body ∷ o) p = omega (arith, endings-append o p)

pre_end_of : CapabilitiesHandler → Output
unfolding get_active_caps
pre_end_of ch =
    emitted EventType.cap_pre_end (cap_pre_end_data (get_active_caps ch) (get_capability_values ch))

-- Nothing is taken back, and one more goroutine waits and one more event was emitted.
abbrev pub Keeps : CapabilitiesHandler → CapabilitiesHandler → Type 0
Keeps ch ch' = (length ch.waiters ≤ length ch'.waiters) × (endings ch.output ≤ endings ch'.output)

abbrev pub Ends : CapabilitiesHandler → CapabilitiesHandler → Type 0
Ends ch ch' = (length ch.waiters < length ch'.waiters) × (endings ch.output < endings ch'.output)

pub check-Keeps : (ch : CapabilitiesHandler) → Keeps ch (check_end_negotiation ch)
unfolding check_end_negotiation end_capability_negotiation emit pre_end_of
check-Keeps ch = (
  ground (arith, length-append ch.waiters (fresh ∷ [])),
  ground (arith, endings-append ch.output (pre_end_of ch ∷ [])),
)

pub check-Ends :
    (ch : CapabilitiesHandler)
    → ch.negotiating ≡ true
    → ch.pending ≡ []
    → Ends ch (check_end_negotiation ch)
unfolding check_end_negotiation end_capability_negotiation emit has_pending_capabilities pre_end_of
check-Ends ch h p = (
  ground (arith, length-append ch.waiters (fresh ∷ []), ap is_empty p),
  ground (arith, endings-append ch.output (pre_end_of ch ∷ []), ap is_empty p),
)
