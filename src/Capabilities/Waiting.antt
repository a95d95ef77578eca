-- ===== src/Capabilities/Waiting.antt =====
-- parser/capabilities.go: the goroutine that waits for the handlers of the end of the negotiation.
use ircparser.Base.{ℕ, zero, suc, Option, none, some}
use ircparser.Output.{Sender}
use ircparser.Capabilities.{CapabilitiesHandler, Waiter, fresh, counting}
use ircparser.Capabilities.Negotiation.{take_signal}

module _ (send_error : Sender) where
  -- A goroutine that has not ended goes on.
  abbrev pub continue :
      (ℕ → ℕ → CapabilitiesHandler → CapabilitiesHandler × Option Waiter)
      → CapabilitiesHandler × Option Waiter
      → CapabilitiesHandler × Option Waiter
  continue go (ch, none) = (ch, none)
  continue go (ch, some fresh) = (ch, some fresh)
  continue go (ch, some (counting expected count)) = go expected count ch

  -- It takes as many signals.
  abbrev pub take_signals : ℕ → ℕ → ℕ → CapabilitiesHandler → CapabilitiesHandler × Option Waiter
  take_signals zero expected count ch = (ch, some (counting expected count))
  take_signals (suc k) expected count ch =
      continue (take_signals k) (take_signal send_error expected count ch)
