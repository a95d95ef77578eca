-- ===== src/Capabilities/Negotiation.antt =====
-- parser/capabilities.go: the operations that send lines. `send_error` is the error that the connection
-- returns for a line.
use ircparser.Base.{
  ℕ, zero, suc, ◌+◌, ◌-◌, true, false, ◌||◌, not, List, [], ◌∷◌, Bytes, codes, bytes_eq, Option,
  none, some, if◌then◌else◌, leb,
}
use ircparser.Text.{join}
use ircparser.Text.Runes.{fields}
use ircparser.Message.{Message, get_trailing}
use ircparser.Output.{Output, Sender, send_line}
use ircparser.Capabilities.{
  is_empty, has_pending_capabilities, end_capability_negotiation, parse_available_capabilities,
  caps_to_request, advertised, mark_pending, CapabilitiesHandler, Waiter, counting,
}

module _ (send_error : Sender) where
  -- A line is sent; the option is the error.
  abbrev pub with_output :
      CapabilitiesHandler → List Output × Option Bytes → CapabilitiesHandler × Option Bytes
  with_output ch (output, e) = (record ch { output = output }, e)

  unfoldable pub send : CapabilitiesHandler → List Bytes → CapabilitiesHandler × Option Bytes
  send ch line = with_output ch (send_line send_error ch.output line)

  abbrev pub check_start : CapabilitiesHandler × Option Bytes → CapabilitiesHandler
  check_start (ch, none) = ch
  check_start (ch, some e) = record ch { negotiating = false }

  unfoldable pub handle_connected : CapabilitiesHandler → CapabilitiesHandler
  handle_connected ch =
      check_start
        (send (record ch { negotiating = true }) (codes "CAP" ∷ codes "LS" ∷ codes "302" ∷ []))

  -- CAP REQ for capabilities that are advertised; nothing for none.
  abbrev pub send_request : CapabilitiesHandler → List Bytes → CapabilitiesHandler × Option Bytes
  send_request ch [] = (ch, none)
  send_request ch (cap ∷ caps) =
      send (record ch { pending = mark_pending (cap ∷ caps) ch.pending })
        (codes "CAP" ∷ codes "REQ" ∷ join b' ' (cap ∷ caps) ∷ [])

  unfoldable pub request_capabilities :
      CapabilitiesHandler → List Bytes → CapabilitiesHandler × Option Bytes
  request_capabilities ch caps = send_request ch (advertised ch.available caps)

  unfoldable pub process_new_capabilities :
      CapabilitiesHandler → Bytes → CapabilitiesHandler × Option Bytes
  process_new_capabilities ch line =
      request_capabilities (parse_available_capabilities ch line)
        (caps_to_request ch.requested (fields line))

  abbrev pub trailing_of : Option Message → Bytes
  trailing_of none = []
  trailing_of (some m) = get_trailing m

  -- An error ends the handler.
  abbrev pub check_nothing_pending : CapabilitiesHandler × Option Bytes → CapabilitiesHandler
  check_nothing_pending (ch, some e) = ch
  check_nothing_pending (ch, none) =
      if is_empty ch.requested || not (has_pending_capabilities ch)
      then end_capability_negotiation ch
      else ch

  unfoldable pub handle_cap_ls : CapabilitiesHandler → Option Message → CapabilitiesHandler
  handle_cap_ls ch m =
      if ch.negotiating
      then check_nothing_pending (process_new_capabilities ch (trailing_of m))
      else ch

  unfoldable pub handle_cap_new : CapabilitiesHandler → Option Message → CapabilitiesHandler
  handle_cap_new ch none = ch
  handle_cap_new ch (some m) = (process_new_capabilities ch (get_trailing m)).0

  abbrev pub check_ended : CapabilitiesHandler × Option Bytes → CapabilitiesHandler
  check_ended (ch, none) = record ch { negotiating = false }
  check_ended (ch, some e) = ch

  unfoldable pub handle_cap_end : CapabilitiesHandler → CapabilitiesHandler
  handle_cap_end ch = check_ended (send ch (codes "CAP" ∷ codes "END" ∷ []))

  -- A goroutine asks for the number of listeners; `none` for a goroutine that has ended.
  unfoldable pub count_expected : ℕ → CapabilitiesHandler → CapabilitiesHandler × Option Waiter
  count_expected zero ch = (handle_cap_end ch, none)
  count_expected (suc n) ch = (ch, some (counting (suc n) 0))

  -- It takes a signal from the channel.
  unfoldable pub take_signal : ℕ → ℕ → CapabilitiesHandler → CapabilitiesHandler × Option Waiter
  take_signal expected count ch =
      let ch' = record ch { ready = ch.ready - 1 } in
      if leb expected (count + 1)
      then (handle_cap_end ch', none)
      else (ch', some (counting expected (count + 1)))

  unfoldable pub wait_times_out : CapabilitiesHandler → CapabilitiesHandler × Option Waiter
  wait_times_out ch = (handle_cap_end ch, none)
