-- ===== src/Capabilities/Offers.antt =====
-- parser/capabilities.go: HandleCapLS on a list that offers nothing wanted, and on one that offers a
-- single capability.
use ircparser.Base.{
  ◌≡◌, ap, ◌∙◌, true, List, [], ◌∷◌, Bytes, bytes_eq, codes, Dict, none, some, insert,
}
use ircparser.Message.{Message, get_trailing}
use ircparser.Event.{EventType, cap_pre_end_data}
use ircparser.Output.{Output, Sender, sent, emitted, send_line, outcome}
use ircparser.Text.{join}
use ircparser.Text.Runes.{fields}
use ircparser.Capabilities
use ircparser.Capabilities.{
  CapabilitiesHandler, Waiter, fresh, new_capabilities_handler, parse_capabilities,
  parse_available_capabilities, caps_to_request, end_capability_negotiation, mark_pending,
  has_pending_capabilities, get_active_caps,
}
use ircparser.Capabilities.Negotiation.{
  handle_cap_ls, check_nothing_pending, send_request, send, with_output,
}
use ircparser.Capabilities.Request.{process_new_capabilities_lem}

-- The capabilities that SetupDefaultHandlers asks for.
abbrev pub wanted : List Bytes
wanted = codes "sasl" ∷ codes "echo-message" ∷ []

-- A negotiation in which nothing is pending and nothing is active.
abbrev pub negotiating : Dict Bytes Bytes → List Waiter → CapabilitiesHandler
negotiating available waiters = record (new_capabilities_handler [] wanted) {
  available = available;
  negotiating = true;
  waiters = waiters;
}

-- The event that ends a negotiation without active capabilities.
abbrev pub pre_end : Output
pre_end = emitted EventType.cap_pre_end (cap_pre_end_data [] [])

module _ (send_error : Sender) where
  pub nothing_wanted :
      (m : Message)
      → caps_to_request wanted (fields (get_trailing m)) ≡ []
      → handle_cap_ls send_error (negotiating [] []) (some m)
        ≡ record (negotiating (parse_capabilities (fields (get_trailing m)) []) (fresh ∷ [])) {
          output = pre_end ∷ [];
        }
  unfolding handle_cap_ls new_capabilities_handler parse_available_capabilities
      has_pending_capabilities end_capability_negotiation Capabilities.emit get_active_caps
  nothing_wanted m nothing =
      let ch = negotiating [] [] in
      ap (check_nothing_pending send_error) (
        (process_new_capabilities_lem send_error ch (get_trailing m)).0
        ∙ ap (send_request send_error (parse_available_capabilities ch (get_trailing m))) nothing)

  pub one_wanted :
      (m : Message) (name : Bytes) (available : Dict Bytes Bytes) (waiters : List Waiter)
      → caps_to_request wanted (fields (get_trailing m)) ≡ name ∷ []
      → ((output : List Output) (line : List Bytes) → send_error output line ≡ none)
      → handle_cap_ls send_error (negotiating available waiters) (some m)
        ≡ record (negotiating (parse_capabilities (fields (get_trailing m)) available) waiters) {
          pending = (name, true) ∷ [];
          output = sent (codes "CAP" ∷ codes "REQ" ∷ name ∷ []) ∷ [];
        }
  unfolding handle_cap_ls new_capabilities_handler parse_available_capabilities
      has_pending_capabilities send send_line mark_pending join insert
  one_wanted m name available waiters one accepts =
      let ch = negotiating available waiters in
      let line = codes "CAP" ∷ codes "REQ" ∷ name ∷ [] in
      ap (check_nothing_pending send_error) (
        (process_new_capabilities_lem send_error ch (get_trailing m)).0
        ∙ ap (send_request send_error (parse_available_capabilities ch (get_trailing m))) one)
      ∙ ap
          (λ e. check_nothing_pending send_error (
            with_output send_error
              (record (parse_available_capabilities ch (get_trailing m)) {
                pending = (name, true) ∷ [];
              })
              (outcome [] line e)))
          (accepts [] line)
