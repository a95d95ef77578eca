-- ===== src/Capabilities/Late.antt =====
-- parser/capabilities.go: capabilities that the server advertises behind the end of the negotiation.
use ircparser.Base.{
  ◌≡◌, refl, sym, ap, ◌∙◌, Bool, true, false, List, [], ◌∷◌, ◌++◌, Bytes, codes, Dict, bytes_eq,
  Option, none, some, All, lookup, lookup-insert, arith, equal_self,
}
use ircparser.Message.{Message, get_trailing}
use ircparser.Output.{Sender, sent, send_line, outcome}
use ircparser.Capabilities.{
  CapabilitiesHandler, handle_cap_ack, parse_available_capabilities, caps_to_request, mark_pending,
}
use ircparser.Capabilities.Negotiation.{handle_cap_new, send_request, send, with_output}
use ircparser.Capabilities.Request.{process_new_capabilities_lem}
use mathlib.Core.Path.{subst}
use ircparser.Text.{join}
use ircparser.Text.Runes.{fields}

mark_pending-keeps :
    (caps : List Bytes) (name : Bytes) (m : Dict Bytes Bool)
    → lookup name m ≡ some true
    → lookup name (mark_pending caps m) ≡ some true
unfolding mark_pending
mark_pending-keeps [] name m h = h
mark_pending-keeps (cap ∷ caps) name m h =
    mark_pending-keeps caps name _ (rw (lookup-insert cap name true m) (ground (arith, h)))

-- Every capability of a request is pending behind it.
mark_pending-All :
    (caps : List Bytes) (m : Dict Bytes Bool)
    → All (λ name. lookup name (mark_pending caps m) ≡ some true) caps
unfolding mark_pending
mark_pending-All [] m = tt
mark_pending-All (cap ∷ caps) m = (
  mark_pending-keeps caps cap _ (rw (lookup-insert cap cap true m, equal_self cap) refl),
  mark_pending-All caps _,
)

module _ (send_error : Sender) where
  ignored :
      (ch : CapabilitiesHandler) (m : Option Message)
      → ch.negotiating ≡ false
      → handle_cap_ack ch m ≡ ch
  unfolding handle_cap_ack
  ignored ch none h = refl
  ignored ch (some m) h = simp h

  -- What NEW with these wanted capabilities makes of the handler.
  abbrev asking : CapabilitiesHandler → Bytes → List Bytes → CapabilitiesHandler
  unfolding parse_available_capabilities
  asking ch line caps = record (parse_available_capabilities ch line) {
    pending = mark_pending caps ch.pending;
    output = ch.output ++ sent (codes "CAP" ∷ codes "REQ" ∷ join b' ' caps ∷ []) ∷ [];
  }

  new-asking :
      (ch : CapabilitiesHandler) (new : Message) (name : Bytes) (names : List Bytes)
      → caps_to_request ch.requested (fields (get_trailing new)) ≡ name ∷ names
      → send_error ch.output (codes "CAP" ∷ codes "REQ" ∷ join b' ' (name ∷ names) ∷ []) ≡ none
      → handle_cap_new send_error ch (some new) ≡ asking ch (get_trailing new) (name ∷ names)
  unfolding handle_cap_new send send_line parse_available_capabilities asking
  new-asking ch new name names wants accepts =
      let line = get_trailing new in
      let request = codes "CAP" ∷ codes "REQ" ∷ join b' ' (name ∷ names) ∷ [] in
      ap (λ r. r.0)
        ((process_new_capabilities_lem send_error ch line).0
          ∙ ap (send_request send_error (parse_available_capabilities ch line)) wants
          ∙ ap
              (λ e.
                with_output send_error
                  (record (parse_available_capabilities ch line) {
                    pending = mark_pending (name ∷ names) ch.pending;
                  })
                  (outcome ch.output request e))
              accepts)

  -- Behind the end of the negotiation NEW still makes the handler ask: if the line has capabilities
  -- that it wants and the connection takes the request, CAP REQ for all of them goes out. But the
  -- server's ACK, whatever it says, is passed over: the active capabilities stay what they were, and
  -- each one that was asked for stays pending.
  pub handle_cap_ack-handle_cap_new :
      (ch : CapabilitiesHandler) (new ack : Message) (name : Bytes) (names : List Bytes)
      → ch.negotiating ≡ false
      → caps_to_request ch.requested (fields (get_trailing new)) ≡ name ∷ names
      → send_error ch.output (codes "CAP" ∷ codes "REQ" ∷ join b' ' (name ∷ names) ∷ []) ≡ none
      → let ch' = handle_cap_ack (handle_cap_new send_error ch (some new)) (some ack) in
        (ch'.output
          ≡ ch.output ++ sent (codes "CAP" ∷ codes "REQ" ∷ join b' ' (name ∷ names) ∷ []) ∷ [])
        × (ch'.acked ≡ ch.acked)
        × All (λ cap. lookup cap ch'.pending ≡ some true) (name ∷ names)
  unfolding asking parse_available_capabilities
  handle_cap_ack-handle_cap_new ch new ack name names over wants accepts =
      let line = get_trailing new in
      let same =
        ap (λ c. handle_cap_ack c (some ack)) (new-asking ch new name names wants accepts)
        ∙ ignored (asking ch line (name ∷ names)) (some ack) over in
      (
        ap (λ (c : CapabilitiesHandler). c.output) same,
        ap (λ (c : CapabilitiesHandler). c.acked) same,
        subst
            (λ (c : CapabilitiesHandler).
              All (λ cap. lookup cap c.pending ≡ some true) (name ∷ names))
            (sym same) (mark_pending-All (name ∷ names) ch.pending),
      )
