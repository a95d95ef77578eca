-- ===== src/Capabilities/Request.antt =====
-- parser/capabilities.go: what is requested of the server.
use mathlib.Core.List.{Sublistᴰ}
use ircparser.Base.{
  ℕ, ◌+◌, ◌∙◌, map, equal, if◌then◌else◌, ltb, ◌≡◌, refl, ap, true, List, [], ◌∷◌, Bytes,
  equal_self, Dict, bytes_eq, lookup, lookup-insert, All, Bool-cases, inl, inr, arith,
}
use ircparser.Text.Runes.{fields}
use ircparser.Output.{Sender}
use ircparser.Capabilities.{
  CapabilitiesHandler, is_some, name_of, value_of, parse_capabilities, caps_to_request, advertised,
  is_among, parse_available_capabilities,
}
use ircparser.Capabilities.Negotiation.{
  process_new_capabilities, request_capabilities, send_request,
}

-- What is advertised stays so as more is.
parse-keeps :
    (name : Bytes) (caps : List Bytes) (m : Dict Bytes Bytes)
    → is_some (lookup name m) ≡ true
    → is_some (lookup name (parse_capabilities caps m)) ≡ true
unfolding parse_capabilities
parse-keeps name [] m h = h
parse-keeps name (cap ∷ caps) m h =
    parse-keeps name caps _ (rw (lookup-insert (name_of cap) name (value_of cap) m) (ground arith))

-- Each name of the line is advertised by it.
parse-advertises :
    (caps : List Bytes) (m : Dict Bytes Bytes)
    → All (λ cap. is_some (lookup (name_of cap) (parse_capabilities caps m)) ≡ true) caps
unfolding parse_capabilities
parse-advertises [] m = tt
parse-advertises (cap ∷ caps) m = (
  parse-keeps (name_of cap) caps _ (
      rw (lookup-insert (name_of cap) (name_of cap) (value_of cap) m, equal_self (name_of cap))
        refl),
  parse-advertises caps _,
)

advertised-caps_to_request :
    (available : Dict Bytes Bytes) (requested caps : List Bytes)
    → All (λ cap. is_some (lookup (name_of cap) available) ≡ true) caps
    → advertised available (caps_to_request requested caps) ≡ caps_to_request requested caps
unfolding advertised caps_to_request
advertised-caps_to_request available requested [] h = refl
advertised-caps_to_request available requested (cap ∷ caps) (there, h) =
    elim (Bool-cases (is_among (name_of cap) requested)) [
      | inl wanted ↦ rw wanted (
          rw there
            (ap (λ r. name_of cap ∷ r) (advertised-caps_to_request available requested caps h)))
      | inr other ↦ rw other (advertised-caps_to_request available requested caps h)
    ]

-- How often a name is in a list.
abbrev pub occurrences : Bytes → List Bytes → ℕ
occurrences name [] = 0
occurrences name (n ∷ names) = (if equal n name then 1 else 0) + occurrences name names

-- The wanted ones of the names that the line offers, all of them, as often as the line has them, in
-- the order of the line; `requested` are those that the client wants.
pub record IsChoice (requested caps choice : List Bytes) : Type 0 where
  pub complete :
      (name : Bytes)
      → occurrences name choice
        ≡ (if ltb 0 (occurrences name requested) then occurrences name (map name_of caps) else 0)
  pub in_order : Sublistᴰ choice (map name_of caps)

among-occurrences :
    (name : Bytes) (names : List Bytes) → is_among name names ≡ ltb 0 (occurrences name names)
unfolding is_among
among-occurrences name [] = ground arith
among-occurrences name (n ∷ names) = elim (Bool-cases (equal n name)) [
  | inl same ↦ rw same (ground arith)
  | inr other ↦ rw other (among-occurrences name names ∙ ap (ltb 0) (omega arith))
]

choice_complete :
    (requested caps : List Bytes) (name : Bytes)
    → occurrences name (caps_to_request requested caps)
      ≡ (if is_among name requested then occurrences name (map name_of caps) else 0)
unfolding caps_to_request
choice_complete requested [] name = ground arith
choice_complete requested (cap ∷ caps) name = elim (Bool-cases (equal (name_of cap) name)) [
  | inl same ↦
      let z = ap (λ n. is_among n requested) ((bytes_eq.beq_iff (name_of cap) name).0 same) in
      ground (arith, choice_complete requested caps name, z)
  | inr other ↦ ground (arith, choice_complete requested caps name)
]

choice_in_order :
    (requested caps : List Bytes) → Sublistᴰ (caps_to_request requested caps) (map name_of caps)
unfolding caps_to_request
choice_in_order requested [] = Sublistᴰ.slnil
choice_in_order requested (cap ∷ caps) = elim (Bool-cases (is_among (name_of cap) requested)) [
  | inl wanted ↦ rw wanted (Sublistᴰ.cons-cons refl (choice_in_order requested caps))
  | inr other ↦ rw other (Sublistᴰ.cons (choice_in_order requested caps))
]

module _ (send_error : Sender) where
  pub process_new_capabilities_lem :
      (ch : CapabilitiesHandler) (line : Bytes)
      → (process_new_capabilities send_error ch line
          ≡ send_request send_error
              (parse_available_capabilities ch line)
              (caps_to_request ch.requested (fields line)))
        × IsChoice ch.requested (fields line) (caps_to_request ch.requested (fields line))
  unfolding process_new_capabilities request_capabilities parse_available_capabilities
  process_new_capabilities_lem ch line = (
    ap (send_request send_error (parse_available_capabilities ch line)) (
        advertised-caps_to_request _ ch.requested (fields line)
          (parse-advertises (fields line) ch.available)),
    record {
      complete = λ name.
          choice_complete ch.requested (fields line) name
          ∙ ap (λ b. if b then occurrences name (map name_of (fields line)) else 0)
              (among-occurrences name ch.requested);
      in_order = choice_in_order ch.requested (fields line);
    },
  )
