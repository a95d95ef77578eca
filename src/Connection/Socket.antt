-- ===== src/Connection/Socket.antt =====
-- parser/connection.go: what a round of the read loop and a write do to the socket and the writer.
use ircparser.Base.{
  ap, ◌⊎◌, inl, inr, Bool-cases, take, append-nil, ◌≡◌, refl, ◌∙◌, Bool, true, false, List, [], ◌∷◌,
  Bytes, codes, Option, none, some, Result, ok, err, if◌then◌else◌, arith, ◌++◌, equal, pos,
}
use ircparser.Message.{Message, get_param}
use ircparser.Message.Parse.{ParseError, parse_message}
use ircparser.Event.Classify.{extract_nick}
use ircparser.Event.{EventType, raw_incoming_data, error_data, Event}
use ircparser.Text.Trim.{trim_space}
use ircparser.Connection.{
  end_reading, is_disconnected, event, transition_to_disconnected, write_line, Connection, Network,
  emit, read_round, send_raw, handle_line, handle_message, track_message, parse_isupport, welcome,
}
use ircparser.Event.Create.{create_events}

-- What the two directions have of the socket and the writer.
abbrev pub wire : Connection → Bool × Bool × List Bytes × List Bytes × List Bytes
wire c = (c.opened, c.alive, c.written, c.buffered, c.flushed)

-- A round of the read loop changes nothing of it, or closes the socket.
abbrev pub Reads : Connection → Connection → Type 0
Reads c c' = (wire c' ≡ wire c) ⊎ (wire c' ≡ wire (record c { alive = false }))

module _ (net : Network) where
  transition-wire :
      (c : Connection) (reason : Bytes) (error : Option Bytes)
      → wire (transition_to_disconnected c reason error).0 ≡ wire c
  unfolding transition_to_disconnected emit
  transition-wire c reason error = ground arith

  track-wire : (c : Connection) (m : Message) → wire (track_message c m) ≡ wire c
  unfolding track_message parse_isupport welcome
  track-wire c m = go m.params
    where
      go :
          (params : List Bytes)
          → wire (
              if equal m.command (codes "001")
              then welcome c params
              else if equal m.command (codes "005")
              then parse_isupport c m
              else if equal m.command (codes "NICK")
              then (if equal (extract_nick m.source) c.current_nick
                  then record c { current_nick = get_param m (pos 0) }
                  else c)
              else c)
            ≡ wire c
      go [] = ground arith
      go (nick ∷ params) = ground arith

  message-wire :
      (c c' : Connection) (m : Message) → handle_message net c m ≡ some c' → wire c' ≡ wire c
  unfolding handle_message
  message-wire c c' m e = go (track_message c m) (create_events net.env (some m)) e ∙ track-wire c m
    where
      go :
          (d : Connection) (o : Option (List Event))
          → elim o as (λ _. Option Connection) [
            | none ↦ none
            | some es ↦ some (record d { events = d.events ++ es })
          ]
            ≡ some c'
          → wire c' ≡ wire d
      go d none h = ground arith
      go d (some es) h = ground arith

  line-wire :
      (c c' : Connection) (line : Bytes) → handle_line net c line ≡ some c' → wire c' ≡ wire c
  unfolding handle_line emit
  line-wire c c' [] e = ground arith
  line-wire c c' (b ∷ bs) e = go c (parse_message net.env.unicode_upper (b ∷ bs)) e
    where
      go :
          (d : Connection) (o : Result ParseError Message)
          → elim o as (λ _. Option Connection) [
            | err x ↦ some (
                emit
                  (emit d (event EventType.raw_incoming (raw_incoming_data (b ∷ bs) net.env.now)))
                  (event EventType.error
                    (error_data (codes "failed to parse message: " ++ net.describe x))))
            | ok m ↦
                handle_message net
                  (emit d (event EventType.raw_incoming (raw_incoming_data (b ∷ bs) net.env.now)))
                  m
          ]
            ≡ some c'
          → wire c' ≡ wire d
      go d (err x) h = ground arith
      go d (ok m) h = message-wire _ c' m h

  pub round-Reads :
      (c c' : Connection) (input : Result Bytes Bytes) (goes_on : Bool)
      → read_round net c input ≡ some (c', goes_on)
      → Reads c c'
  unfolding read_round
  round-Reads c c' input goes_on e = go c.cancelled e
    where
      ended :
          (d : Connection)
          → wire d ≡ wire c
          → some (end_reading net d) ≡ some (c', goes_on)
          → Reads c c'
      ended d k h = inr (ground (arith, k))

      line_read :
          (o : Option Connection)
          → (o ≡ some c' → wire c' ≡ wire c)
          → elim o as (λ _. Option (Connection × Bool)) [ none ↦ none | some d ↦ some (d, true) ]
            ≡ some (c', goes_on)
          → Reads c c'
      line_read none k h = inl (ground arith)
      line_read (some d) k h = inl (k (ground arith))

      input_read :
          (input : Result Bytes Bytes)
          → elim input as (λ _. Option (Connection × Bool)) [
            | err text ↦
                some (
                  end_reading net (transition_to_disconnected c (codes "read error") (some text)).0)
            | ok line ↦ elim (handle_line net c (trim_space line)) [
              | none ↦ none
              | some c' ↦ some (c', true)
            ]
          ]
            ≡ some (c', goes_on)
          → Reads c c'
      input_read (err text) h =
          ended (transition_to_disconnected c (codes "read error") (some text)).0
            (transition-wire c (codes "read error") (some text)) h
      input_read (ok line) h =
          line_read (handle_line net c (trim_space line)) (line-wire c c' (trim_space line)) h

      go :
          (b : Bool)
          → (if b
              then some (end_reading net c)
              else elim input as (λ _. Option (Connection × Bool)) [
                | err text ↦ some (
                    end_reading net
                      (transition_to_disconnected c (codes "read error") (some text)).0)
                | ok line ↦ elim (handle_line net c (trim_space line)) [
                  | none ↦ none
                  | some c' ↦ some (c', true)
                ]
              ])
            ≡ some (c', goes_on)
          → Reads c c'
      go true h = ended c refl h
      go false h = input_read input h

  -- The writer has taken these pieces.
  abbrev pub Takes : Connection → List Bytes → Connection → Type 0
  Takes c pieces c' =
      wire c' ≡ wire (record c { written = c.written ++ pieces; buffered = c.buffered ++ pieces })

  write-Takes :
      (c : Connection) (line : Bytes)
      → (pieces : List Bytes) × Takes c pieces (write_line net c line).0
  unfolding emit write_line
  write-Takes c line = go (net.write_error c.written (line ++ codes "\r\n")) refl
    where
      go :
          (o : Option Bytes)
          → net.write_error c.written (line ++ codes "\r\n") ≡ o
          → (pieces : List Bytes) × Takes c pieces (write_line net c line).0
      go none e = ((line ++ codes "\r\n") ∷ [], rw (write_line, e) refl)
      go (some text) e = (
        take (net.taken c.written (line ++ codes "\r\n")) (line ++ codes "\r\n") ∷ [],
        rw (write_line, e) (transition-wire _ (codes "write error") (some text)),
      )

  pub raw-Takes :
      (c : Connection) (line : Bytes)
      → (pieces : List Bytes) × Takes c pieces (send_raw net c line).0
  unfolding send_raw
  raw-Takes c line = elim (Bool-cases (is_disconnected c.state)) [
    | inl down ↦ ([], rw down (unchanged c))
    | inr up ↦ elim (Bool-cases c.opened) [
      | inl opened ↦
          let (pieces, took) = write-Takes c line in
          let same : send_raw net c line ≡ write_line net c line = simp (up, opened) in
          (pieces, ap (λ r. wire r.0) same ∙ took)
      | inr closed ↦
          let same : (send_raw net c line).0 ≡ c = simp (up, closed) in
          ([], ap wire same ∙ unchanged c)
    ]
  ]
    where
      unchanged : (c : Connection) → Takes c [] c
      unchanged c = simp append-nil
