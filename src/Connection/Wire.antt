-- ===== src/Connection/Wire.antt =====
-- parser/connection.go: the bytes that Send puts on the wire, as the other side reads them.
use ircparser.Base.{
  ℕ, ◌+◌, ◌≤◌, ◌≡◌, refl, sym, ap, ◌∙◌, true, false, List, [], ◌∷◌, ◌++◌, append_assoc, append-nil,
  Bytes, codes, none, ok, arith, ltb, length, length-append,
}
use ircparser.Text.{join, contains, trim_crlf}
use ircparser.Text.Runes.Valid.{valid_string-crlf, trim_crlf-append}
use ircparser.Message.{Message}
use ircparser.Message.Parse.{parse_message, parse_trimmed}
use ircparser.Message.Print.{to_string, needs_colon, print_params, tag_part, source_part}
use ircparser.Message.RoundTrip.{IsPrintable, parse-to_string, trim_crlf-Lacks}
use ircparser.Event.{EventType, raw_outgoing_data}
use ircparser.Connection.{
  Connection, Network, is_disconnected, emit, event, write_line, send_raw, send, command_message,
}

parse_message-crlf :
    (unicode_upper : ℕ → ℕ) (m : Message)
    → IsPrintable unicode_upper m
    → length (to_string m) + 2 ≤ 8704
    → parse_message unicode_upper (to_string m ++ codes "\r\n")
      ≡ ok (record m { raw = to_string m })
unfolding parse_message
parse_message-crlf unicode_upper m w k =
    rw (valid_string-crlf (to_string m) w.line_valid, short_crlf)
      (ap (parse_trimmed unicode_upper)
          (trim_crlf-append (to_string m) ∙ sym (trim_crlf-Lacks (to_string m) w.line_whole))
        ∙ alone)
    ∙ parse-to_string unicode_upper m w
  where
    short : ltb 8704 (length (to_string m)) ≡ false
    short = ground (arith, k)

    short_crlf : ltb 8704 (length (to_string m ++ codes "\r\n")) ≡ false
    short_crlf = ground (arith, k, length-append (to_string m) (codes "\r\n"))

    alone :
        parse_trimmed unicode_upper (trim_crlf (to_string m))
        ≡ parse_message unicode_upper (to_string m)
    alone = rw (w.line_valid, short) refl

-- The connection after a line that the writer took.
abbrev pub after_line : Network → Connection → Bytes → Connection
after_line net c line = record c {
  written = c.written ++ (line ++ codes "\r\n") ∷ [];
  buffered = c.buffered ++ (line ++ codes "\r\n") ∷ [];
  events = c.events ++ event EventType.raw_outgoing (raw_outgoing_data line net.env.now) ∷ [];
}

pub send_raw-after_line :
    (net : Network) (c : Connection) (line : Bytes)
    → is_disconnected c.state ≡ false
    → c.opened ≡ true
    → net.write_error c.written (line ++ codes "\r\n") ≡ none
    → send_raw net c line ≡ (after_line net c line, none)
unfolding send_raw write_line emit
send_raw-after_line net c line up opened h = let_through ∙ rw (write_line, h) refl
  where
    let_through : send_raw net c line ≡ write_line net c line
    let_through = simp (up, opened)

-- On a connection that is up, Send of a message that can be written on a line gives the writer one
-- line, and ParseMessage on the other side reads from it the command and the parameters that were
-- sent.
pub send-parse_message :
    (net : Network) (unicode_upper : ℕ → ℕ) (c : Connection) (command : Bytes) (params : List Bytes)
    → IsPrintable unicode_upper (command_message command params)
    → length (to_string (command_message command params)) + 2 ≤ 8704
    → is_disconnected c.state ≡ false
    → c.opened ≡ true
    → net.write_error c.written (to_string (command_message command params) ++ codes "\r\n") ≡ none
    → ((send net c command params).0.written
        ≡ c.written ++ (to_string (command_message command params) ++ codes "\r\n") ∷ [])
      × (parse_message unicode_upper (to_string (command_message command params) ++ codes "\r\n")
          ≡ ok (record (command_message command params) {
            raw = to_string (command_message command params);
          }))
unfolding send
send-parse_message net unicode_upper c command params w k up opened h = (
  ap (λ r. r.0.written)
      (send_raw-after_line net c (to_string (command_message command params)) up opened h),
  parse_message-crlf unicode_upper (command_message command params) w k,
)

-- The bytes of the lines.
abbrev pub stream : List Bytes → Bytes
stream [] = []
stream (line ∷ lines) = line ++ stream lines

stream-append : (k l : List Bytes) → stream (k ++ l) ≡ stream k ++ stream l
stream-append [] l = refl
stream-append (line ∷ k) l =
    ap (λ t. line ++ t) (stream-append k l) ∙ sym (append_assoc line (stream k) (stream l))

contains-append_left : (b : ℕ) (s t : Bytes) → contains b s ≡ true → contains b (s ++ t) ≡ true
unfolding contains
contains-append_left b [] t h = cc
contains-append_left b (c ∷ s) t h = ground (arith, contains-append_left b s t)

needs_colon-contains : (s : Bytes) → contains b' ' s ≡ true → needs_colon s ≡ true
unfolding needs_colon
needs_colon-contains [] h = refl
needs_colon-contains (c ∷ s) h = rw h refl

text_line :
    (command target text : Bytes)
    → contains b' ' text ≡ true
    → to_string (command_message command (target ∷ text ∷ []))
      ≡ (command ++ b' ' ∷ (target ++ codes " :")) ++ text
unfolding to_string tag_part source_part print_params join
text_line command target text h = rw (needs_colon-contains text h) (
    ap (λ t. command ++ b' ' ∷ t) (sym (append_assoc target (codes " :") text))
    ∙ sym (append_assoc command (b' ' ∷ (target ++ codes " :")) text))

broken_line :
    (command target text behind : Bytes)
    → contains b' ' text ≡ true
    → to_string (command_message command (target ∷ (text ++ (codes "\r\n" ++ behind)) ∷ []))
      ≡ to_string (command_message command (target ∷ text ∷ [])) ++ (codes "\r\n" ++ behind)
broken_line command target text behind space =
    text_line command target (text ++ (codes "\r\n" ++ behind))
      (contains-append_left b' ' text (codes "\r\n" ++ behind) space)
    ∙ sym (append_assoc (command ++ b' ' ∷ (target ++ codes " :")) text (codes "\r\n" ++ behind))
    ∙ ap (λ s. s ++ (codes "\r\n" ++ behind)) (sym (text_line command target text space))

-- A line that breaks, behind what was written, and the two lines of it.
two_lines :
    (lines : List Bytes) (line behind : Bytes)
    → stream (lines ++ ((line ++ (codes "\r\n" ++ behind)) ++ codes "\r\n") ∷ [])
      ≡ stream ((lines ++ (line ++ codes "\r\n") ∷ []) ++ (behind ++ codes "\r\n") ∷ [])
two_lines lines line behind = simp (stream-append, append_assoc, append-nil)

-- A line break in a text is not looked for: on a connection that is up, with a writer that takes every
-- line, sending a text with a space, a line break and then more puts on the wire, byte for byte, what
-- is put there by sending the text up to the line break and then, by SendRaw, the rest.
pub send-send_raw :
    (net : Network) (c : Connection) (command target text behind : Bytes)
    → is_disconnected c.state ≡ false
    → c.opened ≡ true
    → ((lines : List Bytes) (line : Bytes) → net.write_error lines line ≡ none)
    → contains b' ' text ≡ true
    → stream (send net c command (target ∷ (text ++ (codes "\r\n" ++ behind)) ∷ [])).0.written
      ≡ stream (send_raw net (send net c command (target ∷ text ∷ [])).0 behind).0.written
unfolding send
send-send_raw net c command target text behind up opened h space =
    ap (λ r. stream r.0.written) (send_raw-after_line net c broken up opened (h c.written _))
    ∙ ap (λ line. stream (c.written ++ (line ++ codes "\r\n") ∷ []))
        (broken_line command target text behind space)
    ∙ two_lines c.written line behind
    ∙ sym (
        ap (λ r. stream (send_raw net r.0 behind).0.written)
          (send_raw-after_line net c line up opened (h c.written _))
        ∙ ap (λ r. stream r.0.written)
            (send_raw-after_line net (after_line net c line) behind up opened (h _ _)))
  where
    line : Bytes
    line = to_string (command_message command (target ∷ text ∷ []))

    broken : Bytes
    broken = to_string (command_message command (target ∷ (text ++ (codes "\r\n" ++ behind)) ∷ []))
