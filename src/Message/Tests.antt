-- ===== src/Message/Tests.antt =====
-- Runs of the message code at fixed inputs, and the properties applied to them.
use ircparser.Base.{ℕ, ◌≡◌, refl, [], ◌∷◌, ◌++◌, codes, ok, err, arith, lookup, insert, equal}
use ircparser.Text.{join, contains, replace_all, split, split_two, index, trim_crlf}
use ircparser.Text.Runes.{to_upper, valid_string}
use ircparser.Message.{Message}
use ircparser.Message.Print.{to_string, print_tag, print_params, needs_colon, tag_part, source_part}
use ircparser.Message.Parse.{
  parse_message, parse_trimmed, read_tags, read_source, read_command, read_params, wrap_tags,
  empty_message, invalid_utf8, tags_without_command, source_without_command, missing_command,
  bad_tags,
}
use ircparser.Message.Tags.{escape_tag_value, unescape_tag_value, parse_tags, empty_key}
use ircparser.Message.Escape.{unescape-escape, unescape-escape_backslash_s}
use ircparser.Message.Sound.{IsParsed, parse_sound}
use ircparser.Message.RoundTrip.{IsPrintable, parse-to_string}
use ircparser.Message.RoundTrip.Tags.{IsTag}

-- unicode.ToUpper leaves these messages, which are ASCII, alone.
abbrev same_rune : ℕ → ℕ
same_rune r = r

abbrev greeting : Message
greeting = record {
  tags = (codes "time", codes "12:30;x") ∷ (codes "flag", []) ∷ [];
  source = codes "nick!u@h";
  command = codes "PRIVMSG";
  params = codes "#chan" ∷ codes ":hello there" ∷ [];
  raw = [];
}

-- Names at once all that a run of the message code computes with.
running : Unit {0}
unfolding to_string print_tag print_params needs_colon tag_part source_part escape_tag_value
    unescape_tag_value join contains replace_all valid_string to_upper lookup insert equal
    parse_message parse_trimmed read_tags read_source read_command read_params split split_two index
    trim_crlf wrap_tags parse_tags
running = tt

greeting_line :
    to_string greeting ≡ codes "@time=12:30\\:x;flag :nick!u@h PRIVMSG #chan ::hello there"
unfolding running
greeting_line = refl

timed-IsTag : IsTag (codes "time", codes "12:30;x")
timed-IsTag = record {
  key_ne_nil = cc;
  key_no_semicolon = omega arith;
  key_no_equals = omega arith;
  key_no_space = omega arith;
  value_no_backslash = omega arith;
}

flagged-IsTag : IsTag (codes "flag", [])
flagged-IsTag = record {
  key_ne_nil = cc;
  key_no_semicolon = omega arith;
  key_no_equals = omega arith;
  key_no_space = omega arith;
  value_no_backslash = tt;
}

greeting-IsPrintable : IsPrintable same_rune greeting
unfolding running
greeting-IsPrintable = record {
  tags_are = (timed-IsTag, (flagged-IsTag, tt));
  tags_distinct = (refl, (refl, tt));
  source_word = omega arith;
  command_ne_nil = cc;
  command_word = omega arith;
  command_no_tag = refl;
  command_no_source = refl;
  command_upper = refl;
  params_are = (refl, tt);
  line_valid = refl;
  line_short = omega arith;
  line_whole = omega arith;
}

parse-to_string_example :
    parse_message same_rune (to_string greeting) ≡ ok (record greeting { raw = to_string greeting })
parse-to_string_example = parse-to_string same_rune greeting greeting-IsPrintable

-- Two spaces behind the source: the command is empty, and there is no error.
lost_command :
    parse_message same_rune (codes ":a  ping x  y\r\n")
    ≡ ok (record {
      tags = [];
      source = codes "a";
      command = [];
      params = codes "ping" ∷ codes "x" ∷ codes "y" ∷ [];
      raw = codes ":a  ping x  y";
    })
unfolding running
lost_command = refl

unescape-escape_example :
    unescape_tag_value (escape_tag_value (codes "a;b c\r\n")) ≡ codes "a;b c\r\n"
unescape-escape_example = unescape-escape (codes "a;b c\r\n") (omega arith)

unescape-escape_backslash_s_example :
    unescape_tag_value (escape_tag_value (codes "C:" ++ b'\\' ∷ b's' ∷ codes "rc"))
    ≡ codes "C:" ++ b'\\' ∷ b' ' ∷ codes "rc"
unescape-escape_backslash_s_example =
    unescape-escape_backslash_s (codes "C:") (codes "rc") (omega arith) (omega arith)

errors :
    (parse_message same_rune (codes "\r\n") ≡ err empty_message)
    × (parse_message same_rune (0xFF ∷ []) ≡ err invalid_utf8)
    × (parse_message same_rune (codes "@a=b") ≡ err tags_without_command)
    × (parse_message same_rune (codes ":a") ≡ err source_without_command)
    × (parse_message same_rune (codes ":a ") ≡ err missing_command)
    × (parse_message same_rune (codes "@=b PING") ≡ err (bad_tags empty_key))
unfolding running
errors = (refl, refl, refl, refl, refl, refl)

abbrev ping_line : Message
ping_line = record {
  tags = (codes "k", codes "v") ∷ [];
  source = codes "srv";
  command = codes "PING";
  params = codes "a" ∷ codes "b c" ∷ [];
  raw = codes "@k=v :srv ping a :b c";
}

parse_sound_example : IsParsed (codes "@k=v :srv ping a :b c\r\n") ping_line
unfolding running
parse_sound_example = parse_sound same_rune (codes "@k=v :srv ping a :b c\r\n") refl
