-- ===== src/Message/Parse.antt =====
-- parser/message.go: ParseMessage.
use ircparser.Base.{
  ℕ, ◌+◌, Bool, false, not, List, [], ◌∷◌, Option, none, some, Bytes, Dict, ◌==◌, ltb,
  if◌then◌else◌, length, drop, get_elem?, Result, ok, err, ◌>>=◌,
}
use ircparser.Text.{index, split, join, slice, trim_crlf}
use ircparser.Text.Runes.{valid_string, to_upper}
use ircparser.Message.{Message, max_message_length, max_tag_length}
use ircparser.Message.Tags.{TagError, parse_tags}

pub data ParseError : Type 0 where
  invalid_utf8 : ParseError
  too_long : ℕ → ParseError
  empty_message : ParseError
  tags_without_command : ParseError
  bad_tags : TagError → ParseError
  source_without_command : ParseError
  missing_command : ParseError

-- The parameters behind the command: empty parts are passed over, and a part that starts with a
-- colon takes all that follows it.
unfoldable pub read_params : List Bytes → List Bytes
read_params [] = []
read_params ([] ∷ ps) = read_params ps
read_params ((c ∷ p) ∷ ps) =
    let rest = read_params ps in
    if c == b':' then drop 1 (join b' ' ((c ∷ p) ∷ ps)) ∷ [] else (c ∷ p) ∷ rest

unfoldable pub wrap_tags : Result TagError (Dict Bytes Bytes) → Result ParseError (Dict Bytes Bytes)
wrap_tags (ok tags) = ok tags
wrap_tags (err e) = err (bad_tags e)

abbrev pub starts_with : ℕ → Option ℕ → Bool
starts_with b none = false
starts_with b (some c) = c == b

-- The tags, and the offset behind them.
unfoldable pub read_tags : Bytes → Result ParseError (Dict Bytes Bytes × ℕ)
read_tags raw =
    if starts_with b'@' (get_elem? raw 0)
    then elim (index b' ' raw) [
      | none ↦ err tags_without_command
      | some pos ↦ wrap_tags (parse_tags (slice 1 pos raw)) >>= λ tags. ok (tags, pos + 1)
    ]
    else ok ([], 0)

-- The source, and the offset behind it.
unfoldable pub read_source : Bytes → ℕ → Result ParseError (Bytes × ℕ)
read_source raw pos =
    if starts_with b':' (get_elem? raw pos)
    then elim (index b' ' (drop pos raw)) [
      | none ↦ err source_without_command
      | some space_pos ↦ ok (slice (pos + 1) (pos + space_pos) raw, pos + (space_pos + 1))
    ]
    else ok ([], pos)

module _ (unicode_upper : ℕ → ℕ) where
  -- The command and the parameters from the offset on.
  unfoldable pub read_command : Bytes → Dict Bytes Bytes → Bytes → ℕ → Result ParseError Message
  read_command raw tags source pos =
      if ltb pos (length raw)
      then elim (split b' ' (drop pos raw)) [
        | [] ↦ err missing_command
        | command ∷ params ↦ ok (record {
          tags = tags;
          source = source;
          command = to_upper unicode_upper command;
          params = read_params params;
          raw = raw;
        })
      ]
      else err missing_command

  unfoldable pub parse_trimmed : Bytes → Result ParseError Message
  parse_trimmed [] = err empty_message
  parse_trimmed (c ∷ s) =
      read_tags (c ∷ s) >>= λ t. read_source (c ∷ s) t.1 >>= λ u. read_command (c ∷ s) t.0 u.0 u.1

  unfoldable pub parse_message : Bytes → Result ParseError Message
  unfolding parse_trimmed
  parse_message raw =
      if not (valid_string raw)
      then err invalid_utf8
      else if ltb (max_message_length + max_tag_length) (length raw)
      then err (too_long (length raw))
      else parse_trimmed (trim_crlf raw)
