-- ===== src/Message/RoundTrip.antt =====
-- Printing a message and parsing what was printed.
pub mod Tags
pub mod Line
pub mod Reading
use mathlib.Core.Path.{subst}
use ircparser.Base.{
  ltb, ℕ, suc, ◌+◌, ◌-◌, ◌≤◌, ◌≡◌, ◌≢◌, refl, sym, ◌∙◌, ap, Bool, true, false, List, [], ◌∷◌, ◌++◌,
  map, Option, none, some, Bytes, Lacks, Dict, get_elem?, length, take, drop, ok, ◌>>=◌, arith, All,
  take-append_length, drop-append_length, Result,
}
use ircparser.Text.{index, split, join, trim_crlf, slice}
use ircparser.Text.Runes.{to_upper, valid_string}
use ircparser.Text.Split.{index-append, split-append, split-Lacks}
use ircparser.Message.{Message}
use ircparser.Message.Print.{print_tag, print_params, tag_part, source_part, to_string}
use ircparser.Message.Parse.{
  ParseError, read_params, read_source, read_tags, read_command, starts_with, parse_trimmed,
  parse_message, wrap_tags,
}
use ircparser.Message.Tags.{parse_tags}
use Tags.{IsTag, Distinct, parse_tags-join, join_no_space, join_ne_nil}
use Line.{read_source_at, read_source_none, read_command_at, AreParams, read_params-split, drop_sep}
use Reading.{
  command_text, behind_tags, source_text, join-head, join-cons, command_read, join_ne_nil_of_head,
  read_tags_none, read_tags_at, bind_ok, join-cons_ne_nil, source_part-ne-nil,
}

-- A message that can be written on one line: tags that can be written, a source without spaces, a
-- command in upper case that is one word and no tag or source, and parameters of which all but
-- the last can do without a colon. Behind `to_string` the line is valid, short enough and ends in
-- no line break of its own.
pub record IsPrintable (unicode_upper : ℕ → ℕ) (m : Message) : Type 0 where
  pub tags_are : All IsTag m.tags
  pub tags_distinct : Distinct m.tags
  pub source_word : Lacks b' ' m.source
  pub command_ne_nil : m.command ≢ []
  pub command_word : Lacks b' ' m.command
  pub command_no_tag : starts_with b'@' (get_elem? m.command 0) ≡ false
  pub command_no_source : starts_with b':' (get_elem? m.command 0) ≡ false
  pub command_upper : to_upper unicode_upper m.command ≡ m.command
  pub params_are : AreParams m.params
  pub line_valid : valid_string (to_string m) ≡ true
  pub line_short : length (to_string m) ≤ 8704
  pub line_whole : Lacks b'\n' (to_string m)

pub trim_crlf-Lacks : (s : Bytes) → Lacks b'\n' s → trim_crlf s ≡ s
unfolding trim_crlf
trim_crlf-Lacks [] h = refl
trim_crlf-Lacks (c ∷ []) h = refl
trim_crlf-Lacks (c ∷ d ∷ []) h = ground arith
trim_crlf-Lacks (c ∷ d ∷ e ∷ s) h = ap (λ t. c ∷ t) (trim_crlf-Lacks (d ∷ e ∷ s) h.1)

module _ (unicode_upper : ℕ → ℕ) (m : Message) (w : IsPrintable unicode_upper m) where
  command_text_read :
      (raw : Bytes) (pos : ℕ)
      → drop pos raw ≡ command_text m
      → read_command unicode_upper raw m.tags m.source pos ≡ ok (record m { raw = raw })
  command_text_read raw pos e =
      let (parts, cut, params) = command_read m w.params_are w.command_word in
      read_command_at unicode_upper raw m.tags m.source pos (command_text m) m.command parts e
        (join_ne_nil_of_head m.command _ w.command_ne_nil) cut
      ∙ cc (params, w.command_upper)

  -- From the offset behind the tags the rest of the message is read.
  source_text_read :
      (raw : Bytes) (pos : ℕ)
      → drop pos raw ≡ source_text m
      → (read_source raw pos >>= λ u. read_command unicode_upper raw m.tags u.0 u.1)
        ≡ ok (record m { raw = raw })
  source_text_read raw pos e = go m.source refl
    where
      go :
          (source : Bytes)
          → m.source ≡ source
          → (read_source raw pos >>= λ u. read_command unicode_upper raw m.tags u.0 u.1)
            ≡ ok (record m { raw = raw })
      go [] s =
          let at : drop pos raw ≡ command_text m = e ∙ unfold source_part in ap (behind_tags m) s in
          let miss : starts_with b':' (get_elem? (drop pos raw) 0) ≡ false =
            ap (λ t. starts_with b':' (get_elem? t 0)) at
            ∙ ap (starts_with b':') (join-head m.command _ w.command_ne_nil)
            ∙ w.command_no_source in
          bind_ok _ (read_source_none raw pos miss)
          ∙ ap (λ source. read_command unicode_upper raw m.tags source pos) (sym s)
          ∙ command_text_read raw pos at
      go (c ∷ source) s =
          let at : drop pos raw ≡ b':' ∷ ((c ∷ source) ++ b' ' ∷ command_text m) =
            e
            ∙ unfold source_part in
              ap (behind_tags m) s ∙ join-cons (b':' ∷ c ∷ source) m.command _ in
          let (next, found, behind) =
            read_source_at raw pos (c ∷ source) (command_text m) at
              (subst (Lacks b' ') s w.source_word) in
          bind_ok _ found
          ∙ ap (λ source. read_command unicode_upper raw m.tags source next) (sym s)
          ∙ command_text_read raw next behind

  source_head : (source : Bytes) → starts_with b'@' (get_elem? (behind_tags m source) 0) ≡ false
  unfolding source_part
  source_head [] = ap (starts_with b'@') (join-head m.command _ w.command_ne_nil) ∙ w.command_no_tag
  source_head (c ∷ source) =
      ap (starts_with b'@') (join-head (b':' ∷ c ∷ source) (m.command ∷ print_params m.params) cc)
      ∙ ground arith

  text_read :
      (raw : Bytes)
      → raw ≡ to_string m
      → (read_tags raw >>= λ t.
          read_source raw t.1 >>= λ u. read_command unicode_upper raw t.0 u.0 u.1)
        ≡ ok (record m { raw = raw })
  text_read raw e = go m.tags refl
    where
      go :
          (tags : Dict Bytes Bytes)
          → m.tags ≡ tags
          → (read_tags raw >>= λ t.
              read_source raw t.1 >>= λ u. read_command unicode_upper raw t.0 u.0 u.1)
            ≡ ok (record m { raw = raw })
      go [] s =
          let at : raw ≡ source_text m =
            e
            ∙ unfold to_string tag_part in
              ap
                (λ tags.
                  join b' ' (
                    tag_part tags ++ (source_part m.source ++ (m.command ∷ print_params m.params))))
                s in
          bind_ok _ (
            read_tags_none raw
              (ap (λ t. starts_with b'@' (get_elem? t 0)) at ∙ source_head m.source))
          ∙ ap (λ tags. read_source raw 0 >>= λ u. read_command unicode_upper raw tags u.0 u.1)
              (sym s)
          ∙ source_text_read raw 0 at
      go (t ∷ tags) s =
          let written = join b';' (map print_tag (t ∷ tags)) in
          let are : All IsTag (t ∷ tags) = subst (All IsTag) s w.tags_are in
          let at : raw ≡ b'@' ∷ (written ++ b' ' ∷ source_text m) =
            e
            ∙ unfold to_string tag_part in
              ap
                (λ tags.
                  join b' ' (
                    tag_part tags ++ (source_part m.source ++ (m.command ∷ print_params m.params))))
                s
              ∙ join-cons_ne_nil (b'@' ∷ written) _ (source_part-ne-nil m.source m.command _) in
          let ne = join_ne_nil t tags are.0 in
          let back = parse_tags-join (t ∷ tags) (cc) are (subst Distinct s w.tags_distinct) ne in
          bind_ok _
            (read_tags_at raw written (source_text m) at (join_no_space (t ∷ tags) are) back)
          ∙ ap
              (λ tags. read_source raw (suc (length written) + 1) >>= λ u.
                read_command unicode_upper raw tags u.0 u.1)
              (sym s)
          ∙ source_text_read raw (suc (length written) + 1) (
              ap (drop (suc (length written) + 1)) at
              ∙ drop_sep b' ' (b'@' ∷ written) (source_text m))

-- A printable message, printed and parsed, is the message itself, with its line as `raw`.
pub parse-to_string :
    (unicode_upper : ℕ → ℕ) (m : Message)
    → IsPrintable unicode_upper m
    → parse_message unicode_upper (to_string m) ≡ ok (record m { raw = to_string m })
unfolding parse_message
parse-to_string unicode_upper m w =
    rw (w.line_valid, short)
      (ap (parse_trimmed unicode_upper) (trim_crlf-Lacks (to_string m) w.line_whole)
        ∙ go (to_string m) refl)
  where
    short : ltb 8704 (length (to_string m)) ≡ false
    short = let k = w.line_short in ground arith

    go :
        (raw : Bytes)
        → raw ≡ to_string m
        → parse_trimmed unicode_upper raw ≡ ok (record m { raw = raw })
    go [] e = unfold read_tags read_source read_command in cc (text_read unicode_upper m w [] e)
    go (c ∷ s) e = text_read unicode_upper m w (c ∷ s) e
