-- ===== src/Message/Tags.antt =====
-- parser/message.go: parseTags, unescapeTagValue and escapeTagValue.
use ircparser.Base.{
  List, [], ◌∷◌, Bytes, Dict, bytes_eq, insert, if◌then◌else◌, get_or, Result, ok, err, ◌>>=◌,
  codes,
}
use ircparser.Text.{contains, split, split_two, replace_all}

pub data TagError : Type 0 where
  empty_key : TagError

unfoldable pub unescape_tag_value : Bytes → Bytes
unescape_tag_value value =
    let value = replace_all (codes "\\:") (codes ";") value in
    let value = replace_all (codes "\\s") (codes " ") value in
    let value = replace_all (codes "\\\\") (codes "\\") value in
    let value = replace_all (codes "\\r") (codes "\r") value in
    let value = replace_all (codes "\\n") (codes "\n") value in
    replace_all (codes "\\0") (0 ∷ []) value

unfoldable pub escape_tag_value : Bytes → Bytes
escape_tag_value value =
    let value = replace_all (codes "\\") (codes "\\\\") value in
    let value = replace_all (codes ";") (codes "\\:") value in
    let value = replace_all (codes " ") (codes "\\s") value in
    let value = replace_all (codes "\r") (codes "\\r") value in
    let value = replace_all (codes "\n") (codes "\\n") value in
    replace_all (0 ∷ []) (codes "\\0") value

-- One round of the loop of `parseTags`.
unfoldable pub add_tag : Dict Bytes Bytes → Bytes → Result TagError (Dict Bytes Bytes)
add_tag tags [] = ok tags
add_tag tags (c ∷ pair) =
    if contains b'=' (c ∷ pair)
    then (let parts = split_two b'=' (c ∷ pair) in
        let key = get_or parts 0 [] in
        let value = get_or parts 1 [] in
        elim key [
          | [] ↦ err empty_key
          | k ∷ ks ↦ ok (insert (k ∷ ks) (unescape_tag_value value) tags)
        ])
    else ok (insert (c ∷ pair) [] tags)

unfoldable pub add_tags : Dict Bytes Bytes → List Bytes → Result TagError (Dict Bytes Bytes)
add_tags tags [] = ok tags
add_tags tags (pair ∷ pairs) = add_tag tags pair >>= λ tags'. add_tags tags' pairs

unfoldable pub parse_tags : Bytes → Result TagError (Dict Bytes Bytes)
unfolding add_tags add_tag
parse_tags [] = ok []
parse_tags (c ∷ tags_str) = add_tags [] (split b';' (c ∷ tags_str))
