-- ===== src/Message/Print.antt =====
-- parser/message.go: Message.String. Go visits a map in no fixed order; here the tags are written
-- in the order in which the association list holds them, which may be any.
use ircparser.Base.{◌||◌, Bool, true, List, [], ◌∷◌, ◌++◌, map, Bytes, Dict, ◌==◌, if◌then◌else◌}
use ircparser.Text.{contains, join}
use ircparser.Message.{Message}
use ircparser.Message.Tags.{escape_tag_value}

-- One entry of `tagParts`.
unfoldable pub print_tag : Bytes × Bytes → Bytes
print_tag (key, []) = key
print_tag (key, c ∷ value) = key ++ b'=' ∷ escape_tag_value (c ∷ value)

-- strings.Contains(param, " ") || param == "" || param[0] == ':'
unfoldable pub needs_colon : Bytes → Bool
needs_colon [] = true
needs_colon (c ∷ p) = contains b' ' (c ∷ p) || c == b':'

unfoldable pub print_params : List Bytes → List Bytes
unfolding needs_colon
print_params [] = []
print_params (p ∷ []) = (if needs_colon p then b':' ∷ p else p) ∷ []
print_params (p ∷ q ∷ ps) = p ∷ print_params (q ∷ ps)

unfoldable pub tag_part : Dict Bytes Bytes → List Bytes
tag_part [] = []
tag_part (t ∷ tags) = (b'@' ∷ join b';' (map print_tag (t ∷ tags))) ∷ []

unfoldable pub source_part : Bytes → List Bytes
source_part [] = []
source_part (c ∷ source) = (b':' ∷ c ∷ source) ∷ []

unfoldable pub to_string : Message → Bytes
to_string m =
    join b' ' (tag_part m.tags ++ (source_part m.source ++ (m.command ∷ print_params m.params)))
