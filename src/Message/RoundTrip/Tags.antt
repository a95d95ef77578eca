-- ===== src/Message/RoundTrip/Tags.antt =====
-- The tags of a printed message are read back.
use ircparser.Base.{
  ℕ, ◌≡◌, ◌≢◌, refl, ap, ◌∙◌, true, List, [], ◌∷◌, ◌++◌, map, append_assoc, append-nil, none, Bytes,
  Lacks, Dict, bytes_eq, equal_iff, lookup, insert, insert_fresh, lookup-concat, lookup-cons,
  lookup-nil, ok, arith, All, All-append,
}
use ircparser.Text.{contains, split, join, split_two}
use ircparser.Text.Split.{
  contains-append, contains-Lacks, split_two-append, split-append, split-Lacks,
}
use ircparser.Message.Tags.{escape_tag_value, unescape_tag_value, add_tag, add_tags, parse_tags}
use ircparser.Message.Print.{print_tag}
use ircparser.Message.Escape.{unescape-escape, escape-Lacks}

-- A tag that can be written: the key is not empty and holds none of `;`, `=` and the space, and
-- the value holds no backslash.
pub record IsTag (t : Bytes × Bytes) : Type 0 where
  pub key_ne_nil : t.0 ≢ []
  pub key_no_semicolon : Lacks b';' t.0
  pub key_no_equals : Lacks b'=' t.0
  pub key_no_space : Lacks b' ' t.0
  pub value_no_backslash : Lacks b'\\' t.1

-- No key stands twice, as in every Go map.
abbrev pub Distinct : Dict Bytes Bytes → Type 0
Distinct [] = Unit
Distinct ((k, v) ∷ ts) = (lookup k ts ≡ none) × Distinct ts

split-join :
    (b : ℕ) (p : Bytes) (ps : List Bytes)
    → All (Lacks b) (p ∷ ps)
    → split b (join b (p ∷ ps)) ≡ p ∷ ps
unfolding join
split-join b p [] (h, _) = split-Lacks b p h
split-join b p (q ∷ ps) (h, hs) =
    split-append b p (join b (q ∷ ps)) h ∙ ap (λ l. p ∷ l) (split-join b q ps hs)

pub join-Lacks : (b c : ℕ) (ps : List Bytes) → b ≢ c → All (Lacks c) ps → Lacks c (join b ps)
unfolding join
join-Lacks b c [] h _ = tt
join-Lacks b c (p ∷ []) h (hp, _) = hp
join-Lacks b c (p ∷ q ∷ ps) h (hp, hs) =
    All-append _ p (b ∷ join b (q ∷ ps)) hp (h, join-Lacks b c (q ∷ ps) h hs)

print_tag-Lacks :
    (t : Bytes × Bytes) → IsTag t → Lacks b';' (print_tag t) × Lacks b' ' (print_tag t)
unfolding print_tag
print_tag-Lacks (k, []) h = (h.key_no_semicolon, h.key_no_space)
print_tag-Lacks (k, c ∷ v) h =
    let (no_semi, no_space) = escape-Lacks (c ∷ v) h.value_no_backslash in
    (
      All-append _ k _ h.key_no_semicolon (omega arith, no_semi),
      All-append _ k _ h.key_no_space (omega arith, no_space),
    )

add_tag_parts :
    (tags : Dict Bytes Bytes) (c : ℕ) (pair : Bytes) {k : ℕ} {ks w : Bytes}
    → contains b'=' (c ∷ pair) ≡ true
    → split_two b'=' (c ∷ pair) ≡ (k ∷ ks) ∷ w ∷ []
    → add_tag tags (c ∷ pair) ≡ ok (insert (k ∷ ks) (unescape_tag_value w) tags)
unfolding add_tag
add_tag_parts tags c pair h e = ground arith

add_tag-print_tag :
    (tags : Dict Bytes Bytes) (t : Bytes × Bytes)
    → IsTag t
    → add_tag tags (print_tag t) ≡ ok (insert t.0 t.1 tags)
add_tag-print_tag tags ([], v) h = absurd (h.key_ne_nil refl)
add_tag-print_tag tags (k ∷ ks, []) h =
    unfold add_tag print_tag in rw (contains-Lacks b'=' (k ∷ ks) h.key_no_equals)
add_tag-print_tag tags (k ∷ ks, c ∷ v) h =
    unfold print_tag in
    add_tag_parts tags k _ (contains-append b'=' (k ∷ ks) (escape_tag_value (c ∷ v)))
      (split_two-append b'=' (k ∷ ks) (escape_tag_value (c ∷ v)) h.key_no_equals)
    ∙ ap (λ w. ok (insert (k ∷ ks) w tags)) (unescape-escape (c ∷ v) h.value_no_backslash)

-- None of the keys of `ts` is in `m`.
abbrev Fresh : Dict Bytes Bytes → Dict Bytes Bytes → Type 0
Fresh m = All (λ t. lookup t.0 m ≡ none)

Fresh-concat :
    (k v : Bytes) (m ts : Dict Bytes Bytes)
    → Fresh m ts
    → lookup k ts ≡ none
    → Fresh (m ++ (k, v) ∷ []) ts
Fresh-concat k v m [] f h = tt
Fresh-concat k v m ((j, w) ∷ ts) (f, fs) h = (
  ground (arith, lookup-concat j k v m, lookup-cons k j w ts, equal_iff j k, equal_iff k j),
  Fresh-concat k v m ts fs (ground (arith, lookup-cons k j w ts)),
)

add_tags-print_tag :
    (m ts : Dict Bytes Bytes)
    → All IsTag ts
    → Distinct ts
    → Fresh m ts
    → add_tags m (map print_tag ts) ≡ ok (m ++ ts)
unfolding add_tags
add_tags-print_tag m [] _ _ _ = rw append-nil
add_tags-print_tag m ((k, v) ∷ ts) (h, hs) (d, ds) (f, fs) =
    rw (add_tag-print_tag m (k, v) h, insert_fresh k v m f)
      (add_tags-print_tag (m ++ (k, v) ∷ []) ts hs ds (Fresh-concat k v m ts fs d)
        ∙ ap ok (append_assoc m ((k, v) ∷ []) ts))

map-Lacks :
    (ts : Dict Bytes Bytes)
    → All IsTag ts
    → All (Lacks b';') (map print_tag ts) × All (Lacks b' ') (map print_tag ts)
map-Lacks [] _ = (tt, tt)
map-Lacks (t ∷ ts) (h, hs) =
    (((print_tag-Lacks t h).0, (map-Lacks ts hs).0), ((print_tag-Lacks t h).1, (map-Lacks ts hs).1))

Fresh-nil : (ts : Dict Bytes Bytes) → Fresh [] ts
Fresh-nil [] = tt
Fresh-nil (t ∷ ts) = (lookup-nil t.0, Fresh-nil ts)

parse_tags-split : (s : Bytes) → s ≢ [] → parse_tags s ≡ add_tags [] (split b';' s)
unfolding parse_tags
parse_tags-split [] h = absurd (h refl)
parse_tags-split (c ∷ s) h = refl

-- A printed tag list is read back, and holds no space.
pub parse_tags-join :
    (ts : Dict Bytes Bytes)
    → ts ≢ []
    → All IsTag ts
    → Distinct ts
    → join b';' (map print_tag ts) ≢ []
    → parse_tags (join b';' (map print_tag ts)) ≡ ok ts
parse_tags-join [] h _ _ _ = absurd (h refl)
parse_tags-join (t ∷ ts) _ h d ne =
    parse_tags-split _ ne
    ∙ ap (add_tags []) (split-join b';' (print_tag t) (map print_tag ts) (map-Lacks (t ∷ ts) h).0)
    ∙ add_tags-print_tag [] (t ∷ ts) h d (Fresh-nil (t ∷ ts))

pub join_no_space :
    (ts : Dict Bytes Bytes) → All IsTag ts → Lacks b' ' (join b';' (map print_tag ts))
join_no_space ts h = join-Lacks b';' b' ' (map print_tag ts) (omega arith) (map-Lacks ts h).1

pub join_ne_nil :
    (t : Bytes × Bytes) (ts : Dict Bytes Bytes) → IsTag t → join b';' (map print_tag (t ∷ ts)) ≢ []
unfolding join print_tag
join_ne_nil ([], v) ts h = absurd (h.key_ne_nil refl)
join_ne_nil (k ∷ ks, []) [] h = cc
join_ne_nil (k ∷ ks, c ∷ v) [] h = cc
join_ne_nil (k ∷ ks, []) (u ∷ ts) h = cc
join_ne_nil (k ∷ ks, c ∷ v) (u ∷ ts) h = cc
