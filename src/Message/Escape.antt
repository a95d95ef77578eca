-- ===== src/Message/Escape.antt =====
-- Escaping a tag value and reading it back.
use ircparser.Base.{
  ℕ, ◌≡◌, ◌≢◌, refl, ap, ◌∙◌, List, [], ◌∷◌, ◌++◌, map, append-nil, Bytes, Lacks, codes, ◌==◌,
  if◌then◌else◌, arith, All, All-append,
}
use ircparser.Text.{replace_all}
use ircparser.Text.Replace.{
  Token, plain, escaped, render, IsToken, reveal, replace_all-append, replace-render,
}
use ircparser.Message.Tags.{escape_tag_value, unescape_tag_value}

-- What becomes of one byte that is no backslash.
pub hide : ℕ → Token
hide c =
    if c == b';'
    then escaped b':'
    else if c == b' '
    then escaped b's'
    else if c == b'\r'
    then escaped b'r'
    else if c == b'\n'
    then escaped b'n'
    else if c == 0
    then escaped b'0'
    else plain c

escape-append : (s t : Bytes) → escape_tag_value (s ++ t) ≡ escape_tag_value s ++ escape_tag_value t
unfolding escape_tag_value
escape-append s t = simp replace_all-append

escape_byte : (c : ℕ) → c ≢ b'\\' → escape_tag_value (c ∷ []) ≡ render (hide c ∷ [])
unfolding escape_tag_value replace_all hide
escape_byte c h = ground arith

render-cons : (t : Token) (ts : List Token) → render (t ∷ ts) ≡ render (t ∷ []) ++ render ts
render-cons (plain c) ts = refl
render-cons (escaped c) ts = refl

escape-render : (v : Bytes) → Lacks b'\\' v → escape_tag_value v ≡ render (map hide v)
escape-render [] h = unfold escape_tag_value replace_all in refl
escape-render (c ∷ v) (hc, h) = cc (
  escape-append (c ∷ []) v,
  escape_byte c hc,
  escape-render v h,
  render-cons (hide c) (map hide v),
)

map-IsToken :
    (f : ℕ → Token) (v : Bytes)
    → ((c : ℕ) → c ≢ b'\\' → IsToken (f c))
    → Lacks b'\\' v
    → All IsToken (map f v)
map-IsToken f [] ok_at h = tt
map-IsToken f (c ∷ v) ok_at (hc, h) = (ok_at c hc, map-IsToken f v ok_at h)

map-map : (f : ℕ → Token) (g : Token → Token) (v : Bytes) → map g (map f v) ≡ map (λ c. g (f c)) v
map-map f g [] = refl
map-map f g (c ∷ v) = ap (λ ts. g (f c) ∷ ts) (map-map f g v)

-- One of the replacements of `unescapeTagValue`.
stage :
    (f : ℕ → Token) (a new : ℕ) (v rest : Bytes)
    → ((c : ℕ) → c ≢ b'\\' → IsToken (f c))
    → Lacks b'\\' v
    → replace_all (b'\\' ∷ a ∷ []) (new ∷ []) (render (map f v) ++ rest)
      ≡ render (map (λ c. reveal a new (f c)) v) ++ replace_all (b'\\' ∷ a ∷ []) (new ∷ []) rest
stage f a new v rest ok_at h =
    replace-render a new (map f v) rest (map-IsToken f v ok_at h) ∙ rw (map-map f (reveal a new) v)

abbrev reveal_1 : ℕ → Token
reveal_1 c = reveal b':' b';' (hide c)

abbrev reveal_2 : ℕ → Token
reveal_2 c = reveal b's' b' ' (reveal_1 c)

abbrev reveal_3 : ℕ → Token
reveal_3 c = reveal b'\\' b'\\' (reveal_2 c)

abbrev reveal_4 : ℕ → Token
reveal_4 c = reveal b'r' b'\r' (reveal_3 c)

abbrev reveal_5 : ℕ → Token
reveal_5 c = reveal b'n' b'\n' (reveal_4 c)

IsToken-0 : (c : ℕ) → c ≢ b'\\' → IsToken (hide c)
unfolding hide
IsToken-0 c h = ground arith

IsToken-reveal : (a new : ℕ) (t : Token) → new ≢ b'\\' → IsToken t → IsToken (reveal a new t)
unfolding reveal
IsToken-reveal a new (plain c) h k = k
IsToken-reveal a new (escaped c) h k = ground arith

IsToken-reveal_same : (t : Token) → IsToken t → IsToken (reveal b'\\' b'\\' t)
unfolding reveal
IsToken-reveal_same (plain c) k = k
IsToken-reveal_same (escaped c) k = ground arith

IsToken-2 : (c : ℕ) → c ≢ b'\\' → IsToken (reveal_2 c)
IsToken-2 c h =
    IsToken-reveal _ _ (reveal_1 c) (omega arith)
      (IsToken-reveal _ _ (hide c) (omega arith) (IsToken-0 c h))

IsToken-4 : (c : ℕ) → c ≢ b'\\' → IsToken (reveal_4 c)
IsToken-4 c h =
    IsToken-reveal _ _ (reveal_3 c) (omega arith) (IsToken-reveal_same (reveal_2 c) (IsToken-2 c h))

reveal_all : (c : ℕ) → c ≢ b'\\' → reveal b'0' 0 (reveal_5 c) ≡ plain c
unfolding reveal hide
reveal_all c h = ground arith

render_revealed : (v : Bytes) → Lacks b'\\' v → render (map (λ c. reveal b'0' 0 (reveal_5 c)) v) ≡ v
render_revealed [] h = refl
render_revealed (c ∷ v) (hc, h) = rw (reveal_all c hc) (ap (λ s. c ∷ s) (render_revealed v h))

-- The six replacements, each seen through the escaped text in front of `rest`.
unescape-append :
    (v rest : Bytes)
    → Lacks b'\\' v
    → unescape_tag_value (escape_tag_value v ++ rest) ≡ v ++ unescape_tag_value rest
unfolding unescape_tag_value
unescape-append v rest h = rw (escape-render v h) (
    rw (stage hide b':' b';' v rest IsToken-0 h) (
      rw
        (stage reveal_1 b's' b' ' v _
          (λ c k. IsToken-reveal _ _ (hide c) (omega arith) (IsToken-0 c k)) h)
        (rw (stage reveal_2 b'\\' b'\\' v _ IsToken-2 h) (
          rw
            (stage reveal_3 b'r' b'\r' v _ (λ c k. IsToken-reveal_same (reveal_2 c) (IsToken-2 c k))
              h)
            (rw (stage reveal_4 b'n' b'\n' v _ IsToken-4 h) (
              rw
                (stage reveal_5 b'0' 0 v _
                  (λ c k. IsToken-reveal _ _ (reveal_4 c) (omega arith) (IsToken-4 c k)) h)
                (rw (render_revealed v h))))))))

unescape-nil : unescape_tag_value [] ≡ []
unfolding unescape_tag_value replace_all
unescape-nil = refl

-- A tag value that holds no backslash survives escaping and unescaping, whatever else it holds.
pub unescape-escape : (v : Bytes) → Lacks b'\\' v → unescape_tag_value (escape_tag_value v) ≡ v
unescape-escape v h =
    ap unescape_tag_value (rw append-nil)
    ∙ unescape-append v [] h
    ∙ ap (λ s. v ++ s) unescape-nil
    ∙ append-nil v

escape_backslash_s : escape_tag_value (codes "\\s") ≡ codes "\\\\s"
unfolding escape_tag_value replace_all
escape_backslash_s = refl

unescape_two_backslashes :
    (s : Bytes)
    → unescape_tag_value (b'\\' ∷ b'\\' ∷ b's' ∷ s) ≡ b'\\' ∷ b' ' ∷ unescape_tag_value s
unfolding unescape_tag_value replace_all
unescape_two_backslashes s = refl

-- A value with a backslash before the letter s comes back changed: the two bytes are read as a
-- backslash and a space. (The rest of the value holds no backslash.)
pub unescape-escape_backslash_s :
    (u v : Bytes)
    → Lacks b'\\' u
    → Lacks b'\\' v
    → unescape_tag_value (escape_tag_value (u ++ b'\\' ∷ b's' ∷ v)) ≡ u ++ b'\\' ∷ b' ' ∷ v
unescape-escape_backslash_s u v hu hv =
    ap unescape_tag_value (
      escape-append u (b'\\' ∷ b's' ∷ v)
      ∙ ap (λ s. escape_tag_value u ++ s)
          (escape-append (codes "\\s") v ∙ ap (λ s. s ++ escape_tag_value v) escape_backslash_s))
    ∙ unescape-append u _ hu
    ∙ ap (λ s. u ++ s)
        (unescape_two_backslashes (escape_tag_value v)
          ∙ ap (λ s. b'\\' ∷ b' ' ∷ s) (unescape-escape v hv))

hide-Lacks : (c : ℕ) → Lacks b';' (render (hide c ∷ [])) × Lacks b' ' (render (hide c ∷ []))
unfolding hide
hide-Lacks c = ground arith

-- A value without a backslash, escaped, can stand in a tag: it holds no separator of tags and no
-- space.
pub escape-Lacks :
    (v : Bytes) → Lacks b'\\' v → Lacks b';' (escape_tag_value v) × Lacks b' ' (escape_tag_value v)
escape-Lacks v h = rw (escape-render v h) (go v)
  where
    go : (v : Bytes) → Lacks b';' (render (map hide v)) × Lacks b' ' (render (map hide v))
    go [] = (tt, tt)
    go (c ∷ v) = rw (render-cons (hide c) (map hide v)) (
      All-append _ (render (hide c ∷ [])) (render (map hide v)) (hide-Lacks c).0 (go v).0,
      All-append _ (render (hide c ∷ [])) (render (map hide v)) (hide-Lacks c).1 (go v).1,
    )
