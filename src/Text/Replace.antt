-- ===== src/Text/Replace.antt =====
-- strings.ReplaceAll at a pattern of one byte, and at a backslash with one byte behind it.
use ircparser.Base.{
  ℕ, ◌≡◌, ◌≢◌, refl, sym, ap, ◌∙◌, List, [], ◌∷◌, ◌++◌, map, append_assoc, Bytes, Lacks, ◌==◌,
  if◌then◌else◌, arith, All, Bool-cases, inl, inr, ==_iff,
}
use ircparser.Text.{replace_all}

-- A pattern of one byte is looked for in each byte by itself.
pub replace_all-append :
    (b : ℕ) (new s t : Bytes)
    → replace_all (b ∷ []) new (s ++ t) ≡ replace_all (b ∷ []) new s ++ replace_all (b ∷ []) new t
unfolding replace_all
replace_all-append b new [] t = refl
replace_all-append b new (c ∷ s) t = elim (Bool-cases (c == b)) [
  | inl h ↦ rw h (rw (replace_all-append b new s t) (sym (append_assoc new _ _)))
  | inr h ↦ rw h (rw (replace_all-append b new s t))
]

pub replace_all-Lacks : (b : ℕ) (new s : Bytes) → Lacks b s → replace_all (b ∷ []) new s ≡ s
unfolding replace_all
replace_all-Lacks b new [] h = refl
replace_all-Lacks b new (c ∷ s) h = ground (arith, replace_all-Lacks b new s h.1)

-- A text in which every backslash has a byte behind it that is no backslash.
pub data Token : Type 0 where
  plain : ℕ → Token
  escaped : ℕ → Token

abbrev pub render : List Token → Bytes
render [] = []
render (plain c ∷ ts) = c ∷ render ts
render (escaped c ∷ ts) = b'\\' ∷ c ∷ render ts

abbrev pub IsToken : Token → Type 0
IsToken (plain c) = c ≢ b'\\'
IsToken (escaped c) = c ≢ b'\\'

-- Reading the escape `\a` as the byte `new`.
unfoldable pub reveal : ℕ → ℕ → Token → Token
reveal a new (plain c) = plain c
reveal a new (escaped c) = if c == a then plain new else escaped c

pub replace-plain :
    (a new c : ℕ) (s : Bytes)
    → c ≢ b'\\'
    → replace_all (b'\\' ∷ a ∷ []) (new ∷ []) (c ∷ s)
      ≡ c ∷ replace_all (b'\\' ∷ a ∷ []) (new ∷ []) s
unfolding replace_all
replace-plain a new c s h = ground arith

pub replace_hit :
    (a new : ℕ) (s : Bytes)
    → replace_all (b'\\' ∷ a ∷ []) (new ∷ []) (b'\\' ∷ a ∷ s)
      ≡ new ∷ replace_all (b'\\' ∷ a ∷ []) (new ∷ []) s
unfolding replace_all
replace_hit a new s = ground arith

pub replace_miss :
    (a new c : ℕ) (s : Bytes)
    → c ≢ a
    → replace_all (b'\\' ∷ a ∷ []) (new ∷ []) (b'\\' ∷ c ∷ s)
      ≡ b'\\' ∷ replace_all (b'\\' ∷ a ∷ []) (new ∷ []) (c ∷ s)
unfolding replace_all
replace_miss a new c s h = ground arith

pub replace-render :
    (a new : ℕ) (ts : List Token) (rest : Bytes)
    → All IsToken ts
    → replace_all (b'\\' ∷ a ∷ []) (new ∷ []) (render ts ++ rest)
      ≡ render (map (reveal a new) ts) ++ replace_all (b'\\' ∷ a ∷ []) (new ∷ []) rest
unfolding reveal
replace-render a new [] rest h = refl
replace-render a new (plain c ∷ ts) rest (hc, h) =
    replace-plain a new c (render ts ++ rest) hc ∙ ap (λ s. c ∷ s) (replace-render a new ts rest h)
replace-render a new (escaped c ∷ ts) rest (hc, h) = elim (Bool-cases (c == a)) [
  | inl hit ↦
      rw (hit, (==_iff c a).0 hit)
        (replace_hit a new (render ts ++ rest) ∙ ap (λ s. new ∷ s) (replace-render a new ts rest h))
  | inr miss ↦ rw miss (
      replace_miss a new c (render ts ++ rest) (ground arith)
      ∙ ap (λ s. b'\\' ∷ s)
          (replace-plain a new c (render ts ++ rest) hc
            ∙ ap (λ s. c ∷ s) (replace-render a new ts rest h)))
]
