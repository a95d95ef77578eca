-- ===== src/Text/Runes/Valid.antt =====
-- What stands behind a valid string leaves the reading of its runes as it is.
use ircparser.Base.{
  ℕ, zero, suc, ◌+◌, ◌-◌, ◌*◌, ◌%◌, ◌≡◌, ◌≢◌, refl, ap, ◌∙◌, sym, true, false, ◌&&◌, [], ◌∷◌, ◌++◌,
  Option, none, some, Bytes, codes, arith,
}
use ircparser.Text.{trim_crlf}
use ircparser.Text.Runes.{
  lead, follow, lead_bits, decode, valid_from, valid_string, is_some, rune_or_error, with_width,
  decoded,
}

follow-append :
    (n lo hi acc : ℕ) (s t : Bytes)
    → is_some (follow n lo hi acc s) ≡ true
    → follow n lo hi acc (s ++ t) ≡ follow n lo hi acc s
unfolding follow
follow-append zero lo hi acc s t h = refl
follow-append (suc n) lo hi acc [] t h = cc
follow-append (suc n) lo hi acc (c ∷ s) t h =
    ground (arith, follow-append n 0x80 0xBF (acc * 64 + c % 64) s t)

false_ne_true : false ≢ true
false_ne_true h = cc

decode-append : (c : ℕ) (s t : Bytes) → is_some (decode c s) ≡ true → decode c (s ++ t) ≡ decode c s
unfolding decode decoded
decode-append c s t h = go (lead c) h
  where
    go :
        (o : Option (ℕ × ℕ × ℕ))
        → is_some (decoded o c s) ≡ true
        → decoded o c (s ++ t) ≡ decoded o c s
    go none h = refl
    go (some (n, lo, hi)) h = go_on (follow n lo hi (lead_bits n c) s) refl h
      where
        go_on :
            (r : Option ℕ)
            → follow n lo hi (lead_bits n c) s ≡ r
            → is_some (with_width n (follow n lo hi (lead_bits n c) s)) ≡ true
            → with_width n (follow n lo hi (lead_bits n c) (s ++ t))
              ≡ with_width n (follow n lo hi (lead_bits n c) s)
        go_on none e h = absurd (false_ne_true (ap (λ o. is_some (with_width n o)) (sym e) ∙ h))
        go_on (some r) e h =
            ap (with_width n) (follow-append n lo hi (lead_bits n c) s t (ap is_some e))

valid_from-append :
    (skip : ℕ) (s t : Bytes)
    → ((k : ℕ) → valid_from k t ≡ true)
    → valid_from skip s ≡ true
    → valid_from skip (s ++ t) ≡ true
unfolding valid_from
valid_from-append skip [] t ht h = ht skip
valid_from-append (suc skip) (c ∷ s) t ht h = valid_from-append skip s t ht h
valid_from-append zero (c ∷ s) t ht h =
    ap (λ d. is_some d && valid_from ((rune_or_error d).1 - 1) (s ++ t))
      (decode-append c s t (ground (arith, h)))
    ∙ ground (arith, valid_from-append ((rune_or_error (decode c s)).1 - 1) s t ht, h)

crlf-valid : (k : ℕ) → valid_from k (codes "\r\n") ≡ true
unfolding valid_from
crlf-valid zero = refl
crlf-valid (suc zero) = refl
crlf-valid (suc (suc k)) = refl

pub valid_string-crlf :
    (s : Bytes) → valid_string s ≡ true → valid_string (s ++ codes "\r\n") ≡ true
unfolding valid_string
valid_string-crlf s h = valid_from-append 0 s (codes "\r\n") crlf-valid h

pub trim_crlf-append : (s : Bytes) → trim_crlf (s ++ codes "\r\n") ≡ s
unfolding trim_crlf
trim_crlf-append [] = refl
trim_crlf-append (c ∷ []) = refl
trim_crlf-append (c ∷ d ∷ []) = refl
trim_crlf-append (c ∷ d ∷ e ∷ s) = ap (λ t. c ∷ t) (trim_crlf-append (d ∷ e ∷ s))
