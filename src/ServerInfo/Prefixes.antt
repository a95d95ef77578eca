-- ===== src/ServerInfo/Prefixes.antt =====
-- The PREFIX token, "(modes)prefixes".
use ircparser.Base.{
  ℕ, suc, ◌-◌, ◌≡◌, refl, ap, ◌∙◌, true, [], ◌∷◌, ◌++◌, some, Bytes, Dict, nat_eq, lookup, insert,
  lookup-insert, ◌==◌, Lacks, arith, length, length-append, take, drop, take-append_length,
}
use ircparser.Text.{index, has_prefix, slice}
use ircparser.Text.Split.{index-append}
use ircparser.ServerInfo.{ServerInfo, set_prefixes, cut_prefixes, parse_channel_prefixes}

lookup-set_prefixes :
    (ms ps : Bytes) (p : ℕ) (out : Dict ℕ ℕ)
    → Lacks p ps
    → lookup p (set_prefixes ms ps out) ≡ lookup p out
unfolding set_prefixes
lookup-set_prefixes [] ps p out h = refl
lookup-set_prefixes (m ∷ ms) [] p out h = refl
lookup-set_prefixes (m ∷ ms) (q ∷ ps) p out (hq, h) =
    lookup-set_prefixes ms ps p (insert q m out) h ∙ lookup-insert q p m out ∙ ground arith

set_prefixes-last :
    (ms ns ps qs : Bytes) (m p : ℕ) (out : Dict ℕ ℕ)
    → length ms ≡ length ps
    → Lacks p qs
    → lookup p (set_prefixes (ms ++ m ∷ ns) (ps ++ p ∷ qs) out) ≡ some m
unfolding set_prefixes
set_prefixes-last [] ns [] qs m p out e h =
    lookup-set_prefixes ns qs p (insert p m out) h ∙ lookup-insert p p m out ∙ ground arith
set_prefixes-last [] ns (q ∷ ps) qs m p out e h = absurd (omega arith)
set_prefixes-last (k ∷ ms) ns [] qs m p out e h = absurd (omega arith)
set_prefixes-last (k ∷ ms) ns (q ∷ ps) qs m p out e h =
    set_prefixes-last ms ns ps qs m p (insert q k out) (omega arith) h

-- A well-formed token replaces the map of prefixes by the pairs that it spells.
pub parse_prefixes-set_prefixes :
    (modes prefixes : Bytes) (si : ServerInfo)
    → Lacks b')' modes
    → length modes ≡ length prefixes
    → parse_channel_prefixes (b'(' ∷ (modes ++ b')' ∷ prefixes)) si
      ≡ record si { channel_prefixes = set_prefixes modes prefixes [] }
unfolding parse_channel_prefixes cut_prefixes has_prefix
parse_prefixes-set_prefixes modes prefixes si h e =
    let found : index b')' (b'(' ∷ (modes ++ b')' ∷ prefixes)) ≡ some (suc (length modes)) =
      index-append b')' (b'(' ∷ modes) prefixes (omega arith, h) in
    let width : suc (length modes) - 1 ≡ length modes = omega arith in
    let inside : slice 1 (suc (length modes)) (b'(' ∷ (modes ++ b')' ∷ prefixes)) ≡ modes =
      ap (λ n. take n (modes ++ b')' ∷ prefixes)) width
      ∙ take-append_length modes (b')' ∷ prefixes) in
    let behind : drop (suc (suc (length modes))) (b'(' ∷ (modes ++ b')' ∷ prefixes)) ≡ prefixes =
      drop_sep modes in
    let same : (length modes == length prefixes) ≡ true = ground arith in
    ap (cut_prefixes (b'(' ∷ (modes ++ b')' ∷ prefixes)) si) found ∙ rw (inside, behind) (rw same)
  where
    drop_sep : (s : Bytes) → drop (suc (length s)) (s ++ b')' ∷ prefixes) ≡ prefixes
    drop_sep [] = refl
    drop_sep (c ∷ s) = drop_sep s

-- A well-formed token gives a prefix the mode at its last place among the prefixes.
pub lookup-parse_prefixes :
    (ms ns ps qs : Bytes) (m p : ℕ) (si : ServerInfo)
    → Lacks b')' (ms ++ m ∷ ns)
    → length ms ≡ length ps
    → length ns ≡ length qs
    → Lacks p qs
    → lookup p
        (parse_channel_prefixes
          (b'(' ∷ ((ms ++ m ∷ ns) ++ b')' ∷ (ps ++ p ∷ qs)))
          si).channel_prefixes
      ≡ some m
lookup-parse_prefixes ms ns ps qs m p si h e f l =
    ap (λ s. lookup p s.channel_prefixes)
      (parse_prefixes-set_prefixes (ms ++ m ∷ ns) (ps ++ p ∷ qs) si h
        (length-append ms (m ∷ ns) ∙ omega (arith, length-append ps (p ∷ qs))))
    ∙ set_prefixes-last ms ns ps qs m p [] e l
