-- ===== src/Text.antt =====
-- The functions of Go's `strings` package that the code calls, at the separators it calls them
-- with. A string is its bytes; an index is a byte offset, and `none` stands for Go's -1.
pub mod Runes
pub mod Trim
pub mod Split
pub mod Replace
use ircparser.Base.{
  ℕ, zero, suc, ◌+◌, ◌-◌, Bool, true, false, not, ◌&&◌, ◌||◌, List, [], ◌∷◌, ◌++◌, map, Option,
  none, some, Bytes, ◌==◌, leb, if◌then◌else◌, length, take, drop,
}

-- strings.Index(s, string(b))
unfoldable pub index : ℕ → Bytes → Option ℕ
index b [] = none
index b (c ∷ s) =
    if c == b then some 0 else elim (index b s) [ none ↦ none | some i ↦ some (suc i) ]

-- strings.Contains(s, string(b))
unfoldable pub contains : ℕ → Bytes → Bool
contains b [] = false
contains b (c ∷ s) = c == b || contains b s

abbrev push : ℕ → List Bytes → List Bytes
push c [] = (c ∷ []) ∷ []
push c (p ∷ ps) = (c ∷ p) ∷ ps

-- strings.Split(s, string(b)): there is always a part.
unfoldable pub split : ℕ → Bytes → List Bytes
split b [] = [] ∷ []
split b (c ∷ s) = let rest = split b s in if c == b then [] ∷ rest else push c rest

-- strings.SplitN(s, string(b), 2)
unfoldable pub split_two : ℕ → Bytes → List Bytes
unfolding index
split_two b s = elim (index b s) [ none ↦ s ∷ [] | some i ↦ take i s ∷ drop (suc i) s ∷ [] ]

-- s[lo:hi]
abbrev pub slice : ℕ → ℕ → Bytes → Bytes
slice lo hi s = take (hi - lo) (drop lo s)

-- strings.Join(parts, string(b))
unfoldable pub join : ℕ → List Bytes → Bytes
join b [] = []
join b (p ∷ []) = p
join b (p ∷ q ∷ ps) = p ++ b ∷ join b (q ∷ ps)

-- strings.HasPrefix(s, prefix)
unfoldable pub has_prefix : Bytes → Bytes → Bool
has_prefix s [] = true
has_prefix [] (b ∷ p) = false
has_prefix (c ∷ s) (b ∷ p) = c == b && has_prefix s p

-- strings.TrimSuffix(s, "\r\n")
unfoldable pub trim_crlf : Bytes → Bytes
trim_crlf [] = []
trim_crlf (c ∷ []) = c ∷ []
trim_crlf (c ∷ d ∷ []) = if c == b'\r' && d == b'\n' then [] else c ∷ d ∷ []
trim_crlf (c ∷ d ∷ e ∷ s) = c ∷ trim_crlf (d ∷ e ∷ s)

-- strings.ReplaceAll(s, old, new) for a non-empty `old`; the first argument counts the bytes of a
-- match that are still to be passed over.
unfoldable pub replace_from : ℕ → Bytes → Bytes → Bytes → Bytes
unfolding has_prefix
replace_from skip old new [] = []
replace_from (suc skip) old new (c ∷ s) = replace_from skip old new s
replace_from zero old new (c ∷ s) =
    let hit = has_prefix (c ∷ s) old in
    (if hit then new else c ∷ []) ++ replace_from (if hit then length old - 1 else 0) old new s

unfoldable pub replace_all : Bytes → Bytes → Bytes → Bytes
unfolding replace_from
replace_all old new s = replace_from 0 old new s
