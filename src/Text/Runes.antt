-- ===== src/Text/Runes.antt =====
-- UTF-8 as Go decodes it: `for range` over a string, utf8.ValidString, strings.Fields,
-- strings.TrimSpace and strings.ToUpper walk a string by runes.
pub mod Valid
use ircparser.Base.{
  ℕ, zero, suc, ◌+◌, ◌-◌, ◌*◌, ◌/◌, ◌%◌, Bool, true, false, ◌&&◌, ◌||◌, List, [], ◌∷◌, ◌++◌, map,
  Option, none, some, Bytes, ◌==◌, leb, ltb, if◌then◌else◌, codes, ◌≡◌, refl,
}
use mathlib.Core.List.{flat_map}

abbrev within : ℕ → ℕ → ℕ → Bool
within lo hi c = leb lo c && leb c hi

-- A continuation byte.
abbrev tail_byte : ℕ → Bool
tail_byte = within 0x80 0xBF

-- How many continuation bytes a first byte calls for, and the range of the first of them.
lead : ℕ → Option (ℕ × ℕ × ℕ)
lead c =
    if ltb c 0x80
    then some (0, 0, 0)
    else if within 0xC2 0xDF c
    then some (1, 0x80, 0xBF)
    else if c == 0xE0
    then some (2, 0xA0, 0xBF)
    else if c == 0xED
    then some (2, 0x80, 0x9F)
    else if within 0xE1 0xEF c
    then some (2, 0x80, 0xBF)
    else if c == 0xF0
    then some (3, 0x90, 0xBF)
    else if within 0xF1 0xF3 c
    then some (3, 0x80, 0xBF)
    else if c == 0xF4
    then some (3, 0x80, 0x8F)
    else none

-- The code point of `n` continuation bytes behind the bits `acc` of the first byte.
follow : ℕ → ℕ → ℕ → ℕ → Bytes → Option ℕ
follow zero lo hi acc s = some acc
follow (suc n) lo hi acc [] = none
follow (suc n) lo hi acc (c ∷ s) =
    let rest = follow n 0x80 0xBF (acc * 64 + c % 64) s in if within lo hi c then rest else none

abbrev lead_bits : ℕ → ℕ → ℕ
lead_bits zero c = c
lead_bits (suc zero) c = c % 32
lead_bits (suc (suc zero)) c = c % 16
lead_bits n c = c % 8

abbrev with_width : ℕ → Option ℕ → Option (ℕ × ℕ)
with_width n none = none
with_width n (some r) = some (r, suc n)

decoded : Option (ℕ × ℕ × ℕ) → ℕ → Bytes → Option (ℕ × ℕ)
unfolding follow
decoded none c s = none
decoded (some (n, lo, hi)) c s = with_width n (follow n lo hi (lead_bits n c) s)

-- The rune at the head of `c ∷ s` and its width in bytes; `none` if the bytes are not UTF-8.
unfoldable pub decode : ℕ → Bytes → Option (ℕ × ℕ)
unfolding lead decoded
decode c s = decoded (lead c) c s

-- An undecodable byte is the rune U+FFFD, one byte wide.
abbrev pub rune_or_error : Option (ℕ × ℕ) → ℕ × ℕ
rune_or_error none = (0xFFFD, 1)
rune_or_error (some d) = d

-- The runes that `for _, r := range s` visits.
unfoldable pub runes_from : ℕ → Bytes → List ℕ
unfolding decode
runes_from skip [] = []
runes_from (suc skip) (c ∷ s) = runes_from skip s
runes_from zero (c ∷ s) =
    let (r, width) = rune_or_error (decode c s) in r ∷ runes_from (width - 1) s

unfoldable pub runes : Bytes → List ℕ
unfolding runes_from
runes s = runes_from 0 s

abbrev pub is_some {ℓ} : {A : Type ℓ} → Option A → Bool
is_some none = false
is_some (some _) = true

-- utf8.ValidString(s)
unfoldable pub valid_from : ℕ → Bytes → Bool
unfolding decode
valid_from skip [] = true
valid_from (suc skip) (c ∷ s) = valid_from skip s
valid_from zero (c ∷ s) =
    let (r, width) = rune_or_error (decode c s) in
    let rest = valid_from (width - 1) s in is_some (decode c s) && rest

unfoldable pub valid_string : Bytes → Bool
unfolding valid_from
valid_string s = valid_from 0 s

-- unicode.IsSpace(r)
unfoldable pub is_space : ℕ → Bool
is_space r =
    within 9 13 r
    || r == 0x20
    || r == 0x85
    || r == 0xA0
    || r == 0x1680
    || within 0x2000 0x200A r
    || r == 0x2028
    || r == 0x2029
    || r == 0x202F
    || r == 0x205F
    || r == 0x3000

abbrev close_field : Bytes → List Bytes → List Bytes
close_field [] rest = rest
close_field (c ∷ cur) rest = (c ∷ cur) ∷ rest

-- strings.Fields(s): the non-empty pieces between runs of white space. `cur` is the field that
-- is being read; `skip` counts the bytes left of a rune, which is white space if `blank`.
fields_from : ℕ → Bool → Bytes → Bytes → List Bytes
unfolding decode is_space
fields_from skip blank cur [] = close_field cur []
fields_from (suc skip) true cur (c ∷ s) = fields_from skip true cur s
fields_from (suc skip) false cur (c ∷ s) = fields_from skip false (cur ++ c ∷ []) s
fields_from zero blank cur (c ∷ s) =
    let (r, width) = rune_or_error (decode c s) in
    let gap = is_space r in
    let rest = fields_from (width - 1) gap (if gap then [] else cur ++ c ∷ []) s in
    if gap then close_field cur rest else rest

unfoldable pub fields : Bytes → List Bytes
unfolding fields_from
fields s = fields_from 0 false [] s

is_ascii : Bytes → Bool
is_ascii [] = true
is_ascii (c ∷ s) = ltb c 0x80 && is_ascii s

pub upper_byte : ℕ → ℕ
upper_byte c = if within b'a' b'z' c then c - 32 else c

-- A rune as UTF-8.
unfoldable pub encode : ℕ → Bytes
encode r =
    if ltb r 0x80
    then r ∷ []
    else if ltb r 0x800
    then (0xC0 + r / 64) ∷ (0x80 + r % 64) ∷ []
    else if ltb r 0x10000
    then (0xE0 + r / 4096) ∷ (0x80 + r / 64 % 64) ∷ (0x80 + r % 64) ∷ []
    else (0xF0 + r / 262144) ∷ (0x80 + r / 4096 % 64) ∷ (0x80 + r / 64 % 64) ∷ (0x80 + r % 64) ∷ []

-- strings.ToUpper(s). The upper case of a rune beyond ASCII is in a table of Go's `unicode`
-- package, the parameter `unicode_upper`.
unfoldable pub to_upper : (ℕ → ℕ) → Bytes → Bytes
unfolding is_ascii upper_byte encode flat_map
to_upper unicode_upper s =
    if is_ascii s
    then map upper_byte s
    else flat_map (λ r. encode (if ltb r 0x80 then upper_byte r else unicode_upper r)) (runes s)

runes_test :
    runes (0x61 ∷ 0xC3 ∷ 0xA9 ∷ 0xFF ∷ 0xE2 ∷ 0x82 ∷ 0xAC ∷ []) ≡ 0x61 ∷ 0xE9 ∷ 0xFFFD ∷ 0x20AC ∷ []
unfolding runes
runes_test = refl

fields_test : fields (codes "  ab c\t") ≡ codes "ab" ∷ codes "c" ∷ []
unfolding fields
fields_test = refl

to_upper_test : to_upper (λ r. r) (codes "PriVmsg1") ≡ codes "PRIVMSG1"
unfolding to_upper
to_upper_test = refl

valid_test :
    (valid_string (0xC3 ∷ 0xA9 ∷ []) ≡ true) × (valid_string (0xED ∷ 0xA0 ∷ 0x80 ∷ []) ≡ false)
unfolding valid_string
valid_test = (refl, refl)
