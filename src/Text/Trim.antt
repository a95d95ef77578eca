-- ===== src/Text/Trim.antt =====
-- strings.TrimSpace: white space is trimmed rune by rune.
use ircparser.Base.{
  ℕ, zero, suc, ◌-◌, Bool, true, false, List, [], ◌∷◌, ◌++◌, Bytes, codes, if◌then◌else◌, ◌≡◌, refl,
}
use ircparser.Text.Runes.{decode, is_space, rune_or_error}

abbrev close_piece : Bool → Bytes → List (Bool × Bytes) → List (Bool × Bytes)
close_piece blank [] rest = rest
close_piece blank (c ∷ cur) rest = (blank, c ∷ cur) ∷ rest

-- The bytes of the runes, each with whether it is white space. `cur` is the rune that is being read,
-- `skip` counts the bytes that are left of it.
pieces : ℕ → Bool → Bytes → Bytes → List (Bool × Bytes)
unfolding decode is_space
pieces skip blank cur [] = close_piece blank cur []
pieces (suc skip) blank cur (c ∷ s) = pieces skip blank (cur ++ c ∷ []) s
pieces zero blank cur (c ∷ s) =
    let (r, width) = rune_or_error (decode c s) in
    let rest = pieces (width - 1) (is_space r) (c ∷ []) s in close_piece blank cur rest

drop_leading : List (Bool × Bytes) → List (Bool × Bytes)
drop_leading [] = []
drop_leading ((true, s) ∷ rest) = drop_leading rest
drop_leading ((false, s) ∷ rest) = (false, s) ∷ rest

-- The pieces up to the last that is not blank, put together.
join_trimmed : List (Bool × Bytes) → Bytes
join_trimmed [] = []
join_trimmed ((blank, s) ∷ rest) = elim (join_trimmed rest) [
  | [] ↦ if blank then [] else s
  | b ∷ bs ↦ s ++ b ∷ bs
]

unfoldable pub trim_space : Bytes → Bytes
unfolding pieces drop_leading join_trimmed
trim_space s = join_trimmed (drop_leading (pieces 0 true [] s))

trim_space_test : trim_space (codes " \t:a PING b\r\n") ≡ codes ":a PING b"
unfolding trim_space
trim_space_test = refl

trim_space_wide :
    trim_space (0xC2 ∷ 0xA0 ∷ 0x61 ∷ 0x20 ∷ 0x62 ∷ 0xFF ∷ 0xE2 ∷ 0x80 ∷ 0xA8 ∷ [])
    ≡ 0x61 ∷ 0x20 ∷ 0x62 ∷ 0xFF ∷ []
unfolding trim_space
trim_space_wide = refl
