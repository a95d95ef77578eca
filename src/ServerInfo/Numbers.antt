-- ===== src/ServerInfo/Numbers.antt =====
-- What parseInt returns.
use ircparser.Base.{ℕ, ◌+◌, ◌-◌, ◌*◌, ◌^◌, ◌≤◌, ◌<◌, ◌≡◌, refl, [], ◌∷◌, some, Bytes, All, arith}
use ircparser.ServerInfo.{digits, unsigned, atoi, parse_int, limit}

abbrev pub IsDigit : ℕ → Type 0
IsDigit c = (b'0' ≤ c) × (c ≤ b'9')

-- The number that digits spell in decimal, behind `n`.
abbrev pub value : ℕ → Bytes → ℕ
value n [] = n
value n (c ∷ s) = value (n * 10 + (c - b'0')) s

digits-value : (s : Bytes) (n : ℕ) → All IsDigit s → digits n s ≡ some (value n s)
unfolding digits
digits-value [] n h = refl
digits-value (c ∷ s) n (hc, h) = ground (arith, digits-value s (n * 10 + (c - b'0')) h)

digits_sound : (s : Bytes) (n : ℕ) {r : ℕ} → digits n s ≡ some r → All IsDigit s × (r ≡ value n s)
unfolding digits
digits_sound [] n h = ground arith
digits_sound (c ∷ s) n {r} h = ground (arith, digits_sound s (n * 10 + (c - b'0')) {r = r})

-- A digit string of a positive number below 2^63 sets a limit to just that number.
limit-value :
    (c : ℕ) (s : Bytes)
    → All IsDigit (c ∷ s)
    → 0 < value 0 (c ∷ s)
    → value 0 (c ∷ s) < 2 ^ 63
    → limit (c ∷ s) ≡ some (value 0 (c ∷ s))
unfolding limit parse_int atoi unsigned
limit-value c s h p q = ground (arith, digits-value (c ∷ s) 0 h)

-- A limit is only ever set to a positive number below 2^63.
limit_sound : (v : Bytes) {n : ℕ} → limit v ≡ some n → (0 < n) × (n < 2 ^ 63)
unfolding limit parse_int atoi unsigned
limit_sound [] h = cc
limit_sound (c ∷ s) h = ground arith
