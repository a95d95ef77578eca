-- ===== src/ServerInfo/Support.antt =====
-- What an ISUPPORT token changes.
use ircparser.Base.{
  ℕ, ◌≡◌, refl, ap, ◌∙◌, [], ◌∷◌, Option, none, some, Bytes, bytes_eq, nat_eq, equal, lookup,
  lookup-insert, if◌then◌else◌, arith,
}
use ircparser.ServerInfo.{
  ServerInfo, limit, with_limit, apply_isupport, set_isupport, get_isupport, parse_channel_modes,
  parse_channel_prefixes, cut_prefixes, parse_channel_limits,
}

with_limit-isupport :
    (value : Bytes) (si : ServerInfo) (f : ℕ → ServerInfo)
    → ((n : ℕ) → (f n).isupport ≡ si.isupport)
    → (with_limit value si f).isupport ≡ si.isupport
unfolding with_limit
with_limit-isupport value si f h = go (limit value)
  where
    go :
        (o : Option ℕ)
        → (elim o as (λ _. ServerInfo) [ none ↦ si | some n ↦ f n ]).isupport ≡ si.isupport
    go none = refl
    go (some n) = h n

prefixes-isupport :
    (v : Bytes) (si : ServerInfo) → (parse_channel_prefixes v si).isupport ≡ si.isupport
unfolding parse_channel_prefixes cut_prefixes
prefixes-isupport [] si = refl
prefixes-isupport (c ∷ s) si = ground arith

modes-isupport : (v : Bytes) (si : ServerInfo) → (parse_channel_modes v si).isupport ≡ si.isupport
unfolding parse_channel_modes
modes-isupport v si = ground arith

limits-isupport : (v : Bytes) (si : ServerInfo) → (parse_channel_limits v si).isupport ≡ si.isupport
unfolding parse_channel_limits
limits-isupport [] si = refl
limits-isupport (c ∷ s) si = refl

pub apply-isupport :
    (key value : Bytes) (si : ServerInfo) → (apply_isupport key value si).isupport ≡ si.isupport
unfolding apply_isupport with_limit
apply-isupport key value si =
    ground (arith, prefixes-isupport value si, modes-isupport value si, limits-isupport value si)

-- Every token is kept under its key with its last value, whatever else it sets, and no other
-- token is touched.
get_isupport-set_isupport :
    (si : ServerInfo) (key value j : Bytes)
    → get_isupport (set_isupport si key value) j
      ≡ (if equal key j then some value else get_isupport si j)
unfolding get_isupport set_isupport
get_isupport-set_isupport si key value j =
    ap (lookup j) (apply-isupport key value _) ∙ lookup-insert key j value si.isupport
