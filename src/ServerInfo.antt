-- ===== src/ServerInfo.antt =====
-- client/state.go: ServerInfo, what the server says of itself. A limit is only ever set to a
-- positive number, so it is a ℕ.
pub mod Numbers
pub mod Support
pub mod Prefixes
mod Tests
use ircparser.Base.{
  ℕ, suc, ◌+◌, ◌-◌, ◌*◌, ◌^◌, ◌≤◌, Bool, true, false, not, List, [], ◌∷◌, Option, none, some, Bytes,
  codes, Dict, bytes_eq, nat_eq, equal, lookup, insert, delete, ◌==◌, leb, ltb, if◌then◌else◌,
  length, take, drop, ℤ, pos, negsuc,
}
use ircparser.Text.{index, split, has_prefix, slice}
use ircparser.Text.Runes.{runes}

pub record ServerInfo : Type 0 where
  pub max_line_length : ℕ
  pub max_topic_length : ℕ
  pub max_channels : ℕ
  pub max_nick_length : ℕ
  pub max_away_length : ℕ
  pub channel_modes : Dict ℕ Bytes
  pub user_modes : Dict ℕ Bytes
  pub channel_prefixes : Dict ℕ ℕ
  pub channel_limits : Dict ℕ ℕ
  pub network_name : Bytes
  pub case_mapping : Bytes
  pub isupport : Dict Bytes Bytes
  pub capabilities : Dict Bytes Bytes

unfoldable pub new_server_info : ServerInfo
new_server_info = record {
  max_line_length = 512;
  max_topic_length = 390;
  max_channels = 10;
  max_nick_length = 9;
  max_away_length = 160;
  channel_modes = [];
  user_modes = [];
  channel_prefixes = insert b'+' b'v' (insert b'@' b'o' []);
  channel_limits = [];
  network_name = [];
  case_mapping = codes "ascii";
  isupport = [];
  capabilities = [];
}

-- The number that decimal digits spell behind `n`; `none` at any other byte.
digits : ℕ → Bytes → Option ℕ
digits n [] = some n
digits n (c ∷ s) =
    let rest = digits (n * 10 + (c - b'0')) s in
    if leb b'0' c then (if leb c b'9' then rest else none) else none

unsigned : Bytes → Option ℕ
unfolding digits
unsigned [] = none
unsigned (c ∷ s) = digits 0 (c ∷ s)

-- strconv.Atoi on a 64-bit machine: an optional sign, then one or more digits; `none` for an error,
-- which is what a value out of range is.
unfoldable pub atoi : Bytes → Option ℤ
unfolding unsigned
atoi [] = none
atoi (c ∷ s) =
    if c == b'-'
    then elim (unsigned s) [
      | none ↦ none
      | some n ↦
          if n == 0 then some (pos 0) else if leb n (2 ^ 63) then some (negsuc (n - 1)) else none
    ]
    else elim (unsigned (if c == b'+' then s else c ∷ s)) [
      | none ↦ none
      | some n ↦ if ltb n (2 ^ 63) then some (pos n) else none
    ]

unfoldable pub parse_int : Bytes → ℤ
parse_int s = elim (atoi s) [ none ↦ pos 0 | some n ↦ n ]

-- `val := parseInt(value); val > 0`, with the value.
unfoldable pub positive : ℤ → Option ℕ
positive (negsuc n) = none
positive (pos n) = if n == 0 then none else some n

-- The guards of the limits: `len(value) > 0`, and then `val > 0`.
unfoldable pub limit : Bytes → Option ℕ
unfolding positive
limit [] = none
limit (c ∷ value) = positive (parse_int (c ∷ value))

-- `for _, mode := range group { si.ChannelModes[mode] = kind }`
set_modes : List ℕ → Bytes → Dict ℕ Bytes → Dict ℕ Bytes
set_modes [] kind m = m
set_modes (r ∷ rs) kind m = set_modes rs kind (insert r kind m)

unfoldable pub parse_channel_modes : Bytes → ServerInfo → ServerInfo
unfolding set_modes
parse_channel_modes value si = elim (split b',' value) [
  | a ∷ b ∷ c ∷ d ∷ [] ↦
      let m = set_modes (runes a) (codes "list") si.channel_modes in
      let m = set_modes (runes b) (codes "always_param") m in
      let m = set_modes (runes c) (codes "set_param") m in
      record si { channel_modes = set_modes (runes d) (codes "never_param") m }
  | _ ↦ si
]

-- `for i := 0; i < len(modes); i++`, over strings of one length
unfoldable pub set_prefixes : Bytes → Bytes → Dict ℕ ℕ → Dict ℕ ℕ
set_prefixes (m ∷ modes) (p ∷ prefixes) out = set_prefixes modes prefixes (insert p m out)
set_prefixes modes prefixes out = out

-- `paren` is strings.Index(value, ")").
unfoldable pub cut_prefixes : Bytes → ServerInfo → Option ℕ → ServerInfo
cut_prefixes value si none = si
cut_prefixes value si (some paren) =
    let modes = slice 1 paren value in
    let prefixes = drop (suc paren) value in
    if not (has_prefix value (codes "("))
    then si
    else if length modes == length prefixes
    then record si { channel_prefixes = set_prefixes modes prefixes [] }
    else si

unfoldable pub parse_channel_prefixes : Bytes → ServerInfo → ServerInfo
parse_channel_prefixes [] si = si
parse_channel_prefixes (c ∷ s) si = cut_prefixes (c ∷ s) si (index b')' (c ∷ s))

set_limits : List ℕ → ℕ → Dict ℕ ℕ → Dict ℕ ℕ
set_limits [] n m = m
set_limits (r ∷ rs) n m = set_limits rs n (insert r n m)

-- One entry of CHANLIMIT; one that is ill-formed is passed over.
add_limit : List Bytes → Dict ℕ ℕ → Dict ℕ ℕ
unfolding set_limits positive
add_limit (prefixes ∷ number ∷ []) m = elim (positive (parse_int number)) [
  | none ↦ m
  | some n ↦ set_limits (runes prefixes) n m
]
add_limit _ m = m

add_limits : List Bytes → Dict ℕ ℕ → Dict ℕ ℕ
unfolding add_limit
add_limits [] m = m
add_limits (entry ∷ entries) m = add_limits entries (add_limit (split b':' entry) m)

unfoldable pub parse_channel_limits : Bytes → ServerInfo → ServerInfo
unfolding add_limits
parse_channel_limits [] si = si
parse_channel_limits (c ∷ s) si = record si { channel_limits = add_limits (split b',' (c ∷ s)) [] }

-- What a limit token does: nothing, unless its value is a positive number.
unfoldable pub with_limit : Bytes → ServerInfo → (ℕ → ServerInfo) → ServerInfo
with_limit value si f = elim (limit value) [ none ↦ si | some n ↦ f n ]

-- The switch of SetISupport.
unfoldable pub apply_isupport : Bytes → Bytes → ServerInfo → ServerInfo
apply_isupport key value si =
    if equal key (codes "CHANNELLEN")
    then with_limit value si (λ n. record si { max_channels = n })
    else if equal key (codes "LINELEN")
    then with_limit value si (λ n. record si { max_line_length = n })
    else if equal key (codes "TOPICLEN")
    then with_limit value si (λ n. record si { max_topic_length = n })
    else if equal key (codes "MAXCHANNELS")
    then with_limit value si (λ n. record si { max_channels = n })
    else if equal key (codes "NICKLEN")
    then with_limit value si (λ n. record si { max_nick_length = n })
    else if equal key (codes "AWAYLEN")
    then with_limit value si (λ n. record si { max_away_length = n })
    else if equal key (codes "NETWORK")
    then record si { network_name = value }
    else if equal key (codes "CASEMAPPING")
    then record si { case_mapping = value }
    else if equal key (codes "CHANMODES")
    then parse_channel_modes value si
    else if equal key (codes "PREFIX")
    then parse_channel_prefixes value si
    else if equal key (codes "CHANLIMIT")
    then parse_channel_limits value si
    else si

unfoldable pub set_isupport : ServerInfo → Bytes → Bytes → ServerInfo
set_isupport si key value =
    apply_isupport key value (record si { isupport = insert key value si.isupport })

unfoldable pub get_isupport : ServerInfo → Bytes → Option Bytes
get_isupport si key = lookup key si.isupport

unfoldable pub set_capability : ServerInfo → Bytes → Bytes → ServerInfo
set_capability si key value = record si { capabilities = insert key value si.capabilities }

unfoldable pub remove_capability : ServerInfo → Bytes → ServerInfo
remove_capability si key = record si { capabilities = delete key si.capabilities }

unfoldable pub has_capability : ServerInfo → Bytes → Bool
has_capability si key = elim (lookup key si.capabilities) [ none ↦ false | some _ ↦ true ]

unfoldable pub get_capabilities : ServerInfo → Dict Bytes Bytes
get_capabilities si = si.capabilities
