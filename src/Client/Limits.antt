-- ===== src/Client/Limits.antt =====
-- client/client.go: GetMaxChannels and GetMaxChannelsForType.
use ircparser.Base.{
  ℕ, ◌+◌, ◌-◌, ◌%◌, ◌^◌, ◌≤◌, ◌<◌, ◌≡◌, ◌≢◌, ap, ◌∙◌, [], ◌∷◌, none, some, Dict, nat_eq, lookup,
  lookup-cons, ltb, if◌then◌else◌, ℤ, pos, negsuc, arith,
}
use ircparser.State.{State}

-- The int of 64 bits with these bits.
abbrev pub to_int : ℕ → ℤ
to_int n = if ltb n (2 ^ 63) then pos n else negsuc (2 ^ 64 - 1 - n)

-- `total += limit` over the limits, which are positive.
unfoldable pub add_up : ℕ → Dict ℕ ℕ → ℕ
add_up total [] = total
add_up total ((prefix, limit) ∷ limits) = add_up ((total + limit) % 2 ^ 64) limits

unfoldable pub get_max_channels : State → ℤ
get_max_channels cs = elim cs.server_info.channel_limits [
  | [] ↦ pos cs.server_info.max_channels
  | entry ∷ limits ↦ to_int (add_up 0 (entry ∷ limits))
]

unfoldable pub get_max_channels_for_type : State → ℕ → ℕ
get_max_channels_for_type cs channel_prefix =
    elim (lookup channel_prefix cs.server_info.channel_limits) [
      | none ↦ cs.server_info.max_channels
      | some limit ↦ limit
    ]

-- The sum of the limits.
abbrev sum : Dict ℕ ℕ → ℕ
sum [] = 0
sum ((prefix, limit) ∷ limits) = limit + sum limits

lookup-nil : (prefix n : ℕ) → lookup {V = ℕ} prefix [] ≢ some n
unfolding lookup
lookup-nil prefix n h = cc

add_up-sum :
    (total : ℕ) (limits : Dict ℕ ℕ)
    → total + sum limits < 2 ^ 64
    → add_up total limits ≡ total + sum limits
unfolding add_up
add_up-sum total [] h = omega arith
add_up-sum total ((prefix, limit) ∷ limits) h =
    ground (arith, add_up-sum ((total + limit) % 2 ^ 64) limits)

lookup-sum : (prefix n : ℕ) (limits : Dict ℕ ℕ) → lookup prefix limits ≡ some n → n ≤ sum limits
lookup-sum prefix n [] h = absurd (lookup-nil prefix n h)
lookup-sum prefix n ((k, limit) ∷ limits) h =
    ground (arith, lookup-cons prefix k limit limits, lookup-sum prefix n limits)

-- A limit of a channel type is within the limit over all types, which is the sum of the limits, as
-- long as that sum is below 2^63.
get_max_channels_for_type-sum :
    (cs : State) (prefix n : ℕ)
    → lookup prefix cs.server_info.channel_limits ≡ some n
    → sum cs.server_info.channel_limits < 2 ^ 63
    → (get_max_channels_for_type cs prefix ≤ sum cs.server_info.channel_limits)
      × (get_max_channels cs ≡ pos (sum cs.server_info.channel_limits))
unfolding get_max_channels get_max_channels_for_type
get_max_channels_for_type-sum cs prefix n h k = (
  rw (get_max_channels_for_type, h) (lookup-sum prefix n cs.server_info.channel_limits h),
  go cs.server_info.channel_limits h k,
)
  where
    go :
        (limits : Dict ℕ ℕ)
        → lookup prefix limits ≡ some n
        → sum limits < 2 ^ 63
        → elim limits as (λ _. ℤ) [
          | [] ↦ pos cs.server_info.max_channels
          | entry ∷ limits ↦ to_int (add_up 0 (entry ∷ limits))
        ]
          ≡ pos (sum limits)
    go [] h k = absurd (lookup-nil prefix n h)
    go ((q, l) ∷ limits) h k =
        ap to_int (add_up-sum 0 ((q, l) ∷ limits) (omega arith)) ∙ ground arith
