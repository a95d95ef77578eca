-- ===== src/ServerInfo/Tests.antt =====
-- The properties of the server's information at fixed tokens.
use ircparser.Base.{◌≡◌, refl, [], some, codes, lookup, insert, equal, nat_eq, bytes_eq, arith}
use ircparser.ServerInfo.{
  new_server_info, parse_channel_prefixes, set_prefixes, limit, parse_int, atoi, unsigned, digits,
  positive,
}
use ircparser.ServerInfo.Prefixes.{parse_prefixes-set_prefixes, lookup-parse_prefixes}

running : Unit {0}
unfolding lookup insert equal limit parse_int atoi unsigned digits positive
running = tt

parse_prefixes-set_prefixes_example :
    parse_channel_prefixes (codes "(ov)@+") new_server_info
    ≡ record new_server_info { channel_prefixes = set_prefixes (codes "ov") (codes "@+") [] }
parse_prefixes-set_prefixes_example =
    parse_prefixes-set_prefixes (codes "ov") (codes "@+") new_server_info (omega arith) refl

lookup-parse_prefixes_example :
    lookup b'+' (parse_channel_prefixes (codes "(ov)@+") new_server_info).channel_prefixes
    ≡ some b'v'
lookup-parse_prefixes_example =
    lookup-parse_prefixes (codes "o") [] (codes "@") [] b'v' b'+' new_server_info (omega arith) refl
      refl tt
