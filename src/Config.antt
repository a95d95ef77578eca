-- ===== src/Config.antt =====
-- parser/connection_config.go. Durations are whole numbers of nanoseconds, as in the code.
pub mod Accessors
use ircparser.Base.{ℕ, ◌*◌, Bool, true, List, [], ◌∷◌, Bytes, ℤ, pos}

pub record ConnectionConfig : Type 0 where
  pub host : Bytes
  pub port : ℤ
  pub tls : Bool
  pub password : Bytes
  pub nick : Bytes
  pub username : Bytes
  pub realname : Bytes
  pub sasl_user : Bytes
  pub sasl_pass : Bytes
  pub conn_timeout : ℤ
  pub read_timeout : ℤ
  pub write_timeout : ℤ
  pub ping_timeout : ℤ
  pub reconnect_delay : ℤ

abbrev pub seconds : ℕ → ℤ
seconds n = pos (n * 1000000000)

-- An Option of the code is the change that it makes.
abbrev pub ConfigOption : Type 0
ConfigOption = ConnectionConfig → ConnectionConfig

unfoldable pub default_config : Bytes → ConnectionConfig
default_config host = record {
  host = host;
  port = pos 6697;
  tls = true;
  password = [];
  nick = [];
  username = [];
  realname = [];
  sasl_user = [];
  sasl_pass = [];
  conn_timeout = seconds 30;
  read_timeout = seconds 300;
  write_timeout = seconds 30;
  ping_timeout = seconds 60;
  reconnect_delay = seconds 5;
}

-- `for _, option := range options`
unfoldable pub apply_options : List ConfigOption → ConnectionConfig → ConnectionConfig
apply_options [] config = config
apply_options (option ∷ options) config = apply_options options (option config)

unfoldable pub new_connection_config : Bytes → List ConfigOption → ConnectionConfig
unfolding default_config
new_connection_config host options = apply_options options (default_config host)

unfoldable pub with_port : ℤ → ConfigOption
with_port port c = record c { port = port }

unfoldable pub with_tls : Bool → ConfigOption
with_tls tls c = record c { tls = tls }

unfoldable pub with_password : Bytes → ConfigOption
with_password password c = record c { password = password }

unfoldable pub with_nick : Bytes → ConfigOption
with_nick nick c = record c { nick = nick }

unfoldable pub with_username : Bytes → ConfigOption
with_username username c = record c { username = username }

unfoldable pub with_realname : Bytes → ConfigOption
with_realname realname c = record c { realname = realname }

unfoldable pub with_sasl : Bytes → Bytes → ConfigOption
with_sasl username password c = record c { sasl_user = username; sasl_pass = password }

unfoldable pub with_conn_timeout : ℤ → ConfigOption
with_conn_timeout timeout c = record c { conn_timeout = timeout }

unfoldable pub with_read_timeout : ℤ → ConfigOption
with_read_timeout timeout c = record c { read_timeout = timeout }

unfoldable pub with_write_timeout : ℤ → ConfigOption
with_write_timeout timeout c = record c { write_timeout = timeout }

unfoldable pub with_ping_timeout : ℤ → ConfigOption
with_ping_timeout timeout c = record c { ping_timeout = timeout }

unfoldable pub with_reconnect_delay : ℤ → ConfigOption
with_reconnect_delay delay c = record c { reconnect_delay = delay }
