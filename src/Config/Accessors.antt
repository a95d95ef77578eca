-- ===== src/Config/Accessors.antt =====
-- parser/connection_config.go: what the other files read of a configuration, as its fields are
-- private to the package.
use ircparser.Base.{Bool, Bytes, ℤ}
use ircparser.Config.{ConnectionConfig}

unfoldable pub host : ConnectionConfig → Bytes
host c = c.host

unfoldable pub port : ConnectionConfig → ℤ
port c = c.port

unfoldable pub tls : ConnectionConfig → Bool
tls c = c.tls

unfoldable pub password : ConnectionConfig → Bytes
password c = c.password

unfoldable pub nick : ConnectionConfig → Bytes
nick c = c.nick

unfoldable pub username : ConnectionConfig → Bytes
username c = c.username

unfoldable pub realname : ConnectionConfig → Bytes
realname c = c.realname

unfoldable pub sasl_user : ConnectionConfig → Bytes
sasl_user c = c.sasl_user

unfoldable pub sasl_pass : ConnectionConfig → Bytes
sasl_pass c = c.sasl_pass

unfoldable pub conn_timeout : ConnectionConfig → ℤ
conn_timeout c = c.conn_timeout

unfoldable pub read_timeout : ConnectionConfig → ℤ
read_timeout c = c.read_timeout

unfoldable pub write_timeout : ConnectionConfig → ℤ
write_timeout c = c.write_timeout

unfoldable pub ping_timeout : ConnectionConfig → ℤ
ping_timeout c = c.ping_timeout

unfoldable pub reconnect_delay : ConnectionConfig → ℤ
reconnect_delay c = c.reconnect_delay
