-- ===== src/Event/Texts.antt =====
-- parser/events.go: the texts of the event types, which are the keys of the event bus.
use ircparser.Base.{Bytes, codes}
use ircparser.Event.{EventType}

unfoldable pub type_text : EventType → Bytes
type_text EventType.connected = codes "connected"
type_text EventType.disconnected = codes "disconnected"
type_text EventType.message = codes "message"
type_text EventType.ping = codes "ping"
type_text EventType.pong = codes "pong"
type_text EventType.error = codes "error"
type_text EventType.cap_ls = codes "cap_ls"
type_text EventType.cap_ack = codes "cap_ack"
type_text EventType.cap_nak = codes "cap_nak"
type_text EventType.cap_del = codes "cap_del"
type_text EventType.cap_new = codes "cap_new"
type_text EventType.cap_added = codes "cap_added"
type_text EventType.cap_removed = codes "cap_removed"
type_text EventType.cap_pre_end = codes "cap_pre_end"
type_text EventType.cap_end_ready = codes "cap_end_ready"
type_text EventType.cap_end = codes "cap_end"
type_text EventType.sasl_auth = codes "sasl_auth"
type_text EventType.sasl_success = codes "sasl_success"
type_text EventType.sasl_fail = codes "sasl_fail"
type_text EventType.registered = codes "registered"
type_text EventType.nick = codes "nick"
type_text EventType.join = codes "join"
type_text EventType.part = codes "part"
type_text EventType.quit = codes "quit"
type_text EventType.kick = codes "kick"
type_text EventType.mode = codes "mode"
type_text EventType.topic = codes "topic"
type_text EventType.privmsg = codes "privmsg"
type_text EventType.notice = codes "notice"
type_text EventType.invite = codes "invite"
type_text EventType.whois = codes "whois"
type_text EventType.who = codes "who"
type_text EventType.list = codes "list"
type_text EventType.names = codes "names"
type_text EventType.names_complete = codes "names_complete"
type_text EventType.ctcp = codes "ctcp"
type_text EventType.ctcp_reply = codes "ctcp_reply"
type_text EventType.action = codes "action"
type_text EventType.numeric = codes "numeric"
type_text EventType.raw_incoming = codes "raw_incoming"
type_text EventType.raw_outgoing = codes "raw_outgoing"
type_text EventType.unknown = codes "unknown"
