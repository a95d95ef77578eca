-- ===== src/Event.antt =====
-- parser/events.go: the types of events and their data.
pub mod Texts
pub mod Classify
pub mod Create
pub mod Shape
pub mod Typed
mod Tests
use ircparser.Base.{ℕ, Bool, List, Option, Bytes, Dict}
use ircparser.Channel.{Time, Channel}
use ircparser.Message.{Message}

pub data EventType : Type 0 where
  connected disconnected message ping pong error : EventType
  cap_ls cap_ack cap_nak cap_del cap_new cap_added cap_removed : EventType
  cap_pre_end cap_end_ready cap_end : EventType
  sasl_auth sasl_success sasl_fail : EventType
  registered nick join part quit kick mode topic privmsg notice invite : EventType
  whois who list names names_complete ctcp ctcp_reply action : EventType
  numeric raw_incoming raw_outgoing unknown : EventType

pub record NickData : Type 0 where
  pub old_nick : Bytes
  pub new_nick : Bytes

pub record JoinData : Type 0 where
  pub channel : Bytes
  pub nick : Bytes

pub record PartData : Type 0 where
  pub channel : Bytes
  pub nick : Bytes
  pub reason : Bytes

pub record QuitData : Type 0 where
  pub nick : Bytes
  pub reason : Bytes

pub record KickData : Type 0 where
  pub channel : Bytes
  pub nick : Bytes
  pub kicked : Bytes
  pub reason : Bytes

pub record ModeData : Type 0 where
  pub target : Bytes
  pub modes : Bytes
  pub args : List Bytes

pub record TopicData : Type 0 where
  pub channel : Bytes
  pub topic : Bytes
  pub nick : Bytes

-- PrivmsgData and NoticeData. The code never sets their field IsAction.
pub record TextData : Type 0 where
  pub target : Bytes
  pub nick : Bytes
  pub message : Bytes
  pub is_ctcp : Bool

pub record InviteData : Type 0 where
  pub channel : Bytes
  pub nick : Bytes
  pub target : Bytes

pub record ActionData : Type 0 where
  pub target : Bytes
  pub nick : Bytes
  pub message : Bytes

pub record NumericData : Type 0 where
  pub code : Bytes
  pub params : List Bytes

-- The values that `Event.Data` takes; `no_data` is nil. The error of DisconnectedData is its text,
-- if there is one.
pub data EventData : Type 0 where
  no_data : EventData
  connected_data : Bytes → EventData
  disconnected_data : Bytes → Option Bytes → EventData
  ping_data : Bytes → EventData
  pong_data : Bytes → EventData
  error_data : Bytes → EventData
  cap_added_data : Bytes → EventData
  cap_removed_data : Bytes → EventData
  cap_pre_end_data : List Bytes → Dict Bytes Bytes → EventData
  sasl_data : Bytes → Bytes → EventData
  nick_data : NickData → EventData
  join_data : JoinData → EventData
  part_data : PartData → EventData
  quit_data : QuitData → EventData
  kick_data : KickData → EventData
  mode_data : ModeData → EventData
  topic_data : TopicData → EventData
  privmsg_data : TextData → EventData
  notice_data : TextData → EventData
  invite_data : InviteData → EventData
  action_data : ActionData → EventData
  names_complete_data : Channel → EventData
  numeric_data : NumericData → EventData
  raw_incoming_data : Bytes → Time → EventData
  raw_outgoing_data : Bytes → Time → EventData

pub record Event : Type 0 where
  pub type : EventType
  pub message : Option Message
  pub body : EventData
  pub time : Time
