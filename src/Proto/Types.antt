-- ===== src/Proto/Types.antt =====
-- The packets of pkg/proto: a record for each struct, and `Frame` for the interface that they
-- implement. A Go string is the list of its bytes; a signed field holds its bit pattern.
use imserver.Prelude.{ℕ, ◌-◌, Bool, false, not, List, bit_and, bit_or, ◌==◌}
use imserver.Proto.FrameType

abbrev pub Text : Type 0
Text = List ℕ

pub record Framer : Type 0 where
  pub frame_type : ℕ
  pub remaining_length : ℕ
  pub no_persist : Bool
  pub red_dot : Bool
  pub sync_once : Bool
  pub dup : Bool
  pub has_server_version : Bool
  pub frame_size : ℕ

-- `Framer{}`
abbrev pub zero_framer : Framer
zero_framer = record {
  frame_type = 0;
  remaining_length = 0;
  no_persist = false;
  red_dot = false;
  sync_once = false;
  dup = false;
  has_server_version = false;
  frame_size = 0;
}

-- pkg/proto/setting.go; a `Setting` is a `uint8`.
abbrev pub setting_receipt_enabled : ℕ
setting_receipt_enabled = 0x80

abbrev pub setting_signal : ℕ
setting_signal = 0x20

abbrev pub setting_no_encrypt : ℕ
setting_no_encrypt = 0x10

abbrev pub setting_topic : ℕ
setting_topic = 8

abbrev pub setting_stream : ℕ
setting_stream = 4

unfoldable pub is_set : ℕ → ℕ → Bool
is_set s v = not (bit_and s v == 0)

-- `s &= ^v` on eight bits.
pub clear : ℕ → ℕ → ℕ
clear s v = bit_and s (255 - v)

pub set : ℕ → ℕ → ℕ
set s v = bit_or s v

pub record ConnectPacket : Type 0 where
  pub framer : Framer
  pub version : ℕ
  pub client_key : Text
  pub device_id : Text
  pub device_flag : ℕ
  pub client_timestamp : ℕ
  pub uid : Text
  pub token : Text

pub record ConnackPacket : Type 0 where
  pub framer : Framer
  pub server_version : ℕ
  pub server_key : Text
  pub salt : Text
  pub time_diff : ℕ
  pub reason_code : ℕ

pub record SendPacket : Type 0 where
  pub framer : Framer
  pub setting : ℕ
  pub msg_key : Text
  pub expire : ℕ
  pub client_seq : ℕ
  pub client_msg_no : Text
  pub stream_no : Text
  pub channel_id : Text
  pub channel_type : ℕ
  pub topic : Text
  pub payload : List ℕ

pub record SendackPacket : Type 0 where
  pub framer : Framer
  pub message_id : ℕ
  pub message_seq : ℕ
  pub client_seq : ℕ
  pub client_msg_no : Text
  pub reason_code : ℕ

pub record RecvPacket : Type 0 where
  pub framer : Framer
  pub setting : ℕ
  pub msg_key : Text
  pub expire : ℕ
  pub message_id : ℕ
  pub message_seq : ℕ
  pub client_msg_no : Text
  pub stream_no : Text
  pub stream_seq : ℕ
  pub stream_flag : ℕ
  pub timestamp : ℕ
  pub channel_id : Text
  pub channel_type : ℕ
  pub topic : Text
  pub from_uid : Text
  pub payload : List ℕ
  pub client_seq : ℕ

pub record RecvackPacket : Type 0 where
  pub framer : Framer
  pub message_id : ℕ
  pub message_seq : ℕ

pub record DisconnectPacket : Type 0 where
  pub framer : Framer
  pub reason_code : ℕ
  pub reason : Text

pub record SubPacket : Type 0 where
  pub framer : Framer
  pub setting : ℕ
  pub sub_no : Text
  pub channel_id : Text
  pub channel_type : ℕ
  pub action : ℕ
  pub param : Text

pub record SubackPacket : Type 0 where
  pub framer : Framer
  pub sub_no : Text
  pub channel_id : Text
  pub channel_type : ℕ
  pub action : ℕ
  pub reason_code : ℕ

-- `PingPacket` and `PongPacket` hold a `Framer` and nothing else.
pub data Frame : Type 0 where
  connect : ConnectPacket → Frame
  connack : ConnackPacket → Frame
  send : SendPacket → Frame
  sendack : SendackPacket → Frame
  recv : RecvPacket → Frame
  recvack : RecvackPacket → Frame
  ping pong : Framer → Frame
  disconnect : DisconnectPacket → Frame
  sub : SubPacket → Frame
  suback : SubackPacket → Frame

-- `GetFrameType` of each packet; the field of that name in its `Framer` is not read.
abbrev pub get_frame_type : Frame → ℕ
get_frame_type (connect p) = FrameType.connect
get_frame_type (connack p) = FrameType.connack
get_frame_type (send p) = FrameType.send
get_frame_type (sendack p) = FrameType.sendack
get_frame_type (recv p) = FrameType.recv
get_frame_type (recvack p) = FrameType.recvack
get_frame_type (ping p) = FrameType.ping
get_frame_type (pong p) = FrameType.pong
get_frame_type (disconnect p) = FrameType.disconnect
get_frame_type (sub p) = FrameType.sub
get_frame_type (suback p) = FrameType.suback

-- The embedded `Framer`, whose methods give the flags of a packet.
abbrev pub framer_of : Frame → Framer
framer_of (connect p) = p.framer
framer_of (connack p) = p.framer
framer_of (send p) = p.framer
framer_of (sendack p) = p.framer
framer_of (recv p) = p.framer
framer_of (recvack p) = p.framer
framer_of (ping f) = f
framer_of (pong f) = f
framer_of (disconnect p) = p.framer
framer_of (sub p) = p.framer
framer_of (suback p) = p.framer
