-- ===== src/Tests/Frames.antt =====
-- Packets, frames and parts of frames for the examples.
use imserver.Prelude.{
  ℕ, ◌<◌, ◌≡◌, ◌≢◌, refl, true, List, [], ◌∷◌, length, length-append, take, arith,
}
use imserver.Proto.Types.{
  zero_framer, Frame, ConnectPacket, ConnackPacket, SendPacket, RecvPacket, connect, send, ping,
  is_set,
}
use imserver.Proto.Send.{encode_send_size}
use imserver.Proto.Connect.{encode_connect_size}
use imserver.Proto.Codec.{latest_version}
use imserver.Proto.Codec.Wire.{wire, IsSendable, frame_body}
use imserver.Proto.Header.Length.{encode_variable}
use imserver.Proto.Connect.RoundTrip as ConnectBody
use imserver.Proto.Send.RoundTrip as SendBody
use imserver.Proto.Recv.RoundTrip as RecvBody
use imserver.Proto.Connack.RoundTrip as ConnackBody
use imserver.Server.Dispatch.Unpack.Whole.{AllSendable, IsPart}

-- "u1"
abbrev pub user : List ℕ
user = 0x75 ∷ 0x31 ∷ []

abbrev pub hello : SendPacket
hello = record {
  framer = record zero_framer { red_dot = true };
  setting = 8;
  msg_key = [];
  expire = 30;
  client_seq = 7;
  client_msg_no = 0x6d ∷ [];
  stream_no = [];
  channel_id = user;
  channel_type = 1;
  topic = 0x74 ∷ [];
  payload = 0x68 ∷ 0x69 ∷ [];
}

abbrev pub login : ConnectPacket
login = record {
  framer = zero_framer;
  version = 3;
  client_key = [];
  device_id = 0x64 ∷ [];
  device_flag = 1;
  client_timestamp = 1700000000;
  uid = user;
  token = 0x74 ∷ [];
}

pub hello-Fits : SendBody.Fits hello
hello-Fits = record {
  client_msg_no = omega arith;
  stream_no = omega arith;
  channel_id = omega arith;
  channel_type = omega arith;
  expire = omega arith;
  msg_key = omega arith;
  topic = omega arith;
}

pub hello-IsSendable : IsSendable (send hello) 3
unfolding encode_send_size is_set
hello-IsSendable = record { fits = hello-Fits; small = rw SendBody.length-send_body (omega arith) }

pub login-Fits : ConnectBody.Fits login
login-Fits = record {
  version = omega arith;
  device_flag = omega arith;
  device_id = omega arith;
  uid = omega arith;
  token = omega arith;
  client_timestamp = omega arith;
  client_key = omega arith;
}

pub login-IsSendable : IsSendable (connect login) latest_version
unfolding encode_connect_size
login-IsSendable = record {
  fits = login-Fits;
  small = rw ConnectBody.length-connect_body (omega arith);
}

-- Two bytes of a frame have arrived.
pub hello-some : 2 < length (wire (send hello) 3)
unfolding encode_send_size is_set
hello-some = omega (
  arith,
  length-append (encode_variable (length (frame_body (send hello) 3))) (frame_body (send hello) 3),
  hello-sized,
)
  where
    hello-sized : length (frame_body (send hello) 3) ≡ 24
    hello-sized = rw SendBody.length-send_body refl

abbrev pub cut_hello : List ℕ
cut_hello = take 2 (wire (send hello) 3)

pub cut_hello-IsPart : IsPart cut_hello 3
cut_hello-IsPart = record {
  frame = send hello;
  sendable = hello-IsSendable;
  count = 2;
  less = hello-some;
  bytes = refl;
}

abbrev pub two_frames : List Frame
two_frames = send hello ∷ ping zero_framer ∷ []

pub ping-IsSendable : IsSendable (ping zero_framer) 3
ping-IsSendable = record { fits = tt; small = omega arith }

pub two_frames-AllSendable : AllSendable two_frames 3
two_frames-AllSendable = (hello-IsSendable, (ping-IsSendable, tt))

pub two_frames-some : two_frames ≢ []
two_frames-some e = cc

abbrev pub answer : ConnackPacket
answer = record {
  framer = record zero_framer { has_server_version = true };
  server_version = 3;
  server_key = 0x6b ∷ [];
  salt = 0x73 ∷ [];
  time_diff = 12;
  reason_code = 1;
}

pub answer-Fits : ConnackBody.Fits answer
answer-Fits = record {
  server_version = omega arith;
  time_diff = omega arith;
  server_key = omega arith;
  salt = omega arith;
}

abbrev pub message : RecvPacket
message = record {
  framer = zero_framer;
  setting = 4;
  msg_key = [];
  expire = 0;
  message_id = 1234567;
  message_seq = 8;
  client_msg_no = 0x6d ∷ [];
  stream_no = 0x73 ∷ [];
  stream_seq = 2;
  stream_flag = 1;
  timestamp = 1700000000;
  channel_id = user;
  channel_type = 1;
  topic = [];
  from_uid = user;
  payload = 0x68 ∷ [];
  client_seq = 0;
}

pub message-Fits : RecvBody.Fits message
message-Fits = record {
  msg_key = omega arith;
  from_uid = omega arith;
  channel_id = omega arith;
  channel_type = omega arith;
  expire = omega arith;
  client_msg_no = omega arith;
  message_id = omega arith;
  message_seq = omega arith;
  timestamp = omega arith;
  topic = omega arith;
  stream_no = omega arith;
  stream_seq = omega arith;
  stream_flag = omega arith;
}
