-- ===== src/Proto/Codec/Wire.antt =====
-- The bytes of every frame that can be sent, and what a receiver makes of them.
use imserver.Prelude.{ℕ, ◌%◌, ◌^◌, ◌≤◌, ◌≡◌, refl, ap, List, [], ◌∷◌, ◌++◌, length, arith}
use imserver.Proto.Result.{ok}
use imserver.Proto.FrameType
use imserver.Proto.Types.{
  Framer, zero_framer, Frame, get_frame_type, framer_of, connect, connack, send, sendack, recv,
  recvack, ping, pong, disconnect, sub, suback,
}
use imserver.Proto.Encoder.{Encoder}
use imserver.Proto.Encoder.Appends.{write_byte-append}
use imserver.Proto.Header.Flags.{to_fix_header_uint8}
use imserver.Proto.Header.Flags.RoundTrip.{carried_flags}
use imserver.Proto.Header.Length.{encode_variable}
use imserver.Proto.Header.Length.RoundTrip.{encode_variable2-encode_variable}
use imserver.Proto.Connect.{encode_connect}
use imserver.Proto.Connect.RoundTrip as ConnectBody
use imserver.Proto.Connack.{encode_connack}
use imserver.Proto.Connack.RoundTrip as ConnackBody
use imserver.Proto.Send.{encode_send}
use imserver.Proto.Send.RoundTrip as SendBody
use imserver.Proto.Sendack.{encode_sendack}
use imserver.Proto.Sendack.RoundTrip as SendackBody
use imserver.Proto.Recv.{encode_recv}
use imserver.Proto.Recv.RoundTrip as RecvBody
use imserver.Proto.Recvack.{encode_recvack}
use imserver.Proto.Recvack.RoundTrip as RecvackBody
use imserver.Proto.Disconnect.{encode_dis_connect}
use imserver.Proto.Disconnect.RoundTrip as DisconnectBody
use imserver.Proto.Sub.{encode_sub}
use imserver.Proto.Sub.RoundTrip as SubBody
use imserver.Proto.Suback.{encode_suback}
use imserver.Proto.Suback.RoundTrip as SubackBody
use imserver.Proto.Codec.{max_remaing_length, encode_header, encode_frame}

-- The bytes of a frame behind its header.
abbrev pub frame_body : Frame → ℕ → List ℕ
frame_body (ping f) version = []
frame_body (pong f) version = []
frame_body (connect p) version = ConnectBody.connect_body p version
frame_body (connack p) version = ConnackBody.connack_body p version
frame_body (send p) version = SendBody.send_body p version
frame_body (sendack p) version = SendackBody.sendack_body p version
frame_body (recv p) version = RecvBody.recv_body p version
frame_body (recvack p) version = RecvackBody.recvack_body p version
frame_body (disconnect p) version = DisconnectBody.disconnect_body p version
frame_body (sub p) version = SubBody.sub_body p version
frame_body (suback p) version = SubackBody.suback_body p version

-- The fields of a packet hold what their Go types hold, and its strings are not too long.
abbrev pub FrameFits : Frame → Type 0
FrameFits (ping f) = Unit {0}
FrameFits (pong f) = Unit {0}
FrameFits (connect p) = ConnectBody.Fits p
FrameFits (connack p) = ConnackBody.Fits p
FrameFits (send p) = SendBody.Fits p
FrameFits (sendack p) = SendackBody.Fits p
FrameFits (recv p) = RecvBody.Fits p
FrameFits (recvack p) = RecvackBody.Fits p
FrameFits (disconnect p) = DisconnectBody.Fits p
FrameFits (sub p) = SubBody.Fits p
FrameFits (suback p) = SubackBody.Fits p

pub record IsSendable (f : Frame) (version : ℕ) : Type 0 where
  pub fits : FrameFits f
  pub small : length (frame_body f version) ≤ max_remaing_length

-- The frame that a receiver has, with the header that it has read.
abbrev pub delivered_frame : Frame → Framer → ℕ → Frame
delivered_frame (ping f) framer version = ping framer
delivered_frame (pong f) framer version = pong framer
delivered_frame (connect p) framer version = connect (ConnectBody.delivered p framer version)
delivered_frame (connack p) framer version = connack (ConnackBody.delivered p framer version)
delivered_frame (send p) framer version = send (SendBody.delivered p framer version)
delivered_frame (sendack p) framer version = sendack (SendackBody.delivered p framer version)
delivered_frame (recv p) framer version = recv (RecvBody.delivered p framer version)
delivered_frame (recvack p) framer version = recvack (RecvackBody.delivered p framer version)
delivered_frame (disconnect p) framer version =
    disconnect (DisconnectBody.delivered p framer version)
delivered_frame (sub p) framer version = sub (SubBody.delivered p framer version)
delivered_frame (suback p) framer version = suback (SubackBody.delivered p framer version)

-- The flags that a receiver has: those that are carried, and none with a PING or a PONG.
abbrev pub carried : Frame → Framer
carried (ping f) = record zero_framer { frame_type = FrameType.ping }
carried (pong f) = record zero_framer { frame_type = FrameType.pong }
carried f = carried_flags (get_frame_type f) (framer_of f)

-- The bytes of a frame.
abbrev pub wire : Frame → ℕ → List ℕ
wire (ping f) version = 0x70 ∷ []
wire (pong f) version = 0x80 ∷ []
wire f version =
    to_fix_header_uint8 f
    ∷ (encode_variable (length (frame_body f version)) ++ frame_body f version)

-- The header that a receiver has; its `FrameSize` counts all the bytes that are there.
abbrev pub arrived : Frame → ℕ → List ℕ → Framer
arrived f version rest = record (carried f) {
  remaining_length = length (frame_body f version);
  frame_size = length (wire f version ++ rest);
}

encode_header-append :
    (f : Frame) (n : ℕ) → encode_header f n [] ≡ to_fix_header_uint8 f ∷ encode_variable n
unfolding encode_header
encode_header-append f n = rw (encode_variable2-encode_variable, write_byte-append)

-- A packet encoder that appends `body` behind the header that announces its size.
packed :
    (f : Frame) (body : List ℕ) (size : ℕ) (encode : Encoder → Encoder)
    → length body ≡ size
    → length body ≤ max_remaing_length
    → ((enc : Encoder) → encode enc ≡ enc ++ body)
    → encode (encode_header f (size % 2 ^ 32) [])
      ≡ to_fix_header_uint8 f ∷ (encode_variable (length body) ++ body)
packed f body size encode sized small appends =
    let e : size % 2 ^ 32 ≡ length body = omega arith in rw (appends, e, encode_header-append)

-- `EncodeFrame` of a frame that can be sent returns the bytes of the frame: the header byte, the
-- length of the body and the body, or the header byte alone for a PING and a PONG.
pub encode_frame-wire :
    (f : Frame) (version : ℕ) → IsSendable f version → encode_frame f version ≡ ok (wire f version)
unfolding encode_frame
encode_frame-wire (ping f) version s = refl
encode_frame-wire (pong f) version s = refl
encode_frame-wire (connect p) version s = ap ok (
    packed (connect p) _ _ (λ enc. encode_connect p enc version)
      (ConnectBody.length-connect_body p version) s.small
      (λ enc. ConnectBody.encode_connect-body p enc version))
encode_frame-wire (connack p) version s = ap ok (
    packed (connack p) _ _ (λ enc. encode_connack p enc version)
      (ConnackBody.length-connack_body p version) s.small
      (λ enc. ConnackBody.encode_connack-body p enc version))
encode_frame-wire (send p) version s = ap ok (
    packed (send p) _ _ (λ enc. encode_send p enc version) (SendBody.length-send_body p version)
      s.small (λ enc. SendBody.encode_send-body p enc version))
encode_frame-wire (sendack p) version s = ap ok (
    packed (sendack p) _ _ (λ enc. encode_sendack p enc version)
      (SendackBody.length-sendack_body p version) s.small
      (λ enc. SendackBody.encode_sendack-body p enc version))
encode_frame-wire (recv p) version s = ap ok (
    packed (recv p) _ _ (λ enc. encode_recv p enc version) (RecvBody.length-recv_body p version)
      s.small (λ enc. RecvBody.encode_recv-body p enc version))
encode_frame-wire (recvack p) version s = ap ok (
    packed (recvack p) _ _ (λ enc. encode_recvack p enc version)
      (RecvackBody.length-recvack_body p version) s.small
      (λ enc. RecvackBody.encode_recvack-body p enc version))
encode_frame-wire (disconnect p) version s = ap ok (
    packed (disconnect p) _ _ (λ enc. encode_dis_connect p enc version)
      (DisconnectBody.length-disconnect_body p version) s.small
      (λ enc. DisconnectBody.encode_dis_connect-body p enc version))
encode_frame-wire (sub p) version s = ap ok (
    packed (sub p) _ _ (λ enc. encode_sub p enc version) (SubBody.length-sub_body p version) s.small
      (λ enc. SubBody.encode_sub-body p enc version))
encode_frame-wire (suback p) version s = ap ok (
    packed (suback p) _ _ (λ enc. encode_suback p enc version)
      (SubackBody.length-suback_body p version) s.small
      (λ enc. SubackBody.encode_suback-body p enc version))
