-- ===== src/Proto/Codec/Sizes.antt =====
-- The sizes that are announced are the sizes that are written.
use imserver.Prelude.{ℕ, ◌+◌, ◌≡◌, length, length-append, arith}
use imserver.Proto.Types.{
  Frame, connect, connack, send, sendack, recv, recvack, ping, pong, disconnect, sub, suback,
}
use imserver.Proto.Encoder.{Encoder}
use imserver.Proto.Connect.{encode_connect, encode_connect_size}
use imserver.Proto.Connect.RoundTrip as ConnectBody
use imserver.Proto.Connack.{encode_connack, encode_connack_size}
use imserver.Proto.Connack.RoundTrip as ConnackBody
use imserver.Proto.Send.{encode_send, encode_send_size}
use imserver.Proto.Send.RoundTrip as SendBody
use imserver.Proto.Sendack.{encode_sendack, encode_sendack_size}
use imserver.Proto.Sendack.RoundTrip as SendackBody
use imserver.Proto.Recv.{encode_recv, encode_recv_size}
use imserver.Proto.Recv.RoundTrip as RecvBody
use imserver.Proto.Recvack.{encode_recvack, encode_recvack_size}
use imserver.Proto.Recvack.RoundTrip as RecvackBody
use imserver.Proto.Disconnect.{encode_dis_connect, encode_dis_connect_size}
use imserver.Proto.Disconnect.RoundTrip as DisconnectBody
use imserver.Proto.Sub.{encode_sub, encode_sub_size}
use imserver.Proto.Sub.RoundTrip as SubBody
use imserver.Proto.Suback.{encode_suback, encode_suback_size}
use imserver.Proto.Suback.RoundTrip as SubackBody

-- The body encoder and the size function that `EncodeFrame` calls for each packet.
abbrev pub encode_packet : Frame → Encoder → ℕ → Encoder
encode_packet (ping f) enc version = enc
encode_packet (pong f) enc version = enc
encode_packet (connect p) enc version = encode_connect p enc version
encode_packet (connack p) enc version = encode_connack p enc version
encode_packet (send p) enc version = encode_send p enc version
encode_packet (sendack p) enc version = encode_sendack p enc version
encode_packet (recv p) enc version = encode_recv p enc version
encode_packet (recvack p) enc version = encode_recvack p enc version
encode_packet (disconnect p) enc version = encode_dis_connect p enc version
encode_packet (sub p) enc version = encode_sub p enc version
encode_packet (suback p) enc version = encode_suback p enc version

abbrev pub encode_packet_size : Frame → ℕ → ℕ
encode_packet_size (ping f) version = 0
encode_packet_size (pong f) version = 0
encode_packet_size (connect p) version = encode_connect_size p version
encode_packet_size (connack p) version = encode_connack_size p version
encode_packet_size (send p) version = encode_send_size p version
encode_packet_size (sendack p) version = encode_sendack_size p version
encode_packet_size (recv p) version = encode_recv_size p version
encode_packet_size (recvack p) version = encode_recvack_size p version
encode_packet_size (disconnect p) version = encode_dis_connect_size p version
encode_packet_size (sub p) version = encode_sub_size p version
encode_packet_size (suback p) version = encode_suback_size p version

-- For every packet, with any version and whatever its fields hold, the encoder of its body adds
-- exactly as many bytes as its size function says.
pub length-encode_packet :
    (f : Frame) (enc : Encoder) (version : ℕ)
    → length (encode_packet f enc version) ≡ length enc + encode_packet_size f version
length-encode_packet (ping f) enc version = omega arith
length-encode_packet (pong f) enc version = omega arith
length-encode_packet (connect p) enc version = rw (ConnectBody.encode_connect-body p enc version) (
    omega (
      arith,
      length-append enc (ConnectBody.connect_body p version),
      ConnectBody.length-connect_body p version,
    ))
length-encode_packet (connack p) enc version = rw (ConnackBody.encode_connack-body p enc version) (
    omega (
      arith,
      length-append enc (ConnackBody.connack_body p version),
      ConnackBody.length-connack_body p version,
    ))
length-encode_packet (send p) enc version = rw (SendBody.encode_send-body p enc version) (
    omega (
      arith,
      length-append enc (SendBody.send_body p version),
      SendBody.length-send_body p version,
    ))
length-encode_packet (sendack p) enc version = rw (SendackBody.encode_sendack-body p enc version) (
    omega (
      arith,
      length-append enc (SendackBody.sendack_body p version),
      SendackBody.length-sendack_body p version,
    ))
length-encode_packet (recv p) enc version = rw (RecvBody.encode_recv-body p enc version) (
    omega (
      arith,
      length-append enc (RecvBody.recv_body p version),
      RecvBody.length-recv_body p version,
    ))
length-encode_packet (recvack p) enc version = rw (RecvackBody.encode_recvack-body p enc version) (
    omega (
      arith,
      length-append enc (RecvackBody.recvack_body p version),
      RecvackBody.length-recvack_body p version,
    ))
length-encode_packet (disconnect p) enc version =
    rw (DisconnectBody.encode_dis_connect-body p enc version) (
      omega (
        arith,
        length-append enc (DisconnectBody.disconnect_body p version),
        DisconnectBody.length-disconnect_body p version,
      ))
length-encode_packet (sub p) enc version = rw (SubBody.encode_sub-body p enc version) (
    omega
      (arith, length-append enc (SubBody.sub_body p version), SubBody.length-sub_body p version))
length-encode_packet (suback p) enc version = rw (SubackBody.encode_suback-body p enc version) (
    omega (
      arith,
      length-append enc (SubackBody.suback_body p version),
      SubackBody.length-suback_body p version,
    ))
