-- ===== src/Proto/Codec/RoundTrip.antt =====
-- Every frame that is sent is received: `DecodeFrame` after `EncodeFrame`.
use imserver.Prelude.{
  ℕ, ◌+◌, ◌≤◌, ◌<◌, ◌≡◌, refl, sym, ap, ◌∙◌, List, ◌∷◌, ◌++◌, append_assoc, length, length-append,
  some, false, ◌==◌, arith,
}
use imserver.Proto.Result.{Result, ok}
use imserver.Proto.FrameType
use imserver.Proto.Types.{
  Framer, zero_framer, Frame, get_frame_type, framer_of, connect, connack, send, sendack, recv,
  recvack, ping, pong, disconnect, sub, suback,
}
use imserver.Proto.Header.Flags.{to_fix_header_uint8, framer_from_uint8}
use imserver.Proto.Header.Flags.RoundTrip.{carried_flags, framer_from_uint8-to_fix_header_uint8}
use imserver.Proto.Header.Length.{encode_variable}
use imserver.Proto.Connect.{decode_connect, encode_connect_size}
use imserver.Proto.Connect.RoundTrip as ConnectBody
use imserver.Proto.Connack.{decode_connack, encode_connack_size}
use imserver.Proto.Connack.RoundTrip as ConnackBody
use imserver.Proto.Send.{decode_send, encode_send_size}
use imserver.Proto.Send.RoundTrip as SendBody
use imserver.Proto.Sendack.{decode_sendack, encode_sendack_size}
use imserver.Proto.Sendack.RoundTrip as SendackBody
use imserver.Proto.Recv.{decode_recv, encode_recv_size}
use imserver.Proto.Recv.RoundTrip as RecvBody
use imserver.Proto.Recvack.{decode_recvack, encode_recvack_size}
use imserver.Proto.Recvack.RoundTrip as RecvackBody
use imserver.Proto.Disconnect.{decode_dis_connect, encode_dis_connect_size}
use imserver.Proto.Disconnect.RoundTrip as DisconnectBody
use imserver.Proto.Sub.{decode_sub, encode_sub_size}
use imserver.Proto.Sub.RoundTrip as SubBody
use imserver.Proto.Suback.{decode_suback, encode_suback_size}
use imserver.Proto.Suback.RoundTrip as SubackBody
use imserver.Proto.Codec.{
  PacketDecodeFunc, packet_decode_map, max_remaing_length, encode_frame, decode_framer, decode_rest,
  decode_frame,
}
use imserver.Proto.Codec.Whole.{HasBody, whole_framer, header_size, decode_frame-whole}
use imserver.Proto.Codec.Wire.{
  frame_body, IsSendable, delivered_frame, wire, arrived, encode_frame-wire,
}

-- No body is empty.
module _ (version : ℕ) where
  connect_some :
      (p : imserver.Proto.Types.ConnectPacket) → 0 < length (ConnectBody.connect_body p version)
  unfolding encode_connect_size
  connect_some p = rw (ConnectBody.length-connect_body p version) (omega arith)

  connack_some :
      (p : imserver.Proto.Types.ConnackPacket) → 0 < length (ConnackBody.connack_body p version)
  unfolding encode_connack_size
  connack_some p = rw (ConnackBody.length-connack_body p version) (omega arith)

  send_some : (p : imserver.Proto.Types.SendPacket) → 0 < length (SendBody.send_body p version)
  unfolding encode_send_size
  send_some p = rw (SendBody.length-send_body p version) (omega arith)

  sendack_some :
      (p : imserver.Proto.Types.SendackPacket) → 0 < length (SendackBody.sendack_body p version)
  unfolding encode_sendack_size
  sendack_some p = rw (SendackBody.length-sendack_body p version) (omega arith)

  recv_some : (p : imserver.Proto.Types.RecvPacket) → 0 < length (RecvBody.recv_body p version)
  unfolding encode_recv_size
  recv_some p = rw (RecvBody.length-recv_body p version) (omega arith)

  recvack_some :
      (p : imserver.Proto.Types.RecvackPacket) → 0 < length (RecvackBody.recvack_body p version)
  unfolding encode_recvack_size
  recvack_some p = rw (RecvackBody.length-recvack_body p version) (omega arith)

  disconnect_some :
      (p : imserver.Proto.Types.DisconnectPacket)
      → 0 < length (DisconnectBody.disconnect_body p version)
  unfolding encode_dis_connect_size
  disconnect_some p = rw (DisconnectBody.length-disconnect_body p version) (omega arith)

  sub_some : (p : imserver.Proto.Types.SubPacket) → 0 < length (SubBody.sub_body p version)
  unfolding encode_sub_size
  sub_some p = rw (SubBody.length-sub_body p version) (omega arith)

  suback_some :
      (p : imserver.Proto.Types.SubackPacket) → 0 < length (SubackBody.suback_body p version)
  unfolding encode_suback_size
  suback_some p = rw (SubackBody.length-suback_body p version) (omega arith)

-- A type is carried whole.
carried_flags-type : (t : ℕ) (f : Framer) → (carried_flags t f).frame_type ≡ t
carried_flags-type t f = ground arith

-- A frame that has a body.
pub frame_some :
    (f : Frame) (version : ℕ)
    → (get_frame_type f == FrameType.ping) ≡ false
    → (get_frame_type f == FrameType.pong) ≡ false
    → 0 < length (frame_body f version)
frame_some (ping f) version a b = cc
frame_some (pong f) version a b = cc
frame_some (connect p) version a b = connect_some version p
frame_some (connack p) version a b = connack_some version p
frame_some (send p) version a b = send_some version p
frame_some (sendack p) version a b = sendack_some version p
frame_some (recv p) version a b = recv_some version p
frame_some (recvack p) version a b = recvack_some version p
frame_some (disconnect p) version a b = disconnect_some version p
frame_some (sub p) version a b = sub_some version p
frame_some (suback p) version a b = suback_some version p

pub read_type :
    (f : Frame) → (framer_from_uint8 (to_fix_header_uint8 f)).frame_type ≡ get_frame_type f
read_type f =
    ap (λ (r : Framer). r.frame_type) (framer_from_uint8-to_fix_header_uint8 f)
    ∙ carried_flags-type (get_frame_type f) (framer_of f)

-- A frame whose body is decoded to `g` is found and decoded.
module _ (f : Frame) (version : ℕ) (rest body : List ℕ) (func : PacketDecodeFunc) (g : Frame) where
  abbrev header : ℕ
  header = to_fix_header_uint8 f

  abbrev framed : List ℕ
  framed = header ∷ (encode_variable (length body) ++ body)

  abbrev sent_framer : Framer
  sent_framer = record (carried_flags (get_frame_type f) (framer_of f)) {
    remaining_length = length body;
    frame_size = length (framed ++ rest);
  }

  whole_framer-sent_framer : whole_framer header body rest ≡ sent_framer
  whole_framer-sent_framer = rw (framer_from_uint8-to_fix_header_uint8 f, append_assoc)

  found :
      HasBody (get_frame_type f) func
      → 0 < length body
      → length body ≤ max_remaing_length
      → func sent_framer body version ≡ ok g
      → decode_frame (framed ++ rest) version ≡ ok (some (g, length framed))
  found k pos small e =
      let k' : HasBody (framer_from_uint8 header).frame_type func = rw (read_type f) k in
      rw append_assoc (
        decode_frame-whole header body rest pos small k' version
        ∙ rw (whole_framer-sent_framer, e) (ap (λ (n : ℕ). ok (some (g, n))) sized))
    where
      sized : header_size header body rest + length body ≡ length framed
      sized = omega (arith, length-append (encode_variable (length body)) body)

-- `DecodeFrame` reads the bytes of a frame that can be sent back, with any version and whatever
-- bytes follow: it returns the frame that is delivered, and the size of what was sent.
pub decode_frame-wire :
    (f : Frame) (version : ℕ) (rest : List ℕ)
    → IsSendable f version
    → decode_frame (wire f version ++ rest) version
      ≡ ok (some (delivered_frame f (arrived f version rest) version, length (wire f version)))
unfolding packet_decode_map
decode_frame-wire (ping f) version rest s =
    unfold decode_frame decode_framer decode_rest framer_from_uint8 in refl
decode_frame-wire (pong f) version rest s =
    unfold decode_frame decode_framer decode_rest framer_from_uint8 in refl
decode_frame-wire (connect p) version rest s =
    found (connect p) version rest (ConnectBody.connect_body p version) decode_connect _
      (record { not_unknown = refl; not_ping = refl; not_pong = refl; decoder = refl })
      (connect_some version p) s.small (ConnectBody.decode_connect-body p s.fits _ version)
decode_frame-wire (connack p) version rest s =
    found (connack p) version rest (ConnackBody.connack_body p version) decode_connack _
      (record { not_unknown = refl; not_ping = refl; not_pong = refl; decoder = refl })
      (connack_some version p) s.small (ConnackBody.decode_connack-body p s.fits _ version refl)
decode_frame-wire (send p) version rest s =
    found (send p) version rest (SendBody.send_body p version) decode_send _
      (record { not_unknown = refl; not_ping = refl; not_pong = refl; decoder = refl })
      (send_some version p) s.small (SendBody.decode_send-body p s.fits _ version)
decode_frame-wire (sendack p) version rest s =
    found (sendack p) version rest (SendackBody.sendack_body p version) decode_sendack _
      (record { not_unknown = refl; not_ping = refl; not_pong = refl; decoder = refl })
      (sendack_some version p) s.small (SendackBody.decode_sendack-body p s.fits _ version)
decode_frame-wire (recv p) version rest s =
    found (recv p) version rest (RecvBody.recv_body p version) decode_recv _
      (record { not_unknown = refl; not_ping = refl; not_pong = refl; decoder = refl })
      (recv_some version p) s.small (RecvBody.decode_recv-body p s.fits _ version)
decode_frame-wire (recvack p) version rest s =
    found (recvack p) version rest (RecvackBody.recvack_body p version) decode_recvack _
      (record { not_unknown = refl; not_ping = refl; not_pong = refl; decoder = refl })
      (recvack_some version p) s.small (RecvackBody.decode_recvack-body p s.fits _ version)
decode_frame-wire (disconnect p) version rest s =
    found (disconnect p) version rest (DisconnectBody.disconnect_body p version) decode_dis_connect
      _ (record { not_unknown = refl; not_ping = refl; not_pong = refl; decoder = refl })
      (disconnect_some version p) s.small
      (DisconnectBody.decode_dis_connect-body p s.fits _ version)
decode_frame-wire (sub p) version rest s =
    found (sub p) version rest (SubBody.sub_body p version) decode_sub _
      (record { not_unknown = refl; not_ping = refl; not_pong = refl; decoder = refl })
      (sub_some version p) s.small (SubBody.decode_sub-body p s.fits _ version)
decode_frame-wire (suback p) version rest s =
    found (suback p) version rest (SubackBody.suback_body p version) decode_suback _
      (record { not_unknown = refl; not_ping = refl; not_pong = refl; decoder = refl })
      (suback_some version p) s.small (SubackBody.decode_suback-body p s.fits _ version)

-- What `EncodeFrame` returns for a frame that can be sent, `DecodeFrame` reads back, whatever bytes
-- follow: it returns the frame that is delivered, and the size of what was encoded.
pub decode_frame-encode_frame :
    (f : Frame) (version : ℕ) (rest bytes : List ℕ)
    → IsSendable f version
    → encode_frame f version ≡ ok bytes
    → decode_frame (bytes ++ rest) version
      ≡ ok (some (delivered_frame f (arrived f version rest) version, length bytes))
decode_frame-encode_frame f version rest bytes s e =
    let same : wire f version ≡ bytes = ok_inj (sym (encode_frame-wire f version s) ∙ e) in
    rw (sym same) (decode_frame-wire f version rest s)
  where
    ok_inj : {a b : List ℕ} → ◌≡◌ {A = Result (List ℕ)} (ok a) (ok b) → a ≡ b
    ok_inj q = cc
