-- ===== src/Proto/Send/RoundTrip.antt =====
-- The body of a SEND frame: its bytes, its size, and that it is read as it was written.
use imserver.Prelude.{
  ℕ, ◌%◌, ◌^◌, ◌<◌, ◌≡◌, ◌∷◌, List, [], ◌++◌, append_assoc, length, leb, ◌&&◌, if◌then◌else◌, arith,
}
use imserver.Proto.Result.{ok}
use imserver.Proto.Types.{Framer, SendPacket, send, is_set, setting_stream, setting_topic}
use imserver.Proto.Encoder.{Encoder}
use imserver.Proto.Encoder.Appends.{be8, be32, text, appends, lengths}
use imserver.Proto.Decoder.Reads.{
  uint8-byte, uint8-Reads, uint32-Reads, string-Reads, binary_all-Reads, pure-Reads, bind-Reads,
  when-Reads, decode_all-Reads,
}
use imserver.Proto.Send.{decode_send, encode_send, encode_send_size}

-- The fields hold what their Go types hold, and every string has less than 2^15 bytes.
pub record Fits (p : SendPacket) : Type 0 where
  pub client_msg_no : length p.client_msg_no < 2 ^ 15
  pub stream_no : length p.stream_no < 2 ^ 15
  pub channel_id : length p.channel_id < 2 ^ 15
  pub channel_type : p.channel_type < 2 ^ 8
  pub expire : p.expire < 2 ^ 32
  pub msg_key : length p.msg_key < 2 ^ 15
  pub topic : length p.topic < 2 ^ 15

module _ (p : SendPacket) where
  -- The bytes of the body.
  pub send_body : ℕ → List ℕ
  send_body version =
      (p.setting ∷ [])
      ++ (be32 (p.client_seq % 2 ^ 32)
          ++ (text p.client_msg_no
              ++ ((if leb 2 version && is_set p.setting setting_stream
                    then text p.stream_no
                    else [])
                  ++ (text p.channel_id
                      ++ (be8 p.channel_type
                          ++ ((if leb 3 version then be32 p.expire else [])
                              ++ (text p.msg_key
                                  ++ ((if is_set p.setting setting_topic then text p.topic else [])
                                      ++ (p.payload)))))))))

  -- What the receiver has: the fields that are sent, and the zero values of the others.
  abbrev pub delivered : Framer → ℕ → SendPacket
  delivered framer version = record p {
    framer = framer;
    client_seq = p.client_seq % 2 ^ 32;
    stream_no = if leb 2 version && is_set p.setting setting_stream then p.stream_no else [];
    expire = if leb 3 version then p.expire else 0;
    topic = if is_set p.setting setting_topic then p.topic else [];
  }

  -- `send`'s encoder appends the body to the buffer.
  pub encode_send-body :
      (enc : Encoder) (version : ℕ) → encode_send p enc version ≡ enc ++ send_body version
  unfolding encode_send send_body
  encode_send-body enc version = simp (appends, append_assoc)

  pub length-send_body : (version : ℕ) → length (send_body version) ≡ encode_send_size p version
  unfolding encode_send_size send_body
  length-send_body version = simp lengths (ground arith)

  module _ (fits : Fits p) where
    -- `decodeSend` reads the body of a SEND packet whose fields fit back, with any version: the
    -- header is the one given, and what the version and the settings leave out is zero.
    pub decode_send-body :
        (framer : Framer) (version : ℕ)
        → decode_send framer (send_body version) version ≡ ok (send (delivered framer version))
    unfolding decode_send send_body
    decode_send-body framer version = decode_all-Reads {rest = []} (
        bind-Reads _ (uint8-byte _ p.setting) (
          bind-Reads _ (uint32-Reads _ (p.client_seq % 2 ^ 32) (omega arith)) (
            bind-Reads _ (string-Reads _ _ fits.client_msg_no) (
              bind-Reads _
                (when-Reads (leb 2 version && is_set p.setting setting_stream) (text p.stream_no) _
                  [] (string-Reads _ _ fits.stream_no))
                (bind-Reads _ (string-Reads _ _ fits.channel_id) (
                  bind-Reads _ (uint8-Reads _ _ fits.channel_type) (
                    bind-Reads _
                      (when-Reads (leb 3 version) (be32 p.expire) _ 0
                        (uint32-Reads _ _ fits.expire))
                      (bind-Reads _ (string-Reads _ _ fits.msg_key) (
                        bind-Reads _
                          (when-Reads (is_set p.setting setting_topic) (text p.topic) _ []
                            (string-Reads _ _ fits.topic))
                          (bind-Reads _ (binary_all-Reads p.payload) (pure-Reads _ [])))))))))))
