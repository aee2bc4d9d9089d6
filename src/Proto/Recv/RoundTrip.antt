-- ===== src/Proto/Recv/RoundTrip.antt =====
-- The body of a RECV frame: its bytes, its size, and that it is read as it was written.
use imserver.Prelude.{
  ℕ, ◌^◌, ◌<◌, ◌≡◌, ◌∷◌, Bool, List, [], ◌++◌, append_assoc, length, leb, ◌&&◌, if◌then◌else◌,
  arith,
}
use imserver.Proto.Result.{ok}
use imserver.Proto.Types.{Framer, RecvPacket, recv, is_set, setting_stream, setting_topic}
use imserver.Proto.Encoder.{Encoder, when}
use imserver.Proto.Encoder.Appends.{be8, be32, be64, text, appends, lengths, when-append}
use imserver.Proto.Decoder.Reads.{
  Reads, uint8-byte, uint8-Reads, int32-Reads, uint32-Reads, int64-Reads, string-Reads,
  binary_all-Reads, pure-Reads, bind-Reads, when-Reads, decode_all-Reads,
}
use imserver.Proto.Recv.{
  Stream, stream_fields, write_stream, no_stream, decode_recv, encode_recv, encode_recv_size,
}

-- The fields hold what their Go types hold, and every string has less than 2^15 bytes.
pub record Fits (p : RecvPacket) : Type 0 where
  pub msg_key : length p.msg_key < 2 ^ 15
  pub from_uid : length p.from_uid < 2 ^ 15
  pub channel_id : length p.channel_id < 2 ^ 15
  pub channel_type : p.channel_type < 2 ^ 8
  pub expire : p.expire < 2 ^ 32
  pub client_msg_no : length p.client_msg_no < 2 ^ 15
  pub message_id : p.message_id < 2 ^ 64
  pub message_seq : p.message_seq < 2 ^ 32
  pub timestamp : p.timestamp < 2 ^ 32
  pub topic : length p.topic < 2 ^ 15
  pub stream_no : length p.stream_no < 2 ^ 15
  pub stream_seq : p.stream_seq < 2 ^ 32
  pub stream_flag : p.stream_flag < 2 ^ 8

abbrev stream_part : RecvPacket → List ℕ
stream_part p = text p.stream_no ++ (be32 p.stream_seq ++ be8 p.stream_flag)

-- The stream as the receiver has it.
abbrev pub sent_stream : RecvPacket → ℕ → Stream
sent_stream p version =
    if leb 2 version && is_set p.setting setting_stream
    then (p.stream_no, p.stream_seq, p.stream_flag)
    else no_stream

stream-Reads :
    (p : RecvPacket)
    → Fits p
    → (rest : List ℕ)
    → Reads stream_fields (stream_part p ++ rest) (p.stream_no, p.stream_seq, p.stream_flag) rest
stream-Reads p fits rest =
    rw (append_assoc, append_assoc)
      (bind-Reads _ (string-Reads _ _ fits.stream_no) (
        bind-Reads _ (uint32-Reads _ _ fits.stream_seq)
          (bind-Reads _ (uint8-Reads _ _ fits.stream_flag) (pure-Reads _ rest))))

write_stream-append : (p : RecvPacket) (w : Encoder) → write_stream p w ≡ w ++ stream_part p
write_stream-append p w = simp (appends, append_assoc)

when_stream-append :
    (c : Bool) (p : RecvPacket) (w : Encoder)
    → when c (write_stream p) w ≡ w ++ (if c then stream_part p else [])
when_stream-append c p w =
    when-append c w (write_stream p) (stream_part p) (write_stream-append p w)

module _ (p : RecvPacket) where
  -- The bytes of the body.
  pub recv_body : ℕ → List ℕ
  recv_body version =
      (p.setting ∷ [])
      ++ (text p.msg_key
          ++ (text p.from_uid
              ++ (text p.channel_id
                  ++ (be8 p.channel_type
                      ++ ((if leb 3 version then be32 p.expire else [])
                          ++ (text p.client_msg_no
                              ++ ((if leb 2 version && is_set p.setting setting_stream
                                    then stream_part p
                                    else [])
                                  ++ (be64 p.message_id
                                      ++ (be32 p.message_seq
                                          ++ (be32 p.timestamp
                                              ++ ((if is_set p.setting setting_topic
                                                    then text p.topic
                                                    else [])
                                                  ++ (p.payload))))))))))))

  -- What the receiver has: the fields that are sent, and the zero values of the others.
  abbrev pub delivered : Framer → ℕ → RecvPacket
  delivered framer version = record p {
    framer = framer;
    expire = if leb 3 version then p.expire else 0;
    stream_no = (sent_stream p version).0;
    stream_seq = (sent_stream p version).1;
    stream_flag = (sent_stream p version).2;
    topic = if is_set p.setting setting_topic then p.topic else [];
    client_seq = 0;
  }

  -- `recv`'s encoder appends the body to the buffer.
  pub encode_recv-body :
      (enc : Encoder) (version : ℕ) → encode_recv p enc version ≡ enc ++ recv_body version
  unfolding encode_recv recv_body
  encode_recv-body enc version = simp (appends, when_stream-append, append_assoc)

  pub length-recv_body : (version : ℕ) → length (recv_body version) ≡ encode_recv_size p version
  unfolding encode_recv_size recv_body
  length-recv_body version = simp lengths (ground arith)

  module _ (fits : Fits p) where
    -- `decodeRecv` reads the body of a RECV packet whose fields fit back, with any version: the
    -- header is the one given, and what the version and the settings leave out is zero.
    pub decode_recv-body :
        (framer : Framer) (version : ℕ)
        → decode_recv framer (recv_body version) version ≡ ok (recv (delivered framer version))
    unfolding decode_recv recv_body
    decode_recv-body framer version = decode_all-Reads {rest = []} (
        bind-Reads _ (uint8-byte _ p.setting) (
          bind-Reads _ (string-Reads _ _ fits.msg_key) (
            bind-Reads _ (string-Reads _ _ fits.from_uid) (
              bind-Reads _ (string-Reads _ _ fits.channel_id) (
                bind-Reads _ (uint8-Reads _ _ fits.channel_type) (
                  bind-Reads _
                    (when-Reads (leb 3 version) (be32 p.expire) _ 0 (uint32-Reads _ _ fits.expire))
                    (bind-Reads _ (string-Reads _ _ fits.client_msg_no) (
                      bind-Reads _
                        (when-Reads (leb 2 version && is_set p.setting setting_stream)
                          (stream_part p) _ no_stream (stream-Reads p fits _))
                        (bind-Reads _ (int64-Reads _ _ fits.message_id) (
                          bind-Reads _ (uint32-Reads _ _ fits.message_seq) (
                            bind-Reads _ (int32-Reads _ _ fits.timestamp) (
                              bind-Reads _
                                (when-Reads (is_set p.setting setting_topic) (text p.topic) _ []
                                  (string-Reads _ _ fits.topic))
                                (bind-Reads _ (binary_all-Reads p.payload)
                                  (pure-Reads _ []))))))))))))))
