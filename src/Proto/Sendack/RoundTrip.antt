-- ===== src/Proto/Sendack/RoundTrip.antt =====
-- The body of a SENDACK frame: its bytes, its size, and that it is read as it was written.
use imserver.Prelude.{
  ℕ, ◌%◌, ◌^◌, ◌<◌, ◌≡◌, List, [], ◌++◌, append-nil, append_assoc, length, arith,
}
use imserver.Proto.Result.{ok}
use imserver.Proto.Types.{Framer, SendackPacket, sendack}
use imserver.Proto.Encoder.{Encoder}
use imserver.Proto.Encoder.Appends.{be8, be32, be64, appends, lengths}
use imserver.Proto.Decoder.Reads.{
  uint8-Reads, uint32-Reads, int64-Reads, pure-Reads, bind-Reads, decode_all-Reads,
}
use imserver.Proto.Sendack.{decode_sendack, encode_sendack, encode_sendack_size}

-- The fields hold what their Go types hold, and every string has less than 2^15 bytes.
pub record Fits (p : SendackPacket) : Type 0 where
  pub message_id : p.message_id < 2 ^ 64
  pub message_seq : p.message_seq < 2 ^ 32
  pub reason_code : p.reason_code < 2 ^ 8

module _ (p : SendackPacket) where
  -- The bytes of the body.
  pub sendack_body : ℕ → List ℕ
  sendack_body version =
      be64 p.message_id
      ++ (be32 (p.client_seq % 2 ^ 32) ++ (be32 p.message_seq ++ (be8 p.reason_code ++ ([]))))

  -- What the receiver has: the fields that are sent, and the zero values of the others.
  abbrev pub delivered : Framer → ℕ → SendackPacket
  delivered framer version = record p {
    framer = framer;
    client_seq = p.client_seq % 2 ^ 32;
    client_msg_no = [];
  }

  -- `sendack`'s encoder appends the body to the buffer.
  pub encode_sendack-body :
      (enc : Encoder) (version : ℕ) → encode_sendack p enc version ≡ enc ++ sendack_body version
  unfolding encode_sendack sendack_body
  encode_sendack-body enc version = simp (appends, append_assoc, append-nil)

  pub length-sendack_body :
      (version : ℕ) → length (sendack_body version) ≡ encode_sendack_size p version
  unfolding encode_sendack_size sendack_body
  length-sendack_body version = simp lengths (ground arith)

  module _ (fits : Fits p) where
    pub decode_sendack-body :
        (framer : Framer) (version : ℕ)
        → decode_sendack framer (sendack_body version) version
          ≡ ok (sendack (delivered framer version))
    unfolding decode_sendack sendack_body
    decode_sendack-body framer version = decode_all-Reads {rest = []} (
        bind-Reads _ (int64-Reads _ _ fits.message_id) (
          bind-Reads _ (uint32-Reads _ (p.client_seq % 2 ^ 32) (omega arith)) (
            bind-Reads _ (uint32-Reads _ _ fits.message_seq)
              (bind-Reads _ (uint8-Reads _ _ fits.reason_code) (pure-Reads _ [])))))
