-- ===== src/Proto/Recvack/RoundTrip.antt =====
-- The body of a RECVACK frame: its bytes, its size, and that it is read as it was written.
use imserver.Prelude.{ℕ, ◌^◌, ◌<◌, ◌≡◌, List, [], ◌++◌, append-nil, append_assoc, length, arith}
use imserver.Proto.Result.{ok}
use imserver.Proto.Types.{Framer, RecvackPacket, recvack}
use imserver.Proto.Encoder.{Encoder}
use imserver.Proto.Encoder.Appends.{be32, be64, appends, lengths}
use imserver.Proto.Decoder.Reads.{
  uint32-Reads, int64-Reads, pure-Reads, bind-Reads, decode_all-Reads,
}
use imserver.Proto.Recvack.{decode_recvack, encode_recvack, encode_recvack_size}

-- The fields hold what their Go types hold, and every string has less than 2^15 bytes.
pub record Fits (p : RecvackPacket) : Type 0 where
  pub message_id : p.message_id < 2 ^ 64
  pub message_seq : p.message_seq < 2 ^ 32

module _ (p : RecvackPacket) where
  -- The bytes of the body.
  pub recvack_body : ℕ → List ℕ
  recvack_body version = be64 p.message_id ++ (be32 p.message_seq ++ ([]))

  -- What the receiver has: the fields that are sent, and the zero values of the others.
  abbrev pub delivered : Framer → ℕ → RecvackPacket
  delivered framer version = record p { framer = framer }

  -- `recvack`'s encoder appends the body to the buffer.
  pub encode_recvack-body :
      (enc : Encoder) (version : ℕ) → encode_recvack p enc version ≡ enc ++ recvack_body version
  unfolding encode_recvack recvack_body
  encode_recvack-body enc version = simp (appends, append_assoc, append-nil)

  pub length-recvack_body :
      (version : ℕ) → length (recvack_body version) ≡ encode_recvack_size p version
  unfolding encode_recvack_size recvack_body
  length-recvack_body version = simp lengths (ground arith)

  module _ (fits : Fits p) where
    pub decode_recvack-body :
        (framer : Framer) (version : ℕ)
        → decode_recvack framer (recvack_body version) version
          ≡ ok (recvack (delivered framer version))
    unfolding decode_recvack recvack_body
    decode_recvack-body framer version = decode_all-Reads {rest = []} (
        bind-Reads _ (int64-Reads _ _ fits.message_id)
          (bind-Reads _ (uint32-Reads _ _ fits.message_seq) (pure-Reads _ [])))
