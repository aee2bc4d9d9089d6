-- ===== src/Proto/Disconnect/RoundTrip.antt =====
-- The body of a DISCONNECT frame: its bytes, its size, and that it is read as it was written.
use imserver.Prelude.{ℕ, ◌^◌, ◌<◌, ◌≡◌, List, [], ◌++◌, append-nil, append_assoc, length, arith}
use imserver.Proto.Result.{ok}
use imserver.Proto.Types.{Framer, DisconnectPacket, disconnect}
use imserver.Proto.Encoder.{Encoder}
use imserver.Proto.Encoder.Appends.{be8, text, appends, lengths}
use imserver.Proto.Decoder.Reads.{
  uint8-Reads, string-Reads, pure-Reads, bind-Reads, decode_all-Reads,
}
use imserver.Proto.Disconnect.{decode_dis_connect, encode_dis_connect, encode_dis_connect_size}

-- The fields hold what their Go types hold, and every string has less than 2^15 bytes.
pub record Fits (p : DisconnectPacket) : Type 0 where
  pub reason_code : p.reason_code < 2 ^ 8
  pub reason : length p.reason < 2 ^ 15

module _ (p : DisconnectPacket) where
  -- The bytes of the body.
  pub disconnect_body : ℕ → List ℕ
  disconnect_body version = be8 p.reason_code ++ (text p.reason ++ ([]))

  -- What the receiver has: the fields that are sent, and the zero values of the others.
  abbrev pub delivered : Framer → ℕ → DisconnectPacket
  delivered framer version = record p { framer = framer }

  -- `disconnect`'s encoder appends the body to the buffer.
  pub encode_dis_connect-body :
      (enc : Encoder) (version : ℕ)
      → encode_dis_connect p enc version ≡ enc ++ disconnect_body version
  unfolding encode_dis_connect disconnect_body
  encode_dis_connect-body enc version = simp (appends, append_assoc, append-nil)

  pub length-disconnect_body :
      (version : ℕ) → length (disconnect_body version) ≡ encode_dis_connect_size p version
  unfolding encode_dis_connect_size disconnect_body
  length-disconnect_body version = simp lengths (ground arith)

  module _ (fits : Fits p) where
    pub decode_dis_connect-body :
        (framer : Framer) (version : ℕ)
        → decode_dis_connect framer (disconnect_body version) version
          ≡ ok (disconnect (delivered framer version))
    unfolding decode_dis_connect disconnect_body
    decode_dis_connect-body framer version = decode_all-Reads {rest = []} (
        bind-Reads _ (uint8-Reads _ _ fits.reason_code)
          (bind-Reads _ (string-Reads _ _ fits.reason) (pure-Reads _ [])))
