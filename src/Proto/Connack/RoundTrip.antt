-- ===== src/Proto/Connack/RoundTrip.antt =====
-- The body of a CONNACK frame: its bytes, its size, and that it is read as it was written.
use imserver.Prelude.{
  ℕ, ◌^◌, ◌<◌, ◌≡◌, ◌∷◌, List, [], ◌++◌, append-nil, append_assoc, length, if◌then◌else◌, arith,
}
use imserver.Proto.Result.{ok}
use imserver.Proto.Types.{Framer, ConnackPacket, connack}
use imserver.Proto.Encoder.{Encoder}
use imserver.Proto.Encoder.Appends.{be8, be64, text, appends, lengths}
use imserver.Proto.Decoder.Reads.{
  uint8-byte, uint8-Reads, int64-Reads, string-Reads, pure-Reads, bind-Reads, when-Reads,
  decode_all-Reads,
}
use imserver.Proto.Connack.{decode_connack, encode_connack, encode_connack_size}

-- The fields hold what their Go types hold, and every string has less than 2^15 bytes.
pub record Fits (p : ConnackPacket) : Type 0 where
  pub server_version : p.server_version < 2 ^ 8
  pub time_diff : p.time_diff < 2 ^ 64
  pub server_key : length p.server_key < 2 ^ 15
  pub salt : length p.salt < 2 ^ 15

module _ (p : ConnackPacket) where
  -- The bytes of the body.
  pub connack_body : ℕ → List ℕ
  connack_body version =
      (if p.framer.has_server_version then be8 p.server_version else [])
      ++ (be64 p.time_diff
          ++ ((p.reason_code ∷ []) ++ (text p.server_key ++ (text p.salt ++ ([])))))

  -- What the receiver has: the fields that are sent, and the zero values of the others.
  abbrev pub delivered : Framer → ℕ → ConnackPacket
  delivered framer version = record p {
    framer = framer;
    server_version = if p.framer.has_server_version then p.server_version else 0;
  }

  -- `connack`'s encoder appends the body to the buffer.
  pub encode_connack-body :
      (enc : Encoder) (version : ℕ) → encode_connack p enc version ≡ enc ++ connack_body version
  unfolding encode_connack connack_body
  encode_connack-body enc version = simp (appends, append_assoc, append-nil)

  pub length-connack_body :
      (version : ℕ) → length (connack_body version) ≡ encode_connack_size p version
  unfolding encode_connack_size connack_body
  length-connack_body version = simp lengths (ground arith)

  module _ (fits : Fits p) where
    -- `decodeConnack` reads the body of a CONNACK packet whose fields fit back, with any version
    -- and any header with the packet's flag of the server version, which is zero without it.
    pub decode_connack-body :
        (framer : Framer) (version : ℕ)
        → framer.has_server_version ≡ p.framer.has_server_version
        → decode_connack framer (connack_body version) version
          ≡ ok (connack (delivered framer version))
    unfolding decode_connack connack_body
    decode_connack-body framer version same = decode_all-Reads {rest = []} (
        rw same (
          bind-Reads _
            (when-Reads (p.framer.has_server_version) (be8 p.server_version) _ 0
              (uint8-Reads _ _ fits.server_version))
            (bind-Reads _ (int64-Reads _ _ fits.time_diff) (
              bind-Reads _ (uint8-byte _ p.reason_code) (
                bind-Reads _ (string-Reads _ _ fits.server_key)
                  (bind-Reads _ (string-Reads _ _ fits.salt) (pure-Reads _ [])))))))
