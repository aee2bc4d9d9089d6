-- ===== src/Proto/Connect/RoundTrip.antt =====
-- The body of a CONNECT frame: its bytes, its size, and that it is read as it was written.
use imserver.Prelude.{ℕ, ◌^◌, ◌<◌, ◌≡◌, List, [], ◌++◌, append-nil, append_assoc, length, arith}
use imserver.Proto.Result.{ok}
use imserver.Proto.Types.{Framer, ConnectPacket, connect}
use imserver.Proto.Encoder.{Encoder}
use imserver.Proto.Encoder.Appends.{be8, be64, text, appends, lengths}
use imserver.Proto.Decoder.Reads.{
  uint8-Reads, int64-Reads, string-Reads, pure-Reads, bind-Reads, decode_all-Reads,
}
use imserver.Proto.Connect.{decode_connect, encode_connect, encode_connect_size}

-- The fields hold what their Go types hold, and every string has less than 2^15 bytes.
pub record Fits (p : ConnectPacket) : Type 0 where
  pub version : p.version < 2 ^ 8
  pub device_flag : p.device_flag < 2 ^ 8
  pub device_id : length p.device_id < 2 ^ 15
  pub uid : length p.uid < 2 ^ 15
  pub token : length p.token < 2 ^ 15
  pub client_timestamp : p.client_timestamp < 2 ^ 64
  pub client_key : length p.client_key < 2 ^ 15

module _ (p : ConnectPacket) where
  -- The bytes of the body.
  pub connect_body : ℕ → List ℕ
  connect_body version =
      be8 p.version
      ++ (be8 p.device_flag
          ++ (text p.device_id
              ++ (text p.uid
                  ++ (text p.token ++ (be64 p.client_timestamp ++ (text p.client_key ++ ([])))))))

  -- What the receiver has: the fields that are sent, and the zero values of the others.
  abbrev pub delivered : Framer → ℕ → ConnectPacket
  delivered framer version = record p { framer = framer }

  -- `connect`'s encoder appends the body to the buffer.
  pub encode_connect-body :
      (enc : Encoder) (version : ℕ) → encode_connect p enc version ≡ enc ++ connect_body version
  unfolding encode_connect connect_body
  encode_connect-body enc version = simp (appends, append_assoc, append-nil)

  pub length-connect_body :
      (version : ℕ) → length (connect_body version) ≡ encode_connect_size p version
  unfolding encode_connect_size connect_body
  length-connect_body version = simp lengths (ground arith)

  module _ (fits : Fits p) where
    -- `decodeConnect` reads the body of a CONNECT packet whose fields fit back, with any
    -- version; the header is the one given.
    pub decode_connect-body :
        (framer : Framer) (version : ℕ)
        → decode_connect framer (connect_body version) version
          ≡ ok (connect (delivered framer version))
    unfolding decode_connect connect_body
    decode_connect-body framer version = decode_all-Reads {rest = []} (
        bind-Reads _ (uint8-Reads _ _ fits.version) (
          bind-Reads _ (uint8-Reads _ _ fits.device_flag) (
            bind-Reads _ (string-Reads _ _ fits.device_id) (
              bind-Reads _ (string-Reads _ _ fits.uid) (
                bind-Reads _ (string-Reads _ _ fits.token) (
                  bind-Reads _ (int64-Reads _ _ fits.client_timestamp)
                    (bind-Reads _ (string-Reads _ _ fits.client_key) (pure-Reads _ []))))))))
