-- ===== src/Proto/Sub/RoundTrip.antt =====
-- The body of a SUB frame: its bytes, its size, and that it is read as it was written.
use imserver.Prelude.{
  ℕ, ◌^◌, ◌<◌, ◌≡◌, ◌∷◌, List, [], ◌++◌, append-nil, append_assoc, length, arith,
}
use imserver.Proto.Result.{ok}
use imserver.Proto.Types.{Framer, SubPacket, sub}
use imserver.Proto.Encoder.{Encoder}
use imserver.Proto.Encoder.Appends.{be8, text, appends, lengths}
use imserver.Proto.Decoder.Reads.{
  uint8-byte, uint8-Reads, string-Reads, pure-Reads, bind-Reads, decode_all-Reads,
}
use imserver.Proto.Sub.{decode_sub, encode_sub, encode_sub_size}

-- The fields hold what their Go types hold, and every string has less than 2^15 bytes.
pub record Fits (p : SubPacket) : Type 0 where
  pub sub_no : length p.sub_no < 2 ^ 15
  pub channel_id : length p.channel_id < 2 ^ 15
  pub channel_type : p.channel_type < 2 ^ 8
  pub action : p.action < 2 ^ 8
  pub param : length p.param < 2 ^ 15

module _ (p : SubPacket) where
  -- The bytes of the body.
  pub sub_body : ℕ → List ℕ
  sub_body version =
      (p.setting ∷ [])
      ++ (text p.sub_no
          ++ (text p.channel_id
              ++ (be8 p.channel_type ++ (be8 p.action ++ (text p.param ++ ([]))))))

  -- What the receiver has: the fields that are sent, and the zero values of the others.
  abbrev pub delivered : Framer → ℕ → SubPacket
  delivered framer version = record p { framer = framer }

  -- `sub`'s encoder appends the body to the buffer.
  pub encode_sub-body :
      (enc : Encoder) (version : ℕ) → encode_sub p enc version ≡ enc ++ sub_body version
  unfolding encode_sub sub_body
  encode_sub-body enc version = simp (appends, append_assoc, append-nil)

  pub length-sub_body : (version : ℕ) → length (sub_body version) ≡ encode_sub_size p version
  unfolding encode_sub_size sub_body
  length-sub_body version = simp lengths (ground arith)

  module _ (fits : Fits p) where
    pub decode_sub-body :
        (framer : Framer) (version : ℕ)
        → decode_sub framer (sub_body version) version ≡ ok (sub (delivered framer version))
    unfolding decode_sub sub_body
    decode_sub-body framer version = decode_all-Reads {rest = []} (
        bind-Reads _ (uint8-byte _ p.setting) (
          bind-Reads _ (string-Reads _ _ fits.sub_no) (
            bind-Reads _ (string-Reads _ _ fits.channel_id) (
              bind-Reads _ (uint8-Reads _ _ fits.channel_type) (
                bind-Reads _ (uint8-Reads _ _ fits.action)
                  (bind-Reads _ (string-Reads _ _ fits.param) (pure-Reads _ [])))))))
