-- ===== src/Proto/Suback/RoundTrip.antt =====
-- The body of a SUBACK frame: its bytes, its size, and that it is read as it was written.
use imserver.Prelude.{ℕ, ◌^◌, ◌<◌, ◌≡◌, List, [], ◌++◌, append-nil, append_assoc, length, arith}
use imserver.Proto.Result.{ok}
use imserver.Proto.Types.{Framer, SubackPacket, suback}
use imserver.Proto.Encoder.{Encoder}
use imserver.Proto.Encoder.Appends.{be8, text, appends, lengths}
use imserver.Proto.Decoder.Reads.{
  uint8-Reads, string-Reads, pure-Reads, bind-Reads, decode_all-Reads,
}
use imserver.Proto.Suback.{decode_suback, encode_suback, encode_suback_size}

-- The fields hold what their Go types hold, and every string has less than 2^15 bytes.
pub record Fits (p : SubackPacket) : Type 0 where
  pub sub_no : length p.sub_no < 2 ^ 15
  pub channel_id : length p.channel_id < 2 ^ 15
  pub channel_type : p.channel_type < 2 ^ 8
  pub action : p.action < 2 ^ 8
  pub reason_code : p.reason_code < 2 ^ 8

module _ (p : SubackPacket) where
  -- The bytes of the body.
  pub suback_body : ℕ → List ℕ
  suback_body version =
      text p.sub_no
      ++ (text p.channel_id
          ++ (be8 p.channel_type ++ (be8 p.action ++ (be8 p.reason_code ++ ([])))))

  -- What the receiver has: the fields that are sent, and the zero values of the others.
  abbrev pub delivered : Framer → ℕ → SubackPacket
  delivered framer version = record p { framer = framer }

  -- `suback`'s encoder appends the body to the buffer.
  pub encode_suback-body :
      (enc : Encoder) (version : ℕ) → encode_suback p enc version ≡ enc ++ suback_body version
  unfolding encode_suback suback_body
  encode_suback-body enc version = simp (appends, append_assoc, append-nil)

  pub length-suback_body :
      (version : ℕ) → length (suback_body version) ≡ encode_suback_size p version
  unfolding encode_suback_size suback_body
  length-suback_body version = simp lengths (ground arith)

  module _ (fits : Fits p) where
    pub decode_suback-body :
        (framer : Framer) (version : ℕ)
        → decode_suback framer (suback_body version) version
          ≡ ok (suback (delivered framer version))
    unfolding decode_suback suback_body
    decode_suback-body framer version = decode_all-Reads {rest = []} (
        bind-Reads _ (string-Reads _ _ fits.sub_no) (
          bind-Reads _ (string-Reads _ _ fits.channel_id) (
            bind-Reads _ (uint8-Reads _ _ fits.channel_type) (
              bind-Reads _ (uint8-Reads _ _ fits.action)
                (bind-Reads _ (uint8-Reads _ _ fits.reason_code) (pure-Reads _ []))))))
