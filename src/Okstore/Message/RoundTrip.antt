-- ===== src/Okstore/Message/RoundTrip.antt =====
-- A message that stands in a file is read back.
use imserver.Prelude.{
  ℕ, ◌+◌, ◌%◌, ◌^◌, ◌≤◌, ◌<◌, ◌≡◌, refl, sym, ap, ◌∙◌, List, [], ◌∷◌, ◌++◌, append_assoc,
  append-nil, length, length-append, take, take-append, drop, drop-append, drop-drop, arith,
}
use imserver.Proto.Encoder.Appends.{be32, be64}
use imserver.Okstore.File.{
  Result, ok, ◌>>=◌, Read, full, read_at, whole, equal, uint32, uint64, uint32-be32, uint64-be64,
  read_at-drop,
}
use imserver.Okstore.Message.{
  encode_message, slice, expect, decode_message, valid, check_end, next_message_is_vail,
  decode_message_seq, decode_message_at, end_magic_number, magic_number,
}

-- The header of 23 bytes.
abbrev pub header : ℕ → ℕ → List ℕ
header message_seq size = 0x15 ∷ 0x16 ∷ 0x01 ∷ (be32 size ++ (be64 message_seq ++ be64 0))

header_size :
    (message_seq size : ℕ)
    → size < 2 ^ 32
    → uint32 (take 4 (drop 3 (header message_seq size))) ≡ size
unfolding be32 be64 uint32
header_size message_seq size h = omega arith

-- A slice is what a read of the same place gives.
slice-read_at :
    (l : List ℕ) (lo hi n : ℕ) {p : List ℕ}
    → hi ≡ lo + n
    → read_at l lo n ≡ full p
    → slice l lo hi ≡ ok p
unfolding read_at slice
slice-read_at l lo hi n z h = ground arith

pub record Fits (message_seq : ℕ) (body : List ℕ) : Type 0 where
  pub seq : message_seq < 2 ^ 32
  pub size : length body < 2 ^ 32

module _ (message_seq : ℕ) (body : List ℕ) where
  pub length-encode_message : length (encode_message message_seq body) ≡ 24 + length body
  unfolding encode_message be32 be64
  length-encode_message = omega (arith, length-append body (3 ∷ []))

  module _ (fits : Fits message_seq body) (rest : List ℕ) where
    abbrev there : List ℕ
    there = encode_message message_seq body ++ rest

    pub read_magic : read_at there 0 2 ≡ full magic_number
    unfolding read_at encode_message be32 be64
    read_magic = ground arith

    pub read_size : read_at there 3 4 ≡ full (be32 (length body))
    unfolding read_at encode_message be32 be64
    read_size = ground arith

    read_seq : read_at there 7 8 ≡ full (be64 message_seq)
    unfolding read_at encode_message be32 be64
    read_seq = ground arith

    drop_header : drop 23 there ≡ body ++ (end_magic_number ++ rest)
    unfolding encode_message be32 be64
    drop_header = append_assoc body end_magic_number rest

    length-there : length there ≡ 24 + length body + length rest
    length-there =
        omega (arith, length-encode_message, length-append (encode_message message_seq body) rest)

    drop_body : drop (23 + length body) there ≡ end_magic_number ++ rest
    drop_body =
        sym (drop-drop 23 (length body) there)
        ∙ ap (drop (length body)) drop_header
        ∙ drop-append body (end_magic_number ++ rest) _ refl

    read_end : read_at there (23 + length body) 1 ≡ full end_magic_number
    unfolding read_at
    read_end = ground (arith, drop_body, length-there)

    read_header : read_at there 0 23 ≡ full (header message_seq (length body))
    unfolding read_at encode_message be32 be64
    read_header = ground arith

    read_all : read_at there 0 (24 + length body) ≡ full (encode_message message_seq body)
    unfolding read_at
    read_all = ground (
      arith,
      length-there,
      take-append (encode_message message_seq body) rest (24 + length body),
      length-encode_message,
    )

    pub size_there : uint32 (be32 (length body)) ≡ length body
    size_there = uint32-be32 (length body) fits.size

    -- The message stands at `position` of a file.
    module _ (file : List ℕ) (position : ℕ) (inside : position ≤ length file)
        (e : drop position file ≡ there) where
      moved : (k n : ℕ) {r : Read} → read_at there k n ≡ r → read_at file (position + k) n ≡ r
      moved k n h = read_at-drop file position k n inside ∙ ap (λ (l : List ℕ). read_at l k n) e ∙ h

      at_start : (n : ℕ) {r : Read} → read_at there 0 n ≡ r → read_at file position n ≡ r
      at_start n h =
          let z : position + 0 ≡ position = omega arith in
          ap (λ (k : ℕ). read_at file k n) (sym z) ∙ moved 0 n h

      at_end : read_at file (position + 23 + length body) 1 ≡ full end_magic_number
      at_end =
          let z : position + (23 + length body) ≡ position + 23 + length body = omega arith in
          ap (λ (k : ℕ). read_at file k 1) (sym z) ∙ moved (23 + length body) 1 read_end

      -- `nextMessageIsVail` at a message that is whole gives its size.
      pub next_message_is_vail-there : next_message_is_vail file position ≡ valid (24 + length body)
      unfolding next_message_is_vail check_end equal
      next_message_is_vail-there =
          rw
            (
              at_start 2 read_magic,
              next_message_is_vail,
              moved 3 4 read_size,
              size_there,
              check_end,
              at_end,
            )
            (ap (λ (n : ℕ). valid (24 + n)) size_there)

      -- `decodeMessageSeq` at a message that is whole gives its sequence number and its data's
      -- length.
      pub decode_message_seq-there :
          decode_message_seq file position ≡ ok (message_seq, length body)
      unfolding decode_message_seq whole
      decode_message_seq-there =
          let seq : uint64 (be64 message_seq) % 2 ^ 32 ≡ message_seq =
            omega (arith, fits.seq, uint64-be64 message_seq (omega (arith, fits.seq))) in
          rw (moved 3 4 read_size, moved 7 8 read_seq, size_there, seq) refl

      -- `decodeMessageAt` at a message that is whole gives what `decode` makes of exactly its bytes,
      -- with their number.
      pub decode_message_at-there :
          {A : Type 0} (decode : List ℕ → Result A)
          → decode_message_at decode file position
            ≡ (decode (encode_message message_seq body) >>= λ m. ok (m, 24 + length body))
      unfolding decode_message_at whole expect equal
      decode_message_at-there decode =
          let sized = header_size message_seq (length body) fits.size in
          rw (at_start 23 read_header, sized, at_end, at_start (24 + length body) read_all) refl

    read_rest : (k n : ℕ) {p : List ℕ} → read_at there k n ≡ full p → slice there k (k + n) ≡ ok p
    read_rest k n h = slice-read_at there k (k + n) n refl h

    read_version : read_at there 2 1 ≡ full (1 ∷ [])
    unfolding read_at encode_message be32 be64
    read_version = ground arith

    read_appli : read_at there 15 8 ≡ full (be64 0)
    unfolding read_at encode_message be32 be64
    read_appli = ground arith

    read_body : read_at there 23 (length body) ≡ full body
    unfolding read_at
    read_body = ground (
      arith,
      drop_header,
      length-there,
      take-append body (end_magic_number ++ rest) (length body),
    )

    decode_there : decode_message there ≡ ok (message_seq, body)
    unfolding decode_message expect equal
    decode_there =
        let seq : uint64 (be64 message_seq) % 2 ^ 32 ≡ message_seq =
          omega (arith, fits.seq, uint64-be64 message_seq (omega (arith, fits.seq))) in
        rw
          (
            slice-read_at there 0 2 2 (omega arith) read_magic,
            slice-read_at there 2 3 1 (omega arith) read_version,
            slice-read_at there 3 7 4 (omega arith) read_size,
            slice-read_at there 7 15 8 (omega arith) read_seq,
            slice-read_at there 15 23 8 (omega arith) read_appli,
            size_there,
            slice-read_at there 23 (23 + length body) (length body) refl read_body,
            slice-read_at there (23 + length body) (23 + length body + 1) 1 refl read_end,
            seq,
          )
          refl

-- `DecodeMessage` of what `EncodeMessage` wrote, of a sequence number below 2^32 and fewer than
-- 2^32 bytes of data, gives the sequence number and the data back.
pub decode_message-encode_message :
    (message_seq : ℕ) (body : List ℕ)
    → Fits message_seq body
    → decode_message (encode_message message_seq body) ≡ ok (message_seq, body)
decode_message-encode_message message_seq body fits =
    ap decode_message (sym (append-nil (encode_message message_seq body)))
    ∙ decode_there message_seq body fits []
