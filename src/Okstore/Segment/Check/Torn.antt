-- ===== src/Okstore/Segment/Check/Torn.antt =====
-- A message that was written in part is not taken for a message.
use imserver.Prelude.{
  ℕ, ◌+◌, ◌-◌, ◌≤◌, ◌<◌, ◌≡◌, refl, sym, ap, ◌∙◌, List, [], append-nil, length, take, drop,
  length-take, append-take, take-drop-append, ltb, arith, inl, inr, Bool-cases,
}
use imserver.Proto.Encoder.Appends.{be32}
use imserver.Okstore.File.{eof, full, short, read_at, read_at-drop, equal, uint32}
use imserver.Okstore.Message.{
  encode_message, invalid, check_end, next_message_is_vail, magic_number,
}
use imserver.Okstore.Message.RoundTrip.{
  Fits, length-encode_message, read_magic, read_size, size_there,
}

-- A read within the part that is there.
read_at-take :
    (l : List ℕ) (k offset n : ℕ)
    → offset + n ≤ k
    → k ≤ length l
    → read_at (take k l) offset n ≡ read_at l offset n
unfolding read_at
read_at-take l k offset n h le =
    let part =
      take-drop-append (take k l) (drop k l) offset n (omega (arith, length-take k l, h, le)) in
    let same = sym part ∙ ap (λ x. take n (drop offset x)) (append-take k l) in
    ground (arith, same, length-take k l)

-- A read across the end.
read_at-short :
    (l : List ℕ) (k offset n : ℕ)
    → k ≤ length l
    → k < offset + n
    → read_at (take k l) offset n ≡ short (k - offset)
unfolding read_at
read_at-short l k offset n le h = ground (arith, length-take k l)

module _ (message_seq : ℕ) (body : List ℕ) (fits : Fits message_seq body) where
  abbrev all : List ℕ
  all = encode_message message_seq body

  magic : read_at all 0 2 ≡ full magic_number
  magic = ap (λ l. read_at l 0 2) (sym (append-nil all)) ∙ read_magic message_seq body fits []

  sized : read_at all 3 4 ≡ full (be32 (length body))
  sized = ap (λ l. read_at l 3 4) (sym (append-nil all)) ∙ read_size message_seq body fits []

  pub next_message_is_vail-torn :
      (k : ℕ) (file : List ℕ) (position : ℕ)
      → k < length all
      → position ≤ length file
      → drop position file ≡ take k all
      → (n : ℕ) × (next_message_is_vail file position ≡ invalid n eof)
  unfolding next_message_is_vail check_end equal
  next_message_is_vail-torn k file position cut inside e =
      let size : uint32 (be32 (length body)) ≡ length body = size_there message_seq body fits [] in
      let moved = λ (offset n : ℕ).
        read_at-drop file position offset n inside ∙ ap (λ l. read_at l offset n) e in
      let start =
        let z : position ≡ position + 0 = omega arith in ap (λ p. read_at file p 2) z ∙ moved 0 2 in
      elim (Bool-cases (ltb k 2)) [
        | inl no_magic ↦
            let r = start ∙ read_at-short all k 0 2 (omega (arith, cut)) (ground arith) in
            (k - 0, rw (next_message_is_vail, r) refl)
        | inr some_magic ↦
            let r = start ∙ read_at-take all k 0 2 (ground arith) (omega (arith, cut)) ∙ magic in
            elim (Bool-cases (ltb k 7)) [
              | inl no_size ↦
                  let t = moved 3 4 ∙ read_at-short all k 3 4 (omega (arith, cut)) (ground arith) in
                  (2 + (k - 3), rw (next_message_is_vail, r, t) refl)
              | inr some_size ↦
                  let t =
                    moved 3 4
                    ∙ read_at-take all k 3 4 (ground arith) (omega (arith, cut))
                    ∙ sized in
                  let z : position + 23 + length body ≡ position + (23 + length body) =
                    omega arith in
                  let u =
                    ap (λ p. read_at file p 1) z
                    ∙ moved (23 + length body) 1
                    ∙ read_at-short all k (23 + length body) 1 (omega (arith, cut))
                        (omega (arith, cut, length-encode_message message_seq body)) in
                  (
                    6 + (k - (23 + length body)),
                    rw (next_message_is_vail, r, t, size, check_end, u) refl,
                  )
            ]
      ]
