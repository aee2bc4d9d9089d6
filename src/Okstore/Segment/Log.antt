-- ===== src/Okstore/Segment/Log.antt =====
-- What a segment file holds when it holds whole messages: reading any part of it gives back the
-- messages that stand there.
use imserver.Prelude.{
  ℕ, ◌+◌, ◌≤◌, ◌≡◌, refl, sym, ap, ◌∙◌, List, [], ◌∷◌, ◌++◌, length, drop, append_assoc,
  length-append, drop-append, arith,
}
use imserver.Okstore.File.{Result, ok, ◌>>=◌}
use imserver.Okstore.Message.{encode_message, decode_message_seq, decode_message_at}
use imserver.Okstore.Message.RoundTrip.{
  Fits, length-encode_message, decode_message_seq-there, decode_message_at-there,
}
use imserver.Okstore.Segment.{Messages, Segment, get_file_size, encode_all}

-- A message whose bytes are `EncodeMessage` of some data, and are decoded to it again.
pub record IsStored {A : Type 0} (ms : Messages A) (m : A) : Type 0 where
  pub body : List ℕ
  pub encoded : ms.encode m ≡ encode_message (ms.get_seq m) body
  pub fits : Fits (ms.get_seq m) body
  pub decoded : ms.decode (ms.encode m) ≡ ok m

pub data IsLog {A : Type 0} (ms : Messages A) : List A → Type 0 where
  nil : IsLog ms []
  cons : {m : A} {log : List A} → IsStored ms m → IsLog ms log → IsLog ms (m ∷ log)

-- The callback that collects the messages, the last one in front.
abbrev pub collect : {A : Type 0} → A → List A → Result (List A)
collect m st = ok (st ++ m ∷ [])

module _ {A : Type 0} (ms : Messages A) where
  pub encode_all-append :
      (log more : List A) → encode_all ms (log ++ more) ≡ encode_all ms log ++ encode_all ms more
  unfolding encode_all
  encode_all-append [] more = refl
  encode_all-append (m ∷ log) more =
      ap (λ l. ms.encode m ++ l) (encode_all-append log more)
      ∙ sym (append_assoc (ms.encode m) (encode_all ms log) (encode_all ms more))

  pub IsLog-append : {log more : List A} → IsLog ms log → IsLog ms more → IsLog ms (log ++ more)
  IsLog-append nil b = b
  IsLog-append (cons a log) b = cons a (IsLog-append log b)

  pub length-stored : (m : A) (h : IsStored ms m) → length (ms.encode m) ≡ 24 + length h.body
  length-stored m h = ap length h.encoded ∙ length-encode_message (ms.get_seq m) h.body

-- The file of `s` is the messages of `log`, its size is the one the segment goes by, and the next
-- write goes to the segment's position.
pub record Holds {A : Type 0} (ms : Messages A) (s : Segment) (log : List A) : Type 0 where
  pub bytes : s.segment_file ≡ encode_all ms log
  pub size : get_file_size s ≡ length s.segment_file
  pub at_end : s.position ≡ length s.segment_file
  pub stored : IsLog ms log

-- Where the message behind `before` starts.
abbrev pub start_of : {A : Type 0} → Messages A → List A → ℕ
start_of ms before = length (encode_all ms before)

module _ {A : Type 0} (ms : Messages A) where
  -- The position behind a message.
  pub start-suc :
      (before : List A) (m : A)
      → start_of ms before + length (ms.encode m) ≡ start_of ms (before ++ m ∷ [])
  unfolding encode_all
  start-suc before m = omega (
    arith,
    ap length (encode_all-append ms before (m ∷ [])),
    length-append (encode_all ms before) (ms.encode m ++ []),
    length-append (ms.encode m) [],
  )

module _ {A : Type 0} (ms : Messages A) (s : Segment) where
  -- `m` stands in the file at `position`, and `rest` behind it.
  pub record Stands (position : ℕ) (m : A) (rest : List ℕ) : Type 0 where
    pub inside : position + length (ms.encode m) ≤ length s.segment_file
    pub there : drop position s.segment_file ≡ ms.encode m ++ rest

  pub stands :
      (before after : List A) (m : A)
      → s.segment_file ≡ encode_all ms (before ++ m ∷ after)
      → Stands (start_of ms before) m (encode_all ms after)
  unfolding encode_all
  stands before after m e =
      let split = e ∙ encode_all-append ms before (m ∷ after) in
      record {
        inside = omega (
          arith,
          ap length split,
          length-append (encode_all ms before) (encode_all ms (m ∷ after)),
          length-append (ms.encode m) (encode_all ms after),
        );
        there = ap (drop (start_of ms before)) split ∙ drop-append (encode_all ms before) _ _ refl;
      }

  pub seq_there :
      (position : ℕ) (m : A) (rest : List ℕ) (h : IsStored ms m)
      → Stands position m rest
      → decode_message_seq s.segment_file position ≡ ok (ms.get_seq m, length h.body)
  seq_there position m rest h st =
      decode_message_seq-there (ms.get_seq m) h.body h.fits rest s.segment_file position
        (omega (arith, st.inside)) (st.there ∙ ap (λ l. l ++ rest) h.encoded)

  pub message_there :
      (position : ℕ) (m : A) (rest : List ℕ)
      → IsStored ms m
      → Stands position m rest
      → decode_message_at ms.decode s.segment_file position ≡ ok (m, length (ms.encode m))
  message_there position m rest h st =
      decode_message_at-there (ms.get_seq m) h.body h.fits rest s.segment_file position
        (omega (arith, st.inside)) (st.there ∙ ap (λ l. l ++ rest) h.encoded) ms.decode
      ∙ ap (λ l. ms.decode l >>= λ a. ok (a, 24 + length h.body)) (sym h.encoded)
      ∙ ap (λ r. r >>= λ a. ok (a, 24 + length h.body)) h.decoded
      ∙ ap (λ n. ok (m, n)) (sym (length-stored ms m h))
