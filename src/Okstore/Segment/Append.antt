-- ===== src/Okstore/Segment/Append.antt =====
-- `appendMessages` of a segment that implements a log implements the longer log.
use imserver.Prelude.{
  ℕ, ◌+◌, ◌-◌, ◌%◌, ◌^◌, ◌≤◌, ◌<◌, ◌≡◌, refl, sym, ap, ◌∙◌, Bool, true, false, List, [], ◌∷◌, ◌++◌,
  length, ◌==◌, append_assoc, append-nil, length-append, arith, inl, inr,
}
use mathlib.Core.Path.{subst}
use imserver.Okstore.Index.{Index, MessageSeqPosition, parse_entry, append}
use imserver.Okstore.Index.Search.{count}
use imserver.Okstore.Index.Entries.{IsValid, IsNext, append-IsValid, append-entry, append-base}
use imserver.Okstore.Segment.{
  Messages, Segment, get_file_size, encode_all, append_bytes, append_messages, mark,
}
use imserver.Okstore.Segment.Single.{IsLog-head}
use imserver.Okstore.Segment.Log.{length-stored, IsLog, start_of, encode_all-append, IsLog-append}
use imserver.Okstore.Segment.Refines.{IsSegment, Ascends, next, Refers}

module _ {A : Type 0} (ms : Messages A) where
  -- The last sequence number.
  abbrev pub last_seq : ℕ → List A → ℕ
  last_seq base [] = base
  last_seq base (m ∷ log) = last_seq (ms.get_seq m) log

  Ascends-append :
      (base : ℕ) (log more : List A)
      → Ascends ms base log
      → Ascends ms (last_seq base log) more
      → Ascends ms base (log ++ more)
  Ascends-append base [] more up upper = upper
  Ascends-append base (m ∷ log) more (next h up) upper =
      next h (Ascends-append (ms.get_seq m) log more up upper)

  le-last_seq : (base : ℕ) (log : List A) → Ascends ms base log → base ≤ last_seq base log
  le-last_seq base [] up = omega arith
  le-last_seq base (m ∷ log) (next h up) = omega (arith, h, le-last_seq (ms.get_seq m) log up)

  member-last_seq :
      (base : ℕ) (before : List A) (m : A) (after : List A)
      → Ascends ms base (before ++ m ∷ after)
      → ms.get_seq m ≤ last_seq base (before ++ m ∷ after)
  member-last_seq base [] m after (next h up) = le-last_seq (ms.get_seq m) after up
  member-last_seq base (x ∷ before) m after (next h up) =
      member-last_seq (ms.get_seq x) before m after up

  Refers-append :
      (log more : List A) (p : MessageSeqPosition) → Refers ms log p → Refers ms (log ++ more) p
  Refers-append log more p r = record {
    before = r.before;
    after = r.after ++ more;
    message = r.message;
    split = ap (λ l. l ++ more) r.split ∙ append_assoc r.before (r.message ∷ r.after) more;
    seq = r.seq;
    position = r.position;
  }

-- What may be written behind a log: whole messages with higher sequence numbers of 32 bits, in a file
-- that stays under 2^32 bytes.
pub record CanAppend {A : Type 0} (ms : Messages A) (s : Segment) (log more : List A) : Type 0 where
  pub stored : IsLog ms more
  pub ascends : Ascends ms (last_seq ms s.base_message_seq log) more
  pub small : start_of ms (log ++ more) < 2 ^ 32
  pub seqs : last_seq ms s.base_message_seq (log ++ more) < 2 ^ 32

module _ {A : Type 0} (ms : Messages A) (s : Segment) (log : List A) (m : A) (more : List A)
    (seg : IsSegment ms s log) (can : CanAppend ms s log (m ∷ more)) where
  abbrev added : List A
  added = m ∷ more

  abbrev written : Segment
  written = append_bytes (encode_all ms added) s

  length-added : start_of ms (log ++ added) ≡ start_of ms log + start_of ms added
  length-added =
      ap length (encode_all-append ms log added)
      ∙ length-append (encode_all ms log) (encode_all ms added)

  position_lem : s.position ≡ start_of ms log
  position_lem = seg.holds.at_end ∙ ap length seg.holds.bytes

  file-written : written.segment_file ≡ encode_all ms (log ++ added)
  unfolding append_bytes
  file-written =
      ap (λ l. l ++ encode_all ms added) seg.holds.bytes ∙ sym (encode_all-append ms log added)

  position-written : written.position ≡ start_of ms (log ++ added)
  unfolding append_bytes
  position-written = omega (arith, position_lem, length-added, can.small)

  some_bytes : 0 < start_of ms added
  unfolding encode_all
  some_bytes = omega (
    arith,
    length-append (ms.encode m) (encode_all ms more),
    length-stored ms m (IsLog-head ms m more can.stored),
  )

  above-added : last_seq ms s.base_message_seq log < ms.get_seq m
  above-added = elim can.ascends [ next h up ↦ h ]

  seq-added : ms.get_seq m < 2 ^ 32
  seq-added =
      let up = Ascends-append ms s.base_message_seq log added seg.ascends can.ascends in
      omega (arith, can.seqs, member-last_seq ms s.base_message_seq log m more up)

  -- The index entry of the first message that is written.
  start : ℕ
  start = (written.position + 2 ^ 32 - start_of ms added % 2 ^ 32) % 2 ^ 32

  start_lem : start ≡ start_of ms log
  unfolding start
  start_lem = omega (arith, position-written, length-added, can.small)

  entry-IsNext : IsNext s.index (ms.get_seq m) start
  entry-IsNext = record {
    seq = seq-added;
    small = omega (arith, start_lem, length-added, can.small);
    behind = λ i h.
        (let r = seg.indexed i h in
          omega (
            arith,
            r.seq,
            above-added,
            member-last_seq ms s.base_message_seq r.before r.message r.after
                (subst (Ascends ms s.base_message_seq) r.split seg.ascends),
            ap (last_seq ms s.base_message_seq) r.split,
          ));
  }

  Indexed : Index → Type 0
  Indexed idx = (i : ℕ) → i < count idx → Refers ms (log ++ added) (parse_entry idx i)

  -- The segment with the longer file and an index of the longer log.
  longer-IsSegment :
      (idx : Index) (k : ℕ)
      → idx.base_message_seq ≡ s.base_message_seq
      → IsValid idx
      → Indexed idx
      → IsSegment ms
          (record written { index = idx; bytes_since_last_index_entry = k })
          (log ++ added)
  unfolding append_bytes get_file_size Indexed
  longer-IsSegment idx k base valid indexed = record {
    holds = record {
      bytes = file-written;
      size =
          (let some : (written.position == 0) ≡ false =
              ground (arith, position-written, length-added, some_bytes) in
            rw some (position-written ∙ sym (ap length file-written)));
      at_end = position-written ∙ sym (ap length file-written);
      stored = IsLog-append ms seg.holds.stored can.stored;
    };
    ascends = Ascends-append ms s.base_message_seq log added seg.ascends can.ascends;
    base = base;
    valid = valid;
    indexed = indexed;
  }

  old-Indexed : Indexed s.index
  unfolding Indexed
  old-Indexed i h = Refers-append ms log added (parse_entry s.index i) (seg.indexed i h)

  new-Indexed : Indexed (append (ms.get_seq m) start s.index)
  unfolding Indexed
  new-Indexed i h = elim (append-entry s.index (ms.get_seq m) start seg.valid entry-IsNext i h) [
    | inl (old, e) ↦ subst (Refers ms (log ++ added)) (sym e) (old-Indexed i old)
    | inr e ↦ record {
      before = log;
      after = more;
      message = m;
      split = refl;
      seq = ap (λ p. p.message_seq) e;
      position = ap (λ p. p.position) e ∙ start_lem;
    }
  ]

  mark-IsSegment :
      (due : Bool) (k : ℕ)
      → IsSegment ms
          (record (mark due (ms.get_seq m) (start_of ms added) written) {
            bytes_since_last_index_entry = k;
          })
          (log ++ added)
  unfolding start append_bytes
  mark-IsSegment false k = longer-IsSegment s.index k seg.base seg.valid old-Indexed
  mark-IsSegment true k =
      longer-IsSegment (append (ms.get_seq m) start s.index) k
        (append-base s.index (ms.get_seq m) start ∙ seg.base)
        (append-IsValid s.index (ms.get_seq m) start seg.valid entry-IsNext) new-Indexed

-- `appendMessages` to a segment that implements a log, of whole messages whose sequence numbers
-- ascend from the log's last and are below 2^32, into a file that stays under 2^32 bytes, gives a
-- segment that implements the log with these messages behind it.
pub append_messages-IsSegment :
    {A : Type 0} (ms : Messages A) (s : Segment) (log added : List A)
    → IsSegment ms s log
    → CanAppend ms s log added
    → IsSegment ms (append_messages ms added s).0 (log ++ added)
unfolding append_messages
append_messages-IsSegment ms s log [] seg can = subst (IsSegment ms s) (sym (append-nil log)) seg
append_messages-IsSegment ms s log (m ∷ more) seg can = mark-IsSegment ms s log m more seg can _ _
