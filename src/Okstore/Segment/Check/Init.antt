-- ===== src/Okstore/Segment/Check/Init.antt =====
-- `init` makes a segment of what a crash left.
use imserver.Prelude.{
  ℕ, zero, suc, ◌+◌, ◌-◌, ◌%◌, ◌^◌, ◌<◌, ◌≡◌, ◌⊎◌, refl, sym, ap, ◌∙◌, true, false, List, [], ◌∷◌,
  ◌++◌, length, length-append, ltb, leb, if◌then◌else◌, arith, inl, inr, Bool-cases,
}
use imserver.Prelude.Int.{pos, sub_ℕ}
use mathlib.Core.Path.{subst}
use imserver.Okstore.File.{Result, ok, ◌>>=◌}
use imserver.Okstore.Message.{decode_message_seq}
use imserver.Okstore.Segment.{Messages, Segment, encode_all, get_file_size}
use imserver.Okstore.Segment.Log.{IsLog, start_of, start-suc, stands, seq_there}
use imserver.Okstore.Segment.Refines.{IsSegment, IsLog-drop}
use imserver.Okstore.Segment.Append.{last_seq}
use imserver.Okstore.Segment.Single.{IsLog-head}
use imserver.Okstore.Segment.Check.{sanity_check, last_seq_at, init}
use imserver.Okstore.Segment.Check.Loops.{last_length}
use imserver.Okstore.Segment.Check.Recovers.{OnDisk, last_length-append}
use imserver.Okstore.Segment.Check.Opens.{Seen, sanity_lem, first-cases, some-start_of}

last-cases :
    {A : Type 0} (l : List A) → (l ≡ []) ⊎ ((before : List A) × ((m : A) × (l ≡ before ++ m ∷ [])))
last-cases [] = inl refl
last-cases (x ∷ l) = elim (last-cases l) [
  | inl e ↦ inr ([], (x, ap (λ t. x ∷ t) e))
  | inr (before, (m, e)) ↦ inr (x ∷ before, (m, ap (λ t. x ∷ t) e))
]

module _ {A : Type 0} (ms : Messages A) where
  last_seq-append :
      (base : ℕ) (before : List A) (m : A) → last_seq ms base (before ++ m ∷ []) ≡ ms.get_seq m
  last_seq-append base [] m = refl
  last_seq-append base (x ∷ before) m = last_seq-append (ms.get_seq x) before m

  -- A segment that is not yet open, and what it finds on the disk. With one message, it has to be the
  -- first behind the base; a part of a message has whole messages before it.
  pub record IsNew (s : Segment) (log : List A) (torn : List ℕ) : Type 0 where
    pub disk : OnDisk ms s log torn
    pub closed : s.is_sanity_check ≡ false
    pub fresh : s.position ≡ 0
    pub unsized : s.file_size ≡ 0
    pub single : (m : A) → log ≡ m ∷ [] → ms.get_seq m ≡ s.base_message_seq + 1
    pub whole : log ≡ [] → torn ≡ []

  module _ (s : Segment) where
    abbrev kept : List A → Segment
    kept l = record s { position = start_of ms l; segment_file = encode_all ms l }

    last_seq_at-some :
        (k : ℕ) (t : Segment)
        → 0 < k
        → last_seq_at (pos k) t ≡ (decode_message_seq t.segment_file k >>= λ p. ok p.0)
    unfolding last_seq_at
    last_seq_at-some zero t some = absurd (omega (arith, some))
    last_seq_at-some (suc n) t some = refl

    start-last :
        (before : List A) (m : A)
        → sub_ℕ (start_of ms (before ++ m ∷ [])) (last_length ms 0 (before ++ m ∷ []))
          ≡ pos (start_of ms before)
    start-last before m =
        let n = last_length-append ms 0 0 before m [] in
        let k = start-suc ms before m in
        let le : leb (length (ms.encode m)) (start_of ms (before ++ m ∷ [])) ≡ true =
          ground (arith, k) in
        let left : start_of ms (before ++ m ∷ []) - length (ms.encode m) ≡ start_of ms before =
          omega (arith, k) in
        rw (n, le, left) refl

    last_seq_at-last :
        (before : List A) (m : A)
        → IsLog ms (before ++ m ∷ [])
        → (before ≡ [] → ms.get_seq m ≡ s.base_message_seq + 1)
        → last_seq_at (pos (start_of ms before)) (kept (before ++ m ∷ [])) ≡ ok (ms.get_seq m)
    unfolding last_seq_at encode_all
    last_seq_at-last [] m log single =
        let h = IsLog-head ms m [] log in
        let some : ltb 0 (start_of ms (m ∷ [])) ≡ true = ground (arith, some-start_of ms m [] h) in
        let seq : (s.base_message_seq + 1) % 2 ^ 32 ≡ ms.get_seq m =
          omega (arith, single refl, h.fits.seq) in
        rw (some, seq) refl
    last_seq_at-last (x ∷ before) m log single =
        let t = kept (x ∷ before ++ m ∷ []) in
        let h = IsLog-head ms m [] (IsLog-drop ms (x ∷ before) log) in
        let there =
          seq_there ms t (start_of ms (x ∷ before)) m _ h (stands ms t (x ∷ before) [] m refl) in
        last_seq_at-some (start_of ms (x ∷ before)) t
          (some-start_of ms x before (IsLog-head ms x _ log))
        ∙ ap (λ r. r >>= λ p. ok p.0) there

  module _ (s : Segment) (log : List A) (torn : List ℕ) (disk : OnDisk ms s log torn)
      (single : (m : A) → log ≡ m ∷ [] → ms.get_seq m ≡ s.base_message_seq + 1) where
    abbrev tail_seq : List A → Result ℕ
    tail_seq l = last_seq_at (sub_ℕ (start_of ms l) (last_length ms 0 l)) (kept s l)

    last_seq_at_lem : tail_seq log ≡ ok (last_seq ms s.base_message_seq log)
    unfolding last_seq_at encode_all
    last_seq_at_lem = elim (last-cases log) [
      | inl e ↦ ap tail_seq e ∙ ap (λ l. ok (last_seq ms s.base_message_seq l)) (sym e)
      | inr (before, (m, e)) ↦
          let one = λ (none : before ≡ []). single m (e ∙ ap (λ l. l ++ m ∷ []) none) in
          ap tail_seq e
          ∙ ap (λ p. last_seq_at p (kept s (before ++ m ∷ []))) (start-last s before m)
          ∙ last_seq_at-last s before m (subst (IsLog ms) e disk.stored) one
          ∙ ap ok (
              sym (last_seq-append s.base_message_seq before m)
              ∙ ap (last_seq ms s.base_message_seq) (sym e))
    ]

  module _ (each_max : ℕ) (s : Segment) (log : List A) (torn : List ℕ) (new : IsNew s log torn)
      (seen : Seen each_max s.segment_file torn) where
    abbrev opened : ℕ → Segment
    opened size = record s { file_size = size }

    on_disk : (size : ℕ) → OnDisk ms (opened size) log torn
    on_disk size =
        let d = new.disk in
        record {
          bytes = d.bytes;
          is_torn = d.is_torn;
          stored = d.stored;
          small = d.small;
          ascends = d.ascends;
          base = d.base;
          valid = d.valid;
          indexed = d.indexed;
        }

    abbrev ready : ℕ → Segment
    ready size = record (kept (opened size) log) {
      last_msg_seq = last_seq ms s.base_message_seq log;
      is_sanity_check = true;
    }

    abbrev checked : Segment → Result Segment
    checked t = sanity_check each_max t >>= λ r. last_seq_at r.0 r.1 >>= λ seq.
        ok (record r.1 { last_msg_seq = seq; is_sanity_check = true })

    checked_lem : (size : ℕ) → checked (opened size) ≡ ok (ready size)
    checked_lem size =
        let d = on_disk size in
        rw
          (
            sanity_lem ms (opened size) log torn d each_max seen new.fresh,
            last_seq_at_lem (opened size) log torn d new.single,
          )
          refl

    size_lem : (size : ℕ) → (log ≡ [] → size ≡ 0) → get_file_size (ready size) ≡ start_of ms log
    unfolding get_file_size encode_all
    size_lem size none = elim (first-cases log) [
      | inl e ↦ ground (arith, none e, ap (start_of ms) e)
      | inr (m, (more, e)) ↦ ground (
        arith,
        ap (start_of ms) e,
        some-start_of ms m more (IsLog-head ms m more (subst (IsLog ms) e new.disk.stored)),
      )
    ]

    ready-IsSegment : (size : ℕ) → (log ≡ [] → size ≡ 0) → IsSegment ms (ready size) log
    ready-IsSegment size none = record {
      holds = record {
        bytes = refl;
        size = size_lem size none;
        at_end = refl;
        stored = new.disk.stored;
      };
      ascends = new.disk.ascends;
      base = new.disk.base;
      valid = new.disk.valid;
      indexed = new.disk.indexed;
    }

    -- The size that `init` notes before the check.
    abbrev noted : ℕ
    noted = if ltb 0 (length s.segment_file) then length s.segment_file else s.file_size

    noted-opened :
        (if ltb 0 (length s.segment_file) then opened (length s.segment_file) else s) ≡ opened noted
    noted-opened = elim (Bool-cases (ltb 0 (length s.segment_file))) [
      | inl some ↦ rw some refl
      | inr none ↦ rw none refl
    ]

    init_lem : init each_max s ≡ ok (ready noted)
    unfolding init
    init_lem =
        ap
          (λ b.
            if b
            then ok s
            else checked
                (if ltb 0 (length s.segment_file) then opened (length s.segment_file) else s))
          new.closed
        ∙ ap checked noted-opened
        ∙ checked_lem noted

    noted_lem : log ≡ [] → noted ≡ 0
    unfolding encode_all
    noted_lem e =
        let bytes = ap length new.disk.bytes ∙ length-append (encode_all ms log) torn in
        let empty : length s.segment_file ≡ 0 =
          omega (arith, bytes, ap (start_of ms) e, ap length (new.whole e)) in
        ground (arith, empty, new.unsized)

-- `init` of a new segment over what a crash left: whole messages whose sequence numbers ascend
-- from the base, the first of them the next after it if it is alone, an index of them, and, behind
-- at least one message, perhaps a part of one more that the check sees, in fewer than 2^32 bytes.
-- It succeeds, the segment then implements the log of exactly the whole messages, and its last
-- sequence number is that of the log's last message, or the base.
pub init-IsSegment :
    {A : Type 0} (ms : Messages A) (each_max : ℕ) (s : Segment) (log : List A) (torn : List ℕ)
    → IsNew ms s log torn
    → Seen each_max s.segment_file torn
    → (t : Segment) × ((init each_max s ≡ ok t)
        × (IsSegment ms t log × (t.last_msg_seq ≡ last_seq ms s.base_message_seq log)))
init-IsSegment ms each_max s log torn new seen = (
  ready ms each_max s log torn new seen _,
  (
    init_lem ms each_max s log torn new seen,
    (
      ready-IsSegment ms each_max s log torn new seen _ (noted_lem ms each_max s log torn new seen),
      refl,
    ),
  ),
)
