-- ===== src/Okstore/Segment/Check/Recovers.antt =====
-- A segment file that is opened after a crash.
use imserver.Prelude.{
  ℕ, suc, ◌+◌, ◌-◌, ◌%◌, ◌^◌, ◌<◌, ◌≡◌, refl, sym, ap, ap₂, ◌∙◌, true, List, [], ◌∷◌, ◌++◌,
  append-nil, length, length-append, take, take-append, leb, ◌==◌, arith, inl, inr, Bool-cases,
  ◌&&◌,
}
use imserver.Prelude.Int.{ℤ, sub_ℕ}
use mathlib.Core.Path.{subst}
use imserver.Okstore.Message.{min_message_len}
use imserver.Okstore.Index.{MessageSeqPosition, parse_entry, last_position}
use imserver.Okstore.Index.Search.{count}
use imserver.Okstore.Index.Entries.{IsValid}
use imserver.Okstore.Segment.{Messages, Segment, encode_all}
use imserver.Okstore.Segment.Log.{IsLog, start_of}
use imserver.Okstore.Segment.Refines.{Ascends, Refers, IsLog-drop}
use imserver.Okstore.Segment.Check.{check_loop, truncate, check, simple_loop, sanity_simple_check}
use imserver.Okstore.Segment.Check.Loops.{IsTorn, last_length, check_loop-log, simple_loop-log}

module _ {A : Type 0} (ms : Messages A) where
  -- What the disk has: whole messages and, perhaps, a part of one more, and an index of the messages.
  pub record OnDisk (s : Segment) (log : List A) (torn : List ℕ) : Type 0 where
    pub bytes : s.segment_file ≡ encode_all ms log ++ torn
    pub is_torn : IsTorn ms torn
    pub stored : IsLog ms log
    pub small : length s.segment_file < 2 ^ 32
    pub ascends : Ascends ms s.base_message_seq log
    pub base : s.index.base_message_seq ≡ s.base_message_seq
    pub valid : IsValid s.index
    pub indexed : (i : ℕ) → i < count s.index → Refers ms log (parse_entry s.index i)

  pub last_length-append :
      (n k : ℕ) (before : List A) (m : A) (after : List A)
      → last_length ms n (before ++ m ∷ after) ≡ last_length ms k (m ∷ after)
  last_length-append n k [] m after = refl
  last_length-append n k (x ∷ before) m after =
      last_length-append (length (ms.encode x)) k before m after

  module _ (s : Segment) (log : List A) (torn : List ℕ) (disk : OnDisk s log torn) where
    abbrev pub cut : Segment
    cut = record s { position = start_of ms log; segment_file = encode_all ms log }

    abbrev pub last_start : ℤ
    last_start = sub_ℕ (start_of ms log) (last_length ms 0 log)

    pub length-file : length s.segment_file ≡ start_of ms log + length torn
    length-file = ap length disk.bytes ∙ length-append (encode_all ms log) torn

    pub length-none : length torn ≡ 0 → s.segment_file ≡ encode_all ms log
    length-none h =
        disk.bytes
        ∙ ap (λ l. encode_all ms log ++ l) (none_of torn h)
        ∙ append-nil (encode_all ms log)
      where
        none_of : (l : List ℕ) → length l ≡ 0 → l ≡ []
        none_of [] h = refl
        none_of (x ∷ l) h = absurd (omega arith)

    loop_lem :
        check_loop (suc (length s.segment_file)) s.segment_file (length s.segment_file) 0 0 0
        ≡ (start_of ms log, last_length ms 0 log)
    unfolding encode_all
    loop_lem =
        check_loop-log ms torn disk.is_torn s.segment_file (suc (length s.segment_file)) [] log 0
          disk.stored disk.bytes disk.small (omega arith)

    truncate_lem : truncate (start_of ms log) s.segment_file ≡ encode_all ms log
    unfolding truncate
    truncate_lem =
        let n : start_of ms log - length s.segment_file ≡ 0 = omega (arith, length-file) in
        rw n (
          append-nil (take (start_of ms log) s.segment_file)
          ∙ ap (take (start_of ms log)) disk.bytes
          ∙ take-append (encode_all ms log) torn _ refl)

    -- `check` cuts the file behind the last whole message.
    pub check_lem : check (length s.segment_file) s ≡ (last_start, cut)
    unfolding check
    check_lem = elim (Bool-cases (start_of ms log == length s.segment_file % 2 ^ 32)) [
      | inl whole ↦
          let e = length-none (ground (arith, length-file, disk.small)) in
          rw (loop_lem, whole)
            (ap (λ f. (last_start, record s { position = start_of ms log; segment_file = f })) e)
      | inr part ↦
          rw (loop_lem, part)
            (ap (λ f. (last_start, record s { position = start_of ms log; segment_file = f }))
              truncate_lem)
    ]

    -- Where the simple check starts: at a message of the log.
    record Within (p : MessageSeqPosition) : Type 0 where
      before : List A
      message : A
      after : List A
      split : log ≡ before ++ message ∷ after
      position : p.position ≡ start_of ms before

    within : (m : A) (more : List A) → log ≡ m ∷ more → Within (last_position s.index)
    unfolding last_position encode_all
    within m more e = elim (Bool-cases (s.index.position == 0)) [
      | inl empty ↦
          rw empty (record { before = []; message = m; after = more; split = e; position = refl })
      | inr some ↦
          let r = disk.indexed (count s.index - 1) (ground (arith, disk.valid.entries)) in
          rw some (record {
            before = r.before;
            message = r.message;
            after = r.after;
            split = r.split;
            position = r.position;
          })
    ]

    simple_loop_lem :
        (p : MessageSeqPosition)
        → torn ≡ []
        → Within p
        → simple_loop
            (suc (length s.segment_file))
            s.segment_file
            (length s.segment_file)
            p.position
            0
          ≡ (start_of ms log, last_length ms 0 log)
    simple_loop_lem p none w =
        let stored = IsLog-drop ms w.before (subst (IsLog ms) w.split disk.stored) in
        let holding = disk.bytes ∙ ap (λ l. encode_all ms l ++ torn) w.split in
        ap
          (λ k.
            simple_loop (suc (length s.segment_file)) s.segment_file (length s.segment_file) k 0)
          w.position
        ∙ simple_loop-log ms torn disk.is_torn s.segment_file (suc (length s.segment_file)) w.before
            (w.message ∷ w.after) 0 stored holding (omega arith)
        ∙ ap₂ (λ a b. (a, b)) (ap (start_of ms) (sym w.split))
            (sym (last_length-append 0 0 w.before w.message w.after)
              ∙ ap (last_length ms 0) (sym w.split))

    -- `sanitySimpleCheck`, where it can tell, says what `check` says.
    pub simple_lem :
        (each_max : ℕ)
        → torn ≡ []
        → (m : A) (more : List A) → log ≡ m ∷ more
        → (sanity_simple_check each_max (length s.segment_file) s).0 ≡ true
        → (sanity_simple_check each_max (length s.segment_file) s).1 ≡ (last_start, cut)
    unfolding sanity_simple_check
    simple_lem each_max none m more e =
        let p = last_position s.index in
        elim (Bool-cases (leb (length s.segment_file) (each_max + min_message_len))) [
          | inl few ↦ rw few (λ h. absurd (ground arith))
          | inr many ↦ elim (Bool-cases (p.position == 0 && p.message_seq == 0)) [
            | inl start ↦ rw (many, start) (λ h. absurd (ground arith))
            | inr set ↦ elim (Bool-cases (last_length ms 0 log == 0)) [
              | inl zero_length ↦
                  rw (many, set, simple_loop_lem p none (within m more e), zero_length)
                    (λ h. absurd (ground arith))
              | inr some ↦
                  rw (many, set, simple_loop_lem p none (within m more e), some)
                    (λ h.
                      let wrap : start_of ms log % 2 ^ 32 ≡ start_of ms log =
                        omega (arith, length-file, disk.small) in
                      ap₂ (λ a f. (last_start, record s { position = a; segment_file = f })) wrap
                        (length-none (ap length none)))
            ]
          ]
        ]
