-- ===== src/Okstore/Segment/Reads.antt =====
-- Reads of a segment that holds whole messages.
use imserver.Prelude.{
  ℕ, zero, suc, ◌+◌, ◌<◌, ◌≡◌, refl, sym, ap, ◌∙◌, true, false, List, [], ◌∷◌, ◌++◌, length, take,
  leb, ◌==◌, if◌then◌else◌, append_assoc, append-nil, length-append, arith,
}
use imserver.Okstore.File.{Result, ok, err, no_data}
use imserver.Okstore.Segment.{
  Messages, Segment, get_file_size, read_target_position, encode_all, read_messages_at_position,
}
use imserver.Okstore.Segment.Log.{
  IsStored, IsLog, cons, collect, encode_all-append, length-stored, start_of, start-suc, Stands,
  stands, seq_there, message_there,
}

module _ {A : Type 0} (ms : Messages A) where
  -- The messages from the first with the sequence number on.
  abbrev pub from_seq : ℕ → List A → List A
  from_seq target [] = []
  from_seq target (m ∷ log) = if ms.get_seq m == target then m ∷ log else from_seq target log

  -- Where the first message with the sequence number stands, of a log whose bytes start at `start`.
  abbrev pub locate : ℕ → ℕ → List A → Result (ℕ × ℕ)
  locate target start [] = err no_data
  locate target start (m ∷ log) =
      let next = start + length (ms.encode m) in
      let rest = locate target next log in if ms.get_seq m == target then ok (start, next) else rest

module _ {A : Type 0} (ms : Messages A) (s : Segment)
    (size : get_file_size s ≡ length s.segment_file) where
  abbrev Holding : List A → Type 0
  Holding log = s.segment_file ≡ encode_all ms log

  shift :
      (before after : List A) (m : A)
      → Holding (before ++ m ∷ after)
      → Holding ((before ++ m ∷ []) ++ after)
  shift before after m e = e ∙ ap (encode_all ms) (sym (append_assoc before (m ∷ []) after))

  at_end :
      (before : List A) → Holding (before ++ []) → leb (get_file_size s) (start_of ms before) ≡ true
  at_end before e = ground (arith, size, ap length (e ∙ ap (encode_all ms) (append-nil before)))

  not_end :
      (position : ℕ) (m : A) (rest : List ℕ)
      → IsStored ms m
      → Stands ms s position m rest
      → leb (get_file_size s) position ≡ false
  not_end position m rest h st = ground (arith, size, st.inside, length-stored ms m h)

  -- A read from the start of a message gives the messages from there on, up to the limit.
  pub read_messages_at_position-take :
      (limit : ℕ) (before after st : List A)
      → IsLog ms after
      → Holding (before ++ after)
      → read_messages_at_position ms limit s (start_of ms before) collect st
        ≡ ok (st ++ take limit after)
  unfolding read_messages_at_position
  read_messages_at_position-take zero before after st log e = ap ok (sym (append-nil st))
  read_messages_at_position-take (suc more) before [] st log e =
      rw (at_end before e) (ap ok (sym (append-nil st)))
  read_messages_at_position-take (suc more) before (m ∷ after) st (cons h log) e =
      let here = stands ms s before after m e in
      let next =
        read_messages_at_position-take more (before ++ m ∷ []) after (st ++ m ∷ []) log
          (shift before after m e) in
      rw (not_end _ m _ h here, message_there ms s _ m _ h here, start-suc ms before m)
        (next ∙ ap ok (append_assoc st (m ∷ []) (take more after)))

  -- `readTargetPosition` from the start of a message finds the first message with the sequence number,
  -- and otherwise says that there is no data; the bytes that are left are enough rounds.
  pub read_target_position-locate :
      (f target : ℕ) (before after : List A)
      → IsLog ms after
      → Holding (before ++ after)
      → length s.segment_file < start_of ms before + f
      → read_target_position f s (start_of ms before) target
        ≡ locate ms target (start_of ms before) after
  unfolding read_target_position
  read_target_position-locate zero target before after log e enough = absurd (
      omega (
        arith,
        enough,
        ap length e,
        ap length (encode_all-append ms before after),
        length-append (encode_all ms before) (encode_all ms after),
      ))
  read_target_position-locate (suc f) target before [] log e enough = rw (at_end before e) refl
  read_target_position-locate (suc f) target before (m ∷ after) (cons h log) e enough =
      let here = stands ms s before after m e in
      let next =
        read_target_position-locate f target (before ++ m ∷ []) after log (shift before after m e)
          (omega (arith, enough, start-suc ms before m, length-stored ms m h)) in
      rw
        (
          not_end _ m _ h here,
          seq_there ms s _ m _ h here,
          sym (length-stored ms m h),
          start-suc ms before m,
          next,
        )
        refl
