-- ===== src/Okstore/Segment/Single.antt =====
-- `readAt`: one message of a segment.
use imserver.Prelude.{
  ℕ, ◌≡◌, refl, sym, ap, ◌∙◌, List, [], ◌∷◌, ◌++◌, ◌==◌, append_assoc, inl, inr, Bool-cases,
}
use mathlib.Core.Path.{subst}
use imserver.Okstore.File.{Result, ok, err, no_data, ◌>>=◌}
use imserver.Okstore.Message.{decode_message_at}
use imserver.Okstore.Segment.{Messages, Segment, encode_all, read_message}
use imserver.Okstore.Segment.Log.{IsStored, IsLog, cons, start_of, start-suc, stands, message_there}
use imserver.Okstore.Segment.Reads.{from_seq, locate}
use imserver.Okstore.Segment.Refines.{IsSegment, IsLog-drop, find_target, lookup-Starts}

-- The first message, and without one the error that says so.
abbrev pub first : {A : Type 0} → List A → Result A
first [] = err no_data
first (m ∷ more) = ok m

pub IsLog-head :
    {A : Type 0} (ms : Messages A) (m : A) (log : List A) → IsLog ms (m ∷ log) → IsStored ms m
IsLog-head ms m log (cons h rest) = h

module _ {A : Type 0} (ms : Messages A) (s : Segment) (log : List A) (seg : IsSegment ms s log)
    (target : ℕ) where
  abbrev decoded : Result (ℕ × ℕ) → Result A
  decoded found = found >>= λ p. decode_message_at ms.decode s.segment_file p.0 >>= λ r. ok r.0

  decoded-locate :
      (before after : List A)
      → log ≡ before ++ after
      → decoded (locate ms target (start_of ms before) after) ≡ first (from_seq ms target after)
  decoded-locate before [] e = refl
  decoded-locate before (m ∷ after) e =
      let stored =
        IsLog-head ms m after (IsLog-drop ms before (subst (IsLog ms) e seg.holds.stored)) in
      let here = stands ms s before after m (seg.holds.bytes ∙ ap (encode_all ms) e) in
      elim (Bool-cases (ms.get_seq m == target)) [
        | inl found ↦ rw (found, message_there ms s _ m _ stored here) refl
        | inr other ↦
            rw (other, start-suc ms before m)
              (decoded-locate (before ++ m ∷ []) after
                (e ∙ sym (append_assoc before (m ∷ []) after)))
      ]

  -- `readAt` of a segment that implements a log gives the first message of the log with the
  -- sequence number, and the error that there is no data when the log has none.
  pub read_message-first : read_message ms target s ≡ first (from_seq ms target log)
  unfolding read_message
  read_message-first =
      let st = lookup-Starts ms s log seg target in
      rw (st.position, find_target ms s log seg target st.before st.after st.split)
        (decoded-locate st.before st.after st.split ∙ ap first st.same)
