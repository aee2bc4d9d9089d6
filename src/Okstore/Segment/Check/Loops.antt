-- ===== src/Okstore/Segment/Check/Loops.antt =====
-- The loops of the check on a file of whole messages with, perhaps, a part of one more behind them.
use imserver.Prelude.{
  ℕ, zero, suc, ◌+◌, ◌%◌, ◌^◌, ◌≤◌, ◌<◌, ◌≡◌, refl, sym, ap, ◌∙◌, false, List, [], ◌∷◌, ◌++◌,
  append-nil, append_assoc, length, length-append, take, drop, drop-append, leb, arith, inl, inr,
  Bool-cases,
}
use imserver.Okstore.File.{eof}
use imserver.Okstore.Message.{valid, invalid, next_message_is_vail}
use imserver.Okstore.Message.RoundTrip.{next_message_is_vail-there}
use imserver.Okstore.Segment.{Messages, encode_all}
use imserver.Okstore.Segment.Log.{
  IsStored, IsLog, cons, start_of, start-suc, encode_all-append, length-stored,
}
use imserver.Okstore.Segment.Check.{check_loop, simple_loop}
use imserver.Okstore.Segment.Check.Torn.{next_message_is_vail-torn}

-- The part of a message that a crash left; all of its first bytes, or none.
pub record IsTorn {A : Type 0} (ms : Messages A) (torn : List ℕ) : Type 0 where
  pub message : A
  pub stored : IsStored ms message
  pub kept : ℕ
  pub cut : kept < length (ms.encode message)
  pub part : torn ≡ take kept (ms.encode message)

module _ {A : Type 0} (ms : Messages A) where
  -- The bytes of the last message.
  abbrev pub last_length : ℕ → List A → ℕ
  last_length n [] = n
  last_length n (m ∷ log) = last_length (length (ms.encode m)) log

  module _ (torn : List ℕ) (is_torn : IsTorn ms torn) (file : List ℕ) where
    abbrev Holding : List A → Type 0
    Holding log = file ≡ encode_all ms log ++ torn

    valid_there :
        (before after : List A) (m : A)
        → IsStored ms m
        → Holding (before ++ m ∷ after)
        → next_message_is_vail file (start_of ms before) ≡ valid (length (ms.encode m))
    unfolding encode_all
    valid_there before after m h e =
        let split =
          e
          ∙ ap (λ l. l ++ torn) (encode_all-append ms before (m ∷ after))
          ∙ append_assoc (encode_all ms before) (encode_all ms (m ∷ after)) torn in
        let there =
          ap (drop (start_of ms before)) split
          ∙ drop-append (encode_all ms before) (encode_all ms (m ∷ after) ++ torn) _ refl
          ∙ append_assoc (ms.encode m) (encode_all ms after) torn
          ∙ ap (λ l. l ++ (encode_all ms after ++ torn)) h.encoded in
        next_message_is_vail-there (ms.get_seq m) h.body h.fits (encode_all ms after ++ torn) file
          (start_of ms before)
          (omega (
            arith,
            ap length split,
            length-append (encode_all ms before) (encode_all ms (m ∷ after) ++ torn),
          ))
          there
        ∙ ap valid (sym (length-stored ms m h))

    invalid_there :
        (before : List A)
        → Holding before
        → (n : ℕ) × (next_message_is_vail file (start_of ms before) ≡ invalid n eof)
    invalid_there before e =
        let h = is_torn.stored in
        next_message_is_vail-torn (ms.get_seq is_torn.message) h.body h.fits is_torn.kept file
          (start_of ms before) (omega (arith, is_torn.cut, ap length h.encoded))
          (omega (arith, ap length e, length-append (encode_all ms before) torn))
          (ap (drop (start_of ms before)) e
            ∙ drop-append (encode_all ms before) torn _ refl
            ∙ is_torn.part
            ∙ ap (take is_torn.kept) h.encoded)

    inside :
        (before after : List A) (m : A)
        → Holding (before ++ m ∷ after)
        → start_of ms before + length (ms.encode m) ≤ length file
    unfolding encode_all
    inside before after m e = omega (
      arith,
      ap length e,
      length-append (encode_all ms (before ++ m ∷ after)) torn,
      ap length (encode_all-append ms before (m ∷ after)),
      length-append (encode_all ms before) (ms.encode m ++ encode_all ms after),
      length-append (ms.encode m) (encode_all ms after),
    )

    reached : (before after : List A) → Holding (before ++ after) → start_of ms before ≤ length file
    reached before after e = omega (
      arith,
      ap length e,
      length-append (encode_all ms (before ++ after)) torn,
      ap length (encode_all-append ms before after),
      length-append (encode_all ms before) (encode_all ms after),
    )

    shift :
        (before after : List A) (m : A)
        → Holding (before ++ m ∷ after)
        → Holding ((before ++ m ∷ []) ++ after)
    shift before after m e =
        e ∙ ap (λ l. encode_all ms l ++ torn) (sym (append_assoc before (m ∷ []) after))

    -- `check` takes every whole message and stops behind the last.
    pub check_loop-log :
        (f : ℕ) (before after : List A) (last : ℕ)
        → IsLog ms after
        → Holding (before ++ after)
        → length file < 2 ^ 32
        → length file < start_of ms before + f
        → check_loop f file (length file) (start_of ms before) (start_of ms before) last
          ≡ (start_of ms (before ++ after), last_length last after)
    unfolding check_loop
    check_loop-log zero before after last log e small enough =
        absurd (omega (arith, enough, reached before after e))
    check_loop-log (suc f) before [] last log e small enough =
        let (n, stop) =
          invalid_there before (e ∙ ap (λ l. encode_all ms l ++ torn) (append-nil before)) in
        elim (Bool-cases (leb (length file % 2 ^ 32) (start_of ms before))) [
          | inl done ↦ rw (done, append-nil before) refl
          | inr more ↦ rw (more, stop, append-nil before) refl
        ]
    check_loop-log (suc f) before (m ∷ after) last (cons h log) e small enough =
        let bound = inside before after m e in
        let more : leb (length file % 2 ^ 32) (start_of ms before) ≡ false =
          ground (arith, length-stored ms m h) in
        let same : start_of ms before + length (ms.encode m) ≡ start_of ms (before ++ m ∷ []) =
          start-suc ms before m in
        let wrap : (start_of ms before + length (ms.encode m)) % 2 ^ 32
            ≡ start_of ms (before ++ m ∷ []) =
          omega (arith, same, bound) in
        rw (more, valid_there before after m h e, wrap, same)
          (check_loop-log f (before ++ m ∷ []) after (length (ms.encode m)) log
              (shift before after m e) small (omega (arith, same, length-stored ms m h))
            ∙ ap (λ l. (start_of ms l, last_length (length (ms.encode m)) after))
                (append_assoc before (m ∷ []) after))

    -- And so does the loop of `sanitySimpleCheck`, from the start of any message on.
    pub simple_loop-log :
        (f : ℕ) (before after : List A) (last : ℕ)
        → IsLog ms after
        → Holding (before ++ after)
        → length file < start_of ms before + f
        → simple_loop f file (length file) (start_of ms before) last
          ≡ (start_of ms (before ++ after), last_length last after)
    unfolding simple_loop
    simple_loop-log zero before after last log e enough =
        absurd (omega (arith, enough, reached before after e))
    simple_loop-log (suc f) before [] last log e enough =
        let (n, stop) =
          invalid_there before (e ∙ ap (λ l. encode_all ms l ++ torn) (append-nil before)) in
        elim (Bool-cases (leb (length file) (start_of ms before))) [
          | inl done ↦ rw (done, append-nil before) refl
          | inr more ↦ rw (more, stop, append-nil before) refl
        ]
    simple_loop-log (suc f) before (m ∷ after) last (cons h log) e enough =
        let size = length-stored ms m h in
        let more : leb (length file) (start_of ms before) ≡ false =
          ground (arith, inside before after m e, size) in
        let some : length (ms.encode m) ≡ suc (23 + length h.body) = omega (arith, size) in
        let same = start-suc ms before m in
        rw (more, valid_there before after m h e ∙ ap valid some, sym some, same)
          (simple_loop-log f (before ++ m ∷ []) after (length (ms.encode m)) log
              (shift before after m e) (omega (arith, same, size))
            ∙ ap (λ l. (start_of ms l, last_length (length (ms.encode m)) after))
                (append_assoc before (m ∷ []) after))
