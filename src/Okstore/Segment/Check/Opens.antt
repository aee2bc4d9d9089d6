-- ===== src/Okstore/Segment/Check/Opens.antt =====
-- `init` of a segment file that is opened after a crash.
use imserver.Prelude.{
  ℕ, ◌+◌, ◌-◌, ◌≤◌, ◌<◌, ◌≡◌, ◌⊎◌, refl, sym, ap, ap₂, ◌∙◌, Bool, true, false, List, [], ◌∷◌,
  length, length-append, take, drop, leb, ◌==◌, if◌then◌else◌, arith, inl, inr, Bool-cases, not,
}
use imserver.Prelude.Int.{ℤ, pos, sub_ℕ}
use mathlib.Core.Path.{subst}
use imserver.Okstore.File.{ok, read_at, whole, equal}
use imserver.Okstore.Message.{min_message_len, end_magic_number}
use imserver.Okstore.Segment.{Messages, Segment, encode_all}
use imserver.Okstore.Segment.Log.{IsStored, IsLog, start_of, length-stored}
use imserver.Okstore.Segment.Single.{IsLog-head}
use imserver.Okstore.Segment.Check.{sanity_simple_check, has_end_magic_number, sanity_check}
use imserver.Okstore.Segment.Check.Loops.{last_length}
use imserver.Okstore.Segment.Check.Recovers.{
  OnDisk, cut, last_start, length-file, length-none, check_lem, simple_lem,
}

-- The cases in which the check sees a torn message: there is none, the file is small, or its last byte
-- is not the end magic number.
pub data Seen (each_max : ℕ) (file torn : List ℕ) : Type 0 where
  no_torn : torn ≡ [] → Seen each_max file torn
  small_file : length file ≤ each_max + min_message_len → Seen each_max file torn
  no_end : has_end_magic_number (length file) file ≡ ok false → Seen each_max file torn

last_byte :
    (file : List ℕ)
    → 0 < length file
    → (p : List ℕ) × (whole (read_at file (length file - 1) 1) ≡ ok p)
unfolding read_at whole
last_byte file some =
    let there : leb (length file - 1 + 1) (length file) ≡ true = ground (arith, some) in
    (take 1 (drop (length file - 1) file), rw there refl)

has_end :
    (file : List ℕ)
    → 0 < length file
    → (b : Bool) × (has_end_magic_number (length file) file ≡ ok b)
unfolding has_end_magic_number
has_end file some = let h = last_byte file some in (equal h.0 end_magic_number, rw h.1 refl)

pub first-cases :
    {A : Type 0} (l : List A) → (l ≡ []) ⊎ ((m : A) × ((more : List A) × (l ≡ m ∷ more)))
first-cases [] = inl refl
first-cases (m ∷ more) = inr (m, (more, refl))

module _ {A : Type 0} (ms : Messages A) where
  pub some-start_of : (m : A) (more : List A) → IsStored ms m → 0 < start_of ms (m ∷ more)
  unfolding encode_all
  some-start_of m more h =
      omega (arith, length-append (ms.encode m) (encode_all ms more), length-stored ms m h)

  module _ (s : Segment) (log : List A) (torn : List ℕ) (disk : OnDisk ms s log torn) (each_max : ℕ)
      (seen : Seen each_max s.segment_file torn) (fresh : s.position ≡ 0) where
    abbrev found : ℤ × Segment
    found = (last_start ms s log torn disk, cut ms s log torn disk)

    abbrev simple : Bool × (ℤ × Segment)
    simple = sanity_simple_check each_max (length s.segment_file) s

    no_file : length s.segment_file ≡ 0 → log ≡ []
    no_file none = elim (first-cases log) [
      | inl e ↦ e
      | inr (m, (more, e)) ↦
          let stored = IsLog-head ms m more (subst (IsLog ms) e disk.stored) in
          absurd (
            omega (
              arith,
              none,
              length-file ms s log torn disk,
              ap (start_of ms) e,
              some-start_of m more stored,
            ))
    ]

    empty_lem : length s.segment_file ≡ 0 → (pos 0, s) ≡ found
    unfolding encode_all
    empty_lem none =
        let bytes =
          length-none ms s log torn disk (omega (arith, none, length-file ms s log torn disk)) in
        let e = no_file none in
        ap₂ (λ a f. (pos 0, record s { position = a; segment_file = f })) fresh
          (bytes ∙ ap (encode_all ms) e)
        ∙ ap
            (λ l. (
              sub_ℕ (start_of ms l) (last_length ms 0 l),
              record s { position = start_of ms l; segment_file = encode_all ms l },
            ))
            (sym e)

    simple-found :
        0 < length s.segment_file
        → has_end_magic_number (length s.segment_file) s.segment_file ≡ ok true
        → each_max + min_message_len < length s.segment_file
        → simple.0 ≡ true
        → simple.1 ≡ found
    unfolding encode_all
    simple-found some ended large told = elim seen [
      | small_file h ↦ absurd (omega (arith, h, large))
      | no_end h ↦ cc
      | no_torn none ↦ elim (first-cases log) [
        | inl e ↦ absurd (
            omega (arith, some, ap length none, length-file ms s log torn disk, ap (start_of ms) e))
        | inr (m, (more, e)) ↦ simple_lem ms s log torn disk each_max none m more e told
      ]
    ]

    choice :
        0 < length s.segment_file
        → (b : Bool) → has_end_magic_number (length s.segment_file) s.segment_file ≡ ok b
        → (if not b
            then found
            else if leb (length s.segment_file) (each_max + min_message_len)
            then found
            else if simple.0
            then simple.1
            else found)
          ≡ found
    choice some false e = refl
    choice some true e =
        elim (Bool-cases (leb (length s.segment_file) (each_max + min_message_len))) [
          | inl few ↦ rw few refl
          | inr many ↦ elim (Bool-cases simple.0) [
            | inl told ↦ rw (many, told) (simple-found some e (ground arith) told)
            | inr untold ↦ rw (many, untold) refl
          ]
        ]

    pub sanity_lem : sanity_check each_max s ≡ ok found
    unfolding sanity_check
    sanity_lem = elim (Bool-cases (length s.segment_file == 0)) [
      | inl none ↦ rw none (ap ok (empty_lem (ground arith)))
      | inr some ↦
          let h = has_end s.segment_file (ground arith) in
          rw (some, h.1, check_lem ms s log torn disk) (ap ok (choice (ground arith) h.0 h.1))
    ]
