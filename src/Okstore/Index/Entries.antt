-- ===== src/Okstore/Index/Entries.antt =====
-- An index that is written by `Append`: what its entries are, and what a lookup then finds.
use imserver.Prelude.{
  ◌⊎◌, ◌==◌, ℕ, false, suc, ◌+◌, ◌-◌, ◌*◌, ◌%◌, ◌^◌, ◌≤◌, ◌<◌, ◌≡◌, refl, sym, ap, ◌∙◌, length,
  take, drop, Option, none, ltb, leb, arith, if◌then◌else◌, inl, inr, Bool-cases,
}
use imserver.Proto.Encoder.Appends.{be32}
use imserver.Okstore.File.{uint32}
use imserver.Okstore.Index.{
  Index, Entry, MessageSeqPosition, entry_size, max_bytes, entry_bytes, write_at, relative, key,
  append, parse_entry, at_slot, index_slot_range_for, lookup,
}
use imserver.Okstore.Index.Write.{length-write_at, written, kept}
use imserver.Okstore.Index.Search.{
  count, IsAscending, IsLast, Found, nowhere, at, index_slot_range_for-Found,
}

-- An index between two operations: whole entries in a file of the full size, in the order of their
-- sequence numbers.
pub record IsValid (idx : Index) : Type 0 where
  pub entries : idx.position ≡ 8 * count idx
  pub size : length idx.mmap ≡ max_bytes
  pub inside : idx.position ≤ max_bytes
  pub base : idx.base_message_seq < 2 ^ 32
  pub ascending : IsAscending idx

-- What is appended comes behind every entry, and fits its 32 bits.
pub record IsNext (idx : Index) (offset position : ℕ) : Type 0 where
  pub seq : offset < 2 ^ 32
  pub small : position < 2 ^ 32
  pub behind : (i : ℕ) → i < count idx → key idx i < offset

unique : (idx : Index) (target hi r s : ℕ) → IsLast idx target hi r → IsLast idx target hi s → r ≡ s
unique idx target hi r s l m =
    ground (arith, l.inside, l.before, m.inside, m.before, l.last s, m.last r)

module _ (idx : Index) (offset position : ℕ) (valid : IsValid idx)
    (next : IsNext idx offset position) (room : idx.position < max_bytes) where
  abbrev entry : Entry
  entry = record { relative_offset = relative idx offset; position = position }

  abbrev longer : Index
  longer = record idx {
    mmap = write_at (entry_bytes entry) idx.position idx.mmap;
    position = idx.position + entry_size;
  }

  append-longer : append offset position idx ≡ longer
  unfolding append
  append-longer = ground arith

  length-entry : length (entry_bytes entry) ≡ 8
  unfolding entry_bytes be32
  length-entry = refl

  space : idx.position + length (entry_bytes entry) ≤ length idx.mmap
  space = omega (arith, length-entry, valid.size, valid.entries, room)

  count-longer : count longer ≡ suc (count idx)
  count-longer = omega (arith, valid.entries)

  size-longer : length longer.mmap ≡ max_bytes
  size-longer = length-write_at _ idx.position idx.mmap space ∙ valid.size

  old-longer : (i : ℕ) → i < count idx → parse_entry longer i ≡ parse_entry idx i
  unfolding parse_entry
  old-longer i h =
      let same =
        kept (entry_bytes entry) idx.position idx.mmap space (i * 8) 8
          (omega (arith, valid.entries, h)) in
      ground (arith, same, size-longer, valid.size, valid.entries, valid.inside)

  bytes-longer : take 8 (drop (count idx * 8) longer.mmap) ≡ entry_bytes entry
  bytes-longer =
      let e : count idx * 8 ≡ idx.position = omega (arith, valid.entries) in
      ap (λ k. take 8 (drop k longer.mmap)) e
      ∙ ap (λ k. take k (drop idx.position longer.mmap)) (sym length-entry)
      ∙ written (entry_bytes entry) idx.position idx.mmap space

  first_of : uint32 (entry_bytes entry) ≡ relative idx offset
  unfolding entry_bytes uint32 be32 relative
  first_of = omega arith

  second_of : uint32 (drop 4 (entry_bytes entry)) ≡ position
  unfolding entry_bytes uint32 be32
  second_of = omega (arith, next.small)

  back : (idx.base_message_seq + relative idx offset) % 2 ^ 32 ≡ offset
  unfolding relative
  back = omega (arith, valid.base, next.seq)

  new-longer : parse_entry longer (count idx) ≡ record { message_seq = offset; position = position }
  unfolding parse_entry
  new-longer =
      let there : ltb (length longer.mmap) (count idx * 8 + 8) ≡ false =
        ground (arith, size-longer, valid.entries, valid.inside, room) in
      rw (there, bytes-longer, first_of, second_of, back) refl

  old_key : (i : ℕ) → i < count idx → key longer i ≡ key idx i
  old_key i h = ap (λ e. e.message_seq) (old-longer i h)

  new_key : (i : ℕ) → i ≡ count idx → key longer i ≡ offset
  new_key i e = ap (key longer) e ∙ ap (λ t. t.message_seq) new-longer

  longer-IsAscending : IsAscending longer
  longer-IsAscending i j lt h = elim (Bool-cases (ltb j (count idx))) [
    | inl old ↦ ground (arith, valid.ascending i j lt, old_key i, old_key j)
    | inr last ↦ ground (arith, count-longer, next.behind i, old_key i, new_key j)
  ]

  longer-IsValid : IsValid longer
  longer-IsValid = record {
    entries = omega (arith, valid.entries);
    size = size-longer;
    inside = omega (arith, valid.entries, room);
    base = valid.base;
    ascending = longer-IsAscending;
  }

  module _ (target : ℕ) where
    abbrev Answer : MessageSeqPosition → Type 0
    Answer r = r ≡ (
        if leb offset target
        then record { message_seq = offset; position = position }
        else lookup idx target)

    same_slot :
        (r : ℕ) (o : Option ℕ)
        → r < count idx
        → IsLast idx target (count idx - 1) r
        → Found idx target o
        → parse_entry longer r ≡ at_slot idx o
    same_slot r _ h l (nowhere past) = absurd (omega (arith, l.before, past r h))
    same_slot r _ h l (at s some_entry m) =
        old-longer r h ∙ ap (parse_entry idx) (unique idx target (count idx - 1) r s l m)

    old-IsLast :
        (r : ℕ)
        → r < count idx
        → IsLast longer target (count longer - 1) r
        → IsLast idx target (count idx - 1) r
    old-IsLast r h l = record {
      inside = omega (arith, h);
      before = ground (arith, l.before, old_key r);
      last = λ i g b. ground (arith, l.last i g, old_key i, count-longer);
    }

    same_base :
        (o : Option ℕ)
        → ((i : ℕ) → i < count idx → target < key idx i)
        → Found idx target o
        → at_slot longer none ≡ at_slot idx o
    same_base _ past (nowhere _) = refl
    same_base _ past (at s some_entry m) = absurd (
        omega (arith, m.inside, m.before, some_entry, past s (omega (arith, some_entry, m.inside))))

    here : Found idx target (index_slot_range_for idx target)
    here = index_slot_range_for-Found idx target valid.ascending

    answer : (o : Option ℕ) → Found longer target o → Answer (at_slot longer o)
    unfolding lookup
    answer _ (nowhere past) =
        let before : leb offset target ≡ false =
          ground (arith, past (count idx), count-longer, new_key (count idx) refl) in
        rw before (same_base _ (λ i h. ground (arith, past i, old_key i, count-longer)) here)
    answer _ (at r some_entry l) = elim (Bool-cases (leb offset target)) [
      | inl new ↦
          let e : r ≡ count idx =
            ground (arith, l.inside, l.last (count idx), count-longer, new_key (count idx) refl) in
          rw new (ap (parse_entry longer) e ∙ new-longer)
      | inr old ↦
          let h : r < count idx = ground (arith, l.inside, l.before, count-longer, new_key r) in
          rw old (same_slot r _ h (old-IsLast r h l) here)
    ]

    -- A lookup in such an index after the `Append` of an entry past all others, with room, finds
    -- the new entry from its sequence number on, and below it what it found before.
    pub lookup-append : lookup (append offset position idx) target ≡ (
        if leb offset target
        then record { message_seq = offset; position = position }
        else lookup idx target)
    unfolding lookup
    lookup-append =
        ap (λ (x : Index). lookup x target) append-longer
        ∙ answer _ (index_slot_range_for-Found longer target longer-IsAscending)

-- `Append` to an index of whole entries in ascending order, of an entry past all of them whose
-- sequence number and position are below 2^32, gives such an index again, be there room or not.
pub append-IsValid :
    (idx : Index) (offset position : ℕ)
    → IsValid idx
    → IsNext idx offset position
    → IsValid (append offset position idx)
unfolding append
append-IsValid idx offset position valid next = elim (Bool-cases (leb max_bytes idx.position)) [
  | inl full ↦ rw full valid
  | inr room ↦ rw room (longer-IsValid idx offset position valid next (ground arith))
]

-- The entries behind `Append` are those before it, and the new one.
pub append-entry :
    (idx : Index) (offset position : ℕ)
    → IsValid idx
    → IsNext idx offset position
    → (i : ℕ) → i < count (append offset position idx)
    → ((i < count idx) × (parse_entry (append offset position idx) i ≡ parse_entry idx i))
      ⊎ (parse_entry (append offset position idx) i
          ≡ record { message_seq = offset; position = position })
unfolding append
append-entry idx offset position valid next i = elim (Bool-cases (leb max_bytes idx.position)) [
  | inl full ↦ rw full (λ h. inl (h, refl))
  | inr room ↦ rw room (λ h.
      let free : idx.position < max_bytes = ground arith in
      elim (Bool-cases (i == count idx)) [
        | inl same ↦
            let e : i ≡ count idx = ground arith in
            inr (
              ap (parse_entry (longer idx offset position valid next free)) e
              ∙ new-longer idx offset position valid next free)
        | inr other ↦
            let le : i < count idx =
              ground (arith, count-longer idx offset position valid next free) in
            inl (le, old-longer idx offset position valid next free i le)
      ])
]

pub append-base :
    (idx : Index) (offset position : ℕ)
    → (append offset position idx).base_message_seq ≡ idx.base_message_seq
unfolding append
append-base idx offset position = elim (Bool-cases (leb max_bytes idx.position)) [
  | inl full ↦ rw full refl
  | inr room ↦ rw room refl
]
