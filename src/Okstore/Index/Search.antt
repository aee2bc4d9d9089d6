-- ===== src/Okstore/Index/Search.antt =====
-- `Lookup` finds the last entry at or before the target.
use imserver.Prelude.{
  ℕ, zero, suc, ◌+◌, ◌-◌, ◌/◌, ◌≤◌, ◌<◌, ◌≡◌, Option, none, some, ltb, ◌==◌, arith, inl, inr,
  Bool-cases,
}
use imserver.Okstore.Index.{Index, entry_size, warm_entries, key, search_loop, index_slot_range_for}

-- The number of entries.
abbrev pub count : Index → ℕ
count idx = idx.position / entry_size

-- The entries stand in the order of their sequence numbers.
abbrev pub IsAscending : Index → Type 0
IsAscending idx = (i j : ℕ) → i < j → j < count idx → key idx i < key idx j

-- `r` is the last of the entries from `lo` to `hi` that is not past the target.
pub record IsLast (idx : Index) (target hi r : ℕ) : Type 0 where
  pub inside : r ≤ hi
  pub before : key idx r ≤ target
  pub last : (i : ℕ) → r < i → i ≤ hi → target < key idx i

module _ (idx : Index) (target : ℕ) (up : IsAscending idx) where
  -- An entry past the target ends the part that is searched.
  cut-IsLast :
      (mid hi r : ℕ)
      → hi < count idx
      → 0 < mid
      → mid ≤ hi
      → target < key idx mid
      → IsLast idx target (mid - 1) r
      → IsLast idx target hi r
  cut-IsLast mid hi r inside pos le past l = record {
    inside = omega (arith, l.inside);
    before = l.before;
    last = λ i g b. elim (Bool-cases (ltb i mid)) [
      | inl below ↦ l.last i g (ground arith)
      | inr above ↦ elim (Bool-cases (mid == i)) [
        | inl same ↦ ground arith
        | inr more ↦ ground (arith, up mid i)
      ]
    ];
  }

  found-IsLast :
      (mid hi : ℕ) → hi < count idx → mid ≤ hi → key idx mid ≡ target → IsLast idx target hi mid
  found-IsLast mid hi inside le e = record {
    inside = le;
    before = omega arith;
    last = λ i g b. omega (arith, up mid i g (omega arith));
  }

  search_loop-IsLast :
      (f lo hi : ℕ)
      → hi < count idx
      → lo ≤ hi
      → hi - lo < f
      → key idx lo ≤ target
      → IsLast idx target hi (search_loop f idx target lo hi)
  unfolding search_loop
  search_loop-IsLast zero lo hi inside le h k = absurd (omega arith)
  search_loop-IsLast (suc f) lo hi inside le h k =
      let mid : ℕ = (lo + hi + 1) / 2 in
      elim (Bool-cases (ltb lo hi)) [
        | inl more ↦
            rw (more, search_loop)
              (elim (Bool-cases (ltb target (key idx mid))) [
                | inl past ↦ rw past (
                    cut-IsLast mid hi _ inside (ground arith) (ground arith) (ground arith) (
                      search_loop-IsLast f lo (mid - 1) (ground arith) (ground arith) (ground arith)
                        k))
                | inr not_past ↦ rw not_past (elim (Bool-cases (ltb (key idx mid) target)) [
                  | inl before ↦ rw before (
                      search_loop-IsLast f mid hi inside (ground arith) (ground arith)
                        (ground arith))
                  | inr same ↦ rw same (found-IsLast mid hi inside (ground arith) (ground arith))
                ])
              ])
        | inr done ↦
            rw (done, search_loop)
              (record { inside = le; before = k; last = λ i g b. absurd (ground arith) })
      ]

  -- What comes behind an entry that is not before the target is past it.
  more-IsLast :
      (hi r : ℕ)
      → hi < count idx
      → target ≤ key idx hi
      → IsLast idx target hi r
      → IsLast idx target (count idx - 1) r
  more-IsLast hi r inside le l = record {
    inside = omega (arith, l.inside);
    before = l.before;
    last = λ i g b. elim (Bool-cases (ltb hi i)) [
      | inl behind ↦ ground (arith, up hi i)
      | inr here ↦ l.last i g (ground arith)
    ];
  }

-- What a search may give: nothing when every entry is past the target, or the last one that is not.
pub data Found (idx : Index) (target : ℕ) : Option ℕ → Type 0 where
  nowhere : ((i : ℕ) → i < count idx → target < key idx i) → Found idx target none
  at : (r : ℕ) → 0 < count idx → IsLast idx target (count idx - 1) r → Found idx target (some r)

-- `indexSlotRangeFor` on entries whose sequence numbers ascend gives the last entry that is not
-- past the target, and nothing exactly when every entry is past it; an index without entries gives
-- nothing.
pub index_slot_range_for-Found :
    (idx : Index) (target : ℕ)
    → IsAscending idx
    → Found idx target (index_slot_range_for idx target)
unfolding index_slot_range_for
index_slot_range_for-Found idx target up =
    let first_hot : ℕ = count idx - 1 - warm_entries in
    elim (Bool-cases (count idx == 0)) [
      | inl empty ↦ rw empty (nowhere (λ i h. absurd (ground arith)))
      | inr some_entry ↦ rw some_entry (elim (Bool-cases (ltb (key idx first_hot) target)) [
        | inl hot ↦ rw hot (
            at _ (ground arith) (
              search_loop-IsLast idx target up (count idx) first_hot (count idx - 1) (ground arith)
                (ground arith) (ground arith) (ground arith)))
        | inr cold ↦ rw cold (elim (Bool-cases (ltb target (key idx 0))) [
          | inl before ↦ rw before (
              nowhere (λ i h. elim (Bool-cases (i == 0)) [
                | inl first ↦ ground arith
                | inr more ↦ ground (arith, up 0 i)
              ]))
          | inr there ↦ rw there (
              at _ (ground arith) (
                more-IsLast idx target up first_hot _ (ground arith) (ground arith) (
                  search_loop-IsLast idx target up (count idx) 0 first_hot (ground arith)
                    (ground arith) (ground arith) (ground arith))))
        ])
      ])
    ]
