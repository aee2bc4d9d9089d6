-- ===== src/Server/InFlight/Swaps.antt =====
-- What a swap does to the places of the heap, and what it keeps.
use imserver.Prelude.{
  ℕ, ◌<◌, ◌≡◌, ◌≢◌, refl, sym, ap, ◌∙◌, true, false, length, length-set, set, get_or-set,
  get_or-set_other, ◌==◌, arith, inl, inr, Bool-cases,
}
use imserver.Prelude.Int.{ℤ, pos, pos_part}
use imserver.Server.InFlight.{Message, Store, set_index, Queue, item, pri_at, swap}

-- What an index write leaves of a message.
abbrev pub unplaced : Message → Message
unplaced m = record m { index = pos 0 }

pub unplaced-set_index :
    (p : ℕ) (i : ℤ) (store : Store) (x : ℕ) → unplaced (set_index p i store x) ≡ unplaced (store x)
unplaced-set_index p i store x = elim (Bool-cases (x == p)) [
  | inl same ↦ let e : x ≡ p = ground arith in rw same (ap (λ y. unplaced (store y)) (sym e))
  | inr other ↦ rw other refl
]

pub index-set_index : (p : ℕ) (i : ℤ) (store : Store) → (set_index p i store p).index ≡ i
index-set_index p i store = let same : (p == p) ≡ true = ground arith in rw same refl

pub set_index-other :
    (p : ℕ) (i : ℤ) (store : Store) (x : ℕ) → x ≢ p → set_index p i store x ≡ store x
set_index-other p i store x h = let other : (x == p) ≡ false = ground (arith, h) in rw other refl

-- Every item knows its place.
abbrev pub IsIndexed : Queue → Type 0
IsIndexed q = (c : ℕ) → c < length q.items → (q.store (item q c)).index ≡ pos c

pub distinct :
    (q : Queue)
    → IsIndexed q
    → (c d : ℕ) → c < length q.items
    → d < length q.items
    → item q c ≡ item q d
    → c ≡ d
distinct q h c d cn dn e = ap pos_part (sym (h c cn) ∙ ap (λ p. (q.store p).index) e ∙ h d dn)

module _ (q : Queue) (i j : ℕ) (iq : i < length q.items) (jq : j < length q.items) where
  pub length-swap : length (swap i j q).items ≡ length q.items
  unfolding swap
  length-swap = length-set (set q.items i (item q j)) j (item q i) ∙ length-set q.items i (item q j)

  pub item-right : item (swap i j q) j ≡ item q i
  unfolding swap
  item-right =
      get_or-set (set q.items i (item q j)) j (item q i) 0
        (omega (arith, jq, length-set q.items i (item q j)))

  item-moved : j ≢ i → item (swap i j q) i ≡ item q j
  unfolding swap
  item-moved h =
      get_or-set_other (set q.items i (item q j)) j i (item q i) 0 h
      ∙ get_or-set q.items i (item q j) 0 iq

  pub item-left : item (swap i j q) i ≡ item q j
  item-left = elim (Bool-cases (i == j)) [
    | inl same ↦
        let e : i ≡ j = ground arith in ap (item (swap i j q)) e ∙ item-right ∙ ap (item q) e
    | inr other ↦ item-moved (ground arith)
  ]

  pub item-other : (c : ℕ) → i ≢ c → j ≢ c → item (swap i j q) c ≡ item q c
  unfolding swap
  item-other c ic jc =
      get_or-set_other (set q.items i (item q j)) j c (item q i) 0 jc
      ∙ get_or-set_other q.items i c (item q j) 0 ic

  pub unplaced-swap : (x : ℕ) → unplaced ((swap i j q).store x) ≡ unplaced (q.store x)
  unfolding swap
  unplaced-swap x =
      unplaced-set_index (item q i) (pos j) (set_index (item q j) (pos i) q.store) x
      ∙ unplaced-set_index (item q j) (pos i) q.store x

  pri-swap : (x : ℕ) → ((swap i j q).store x).pri ≡ (q.store x).pri
  pri-swap x = ap (λ m. m.pri) (unplaced-swap x)

  -- The priorities at the places.
  pub left-swap : pri_at (swap i j q) i ≡ pri_at q j
  left-swap = ap (λ x. ((swap i j q).store x).pri) item-left ∙ pri-swap (item q j)

  pub right-swap : pri_at (swap i j q) j ≡ pri_at q i
  right-swap = ap (λ x. ((swap i j q).store x).pri) item-right ∙ pri-swap (item q i)

  pub other-swap : (c : ℕ) → i ≢ c → j ≢ c → pri_at (swap i j q) c ≡ pri_at q c
  other-swap c ic jc =
      ap (λ x. ((swap i j q).store x).pri) (item-other c ic jc) ∙ pri-swap (item q c)

  index-right : ((swap i j q).store (item q i)).index ≡ pos j
  unfolding swap
  index-right = index-set_index (item q i) (pos j) (set_index (item q j) (pos i) q.store)

  index-left : item q j ≢ item q i → ((swap i j q).store (item q j)).index ≡ pos i
  unfolding swap
  index-left h =
      ap (λ m. m.index)
        (set_index-other (item q i) (pos j) (set_index (item q j) (pos i) q.store) (item q j) h)
      ∙ index-set_index (item q j) (pos i) q.store

  index-other :
      (x : ℕ) → x ≢ item q i → x ≢ item q j → ((swap i j q).store x).index ≡ (q.store x).index
  unfolding swap
  index-other x hi hj =
      ap (λ m. m.index)
        (set_index-other (item q i) (pos j) (set_index (item q j) (pos i) q.store) x hi
          ∙ set_index-other (item q j) (pos i) q.store x hj)

  abbrev index_of : ℕ → ℤ
  index_of x = ((swap i j q).store x).index

  -- After a swap every item knows its place again.
  pub swap-IsIndexed : IsIndexed q → IsIndexed (swap i j q)
  swap-IsIndexed h c inside =
      let cn : c < length q.items = omega (arith, length-swap, inside) in
      elim (Bool-cases (c == j)) [
        | inl right ↦
            let e : c ≡ j = ground arith in
            ap index_of (ap (item (swap i j q)) e ∙ item-right) ∙ index-right ∙ ap pos (sym e)
        | inr not_right ↦ elim (Bool-cases (c == i)) [
          | inl left ↦
              let e : c ≡ i = ground arith in
              let apart = λ (same : item q j ≡ item q i).
                (let k = distinct q h j i jq iq same in absurd (ground arith)) in
              ap index_of (ap (item (swap i j q)) e ∙ item-left) ∙ index-left apart ∙ ap pos (sym e)
          | inr not_left ↦
              let not_i = λ (same : item q c ≡ item q i).
                (let k = distinct q h c i cn iq same in absurd (ground arith)) in
              let not_j = λ (same : item q c ≡ item q j).
                (let k = distinct q h c j cn jq same in absurd (ground arith)) in
              ap index_of (item-other c (ground arith) (ground arith))
              ∙ index-other (item q c) not_i not_j
              ∙ h c cn
        ]
      ]
