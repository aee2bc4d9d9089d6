-- ===== src/Server/InFlight.antt =====
-- internal/server/in_flight_pqueue.go: the heap of messages that wait for their acknowledgement. The
-- messages are shared: an item is a pointer, and the store has what it points to. A priority is a time
-- in nanoseconds; `none` is a run-time panic.
pub mod Swaps
pub mod Order
pub mod Down
pub mod Kept
pub mod Heap
pub mod Removal
pub mod Removes
use imserver.Prelude.{
  ℕ, zero, suc, ◌+◌, ◌-◌, ◌*◌, ◌/◌, Bool, List, [], ◌∷◌, ◌++◌, length, take, get_or, set, Option,
  none, some, ltb, leb, ◌==◌, ◌&&◌, if◌then◌else◌,
}
use imserver.Prelude.Int.{ℤ, pos, negsuc}

-- What the queues read of a message.
pub record Message : Type 0 where
  pub to_uid : List ℕ
  pub to_device_id : List ℕ
  pub message_id : ℤ
  pub pri : ℕ
  pub index : ℤ

abbrev pub Store : Type 0
Store = ℕ → Message

abbrev pub write : ℕ → Message → Store → Store
write p m store q = if q == p then m else store q

abbrev pub set_index : ℕ → ℤ → Store → Store
set_index p i store = write p (record (store p) { index = i }) store

pub record Queue : Type 0 where
  pub items : List ℕ
  pub capacity : ℕ
  pub store : Store

abbrev pub item : Queue → ℕ → ℕ
item q i = get_or q.items i 0

abbrev pub pri_at : Queue → ℕ → ℕ
pri_at q i = (q.store (item q i)).pri

-- `Swap`, of two items that are there.
unfoldable pub swap : ℕ → ℕ → Queue → Queue
swap i j q = record q {
  items = set (set q.items i (item q j)) j (item q i);
  store = set_index (item q i) (pos j) (set_index (item q j) (pos i) q.store);
}

-- `up`; the first argument bounds the rounds.
unfoldable pub up : ℕ → ℕ → Queue → Queue
up zero j q = q
up (suc f) j q =
    let i = (j - 1) / 2 in
    let more = up f i (swap i j q) in
    if i == j then q else if leb (pri_at q i) (pri_at q j) then q else more

-- The child that `down` looks at.
abbrev pub child : ℕ → ℕ → Queue → ℕ
child i n q =
    if ltb (2 * i + 2) n && leb (pri_at q (2 * i + 2)) (pri_at q (2 * i + 1))
    then 2 * i + 2
    else 2 * i + 1

unfoldable pub down : ℕ → ℕ → ℕ → Queue → Queue
down zero i n q = q
down (suc f) i n q =
    let j = child i n q in
    let more = down f j n (swap i j q) in
    if leb n (2 * i + 1) then q else if leb (pri_at q i) (pri_at q j) then q else more

-- `Push`, of the message that `x` points to.
unfoldable pub push : ℕ → Queue → Option Queue
push x q =
    let n = length q.items in
    let capacity = if ltb q.capacity (n + 1) then q.capacity * 2 else q.capacity in
    let longer : Queue = record {
      items = q.items ++ x ∷ [];
      capacity = capacity;
      store = set_index x (pos n) q.store;
    } in
    if ltb capacity (n + 1) then none else some (up (suc n) n longer)

-- The last part of `Pop` and `Remove`.
unfoldable pub drop_last : Queue → ℕ × Queue
drop_last q =
    let n = length q.items in
    let x = item q (n - 1) in
    (x, record q { items = take (n - 1) q.items; store = set_index x (negsuc 0) q.store })

-- `Pop`
unfoldable pub pop : Queue → Option (ℕ × Queue)
pop q =
    let n = length q.items in
    let moved = down n 0 (n - 1) (swap 0 (n - 1) q) in
    let capacity =
      if ltb n (q.capacity / 2) && ltb 25 q.capacity then q.capacity / 2 else q.capacity in
    if n == 0 then none else some (drop_last (record moved { capacity = capacity }))

-- `Remove`
unfoldable pub remove : ℤ → Queue → Option (ℕ × Queue)
remove (negsuc i) q = none
remove (pos i) q =
    let n = length q.items in
    let moved = up n i (down n i (n - 1) (swap i (n - 1) q)) in
    if leb n i then none else some (drop_last (if n - 1 == i then q else moved))

-- `PeekAndShift`: the message that is due, if one is, and how long the first has still to wait.
unfoldable pub peek_and_shift : ℕ → Queue → Option (Option ℕ × (ℕ × Queue))
peek_and_shift max q =
    let x = item q 0 in
    let popped : Option (Option ℕ × (ℕ × Queue)) = elim (pop q) [
      | none ↦ none
      | some p ↦ some (some x, (0, p.1))
    ] in
    if length q.items == 0
    then some (none, (0, q))
    else if ltb max (pri_at q 0)
    then some (none, (pri_at q 0 - max, q))
    else popped
