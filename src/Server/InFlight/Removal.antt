-- ===== src/Server/InFlight/Removal.antt =====
-- What `Remove`, `Pop` and `PeekAndShift` take from the queue, and what they leave.
use imserver.Prelude.{
  ℕ, suc, ◌-◌, ◌/◌, ◌≤◌, ◌<◌, ◌≡◌, ◌≢◌, sym, ap, ◌∙◌, true, false, length, take, length-take,
  get_or-take, ◌==◌, arith, inl, inr, Bool-cases,
}
use imserver.Prelude.Int.{negsuc}
use imserver.Server.InFlight.{Queue, set_index, item, pri_at}
use imserver.Server.InFlight.Swaps.{
  unplaced-set_index, index-set_index, set_index-other, distinct, IsIndexed,
}
use imserver.Server.InFlight.Order.{Ordered}
use imserver.Server.InFlight.Kept.{Rearranged}
use imserver.Server.InFlight.Heap.{IsQueue, Removed}

-- A queue that is a heap but for its last item, which is to go.
pub record IsLoose (q : Queue) : Type 0 where
  pub ordered : Ordered (length q.items - 1) q
  pub indexed : IsIndexed q
  pub some_item : 0 < length q.items
  pub fits : length q.items ≤ suc q.capacity
  pub room : 0 < q.capacity

module _ (q : Queue) (loose : IsLoose q) where
  abbrev pub n : ℕ
  n = length q.items - 1

  abbrev pub x : ℕ
  x = item q n

  abbrev pub rest : Queue
  rest = record q { items = take n q.items; store = set_index x (negsuc 0) q.store }

  length-rest : length rest.items ≡ n
  length-rest = omega (arith, length-take n q.items)

  old : (c : ℕ) → c < n → item rest c ≡ item q c
  old c h = get_or-take q.items n c 0 h

  pri-old : (c : ℕ) → c < n → pri_at rest c ≡ pri_at q c
  pri-old c h =
      ap (λ p. (rest.store p).pri) (old c h)
      ∙ ap (λ m. m.pri) (unplaced-set_index x (negsuc 0) q.store (item q c))

  apart : (c : ℕ) → c < n → item q c ≢ x
  apart c h e =
      let same =
        distinct q loose.indexed c n (omega (arith, h)) (omega (arith, loose.some_item)) e in
      absurd (omega (arith, h, same))

  rest-IsQueue : IsQueue rest
  rest-IsQueue = record {
    ordered = λ c cp cn. omega (
      arith,
      length-rest,
      pri-old c (omega (arith, cn, length-rest)),
      pri-old ((c - 1) / 2) (omega (arith, cn, length-rest)),
      loose.ordered c cp (omega (arith, cn, length-rest)),
    );
    indexed = λ c h.
        (let inside : c < n = omega (arith, h, length-rest) in
          ap (λ p. (rest.store p).index) (old c inside)
          ∙ ap (λ m. m.index) (set_index-other x (negsuc 0) q.store (item q c) (apart c inside))
          ∙ loose.indexed c (omega (arith, inside)));
    fits = omega (arith, length-rest, loose.fits, loose.some_item);
    room = loose.room;
  }

  pub rest-Removed : Removed q x rest
  rest-Removed = record {
    valid = rest-IsQueue;
    forth = λ p h other. elim (Bool-cases (h.0 == n)) [
      | inl last ↦ absurd (other (sym h.1.1 ∙ ap (item q) (same_of last)))
      | inr before ↦ (h.0, (less_of h.0 h.1.0 before, old h.0 (less_here h.0 h.1.0 before) ∙ h.1.1))
    ];
    back = λ p h.
        (let inside : h.0 < n = omega (arith, h.1.0, length-rest) in
          let e = sym (old h.0 inside) ∙ h.1.1 in
          ((h.0, (omega (arith, inside), e)), λ same. apart h.0 inside (e ∙ same)));
    smaller = omega (arith, length-rest, loose.some_item);
    out = index-set_index x (negsuc 0) q.store;
    kept = λ p. unplaced-set_index x (negsuc 0) q.store p;
  }
    where
      same_of : {a b : ℕ} → (a == b) ≡ true → a ≡ b
      same_of h = ground arith

      less_here : (c : ℕ) → c < length q.items → (c == n) ≡ false → c < n
      less_here c h other = ground arith

      less_of : (c : ℕ) → c < length q.items → (c == n) ≡ false → c < length rest.items
      less_of c h other = let k = less_here c h other in omega (arith, k, length-rest)

-- To take it from a queue that was rearranged is to take it from the queue.
pub Removed-back :
    (m capacity : ℕ) (q r s : Queue) (x : ℕ)
    → Rearranged m q r
    → Removed (record r { capacity = capacity }) x s
    → Removed q x s
Removed-back m capacity q r s x a b = record {
  valid = b.valid;
  forth = λ p h other. b.forth p (a.forth p h) other;
  back = λ p h. (a.back p (b.back p h).0, (b.back p h).1);
  smaller = omega (arith, a.same_length, b.smaller);
  out = b.out;
  kept = λ p. b.kept p ∙ a.kept p;
}
