-- ===== src/Server/InFlight/Removes.antt =====
-- `Remove`, `Pop` and `PeekAndShift` take the message that they are to take, and leave the others.
use imserver.Prelude.{
  ℕ, suc, ◌-◌, ◌/◌, ◌≤◌, ◌<◌, ◌≡◌, ◌≢◌, refl, sym, ap, ◌∙◌, false, length, Option, none, some, ltb,
  leb, ◌==◌, ◌&&◌, if◌then◌else◌, arith, inl, inr, Bool-cases,
}
use mathlib.Core.Path.{subst}
use imserver.Prelude.Int.{pos}
use imserver.Server.InFlight.{
  Queue, item, pri_at, swap, up, down, drop_last, pop, remove, peek_and_shift,
}
use imserver.Server.InFlight.Swaps.{length-swap, item-right, other-swap}
use imserver.Server.InFlight.Order.{Ordered, OrderedBut, up-Ordered}
use imserver.Server.InFlight.Down.{Sinking, down-OrderedBut}
use imserver.Server.InFlight.Kept.{
  In, Rearranged, then-Rearranged, swap-Rearranged, up-Rearranged, down-Rearranged,
}
use imserver.Server.InFlight.Heap.{IsQueue, Removed, root-least}
use imserver.Server.InFlight.Removal.{IsLoose, rest, rest-Removed, Removed-back}

wider : (m k : ℕ) (q r : Queue) → m ≤ k → Rearranged m q r → Rearranged k q r
wider m k q r h a = record {
  same_length = a.same_length;
  same_capacity = a.same_capacity;
  fixed = λ c l. a.fixed c (omega (arith, h, l));
  kept = a.kept;
  forth = a.forth;
  back = a.back;
  indexed = a.indexed;
}

module _ (q : Queue) (valid : IsQueue q) (i : ℕ) (iq : i < length q.items) where
  abbrev last : ℕ
  last = length q.items - 1

  abbrev swapped : Queue
  swapped = swap i last q

  last_inside : last < length q.items
  last_inside = omega (arith, iq)

  same : (c : ℕ) → c < last → c ≢ i → pri_at swapped c ≡ pri_at q c
  same c h other = other-swap q i last iq last_inside c (λ e. other (sym e)) (omega (arith, h))

  swapped-Sinking : Sinking i i last swapped
  swapped-Sinking = record {
    from = omega arith;
    except = λ c cp cn ci away. omega (
      arith,
      same c cn ci,
      same ((c - 1) / 2) (omega (arith, cn)) away,
      valid.ordered c cp (omega (arith, cn)),
    );
    bridge = λ c ip cn e. omega (
      arith,
      same c cn (omega (arith, e, ip)),
      same ((i - 1) / 2) (omega (arith, e, cn, ip)) (omega (arith, ip)),
      valid.ordered i ip iq,
      valid.ordered c (omega (arith, e, ip)) (omega (arith, cn)),
      ap (pri_at q) e,
    );
    first = inl refl;
  }

  abbrev sifted : Queue
  sifted = down (length q.items) i last swapped

  length-swapped : length swapped.items ≡ length q.items
  length-swapped = length-swap q i last iq last_inside

  swapped-Rearranged : Rearranged (length q.items) q swapped
  swapped-Rearranged = swap-Rearranged (length q.items) i last q iq last_inside (omega arith)

  sifted-Rearranged : Rearranged last swapped sifted
  sifted-Rearranged =
      down-Rearranged last (length q.items) i swapped (omega (arith, length-swapped))

  sifted-OrderedBut : OrderedBut i last sifted
  sifted-OrderedBut =
      down-OrderedBut i last (length q.items) i swapped (omega (arith, length-swapped))
        (omega arith) swapped-Sinking

  length-sifted : length sifted.items ≡ length q.items
  length-sifted = sifted-Rearranged.same_length ∙ length-swapped

  -- What is behind `last` has been swapped there, and a rearrangement before it leaves it.
  behind : (r : Queue) → Rearranged last swapped r → item r (length r.items - 1) ≡ item q i
  behind r a =
      let k : length r.items - 1 ≡ last = omega (arith, a.same_length, length-swapped) in
      ap (item r) k ∙ a.fixed last (omega arith) ∙ item-right q i last iq last_inside

  -- A rearrangement that is a heap before `last`, with any capacity that is enough.
  loose :
      (r : Queue)
      → Rearranged last swapped r
      → Ordered last r
      → (capacity : ℕ) → last ≤ capacity
      → 0 < capacity
      → IsLoose (record r { capacity = capacity })
  loose r a o capacity le room = record {
    ordered = λ c cp cn. o c cp (omega (arith, cn, a.same_length, length-swapped));
    indexed = a.indexed (swapped-Rearranged.indexed valid.indexed);
    some_item = omega (arith, a.same_length, length-swapped, iq);
    fits = omega (arith, a.same_length, length-swapped, le);
    room = room;
  }

  -- And what is left of it.
  taken :
      (r : Queue)
      → Rearranged last swapped r
      → (capacity : ℕ) → IsLoose (record r { capacity = capacity })
      → (s : Queue) × ((drop_last (record r { capacity = capacity }) ≡ (item q i, s))
          × Removed q (item q i) s)
  unfolding drop_last
  taken r a capacity l =
      let t : Queue = record r { capacity = capacity } in
      let all =
        then-Rearranged (length q.items) q swapped r swapped-Rearranged
          (wider last (length q.items) swapped r (omega arith) a) in
      (
        rest t l,
        (
          ap (λ y. (y, rest t l)) (behind r a),
          Removed-back (length q.items) capacity q r (rest t l) (item q i) all
              (subst (λ y. Removed t y (rest t l)) (behind r a) (rest-Removed t l)),
        ),
      )

  abbrev lifted : Queue
  lifted = up (length q.items) i sifted

  lifted_lem : i < last → Rearranged last swapped lifted × Ordered last lifted
  lifted_lem inner = (
    then-Rearranged last swapped sifted lifted sifted-Rearranged
        (up-Rearranged last (length q.items) i sifted (omega (arith, length-sifted)) inner),
    up-Ordered last (length q.items) i sifted (omega (arith, length-sifted)) inner iq
        sifted-OrderedBut,
  )

  abbrev Taken : Option (ℕ × Queue) → Type 0
  Taken o = (s : Queue) × ((o ≡ some (item q i, s)) × Removed q (item q i) s)

  own-IsLoose : IsLoose q
  own-IsLoose = record {
    ordered = λ c cp cn. valid.ordered c cp (omega (arith, cn));
    indexed = valid.indexed;
    some_item = omega (arith, iq);
    fits = omega (arith, valid.fits);
    room = valid.room;
  }

  -- `Remove` of a place in a heap whose messages know their places never panics: it gives the
  -- message that is there, with the index -1, and leaves such a heap of the others, none of which
  -- has changed but for its place.
  pub remove-Removed : Taken (remove (pos i) q)
  unfolding remove drop_last
  remove-Removed =
      let inside : leb (length q.items) i ≡ false = ground (arith, iq) in
      elim (Bool-cases (last == i)) [
        | inl at_end ↦
            rw (inside, at_end)
              (let e : last ≡ i = ground arith in
                (
                  rest q own-IsLoose,
                  (
                    ap (λ y. some (item q y, rest q own-IsLoose)) e,
                    subst (λ y. Removed q (item q y) (rest q own-IsLoose)) e
                        (rest-Removed q own-IsLoose),
                  ),
                ))
        | inr inner ↦
            rw (inside, inner)
              (let h = lifted_lem (ground arith) in
                let k = h.0.same_capacity ∙ swapped-Rearranged.same_capacity in
                let t = taken lifted h.0 lifted.capacity (
                  loose lifted h.0 h.1 lifted.capacity (omega (arith, k, valid.fits))
                    (omega (arith, k, valid.room))) in
                (t.0, (ap some t.1.0, t.1.1)))
      ]

module _ (q : Queue) (valid : IsQueue q) where
  -- `Pop` of a queue with a message never panics, gives the first and leaves the queue without it.
  pub pop-Removed :
      0 < length q.items → (s : Queue) × ((pop q ≡ some (item q 0, s)) × Removed q (item q 0) s)
  unfolding pop
  pop-Removed some_item =
      let none : (length q.items == 0) ≡ false = ground (arith, some_item) in
      let moved : Queue = sifted q valid 0 some_item in
      let but = sifted-OrderedBut q valid 0 some_item in
      let same = sifted-Rearranged q valid 0 some_item in
      let k = same.same_capacity ∙ (swapped-Rearranged q valid 0 some_item).same_capacity in
      let shrunk : ℕ =
        if ltb (length q.items) (q.capacity / 2) && ltb 25 q.capacity
        then q.capacity / 2
        else q.capacity in
      let t = taken q valid 0 some_item moved same shrunk (
        loose q valid 0 some_item moved same (λ c cp cn. but.except c cp cn (omega (arith, cp)))
          shrunk (ground (arith, valid.fits)) (ground (arith, valid.room))) in
      (t.0, (rw none (ap some t.1.0), t.1.1))

  -- What `PeekAndShift` may give: nothing when every message is later than `max`, or else the message of
  -- the lowest priority.
  pub data Shifted (max : ℕ) : Option (Option ℕ × (ℕ × Queue)) → Type 0 where
    waits :
        (wait : ℕ)
        → ((p : ℕ) → In q p → max < (q.store p).pri)
        → Shifted max (some (none, (wait, q)))
    due :
        (x : ℕ) (r : Queue)
        → In q x
        → (q.store x).pri ≤ max
        → ((p : ℕ) → In q p → (q.store x).pri ≤ (q.store p).pri)
        → Removed q x r
        → Shifted max (some (some x, (0, r)))

  first-least : (p : ℕ) → In q p → pri_at q 0 ≤ (q.store p).pri
  first-least p (c, (h, e)) = omega (
    arith,
    root-least q (length q.items) (suc c) c valid.ordered (omega arith) h,
    ap (λ y. (q.store y).pri) e,
  )

  -- `PeekAndShift` on a heap whose messages know their places never panics: if the lowest priority
  -- is not past `max` it takes a message of that priority and leaves such a heap of the others,
  -- and otherwise it takes nothing and leaves the queue as it is.
  pub peek_and_shift-Shifted : (max : ℕ) → Shifted max (peek_and_shift max q)
  unfolding peek_and_shift
  peek_and_shift-Shifted max = elim (Bool-cases (length q.items == 0)) [
    | inl empty ↦ rw empty (waits 0 (λ p h. absurd (ground (arith, h.1.0))))
    | inr some_item ↦ elim (Bool-cases (ltb max (pri_at q 0))) [
      | inl later ↦
          rw (some_item, later) (waits _ (λ p h. (let k = first-least p h in ground arith)))
      | inr now ↦
          let more : 0 < length q.items = ground arith in
          let t = pop-Removed more in
          rw (some_item, now, t.1.0)
            (due (item q 0) t.0 (0, (more, refl)) (ground arith) first-least t.1.1)
    ]
  ]
