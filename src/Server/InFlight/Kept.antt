-- ===== src/Server/InFlight/Kept.antt =====
-- `up` and `down` only rearrange the first items: the queue has the same messages, and these know their
-- places.
use imserver.Prelude.{
  ℕ, zero, suc, ◌+◌, ◌-◌, ◌*◌, ◌/◌, ◌≤◌, ◌<◌, ◌≡◌, refl, sym, ap, ◌∙◌, length, leb, ◌==◌, arith,
  inl, inr, Bool-cases,
}
use imserver.Server.InFlight.{Queue, item, pri_at, swap, child, up, down}
use imserver.Server.InFlight.Down.{child-inside}
use imserver.Server.InFlight.Swaps.{
  unplaced, unplaced-swap, IsIndexed, swap-IsIndexed, length-swap, item-left, item-right,
  item-other,
}

-- The queue has the message.
abbrev pub In : Queue → ℕ → Type 0
In q x = (c : ℕ) × ((c < length q.items) × (item q c ≡ x))

-- The first `m` items are rearranged.
pub record Rearranged (m : ℕ) (q r : Queue) : Type 0 where
  pub same_length : length r.items ≡ length q.items
  pub same_capacity : r.capacity ≡ q.capacity
  pub fixed : (c : ℕ) → m ≤ c → item r c ≡ item q c
  pub kept : (x : ℕ) → unplaced (r.store x) ≡ unplaced (q.store x)
  pub forth : (x : ℕ) → In q x → In r x
  pub back : (x : ℕ) → In r x → In q x
  pub indexed : IsIndexed q → IsIndexed r

pub same-Rearranged : (m : ℕ) (q : Queue) → Rearranged m q q
same-Rearranged m q = record {
  same_length = refl;
  same_capacity = refl;
  fixed = λ c h. refl;
  kept = λ x. refl;
  forth = λ x h. h;
  back = λ x h. h;
  indexed = λ h. h;
}

pub then-Rearranged :
    (m : ℕ) (q r s : Queue) → Rearranged m q r → Rearranged m r s → Rearranged m q s
then-Rearranged m q r s a b = record {
  same_length = b.same_length ∙ a.same_length;
  same_capacity = b.same_capacity ∙ a.same_capacity;
  fixed = λ c h. b.fixed c h ∙ a.fixed c h;
  kept = λ x. b.kept x ∙ a.kept x;
  forth = λ x h. b.forth x (a.forth x h);
  back = λ x h. a.back x (b.back x h);
  indexed = λ h. b.indexed (a.indexed h);
}

module _ (m i j : ℕ) (q : Queue) (im : i < m) (jm : j < m) (fits : m ≤ length q.items) where
  iq : i < length q.items
  iq = omega (arith, im, fits)

  jq : j < length q.items
  jq = omega (arith, jm, fits)

  capacity-swap : (swap i j q).capacity ≡ q.capacity
  unfolding swap
  capacity-swap = refl

  place : (c : ℕ) → c < length q.items → c < length (swap i j q).items
  place c h = omega (arith, h, length-swap q i j iq jq)

  -- Where an item goes to.
  moved : (c : ℕ) → c < length q.items → In (swap i j q) (item q c)
  moved c h = elim (Bool-cases (c == i)) [
    | inl left ↦
        (let e : c ≡ i = ground arith in
          (j, (place j jq, item-right q i j iq jq ∙ ap (item q) (sym e))))
    | inr not_left ↦ elim (Bool-cases (c == j)) [
      | inl right ↦
          (let e : c ≡ j = ground arith in
            (i, (place i iq, item-left q i j iq jq ∙ ap (item q) (sym e))))
      | inr other ↦ (c, (place c h, item-other q i j iq jq c (ground arith) (ground arith)))
    ]
  ]

  -- And where it comes from.
  came : (c : ℕ) → c < length q.items → In q (item (swap i j q) c)
  came c h = elim (Bool-cases (c == i)) [
    | inl left ↦
        (let e : c ≡ i = ground arith in
          (j, (jq, sym (ap (item (swap i j q)) e ∙ item-left q i j iq jq))))
    | inr not_left ↦ elim (Bool-cases (c == j)) [
      | inl right ↦
          (let e : c ≡ j = ground arith in
            (i, (iq, sym (ap (item (swap i j q)) e ∙ item-right q i j iq jq))))
      | inr other ↦ (c, (h, sym (item-other q i j iq jq c (ground arith) (ground arith))))
    ]
  ]

  pub swap-Rearranged : Rearranged m q (swap i j q)
  swap-Rearranged = record {
    same_length = length-swap q i j iq jq;
    same_capacity = capacity-swap;
    fixed = λ c h. item-other q i j iq jq c (omega (arith, im, h)) (omega (arith, jm, h));
    kept = λ x. unplaced-swap q i j iq jq x;
    forth = λ x h. (let r = moved h.0 h.1.0 in (r.0, (r.1.0, r.1.1 ∙ h.1.1)));
    back = λ x h.
        (let r = came h.0 (omega (arith, h.1.0, length-swap q i j iq jq)) in
          (r.0, (r.1.0, r.1.1 ∙ h.1.1)));
    indexed = swap-IsIndexed q i j iq jq;
  }

pub up-Rearranged : (m f j : ℕ) (q : Queue) → m ≤ length q.items → j < m → Rearranged m q (up f j q)
unfolding up
up-Rearranged m zero j q fits jm = same-Rearranged m q
up-Rearranged m (suc f) j q fits jm =
    let i : ℕ = (j - 1) / 2 in
    elim (Bool-cases (i == j)) [
      | inl root ↦ rw root (same-Rearranged m q)
      | inr deep ↦ rw deep (elim (Bool-cases (leb (pri_at q i) (pri_at q j))) [
        | inl done ↦ rw done (same-Rearranged m q)
        | inr more ↦ rw more (
            let one = swap-Rearranged m i j q (omega (arith, jm)) jm fits in
            then-Rearranged m q (swap i j q) _ one (
              up-Rearranged m f i (swap i j q) (omega (arith, one.same_length, fits))
                (omega (arith, jm))))
      ])
    ]

pub down-Rearranged : (m f k : ℕ) (q : Queue) → m ≤ length q.items → Rearranged m q (down f k m q)
unfolding down
down-Rearranged m zero k q fits = same-Rearranged m q
down-Rearranged m (suc f) k q fits =
    let j : ℕ = child k m q in
    elim (Bool-cases (leb m (2 * k + 1))) [
      | inl leaf ↦ rw leaf (same-Rearranged m q)
      | inr inner ↦ rw inner (elim (Bool-cases (leb (pri_at q k) (pri_at q j))) [
        | inl done ↦ rw done (same-Rearranged m q)
        | inr more ↦ rw more (
            let one =
              swap-Rearranged m k j q (ground arith) (child-inside k m q (ground arith)) fits in
            then-Rearranged m q (swap k j q) _ one
              (down-Rearranged m f j (swap k j q) (omega (arith, one.same_length, fits))))
      ])
    ]
