-- ===== src/Server/InFlight/Down.antt =====
-- `down` leaves a heap but for the item that it started at.
use imserver.Prelude.{
  ℕ, zero, suc, ◌+◌, ◌-◌, ◌*◌, ◌/◌, ◌≤◌, ◌<◌, ◌≡◌, ◌≢◌, ◌⊎◌, sym, ap, ◌∙◌, true, false, length, ltb,
  leb, ◌==◌, arith, inl, inr, Bool-cases,
}
use mathlib.Core.Path.{subst}
use imserver.Server.InFlight.{Queue, pri_at, swap, child, down}
use imserver.Server.InFlight.Swaps.{length-swap, left-swap, right-swap, other-swap}
use imserver.Server.InFlight.Order.{Edge, OrderedBut}

-- `j` is the child of `k` that comes first.
record IsLeast (k n j : ℕ) (q : Queue) : Type 0 where
  inside : j < n
  parent : (j - 1) / 2 ≡ k
  later : k < j
  least : (c : ℕ) → 0 < c → c < n → (c - 1) / 2 ≡ k → pri_at q j ≤ pri_at q c

child-IsLeast : (k n : ℕ) (q : Queue) → 2 * k + 1 < n → IsLeast k n (child k n q) q
child-IsLeast k n q some =
    let two = λ (c : ℕ) (cp : 0 < c) (e : (c - 1) / 2 ≡ k). sides c cp e in
    elim (Bool-cases (ltb (2 * k + 2) n)) [
      | inl both ↦ elim (Bool-cases (leb (pri_at q (2 * k + 2)) (pri_at q (2 * k + 1)))) [
        | inl second ↦
            rw (both, second)
              (record {
                inside = ground arith;
                parent = omega arith;
                later = omega arith;
                least = λ c cp cn e. elim (two c cp e) [
                  | inl l ↦ omega (arith, ap (pri_at q) l, le second)
                  | inr r ↦ omega (arith, ap (pri_at q) r)
                ];
              })
        | inr first ↦
            rw (both, first)
              (record {
                inside = omega (arith, some);
                parent = omega arith;
                later = omega arith;
                least = λ c cp cn e. elim (two c cp e) [
                  | inl l ↦ omega (arith, ap (pri_at q) l)
                  | inr r ↦ omega (arith, ap (pri_at q) r, lt first)
                ];
              })
      ]
      | inr one ↦ rw one (record {
        inside = omega (arith, some);
        parent = omega arith;
        later = omega arith;
        least = λ c cp cn e. elim (two c cp e) [
          | inl l ↦ omega (arith, ap (pri_at q) l)
          | inr r ↦ absurd (ground arith)
        ];
      })
    ]
  where
    sides : (c : ℕ) → 0 < c → (c - 1) / 2 ≡ k → (c ≡ 2 * k + 1) ⊎ (c ≡ 2 * k + 2)
    sides c cp e = elim (Bool-cases (c == 2 * k + 1)) [
      | inl l ↦ inl (ground arith)
      | inr r ↦ inr (ground arith)
    ]

    le : {a b : ℕ} → leb a b ≡ true → a ≤ b
    le h = ground arith

    lt : {a b : ℕ} → leb a b ≡ false → b < a
    lt h = ground arith

pub child-inside : (k n : ℕ) (q : Queue) → 2 * k + 1 < n → child k n q < n
child-inside k n q some = (child-IsLeast k n q some).inside

-- The loop, which started at `start` and is at `k`: the items below `k` may be before the one at `k`,
-- and the one above `k` is not behind them.
pub record Sinking (start k n : ℕ) (q : Queue) : Type 0 where
  pub from : start ≤ k
  pub except : (c : ℕ) → 0 < c → c < n → c ≢ start → (c - 1) / 2 ≢ k → Edge q c
  pub bridge : (c : ℕ) → 0 < k → c < n → (c - 1) / 2 ≡ k → pri_at q ((k - 1) / 2) ≤ pri_at q c
  pub first : (k ≡ start) ⊎ (0 < start → Edge q start)

-- Where the loop stops.
sunk :
    (start k n : ℕ) (q : Queue)
    → Sinking start k n q
    → ((c : ℕ) → 0 < c → c < n → (c - 1) / 2 ≡ k → pri_at q k ≤ pri_at q c)
    → OrderedBut start n q
sunk start k n q s below =
    let edges = λ (c : ℕ) (cp : 0 < c) (cn : c < n) (cs : c ≢ start).
      elim (Bool-cases ((c - 1) / 2 == k)) as (λ x. Edge q c) [
        | inl child ↦
            let e : (c - 1) / 2 ≡ k = ground arith in
            omega (arith, ap (pri_at q) e, below c cp cn e)
        | inr away ↦ s.except c cp cn cs (ground arith)
      ] in
    record {
      except = edges;
      bridge = λ c sp cn e. elim s.first [
        | inl here ↦ omega (
          arith,
          ap (λ x. pri_at q ((x - 1) / 2)) here,
          s.bridge c (omega (arith, here, sp)) cn (e ∙ sym here),
        )
        | inr up ↦ omega (
          arith,
          up sp,
          ap (pri_at q) e,
          edges c (omega (arith, sp, e)) cn (omega (arith, sp, e)),
        )
      ];
    }

module _ (start k n j : ℕ) (q : Queue) (fits : n ≤ length q.items) (l : IsLeast k n j q) where
  abbrev q1 : Queue
  q1 = swap k j q

  kq : k < length q.items
  kq = omega (arith, l.later, l.inside, fits)

  jq : j < length q.items
  jq = omega (arith, l.inside, fits)

  left : pri_at q1 k ≡ pri_at q j
  left = left-swap q k j kq jq

  right : pri_at q1 j ≡ pri_at q k
  right = right-swap q k j kq jq

  other : (c : ℕ) → c ≢ k → c ≢ j → pri_at q1 c ≡ pri_at q c
  other c ck cj = other-swap q k j kq jq c (λ e. ck (sym e)) (λ e. cj (sym e))

  -- The item that comes up to `k` is not before the one above.
  up_k : Sinking start k n q → 0 < k → Edge q1 k
  up_k s some = omega (
    arith,
    left,
    other ((k - 1) / 2) (omega (arith, some)) (omega (arith, some, l.later)),
    s.bridge j some l.inside l.parent,
  )

  -- One step of `down`.
  swap-Sinking : Sinking start k n q → pri_at q j < pri_at q k → Sinking start j n q1
  swap-Sinking s less = record {
    from = omega (arith, s.from, l.later);
    except = λ c cp cn cs cj. elim (Bool-cases (c == k)) [
      | inl at_k ↦
          (let e : c ≡ k = ground arith in subst (Edge q1) (sym e) (up_k s (omega (arith, e, cp))))
      | inr off_k ↦ elim (Bool-cases (c == j)) [
        | inl at_j ↦
            (let e : c ≡ j = ground arith in
              let swapped : Edge q1 j = omega (arith, ap (pri_at q1) l.parent, left, right, less) in
              subst (Edge q1) (sym e) swapped)
        | inr off_j ↦
            (let here = other c (ground arith) (ground arith) in
              elim (Bool-cases ((c - 1) / 2 == k)) [
                | inl below ↦
                    (let e : (c - 1) / 2 ≡ k = ground arith in
                      omega (arith, ap (pri_at q1) e, left, here, l.least c cp cn e))
                | inr away ↦ omega (
                  arith,
                  here,
                  other ((c - 1) / 2) (ground arith) cj,
                  s.except c cp cn cs (ground arith),
                )
              ])
      ]
    ];
    bridge = λ c jp cn e.
        (let here = other c (omega (arith, e, l.later)) (omega (arith, e, jp)) in
          let old =
            s.except c (omega (arith, e, jp)) cn (omega (arith, e, l.later, s.from))
              (omega (arith, e, l.later)) in
          omega (arith, ap (pri_at q1) l.parent, left, here, ap (pri_at q) e, old));
    first = inr (λ sp. elim s.first [
      | inl here ↦ subst (Edge q1) here (up_k s (omega (arith, here, sp)))
      | inr up ↦ elim (Bool-cases (k == start)) [
        | inl same ↦
            (let e : k ≡ start = ground arith in subst (Edge q1) e (up_k s (omega (arith, e, sp))))
        | inr apart ↦
            (let off : start ≢ k = ground arith in
              omega (
                arith,
                up sp,
                other start off (omega (arith, s.from, l.later)),
                other ((start - 1) / 2) (omega (arith, s.from, sp))
                    (omega (arith, s.from, sp, l.later)),
              ))
      ]
    ]);
  }

pub down-OrderedBut :
    (start n f k : ℕ) (q : Queue)
    → n ≤ length q.items
    → n ≤ k + f
    → Sinking start k n q
    → OrderedBut start n (down f k n q)
unfolding down
down-OrderedBut start n zero k q fits enough s =
    sunk start k n q s (λ c cp cn e. absurd (omega (arith, e, cn, cp, enough)))
down-OrderedBut start n (suc f) k q fits enough s =
    let j : ℕ = child k n q in
    elim (Bool-cases (leb n (2 * k + 1))) [
      | inl leaf ↦ rw leaf (sunk start k n q s (λ c cp cn e. absurd (ground arith)))
      | inr inner ↦
          let l : IsLeast k n j q = child-IsLeast k n q (ground arith) in
          rw inner (elim (Bool-cases (leb (pri_at q k) (pri_at q j))) [
            | inl done ↦
                rw done
                  (sunk start k n q s (λ c cp cn e. (let h = l.least c cp cn e in ground arith)))
            | inr more ↦ rw more (
                down-OrderedBut start n f j (swap k j q)
                  (omega (
                    arith,
                    fits,
                    length-swap q k j (omega (arith, l.later, l.inside, fits))
                        (omega (arith, l.inside, fits)),
                  ))
                  (omega (arith, enough, l.later))
                  (swap-Sinking start k n j q fits l s (ground arith)))
          ])
    ]
