-- ===== src/Server/InFlight/Order.antt =====
-- `up` and `down` restore the order of the heap.
use imserver.Prelude.{
  ℕ, zero, suc, ◌-◌, ◌/◌, ◌≤◌, ◌<◌, ◌≡◌, ◌≢◌, sym, ap, length, leb, ◌==◌, arith, inl, inr,
  Bool-cases,
}
use mathlib.Core.Path.{subst}
use imserver.Server.InFlight.{Queue, pri_at, swap, up}
use imserver.Server.InFlight.Swaps.{length-swap, left-swap, right-swap, other-swap}

-- The item is not before the one above it.
abbrev pub Edge : Queue → ℕ → Type 0
Edge q c = pri_at q ((c - 1) / 2) ≤ pri_at q c

-- The first `n` items are a heap.
abbrev pub Ordered : ℕ → Queue → Type 0
Ordered n q = (c : ℕ) → 0 < c → c < n → Edge q c

-- But for the item at `j`, which may be before the one above it; that one is not behind the items
-- below `j`.
pub record OrderedBut (j n : ℕ) (q : Queue) : Type 0 where
  pub except : (c : ℕ) → 0 < c → c < n → c ≢ j → Edge q c
  pub bridge : (c : ℕ) → 0 < j → c < n → (c - 1) / 2 ≡ j → pri_at q ((j - 1) / 2) ≤ pri_at q c

module _ (n : ℕ) (q : Queue) (fits : n ≤ length q.items) (j : ℕ) (jn : j < n) (some : 0 < j) where
  abbrev i : ℕ
  i = (j - 1) / 2

  abbrev q1 : Queue
  q1 = swap i j q

  left : pri_at q1 i ≡ pri_at q j
  left = left-swap q i j (omega (arith, jn, fits, some)) (omega (arith, jn, fits))

  right : pri_at q1 j ≡ pri_at q i
  right = right-swap q i j (omega (arith, jn, fits, some)) (omega (arith, jn, fits))

  other : (c : ℕ) → c ≢ i → c ≢ j → pri_at q1 c ≡ pri_at q c
  other c ci cj =
      other-swap q i j (omega (arith, jn, fits, some)) (omega (arith, jn, fits)) c (λ e. ci (sym e))
        (λ e. cj (sym e))

  -- One step of `up`.
  swap-OrderedBut : OrderedBut j n q → pri_at q j < pri_at q i → OrderedBut i n q1
  swap-OrderedBut o less = record {
    except = λ c cp cn ci. elim (Bool-cases (c == j)) [
      | inl at_j ↦
          let e : c ≡ j = ground arith in
          let up_j : pri_at q1 i ≤ pri_at q1 j = omega (arith, left, right, less) in
          subst (Edge q1) (sym e) up_j
      | inr off_j ↦
          let here = other c ci (ground arith) in
          elim (Bool-cases ((c - 1) / 2 == j)) [
            | inl below_j ↦
                let e : (c - 1) / 2 ≡ j = ground arith in
                omega (arith, ap (pri_at q1) e, right, here, o.bridge c some cn e)
            | inr off ↦ elim (Bool-cases ((c - 1) / 2 == i)) [
              | inl below_i ↦
                  let e : (c - 1) / 2 ≡ i = ground arith in
                  omega (
                    arith,
                    ap (pri_at q1) e,
                    ap (pri_at q) e,
                    left,
                    less,
                    here,
                    o.except c cp cn (ground arith),
                  )
              | inr away ↦ omega (
                arith,
                other ((c - 1) / 2) (ground arith) (ground arith),
                here,
                o.except c cp cn (ground arith),
              )
            ]
          ]
    ];
    bridge = λ c ip cn e.
        (let above = other ((i - 1) / 2) (omega (arith, ip)) (omega (arith, ip, some)) in
          let edge_i = o.except i ip (omega (arith, jn)) (omega (arith, some)) in
          elim (Bool-cases (c == j)) [
            | inl at_j ↦
                let k : c ≡ j = ground arith in
                omega (arith, above, edge_i, ap (pri_at q1) k, right)
            | inr off_j ↦ omega (
              arith,
              above,
              edge_i,
              other c (omega (arith, ip, e)) (ground arith),
              ap (pri_at q) e,
              o.except c (omega (arith, ip, e)) cn (ground arith),
            )
          ]);
  }

module _ (n : ℕ) where
  -- `up` puts the item that is out of place where it belongs.
  pub up-Ordered :
      (f j : ℕ) (q : Queue)
      → n ≤ length q.items
      → j < n
      → j < f
      → OrderedBut j n q
      → Ordered n (up f j q)
  unfolding up
  up-Ordered zero j q fits jn enough o = absurd (omega (arith, enough))
  up-Ordered (suc f) j q fits jn enough o =
      let i : ℕ = (j - 1) / 2 in
      elim (Bool-cases (i == j)) [
        | inl root ↦ rw root (λ c cp cn. o.except c cp cn (ground arith))
        | inr deep ↦ rw deep (elim (Bool-cases (leb (pri_at q i) (pri_at q j))) [
          | inl done ↦ rw done (λ c cp cn. elim (Bool-cases (c == j)) [
            | inl here ↦
                (let e : c ≡ j = ground arith in
                  let at_j : Edge q j = ground arith in subst (Edge q) (sym e) at_j)
            | inr away ↦ o.except c cp cn (ground arith)
          ])
          | inr more ↦ rw more (
              let some : 0 < j = ground arith in
              up-Ordered f i (swap i j q)
                (omega (
                  arith,
                  fits,
                  length-swap q i j (omega (arith, jn, fits, some)) (omega (arith, jn, fits)),
                ))
                (omega (arith, jn)) (omega (arith, some, enough))
                (swap-OrderedBut n q fits j jn some o (ground arith)))
        ])
      ]
