-- ===== src/Keylock/Threads.antt =====
-- Goroutines over one KeyLock, interleaved in any order, with Clean at any time.
use imserver.Prelude.{
  ℕ, zero, suc, ◌+◌, ◌≤◌, ◌<◌, ◌≡◌, refl, ◌==◌, if◌then◌else◌, Bool-cases, inl, inr, arith,
}
use imserver.Keylock.{KeyLock, new_key_lock, clean, Pc, idle, Move}

abbrev pub update : (ℕ → Pc) → ℕ → Pc → ℕ → Pc
update pc i c j = if j == i then c else pc j

pub record System : Type 0 where
  pub lock : KeyLock
  pub pc : ℕ → Pc

pub data Step (n : ℕ) (s : System) : System → Type 0 where
  moves :
      (i : ℕ) {l : KeyLock} {c : Pc}
      → i < n
      → Move s.lock (s.pc i) l c
      → Step n s (record { lock = l; pc = update s.pc i c })
  cleans : Step n s (record s { lock = clean s.lock })

pub data Reach (n : ℕ) : System → Type 0 where
  start : Reach n (record { lock = new_key_lock; pc = λ i. idle })
  later : {s t : System} → Reach n s → Step n s t → Reach n t

-- A sum over the goroutines.
module _ (w : Pc → ℕ) where
  unfoldable pub total : ℕ → (ℕ → Pc) → ℕ
  total zero pc = 0
  total (suc n) pc = total n pc + w (pc n)

  total-outside :
      (n : ℕ) (pc : ℕ → Pc) (i : ℕ) (c : Pc) → n ≤ i → total n (update pc i c) ≡ total n pc
  unfolding total
  total-outside zero pc i c h = refl
  total-outside (suc n) pc i c h = ground (arith, total-outside n pc i c)

  pub total-update :
      (n : ℕ) (pc : ℕ → Pc) (i : ℕ) (c : Pc)
      → i < n
      → total n (update pc i c) + w (pc i) ≡ total n pc + w c
  unfolding total
  total-update zero pc i c h = absurd (omega arith)
  total-update (suc n) pc i c h = elim (Bool-cases (n == i)) [
    | inl last ↦ ground (arith, total-outside n pc i c)
    | inr below ↦ ground (arith, total-update n pc i c)
  ]

  pub le-total : (n : ℕ) (pc : ℕ → Pc) (i : ℕ) → i < n → w (pc i) ≤ total n pc
  unfolding total
  le-total zero pc i h = absurd (omega arith)
  le-total (suc n) pc i h = elim (Bool-cases (n == i)) [
    | inl last ↦ ground arith
    | inr below ↦ ground (arith, le-total n pc i)
  ]

  pub total-zero : (n : ℕ) (pc : ℕ → Pc) → ((i : ℕ) → w (pc i) ≡ 0) → total n pc ≡ 0
  unfolding total
  total-zero zero pc h = refl
  total-zero (suc n) pc h = omega (arith, h n, total-zero n pc h)
