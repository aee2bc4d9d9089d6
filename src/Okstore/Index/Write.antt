-- ===== src/Okstore/Index/Write.antt =====
-- `writeAt` changes the bytes that it writes, and no others.
use imserver.Prelude.{
  take-drop-append, append-take, ℕ, ◌+◌, ◌≤◌, ◌≡◌, refl, sym, ap, ◌∙◌, List, ◌++◌, length, take,
  drop, length-append, length-take, length-drop, take-append, drop-append, arith,
}
use imserver.Okstore.Index.{write_at}

module _ (p : List ℕ) (offset : ℕ) (mmap : List ℕ) (h : offset + length p ≤ length mmap) where
  pub length-write_at : length (write_at p offset mmap) ≡ length mmap
  unfolding write_at
  length-write_at = omega (
    arith,
    h,
    length-append (take offset mmap) (p ++ drop (offset + length p) mmap),
    length-append p (drop (offset + length p) mmap),
    length-take offset mmap,
    length-drop (offset + length p) mmap,
  )

  length-before : length (take offset mmap) ≡ offset
  length-before = omega (arith, h, length-take offset mmap)

  pub written : take (length p) (drop offset (write_at p offset mmap)) ≡ p
  unfolding write_at
  written =
      ap (take (length p)) (drop-append (take offset mmap) _ offset (sym length-before))
      ∙ take-append p _ _ refl

  pub kept :
      (k n : ℕ) → k + n ≤ offset → take n (drop k (write_at p offset mmap)) ≡ take n (drop k mmap)
  unfolding write_at
  kept k n le =
      let inside : k + n ≤ length (take offset mmap) = omega (arith, length-before, le) in
      take-drop-append (take offset mmap) _ k n inside
      ∙ sym (take-drop-append (take offset mmap) (drop offset mmap) k n inside)
      ∙ ap (λ l. take n (drop k l)) (append-take offset mmap)
