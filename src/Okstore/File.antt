-- ===== src/Okstore/File.antt =====
-- Files as pkg/okstore reads them, and what its functions give back. A file is the list of its
-- bytes; the errors of the disk itself are left out.
use imserver.Prelude.{
  ℕ, ◌+◌, ◌-◌, ◌*◌, ◌^◌, ◌≤◌, ◌<◌, ◌≡◌, ◌≢◌, refl, sym, ap, ap₂, ◌∙◌, Bool-cases, inl, inr, Bool,
  true, false, List, [], ◌∷◌, length, length-drop, take, drop, drop-drop, get_or, leb, ◌==◌, ◌&&◌,
  if◌then◌else◌, arith,
}
use imserver.Proto.Encoder.Appends.{be32, be64}

-- The kind of an error; its text is left out.
pub data Error : Type 0 where
  eof start_magic end_magic no_data not_found bad_message negative_offset : Error

-- A value, an error, or a run-time panic.
pub data Result {ℓ} (A : Type ℓ) : Type ℓ where
  ok : A → Result A
  err : Error → Result A
  panic : Result A

infixl 5 ◌>>=◌
abbrev pub ◌>>=◌ {ℓ κ} : {A : Type ℓ} {B : Type κ} → Result A → (A → Result B) → Result B
ok a >>= f = f a
err e >>= f = err e
panic >>= f = panic

-- `ReadAt` of a buffer of `n` bytes: all of them, or as many as there are with `io.EOF`.
pub data Read : Type 0 where
  full : List ℕ → Read
  short : ℕ → Read

unfoldable pub read_at : List ℕ → ℕ → ℕ → Read
read_at file offset n =
    if leb (offset + n) (length file)
    then full (take n (drop offset file))
    else short (length file - offset)

-- A read that has to be whole.
unfoldable pub whole : Read → Result (List ℕ)
whole (full p) = ok p
whole (short n) = err eof

-- `bytes.Equal`
unfoldable pub equal : List ℕ → List ℕ → Bool
equal [] [] = true
equal [] (y ∷ ys) = false
equal (x ∷ xs) [] = false
equal (x ∷ xs) (y ∷ ys) = x == y && equal xs ys

-- `Encoding.Uint32` and `Encoding.Uint64`: big-endian, of the first bytes.
unfoldable pub uint32 : List ℕ → ℕ
uint32 b = get_or b 0 0 * 2 ^ 24 + get_or b 1 0 * 2 ^ 16 + get_or b 2 0 * 2 ^ 8 + get_or b 3 0

unfoldable pub uint64 : List ℕ → ℕ
unfolding uint32
uint64 b = uint32 b * 2 ^ 32 + uint32 (drop 4 b)

pub uint32-be32 : (v : ℕ) → v < 2 ^ 32 → uint32 (be32 v) ≡ v
unfolding uint32 be32
uint32-be32 v h = omega arith

pub uint64-be64 : (v : ℕ) → v < 2 ^ 64 → uint64 (be64 v) ≡ v
unfolding uint64 be64
uint64-be64 v h = omega arith

-- A read behind `offset` is a read of what stands there.
pub read_at-drop :
    (file : List ℕ) (offset k n : ℕ)
    → offset ≤ length file
    → read_at file (offset + k) n ≡ read_at (drop offset file) k n
unfolding read_at
read_at-drop file offset k n h = ground (arith, length-drop offset file, drop-drop offset k file)

pub equal→≡ : (xs ys : List ℕ) → equal xs ys ≡ true → xs ≡ ys
unfolding equal
equal→≡ [] [] h = refl
equal→≡ [] (y ∷ ys) h = absurd (ground arith)
equal→≡ (x ∷ xs) [] h = absurd (ground arith)
equal→≡ (x ∷ xs) (y ∷ ys) h =
    let e : x ≡ y = ground arith in ap₂ (λ z zs. z ∷ zs) e (equal→≡ xs ys (ground arith))

pub equal_refl : (xs : List ℕ) → equal xs xs ≡ true
unfolding equal
equal_refl [] = refl
equal_refl (x ∷ xs) = let same : (x == x) ≡ true = ground arith in rw same (equal_refl xs)

pub ≡→equal : (xs ys : List ℕ) → xs ≡ ys → equal xs ys ≡ true
≡→equal xs ys e = ap (λ l. equal xs l) (sym e) ∙ equal_refl xs

pub ≢→equal : (xs ys : List ℕ) → xs ≢ ys → equal xs ys ≡ false
≢→equal xs ys n = elim (Bool-cases (equal xs ys)) [
  | inl y ↦ absurd (n (equal→≡ xs ys y))
  | inr e ↦ e
]
