-- ===== src/Proto/Result.antt =====
-- What a Go function of pkg/proto gives back: a value and no error, an error, or a run-time panic.
-- An error is its kind; the text that `fmt.Errorf` and `errors.Wrap` build around it is left out.
pub data Error : Type 0 where
  decode_length short_read too_long unsupported : Error

pub data Result {ℓ} (A : Type ℓ) : Type ℓ where
  ok : A → Result A
  err : Error → Result A
  panic : Result A

infixl 5 ◌>>=◌
abbrev pub ◌>>=◌ {ℓ κ} : {A : Type ℓ} {B : Type κ} → Result A → (A → Result B) → Result B
ok a >>= f = f a
err e >>= f = err e
panic >>= f = panic
