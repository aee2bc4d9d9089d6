-- ===== src/Proto/Decoder/Reads.antt =====
-- What each method of the decoder reads off the bytes that are left, and how reads follow one
-- another.
use imserver.Prelude.{
  ℕ, zero, suc, ◌+◌, ◌-◌, ◌%◌, ◌^◌, ◌≤◌, ◌<◌, ◌≡◌, refl, sym, ap, ◌∙◌, Bool, true, false, List, [],
  ◌∷◌, ◌++◌, length, get_or, take, drop, length-append, length-drop, drop-drop, drop-all,
  take-append, drop-append, if◌then◌else◌, arith,
}
use imserver.Prelude.Int.{pos}
use imserver.Prelude.Bytes.{split16, split32, split64}
use imserver.Proto.Result.{ok}
use imserver.Proto.Encoder.Appends.{be8, be16, be32, be64, text}
use imserver.Proto.Decoder.{
  Decoder, new_decoder, Decode, decode_all, ◌>>=◌, pure, window, advance, slice, len, uint8, int16,
  uint32, int32, int64, int_of_int16, bytes, string, binary_all,
}

-- `rest` is what the decoder has not read.
pub record At (d : Decoder) (rest : List ℕ) : Type 0 where
  pub inside : d.offset ≤ length d.p
  pub left : drop d.offset d.p ≡ rest

-- Where `input` is left, `m` returns `a` and leaves `rest`.
pub record Reads {A : Type 0} (m : Decode A) (input : List ℕ) (a : A) (rest : List ℕ) : Type 0 where
  pub runs : (d : Decoder) → At d input → (d' : Decoder) × (m d ≡ ok (a, d')) × At d' rest

-- An element of what is left.
get_or-drop : (p : List ℕ) (n i : ℕ) → get_or (drop n p) i 0 ≡ get_or p (n + i) 0
get_or-drop p zero i = let e : i ≡ 0 + i = omega arith in ap (λ k. get_or p k 0) e
get_or-drop [] (suc n) i = refl
get_or-drop (x ∷ p) (suc n) i =
    let e : suc (n + i) ≡ suc n + i = omega arith in
    get_or-drop p n i ∙ ap (λ k. get_or (x ∷ p) k 0) e

module _ (d : Decoder) (front rest : List ℕ) (a : At d (front ++ rest)) where
  room : length front + length rest ≡ length d.p - d.offset
  room = omega (arith, ap (length {0}) a.left, length-drop d.offset d.p, length-append front rest)

  advance-At : (n : ℕ) → n ≡ length front → At (advance d n) rest
  advance-At n e = record {
    inside = omega (arith, room, a.inside);
    left = sym (drop-drop d.offset n d.p) ∙ ap (drop n) a.left ∙ drop-append front rest n e;
  }

  window-front : (n : ℕ) → n ≡ length front → window d n ≡ front
  window-front n e = ap (take n) a.left ∙ take-append front rest n e

module _ (rest : List ℕ) where
  pub uint8-byte : (b : ℕ) → Reads uint8 (b ∷ rest) b rest
  unfolding uint8
  uint8-byte b = record {
    runs = λ d a. (
      advance d 1,
      ground (
        arith,
        room d (b ∷ []) rest a,
        get_or-drop d.p d.offset 0,
        ap (λ (l : List ℕ). get_or l 0 0) a.left,
      ),
      advance-At d (b ∷ []) rest a 1 refl,
    );
  }

  pub uint8-Reads : (v : ℕ) → v < 2 ^ 8 → Reads uint8 (be8 v ++ rest) v rest
  unfolding be8
  uint8-Reads v h = let e : v % 256 ≡ v = omega arith in rw e (uint8-byte v)

  pub int16-Reads : (v : ℕ) → v < 2 ^ 16 → Reads int16 (be16 v ++ rest) v rest
  unfolding int16 be16
  int16-Reads v h = record {
    runs = λ d a. (
      advance d 2,
      ground (arith, room d (be16 v) rest a, window-front d (be16 v) rest a 2, split16 v),
      advance-At d (be16 v) rest a 2 refl,
    );
  }

  pub int32-Reads : (v : ℕ) → v < 2 ^ 32 → Reads int32 (be32 v ++ rest) v rest
  unfolding int32 be32
  int32-Reads v h = record {
    runs = λ d a. (
      advance d 4,
      ground (arith, room d (be32 v) rest a, window-front d (be32 v) rest a 4, split32 v),
      advance-At d (be32 v) rest a 4 refl,
    );
  }

  pub uint32-Reads : (v : ℕ) → v < 2 ^ 32 → Reads uint32 (be32 v ++ rest) v rest
  unfolding uint32
  uint32-Reads v h = int32-Reads v h

  pub int64-Reads : (v : ℕ) → v < 2 ^ 64 → Reads int64 (be64 v ++ rest) v rest
  unfolding int64 be64
  int64-Reads v h = record {
    runs = λ d a. (
      advance d 8,
      ground (arith, room d (be64 v) rest a, window-front d (be64 v) rest a 8, split64 v),
      advance-At d (be64 v) rest a 8 refl,
    );
  }

  bytes-Reads : (s : List ℕ) → Reads (bytes (pos (length s))) (s ++ rest) s rest
  unfolding bytes slice
  bytes-Reads s = record {
    runs = λ d a. (
      advance d (length s),
      ground (arith, room d s rest a, window-front d s rest a (length s), a.inside),
      advance-At d s rest a (length s) refl,
    );
  }

  pub binary_all-Reads : Reads binary_all rest rest []
  unfolding binary_all len
  binary_all-Reads = record {
    runs = λ d a. (
      advance d (length d.p - d.offset),
      ground (arith, a.left),
      record { inside = omega (arith, a.inside); left = drop-all _ d.p (omega (arith, a.inside)) },
    );
  }

module _ {A : Type 0} where
  pub pure-Reads : (a : A) (rest : List ℕ) → Reads (pure a) rest a rest
  unfolding pure
  pure-Reads a rest = record { runs = λ d at. (d, refl, at) }

  -- One read after another.
  pub bind-Reads :
      {B : Type 0} {m : Decode A} (f : A → Decode B) {input mid rest : List ℕ} {a : A} {b : B}
      → Reads m input a mid
      → Reads (f a) mid b rest
      → Reads (m >>= f) input b rest
  unfolding ◌>>=◌
  bind-Reads {m = m} f r s = record {
    runs = λ d at.
        let (d', e, at') = r.runs d at in
        let (d'', e', at'') = s.runs d' at' in (d'', rw (e, ◌>>=◌) e', at'');
  }

  -- A part that is there under a test, and has a value of its own where it is not.
  pub when-Reads :
      (c : Bool) {m : Decode A} (front rest : List ℕ) {a : A} (z : A)
      → Reads m (front ++ rest) a rest
      → Reads
          (if c then m else pure z)
          ((if c then front else []) ++ rest)
          (if c then a else z)
          rest
  when-Reads true front rest z r = r
  when-Reads false front rest z r = pure-Reads z rest

  pub decode_all-Reads :
      {m : Decode A} {input rest : List ℕ} {a : A}
      → Reads m input a rest
      → decode_all m input ≡ ok a
  unfolding decode_all
  decode_all-Reads {input = input} r =
      let (d, e, at) = r.runs (new_decoder input) (record { inside = omega arith; left = refl }) in
      rw (e, decode_all)

pub string-Reads : (s rest : List ℕ) → length s < 2 ^ 15 → Reads string (text s ++ rest) s rest
unfolding string int_of_int16 text
string-Reads s rest h =
    bind-Reads _ (int16-Reads (s ++ rest) (length s) (omega arith)) (rw short (bytes-Reads rest s))
  where
    short : int_of_int16 (length s) ≡ pos (length s)
    short = ground arith

pub ruleset reads = (
  bind-Reads, pure-Reads, uint8-Reads, int32-Reads, uint32-Reads, int64-Reads, string-Reads,
  binary_all-Reads,
)
