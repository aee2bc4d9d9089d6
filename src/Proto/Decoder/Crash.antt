-- ===== src/Proto/Decoder/Crash.antt =====
-- `Binary` on a length prefix whose top bit is set.
use imserver.Prelude.{ℕ, ◌-◌, ◌≤◌, ◌<◌, ◌^◌, ◌≡◌, refl, List, ◌++◌, length, arith}
use imserver.Prelude.Int.{negsuc}
use imserver.Proto.Result.{panic}
use imserver.Proto.Encoder.Appends.{be16}
use imserver.Proto.Decoder.{
  Decoder, Decode, decode_all, new_decoder, slice, bytes, int_of_int16, string, ◌>>=◌,
}
use imserver.Proto.Decoder.Reads.{At, Reads, int16-Reads}

-- Where `input` is left, `m` panics.
pub record Panics {A : Type 0} (m : Decode A) (input : List ℕ) : Type 0 where
  pub crashes : (d : Decoder) → At d input → m d ≡ panic

pub bind-Panics :
    {A B : Type 0} {m : Decode A} (f : A → Decode B) {input mid : List ℕ} {a : A}
    → Reads m input a mid
    → Panics (f a) mid
    → Panics (m >>= f) input
unfolding ◌>>=◌
bind-Panics {m = m} f r s = record {
  crashes = λ d at. let (d', e, at') = r.runs d at in rw (e, ◌>>=◌) (s.crashes d' at');
}

pub first-Panics :
    {A B : Type 0} {m : Decode A} (f : A → Decode B) {input : List ℕ}
    → Panics m input
    → Panics (m >>= f) input
unfolding ◌>>=◌
first-Panics {m = m} f s = record { crashes = λ d at. rw (s.crashes d at, ◌>>=◌) }

pub decode_all-Panics :
    {A : Type 0} (m : Decode A) (input : List ℕ) → Panics m input → decode_all m input ≡ panic
unfolding decode_all
decode_all-Panics m input s =
    rw (s.crashes (new_decoder input) (record { inside = omega arith; left = refl }), decode_all)

-- A negative number of bytes is not refused, and the slice ends before it begins.
bytes-negative : (k : ℕ) (d : Decoder) → d.offset ≤ length d.p → bytes (negsuc k) d ≡ panic
unfolding bytes slice
bytes-negative k d h = ground arith

string-negative_value :
    (v : ℕ) (rest : List ℕ) → 2 ^ 15 ≤ v → v < 2 ^ 16 → Panics (λ d. bytes (int_of_int16 v) d) rest
unfolding int_of_int16
string-negative_value v rest lo hi = record {
  crashes = λ d at. ground (arith, bytes-negative (0xffff - v) d at.inside);
}

-- A string behind the length `v`, read as negative, panics.
pub string-negative :
    (v : ℕ) (rest : List ℕ) → 2 ^ 15 ≤ v → v < 2 ^ 16 → Panics string (be16 v ++ rest)
unfolding string
string-negative v rest lo hi =
    bind-Panics _ (int16-Reads rest v hi) (string-negative_value v rest lo hi)
