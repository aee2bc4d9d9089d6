-- ===== src/Server/Dispatch/Rounds.antt =====
-- The bounds on the rounds of the two loops of internal/server/dispatch.go are never reached.
use imserver.Prelude.{
  ℕ, zero, suc, ◌+◌, ◌-◌, ◌≤◌, ◌≡◌, refl, List, [], ◌∷◌, length, drop, drop-all, Option, none, some,
  arith,
}
use imserver.Prelude.Rounds.{settle}
use imserver.Proto.Result.{Result, ok, err, panic}
use imserver.Proto.Types.{Frame}
use imserver.Proto.Codec.{decode_frame}
use imserver.Proto.Codec.Bounds.{decode_frame-size}
use imserver.Server.Dispatch.{Conn, ServerState, State, put_frame, count_frame, decode_loop}
use imserver.Server.Dispatch.Unpack.{decode_length, unpack_loop}

unpack_at :
    (f : ℕ) (buff : List ℕ) (offset t : ℕ) (behind : List ℕ) (r : Option (ℕ × ℕ))
    → ((o : ℕ) → length buff - o ≤ f → unpack_loop (suc f) buff o ≡ unpack_loop f buff o)
    → length buff - offset ≤ suc f
    → drop offset buff ≡ t ∷ behind
    → decode_length behind ≡ r
    → unpack_loop (suc (suc f)) buff offset ≡ unpack_loop (suc f) buff offset
unfolding unpack_loop
unpack_at f buff offset t behind none fewer h e el =
    ground (arith, e, el, fewer (offset + 1) (omega arith))
unpack_at f buff offset t behind (some (n, k)) fewer h e el =
    ground
      (arith, e, el, fewer (offset + 1) (omega arith), fewer (offset + k + n + 1) (omega arith))

unpack_from :
    (f : ℕ) (buff : List ℕ) (offset : ℕ) (rest : List ℕ)
    → ((o : ℕ) → length buff - o ≤ f → unpack_loop (suc f) buff o ≡ unpack_loop f buff o)
    → length buff - offset ≤ suc f
    → drop offset buff ≡ rest
    → unpack_loop (suc (suc f)) buff offset ≡ unpack_loop (suc f) buff offset
unfolding unpack_loop
unpack_from f buff offset [] fewer h e = ground (arith, e)
unpack_from f buff offset (t ∷ behind) fewer h e =
    unpack_at f buff offset t behind (decode_length behind) fewer h e refl

unpack_round :
    (f : ℕ) (buff : List ℕ) (offset : ℕ)
    → length buff - offset ≤ f
    → unpack_loop (suc f) buff offset ≡ unpack_loop f buff offset
unfolding unpack_loop
unpack_round zero buff offset h = ground (arith, drop-all offset buff (omega arith))
unpack_round (suc f) buff offset h =
    unpack_from f buff offset (drop offset buff) (unpack_round f buff) h refl

-- `gnetUnpacket` with any number of rounds from the number of bytes on gives the same result.
pub gnet_unpacket-rounds :
    (buff : List ℕ) (f : ℕ)
    → length buff ≤ f
    → unpack_loop f buff 0 ≡ unpack_loop (length buff) buff 0
gnet_unpacket-rounds buff f h =
    settle (λ (n : ℕ). unpack_loop n buff 0) (length buff)
      (λ n g. unpack_round n buff 0 (omega arith)) f h

decode_at :
    (f : ℕ) (input : List ℕ) (offset : ℕ) (d : ServerState) (c : Conn)
    (r : Result (Option (Frame × ℕ)))
    → ((o : ℕ) (s : State)
        → length input - o ≤ f
        → decode_loop (suc f) input o s ≡ decode_loop f input o s)
    → length input - offset ≤ suc f
    → decode_frame (drop offset input) c.proto_version ≡ r
    → decode_loop (suc (suc f)) input offset (d, c) ≡ decode_loop (suc f) input offset (d, c)
unfolding decode_loop
decode_at f input offset d c (ok none) fewer h e = ground (arith, e)
decode_at f input offset d c (err x) fewer h e = ground (arith, e)
decode_at f input offset d c panic fewer h e = ground (arith, e)
decode_at f input offset d c (ok (some (frame, size))) fewer h e =
    let sized = decode_frame-size (drop offset input) c.proto_version size frame e in
    ground (
      arith,
      e,
      sized,
      fewer (offset + size) (put_frame frame (count_frame size (d, c))) (omega arith),
    )

decode_round :
    (f : ℕ) (input : List ℕ) (offset : ℕ) (s : State)
    → length input - offset ≤ f
    → decode_loop (suc f) input offset s ≡ decode_loop f input offset s
unfolding decode_loop
decode_round zero input offset (d, c) h = ground arith
decode_round (suc f) input offset (d, c) h =
    decode_at f input offset d c (decode_frame (drop offset input) c.proto_version)
      (decode_round f input) h refl

-- The loop of `dataIn` over any bytes, with any number of rounds from the number of bytes on, ends
-- in the same way: it has ended before the bound stops it.
pub decode_loop-rounds :
    (input : List ℕ) (s : State) (f : ℕ)
    → length input ≤ f
    → decode_loop f input 0 s ≡ decode_loop (length input) input 0 s
decode_loop-rounds input s f h =
    settle (λ (n : ℕ). decode_loop n input 0 s) (length input)
      (λ n g. decode_round n input 0 s (omega arith)) f h
