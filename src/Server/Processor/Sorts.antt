-- ===== src/Server/Processor/Sorts.antt =====
-- The check of the packets for a channel: which are passed on, and how the others are answered.
use imserver.Prelude.{
  ℕ, ◌≡◌, refl, sym, ap, ◌∙◌, true, false, List, [], ◌∷◌, ◌++◌, append_assoc, append-nil, map,
  Option, none, some, Bool-cases, Option-cases, inl, inr, arith,
}
use mathlib.Core.List.{map-append}
use imserver.Proto.Reason
use imserver.Proto.Types.{Text, SendPacket, Frame, sendack}
use imserver.Okstore.File.{equal, equal→≡, ≡→equal}
use imserver.Server.Channel.{Channel}
use imserver.Server.Processor.{
  ConnInfo, Message, Services, response, message_of, check_and_decode_payload, send_packet_is_vail,
  verity_string, refused,
}
use imserver.Server.Processor.Messages.{Checked, check_packet, check_packets}

-- What a message says: who sent it, in what order, to which channel, and the plain payload.
pub record Said : Type 0 where
  pub from_uid : Text
  pub client_seq : ℕ
  pub client_msg_no : Text
  pub channel_id : Text
  pub payload : List ℕ

abbrev pub said : Message → Said
said m = record {
  from_uid = m.recv_packet.from_uid;
  client_seq = m.recv_packet.client_seq;
  client_msg_no = m.recv_packet.client_msg_no;
  channel_id = m.recv_packet.channel_id;
  payload = m.recv_packet.payload;
}

-- What an acknowledgement tells the client: which packet it answers, and the reason.
abbrev pub Told : Type 0
Told = Option (ℕ × Text × ℕ)

abbrev pub told : Frame → Told
told (sendack a) = some (a.client_seq, a.client_msg_no, a.reason_code)
told frame = none

abbrev pub answer : ℕ → SendPacket → Told
answer reason p = some (p.client_seq, p.client_msg_no, reason)

module _ {W : Type 0} (svc : Services W) (conn : ConnInfo) where
  -- The text that a packet is signed by.
  abbrev pub signed : SendPacket → Text
  signed p =
      svc.decimal p.client_seq
      ++ (p.client_msg_no ++ (p.channel_id ++ (svc.decimal p.channel_type ++ p.payload)))

  -- A packet's key is the digest of its text under the key of the connection, and its payload decrypts
  -- to this.
  pub data Opens (p : SendPacket) (payload : List ℕ) : Type 0 where
    opens :
        (text : Text)
        → svc.aes_encrypt (signed p) conn.aes_key conn.aes_iv ≡ some text
        → p.msg_key ≡ svc.md5 text
        → svc.aes_decrypt p.payload conn.aes_key conn.aes_iv ≡ some payload
        → Opens p payload

  abbrev pub says : SendPacket → List ℕ → Said
  says p payload = record {
    from_uid = conn.uid;
    client_seq = p.client_seq;
    client_msg_no = p.client_msg_no;
    channel_id = p.channel_id;
    payload = payload;
  }

  -- Packets, what is passed on of them, what is answered at the end, and what is answered at once.
  pub data Sorts : List SendPacket → List Said → List Told → List Told → Type 0 where
    nil : Sorts [] [] [] []
    sync :
        (p : SendPacket) {packets : List SendPacket} {passed : List Said} {late soon : List Told}
        → p.framer.sync_once ≡ true
        → Sorts packets passed late soon
        → Sorts (p ∷ packets) passed (answer Reason.not_support_header p ∷ late) soon
    closed :
        (p : SendPacket) {packets : List SendPacket} {passed : List Said} {late soon : List Told}
        → p.framer.sync_once ≡ false
        → ((payload : List ℕ) → ¬ (Opens p payload))
        → Sorts packets passed late soon
        → Sorts (p ∷ packets) passed late (answer Reason.payload_decode_error p ∷ soon)
    passes :
        (p : SendPacket) (payload : List ℕ) {packets : List SendPacket} {passed : List Said}
        {late soon : List Told}
        → p.framer.sync_once ≡ false
        → Opens p payload
        → Sorts packets passed late soon
        → Sorts (p ∷ packets) (says p payload ∷ passed) late soon

  -- The check of a packet, decided.
  decode-Opens :
      (p : SendPacket) (payload : List ℕ)
      → check_and_decode_payload svc p conn ≡ some payload
      → Opens p payload
  unfolding check_and_decode_payload send_packet_is_vail verity_string
  decode-Opens p payload h =
      elim (Option-cases (svc.aes_encrypt (signed p) conn.aes_key conn.aes_iv)) [
        | inl e ↦ absurd (ground arith)
        | inr (text, e) ↦ elim (Bool-cases (equal p.msg_key (svc.md5 text))) [
          | inl y ↦ opens text e (equal→≡ p.msg_key (svc.md5 text) y) (ground arith)
          | inr n ↦ absurd (ground arith)
        ]
      ]

  Opens-decode :
      (p : SendPacket) (payload : List ℕ)
      → Opens p payload
      → check_and_decode_payload svc p conn ≡ some payload
  unfolding check_and_decode_payload send_packet_is_vail verity_string
  Opens-decode p payload (opens text e key d) =
      let right = ≡→equal p.msg_key (svc.md5 text) key in
      rw (check_and_decode_payload, send_packet_is_vail, verity_string, e, right) d

  -- From what the loop over the packets has gathered, it gathers more.
  abbrev pub Gathers : List SendPacket → Checked W → Checked W → Type 0
  Gathers packets k k' =
      (passed : List Said) × (late : List Told) × (soon : List Told) × Sorts packets passed late
        soon
      × (map said k'.messages ≡ map said k.messages ++ passed)
      × (map told k'.acks ≡ map told k.acks ++ late)
      × (map told k'.state.out ≡ map told k.state.out ++ soon)

  -- Lists that one packet and then the others add to.
  join : {A : Type 0} (a b c d e : List A) → b ≡ a ++ d → c ≡ b ++ e → c ≡ a ++ (d ++ e)
  join a b c d e p q = q ∙ ap (λ l. l ++ e) p ∙ append_assoc a d e

  same : {A : Type 0} (a : List A) → a ≡ a ++ []
  same a = sym (append-nil a)

  -- What the check of one packet adds.
  abbrev Adds : SendPacket → Checked W → Checked W → Type 0
  Adds p k k' =
      (passed : List Said) × (late : List Told) × (soon : List Told) × ((packets : List SendPacket)
          (passed' : List Said) (late' soon' : List Told)
        → Sorts packets passed' late' soon'
        → Sorts (p ∷ packets) (passed ++ passed') (late ++ late') (soon ++ soon'))
      × (map said k'.messages ≡ map said k.messages ++ passed)
      × (map told k'.acks ≡ map told k.acks ++ late)
      × (map told k'.state.out ≡ map told k.state.out ++ soon)

  check_packet-Adds :
      (c : Channel) (p : SendPacket) (id : ℕ) (decoded : Option (List ℕ)) (k : Checked W)
      → check_and_decode_payload svc p conn ≡ decoded
      → Adds p k (check_packet svc conn c p id decoded k)
  unfolding check_packet response refused message_of
  check_packet-Adds c p id none k h = elim (Bool-cases p.framer.sync_once) [
    | inl y ↦ (
      [],
      answer Reason.not_support_header p ∷ [],
      [],
      λ packets passed late soon sorts. sync p y sorts,
      rw y (same (map said k.messages)),
      rw y (map-append told k.acks _),
      rw y (same (map told k.state.out)),
    )
    | inr n ↦ (
      [],
      [],
      answer Reason.payload_decode_error p ∷ [],
      λ packets passed late soon sorts.
          closed p n (λ payload o. (let e = Opens-decode p payload o in absurd (ground arith)))
            sorts,
      rw n (same (map said k.messages)),
      rw n (same (map told k.acks)),
      rw n (map-append told k.state.out _),
    )
  ]
  check_packet-Adds c p id (some payload) k h = elim (Bool-cases p.framer.sync_once) [
    | inl y ↦ (
      [],
      answer Reason.not_support_header p ∷ [],
      [],
      λ packets passed late soon sorts. sync p y sorts,
      rw y (same (map said k.messages)),
      rw y (map-append told k.acks _),
      rw y (same (map told k.state.out)),
    )
    | inr n ↦ (
      says p payload ∷ [],
      [],
      [],
      λ packets passed late soon sorts. passes p payload n (decode-Opens p payload h) sorts,
      rw n (map-append said k.messages _),
      rw n (same (map told k.acks)),
      rw n (same (map told k.state.out)),
    )
  ]

  pub check_packets-Gathers :
      (c : Channel) (packets : List SendPacket) (k : Checked W)
      → Gathers packets k (check_packets svc conn c packets k)
  unfolding check_packets
  check_packets-Gathers c [] k = (
    [],
    [],
    [],
    nil,
    same (map said k.messages),
    same (map told k.acks),
    same (map told k.state.out),
  )
  check_packets-Gathers c (p ∷ packets) k =
      let (id, w) = svc.gen_message_id k.state.world in
      let k0 : Checked W = record k { state = record k.state { world = w } } in
      let payload = check_and_decode_payload svc p conn in
      let k1 = check_packet svc conn c p id payload k0 in
      let k2 = check_packets svc conn c packets k1 in
      let (s, l, r, adds, m, a, o) = check_packet-Adds c p id payload k0 refl in
      let (s', l', r', sorts, m', a', o') = check_packets-Gathers c packets k1 in
      (
        s ++ s',
        l ++ l',
        r ++ r',
        adds packets s' l' r' sorts,
        join (map said k.messages) (map said k1.messages) (map said k2.messages) s s' m m',
        join (map told k.acks) (map told k1.acks) (map told k2.acks) l l' a a',
        join (map told k.state.out) (map told k1.state.out) (map told k2.state.out) r r' o o',
      )
