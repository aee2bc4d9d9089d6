-- ===== src/Server/Processor/Acks.antt =====
-- Every SEND packet is acknowledged once.
use imserver.Prelude.{
  ℕ, ◌+◌, ◌≡◌, refl, ap, ◌∙◌, Bool, true, false, List, [], ◌∷◌, ◌++◌, Option, none, some,
  if◌then◌else◌, arith,
}
use mathlib.Core.List.{Permᴰ}
use imserver.Proto.Reason
use imserver.Proto.Types.{Text, SendPacket, Frame, sendack}
use imserver.Server.Channel.{Channel, Found, found, missing, failed, has_permission}
use imserver.Server.Processor.{
  ConnInfo, Message, Services, State, response, get_sendack_packet, refused, message_of,
  get_sendack_packet_with_send_packet, check_and_decode_payload, set_seqs, store_streams,
  stored_messages, store_rest, store_channel_messages_if_need,
  store_channel_messages_to_notify_queue,
}
use imserver.Server.Processor.Messages.{
  Groups, resp_sendack_packets, resp_sendack_packets_with_recv, Checked, check_packet,
  check_packets, after_put, after_notify, after_store, deliver, process_permitted, process_found,
  process_channel_messages, put_group, split_by_channel, process_group, process_groups,
  process_msgs,
}

-- What is asked of the number and the client's number of a packet.
module _ (q : ℕ → Text → Bool) where
  abbrev one : ℕ → Text → ℕ
  one client_seq client_msg_no = if q client_seq client_msg_no then 1 else 0

  -- How many packets there are for which `q` holds, and how many acknowledgements of such.
  abbrev pub count_sends : List SendPacket → ℕ
  count_sends [] = 0
  count_sends (p ∷ packets) = one p.client_seq p.client_msg_no + count_sends packets

  abbrev count_messages : List Message → ℕ
  count_messages [] = 0
  count_messages (m ∷ messages) =
      one m.recv_packet.client_seq m.recv_packet.client_msg_no + count_messages messages

  abbrev pub count_ack : Frame → ℕ
  count_ack (sendack a) = one a.client_seq a.client_msg_no
  count_ack frame = 0

  abbrev pub count_acks : List Frame → ℕ
  count_acks [] = 0
  count_acks (f ∷ frames) = count_ack f + count_acks frames

  abbrev count_groups : Groups → ℕ
  count_groups [] = 0
  count_groups ((key, packets) ∷ groups) = count_sends packets + count_groups groups

  count_acks-append : (xs ys : List Frame) → count_acks (xs ++ ys) ≡ count_acks xs + count_acks ys
  count_acks-append [] ys = omega arith
  count_acks-append (x ∷ xs) ys = omega (arith, count_acks-append xs ys)

  count_messages-append :
      (xs ys : List Message) → count_messages (xs ++ ys) ≡ count_messages xs + count_messages ys
  count_messages-append [] ys = omega arith
  count_messages-append (x ∷ xs) ys = omega (arith, count_messages-append xs ys)

  count_sends-append :
      (xs ys : List SendPacket) → count_sends (xs ++ ys) ≡ count_sends xs + count_sends ys
  count_sends-append [] ys = omega arith
  count_sends-append (x ∷ xs) ys = omega (arith, count_sends-append xs ys)

  resp-packets :
      (reason : ℕ) (packets : List SendPacket)
      → count_acks (resp_sendack_packets reason packets) ≡ count_sends packets
  unfolding resp_sendack_packets get_sendack_packet_with_send_packet
  resp-packets reason [] = refl
  resp-packets reason (p ∷ packets) = omega (arith, resp-packets reason packets)

  resp-messages :
      (reason : ℕ) (messages : List Message)
      → count_acks (resp_sendack_packets_with_recv reason messages) ≡ count_messages messages
  unfolding resp_sendack_packets_with_recv get_sendack_packet
  resp-messages reason [] = refl
  resp-messages reason (m ∷ messages) = omega (arith, resp-messages reason messages)

  module _ {W : Type 0} (svc : Services W) where
    count_messages-set_seqs :
        (seqs : List ℕ) (messages : List Message)
        → count_messages (set_seqs svc seqs messages) ≡ count_messages messages
    unfolding set_seqs
    count_messages-set_seqs seqs [] = refl
    count_messages-set_seqs [] (m ∷ messages) = refl
    count_messages-set_seqs (s ∷ seqs) (m ∷ messages) =
        ground (
          arith,
          count_messages-set_seqs seqs messages,
          count_messages-set_seqs (s ∷ seqs) messages,
        )

    store_rest-messages :
        (from : Text) (messages stored : List Message) (done : Bool) (w : W)
        → count_messages (store_rest svc from messages stored done w).1 ≡ count_messages messages
    unfolding store_rest
    store_rest-messages from messages stored false w = refl
    store_rest-messages from messages [] true w = refl
    store_rest-messages from messages (m ∷ more) true w = count_messages-set_seqs _ messages

    -- What a packet is counted in: the acknowledgements that are returned or were written, and the
    -- messages.
    abbrev counted : Checked W → ℕ
    counted k = count_acks k.acks + count_messages k.messages + count_acks k.state.out

    check_packet-counted :
        (conn : ConnInfo) (c : Channel) (p : SendPacket) (id : ℕ) (payload : Option (List ℕ))
        (k : Checked W)
        → counted (check_packet svc conn c p id payload k)
          ≡ counted k + one p.client_seq p.client_msg_no
    unfolding check_packet response refused message_of
    check_packet-counted conn c p id none k = ground (
      arith,
      count_acks-append k.acks (sendack (refused p id Reason.not_support_header) ∷ []),
      count_acks-append k.state.out (sendack (refused p id Reason.payload_decode_error) ∷ []),
    )
    check_packet-counted conn c p id (some payload) k = ground (
      arith,
      count_acks-append k.acks (sendack (refused p id Reason.not_support_header) ∷ []),
      count_messages-append k.messages (message_of svc conn c p id payload k.state.world ∷ []),
    )

    check_packets-counted :
        (conn : ConnInfo) (c : Channel) (packets : List SendPacket) (k : Checked W)
        → counted (check_packets svc conn c packets k) ≡ counted k + count_sends packets
    unfolding check_packets
    check_packets-counted conn c [] k = omega arith
    check_packets-counted conn c (p ∷ packets) k =
        let (id, w) = svc.gen_message_id k.state.world in
        let k' : Checked W = record k { state = record k.state { world = w } } in
        let payload = check_and_decode_payload svc p conn in
        omega (
          arith,
          check_packets-counted conn c packets (check_packet svc conn c p id payload k'),
          check_packet-counted conn c p id payload k',
        )

    -- What a call returns and has written.
    abbrev total : List Frame × State W → ℕ
    total r = count_acks r.0 + count_acks r.1.out

    ends :
        (reason : ℕ) (messages : List Message) (k : Checked W)
        → count_acks (k.acks ++ resp_sendack_packets_with_recv reason messages)
          ≡ count_acks k.acks + count_messages messages
    ends reason messages k = omega (
      arith,
      count_acks-append k.acks (resp_sendack_packets_with_recv reason messages),
      resp-messages reason messages,
    )

    after_put-total :
        (messages : List Message) (r : Bool × W) (k : Checked W)
        → total (after_put svc messages r k)
          ≡ count_acks k.acks + count_messages messages + count_acks k.state.out
    unfolding after_put
    after_put-total messages (done, w) k =
        omega (arith, ends (if done then Reason.success else Reason.system_error) messages k)

    after_notify-total :
        (conn : ConnInfo) (c : Channel) (messages : List Message) (r : Bool × W) (k : Checked W)
        → total (after_notify svc conn c messages r k)
          ≡ count_acks k.acks + count_messages messages + count_acks k.state.out
    unfolding after_notify
    after_notify-total conn c messages (false, w) k =
        omega (arith, ends Reason.system_error messages k)
    after_notify-total conn c messages (true, w) k =
        after_put-total messages (svc.put c messages conn w) k

    after_store-total :
        (conn : ConnInfo) (c : Channel) (r : Bool × List Message × W) (k : Checked W)
        → total (after_store svc conn c r k)
          ≡ count_acks k.acks + count_messages r.1 + count_acks k.state.out
    unfolding after_store
    after_store-total conn c (false, messages, w) k =
        omega (arith, ends Reason.system_error messages k)
    after_store-total conn c (true, messages, w) k =
        after_notify-total conn c messages (store_channel_messages_to_notify_queue svc messages w) k

    deliver-total :
        (conn : ConnInfo) (c : Channel) (messages : List Message) (k : Checked W)
        → total (deliver svc conn c messages k)
          ≡ count_acks k.acks + count_messages messages + count_acks k.state.out
    unfolding deliver store_channel_messages_if_need
    deliver-total conn c [] k = omega arith
    deliver-total conn c (m ∷ messages) k =
        let all = m ∷ messages in
        let w = k.state.world in
        let kept =
          store_rest-messages conn.uid all (stored_messages svc all)
            (store_streams svc conn.uid all w).0 (store_streams svc conn.uid all w).1 in
        omega (
          arith,
          kept,
          after_store-total conn c (store_channel_messages_if_need svc conn.uid all w) k,
        )

    process_permitted-total :
        (conn : ConnInfo) (c : Channel) (packets : List SendPacket) (allowed : Bool × ℕ)
        (st : State W)
        → total (process_permitted svc conn c packets allowed st)
          ≡ count_sends packets + count_acks st.out
    unfolding process_permitted
    process_permitted-total conn c packets (false, reason) st =
        omega (arith, resp-packets reason packets)
    process_permitted-total conn c packets (true, reason) st =
        let k0 : Checked W = record { acks = []; messages = []; state = st } in
        let k = check_packets svc conn c packets k0 in
        omega (arith, deliver-total conn c k.messages k, check_packets-counted conn c packets k0)

    process_found-total :
        (conn : ConnInfo) (packets : List SendPacket) (f : Found) (st : State W)
        → total (process_found svc conn packets f st) ≡ count_sends packets + count_acks st.out
    unfolding process_found
    process_found-total conn packets failed st =
        omega (arith, resp-packets Reason.system_error packets)
    process_found-total conn packets missing st =
        omega (arith, resp-packets Reason.channel_not_exist packets)
    process_found-total conn packets (found c) st =
        process_permitted-total conn c packets
          (has_permission (svc.get_channel st.world) svc.whitelist_off_of_person
            (svc.system_uid st.world conn.uid) conn.uid c)
          st

    process_group-total :
        (conn : ConnInfo) (packets : List SendPacket) (st : State W)
        → total (process_group svc conn packets st) ≡ count_sends packets + count_acks st.out
    unfolding process_group process_channel_messages
    process_group-total conn [] st = omega arith
    process_group-total conn (p ∷ packets) st = process_found-total conn (p ∷ packets) _ st

    process_groups-total :
        (conn : ConnInfo) (groups : Groups) (st : State W)
        → total (process_groups svc conn groups st) ≡ count_groups groups + count_acks st.out
    unfolding process_groups
    process_groups-total conn [] st = omega arith
    process_groups-total conn ((key, packets) ∷ groups) st =
        let (acks, st') = process_group svc conn packets st in
        let (more, st'') = process_groups svc conn groups st' in
        omega (
          arith,
          count_acks-append acks more,
          process_group-total conn packets st,
          process_groups-total conn groups st',
        )

    put_group-counted :
        (key : Text) (p : SendPacket) (groups : Groups)
        → count_groups (put_group svc key p groups)
          ≡ count_groups groups + one p.client_seq p.client_msg_no
    unfolding put_group
    put_group-counted key p [] = omega arith
    put_group-counted key p ((k, packets) ∷ groups) =
        ground (arith, put_group-counted key p groups, count_sends-append packets (p ∷ []))

    split-counted :
        (packets : List SendPacket) (groups : Groups)
        → count_groups (split_by_channel svc packets groups)
          ≡ count_groups groups + count_sends packets
    unfolding split_by_channel
    split-counted [] groups = omega arith
    split-counted (p ∷ packets) groups =
        omega (arith, split-counted packets _, put_group-counted _ p groups)

  groups-Permᴰ : {a b : Groups} → Permᴰ a b → count_groups a ≡ count_groups b
  groups-Permᴰ Permᴰ.nil = refl
  groups-Permᴰ (Permᴰ.cons e p) = omega (arith, groups-Permᴰ p, ap (λ g. count_sends g.1) e)
  groups-Permᴰ (Permᴰ.swap e d) =
      omega (arith, ap (λ g. count_sends g.1) e, ap (λ g. count_sends g.1) d)
  groups-Permᴰ (Permᴰ.trans p r) = groups-Permᴰ p ∙ groups-Permᴰ r

-- For any services, whatever they answer, and any order in which the map of channels is ranged over:
-- `processMsgs` writes to the connection, for every client sequence number and client message number
-- (every `q`), exactly as many acknowledgements as SEND packets have them.
pub process_msgs-acknowledges :
    {W : Type 0} (svc : Services W) (range : Groups → Groups)
    → ((groups : Groups) → Permᴰ (range groups) groups)
    → (conn : ConnInfo) (packets : List SendPacket) (st : State W) (q : ℕ → Text → Bool)
    → count_acks q (process_msgs svc range conn packets st).out
      ≡ count_acks q st.out + count_sends q packets
unfolding process_msgs response
process_msgs-acknowledges svc range permuted conn packets st q =
    let groups = split_by_channel svc packets [] in
    let (acks, st') = process_groups svc conn (range groups) st in
    omega (
      arith,
      count_acks-append q st'.out acks,
      process_groups-total q svc conn (range groups) st,
      groups-Permᴰ q (permuted groups),
      split-counted q svc packets [],
    )
