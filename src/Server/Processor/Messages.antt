-- ===== src/Server/Processor/Messages.antt =====
-- processMsgs and prcocessChannelMessages of internal/server/processor.go: the SEND packets of a
-- connection are split by channel, checked, stored, put to their channel and acknowledged.
use imserver.Prelude.{
  ℕ, Bool, true, false, List, [], ◌∷◌, ◌++◌, Option, none, some, ◌==◌, if◌then◌else◌,
}
use imserver.Proto.ChannelType
use imserver.Proto.Reason
use imserver.Proto.Types.{Text, SendPacket, Frame, sendack}
use imserver.Okstore.File.{equal}
use imserver.Server.Channel.{Channel, Found, found, missing, failed, has_permission}
use imserver.Server.Processor.{
  ConnInfo, Message, Services, State, response, get_sendack_packet,
  get_sendack_packet_with_send_packet, refused, get_fake_channel_id_with, check_and_decode_payload,
  message_of, store_channel_messages_if_need, store_channel_messages_to_notify_queue,
}

-- The packets of a channel, under its key.
abbrev pub Groups : Type 0
Groups = List (Text × List SendPacket)

-- `respSendackPacketsFnc` and `respSendackPacketsWithRecvFnc`, without the packets from before.
unfoldable pub resp_sendack_packets : ℕ → List SendPacket → List Frame
resp_sendack_packets reason [] = []
resp_sendack_packets reason (p ∷ packets) =
    sendack (get_sendack_packet_with_send_packet p reason) ∷ resp_sendack_packets reason packets

unfoldable pub resp_sendack_packets_with_recv : ℕ → List Message → List Frame
resp_sendack_packets_with_recv reason [] = []
resp_sendack_packets_with_recv reason (m ∷ messages) =
    sendack (get_sendack_packet m reason) ∷ resp_sendack_packets_with_recv reason messages

-- What the loop over the packets gives: acknowledgements, messages, and the state.
pub record Checked (W : Type 0) : Type 0 where
  pub acks : List Frame
  pub messages : List Message
  pub state : State W

module _ {W : Type 0} (svc : Services W) where
  -- One round behind the generation of the id.
  unfoldable pub check_packet :
      ConnInfo → Channel → SendPacket → ℕ → Option (List ℕ) → Checked W → Checked W
  check_packet conn channel p message_id payload k =
      if p.framer.sync_once
      then record k {
        acks = k.acks ++ (sendack (refused p message_id Reason.not_support_header) ∷ []);
      }
      else elim payload [
        | none ↦ record k {
          state =
              response (sendack (refused p message_id Reason.payload_decode_error) ∷ []) k.state;
        }
        | some payload ↦ record k {
          messages =
              k.messages ++ (message_of svc conn channel p message_id payload k.state.world ∷ []);
        }
      ]

  unfoldable pub check_packets : ConnInfo → Channel → List SendPacket → Checked W → Checked W
  unfolding check_packet
  check_packets conn channel [] k = k
  check_packets conn channel (p ∷ packets) k =
      let (message_id, w) = svc.gen_message_id k.state.world in
      let k' : Checked W = record k { state = record k.state { world = w } } in
      let payload = check_and_decode_payload svc p conn in
      check_packets conn channel packets (check_packet conn channel p message_id payload k')

  -- The end of `prcocessChannelMessages`, from the result of `channel.Put` on.
  unfoldable pub after_put : List Message → Bool × W → Checked W → List Frame × State W
  after_put messages (done, w) k = (
    k.acks
        ++ resp_sendack_packets_with_recv (if done then Reason.success else Reason.system_error)
            messages,
    record k.state { world = w },
  )

  unfoldable pub after_notify :
      ConnInfo → Channel → List Message → Bool × W → Checked W → List Frame × State W
  unfolding after_put
  after_notify conn channel messages (false, w) k = (
    k.acks ++ resp_sendack_packets_with_recv Reason.system_error messages,
    record k.state { world = w },
  )
  after_notify conn channel messages (true, w) k =
      after_put messages (svc.put channel messages conn w) k

  unfoldable pub after_store :
      ConnInfo → Channel → Bool × List Message × W → Checked W → List Frame × State W
  unfolding after_notify
  after_store conn channel (false, messages, w) k = (
    k.acks ++ resp_sendack_packets_with_recv Reason.system_error messages,
    record k.state { world = w },
  )
  after_store conn channel (true, messages, w) k =
      after_notify conn channel messages (store_channel_messages_to_notify_queue svc messages w) k

  -- The messages of packets that were checked.
  unfoldable pub deliver : ConnInfo → Channel → List Message → Checked W → List Frame × State W
  unfolding after_store
  deliver conn channel [] k = (k.acks, k.state)
  deliver conn channel (m ∷ messages) k =
      after_store conn channel
        (store_channel_messages_if_need svc conn.uid (m ∷ messages) k.state.world) k

  -- A sender that has the permission, or has not for a reason.
  unfoldable pub process_permitted :
      ConnInfo → Channel → List SendPacket → Bool × ℕ → State W → List Frame × State W
  unfolding check_packets deliver
  process_permitted conn channel packets (false, reason) st =
      (resp_sendack_packets reason packets, st)
  process_permitted conn channel packets (true, reason) st =
      let k =
        check_packets conn channel packets (record { acks = []; messages = []; state = st }) in
      deliver conn channel k.messages k

  -- With what the channel manager gives.
  unfoldable pub process_found : ConnInfo → List SendPacket → Found → State W → List Frame × State W
  unfolding process_permitted
  process_found conn packets failed st = (resp_sendack_packets Reason.system_error packets, st)
  process_found conn packets missing st =
      (resp_sendack_packets Reason.channel_not_exist packets, st)
  process_found conn packets (found channel) st =
      process_permitted conn channel packets
        (has_permission (svc.get_channel st.world) svc.whitelist_off_of_person
          (svc.system_uid st.world conn.uid) conn.uid channel)
        st

  -- `prcocessChannelMessages`: the acknowledgements that it returns, and the state.
  unfoldable pub process_channel_messages :
      ConnInfo → Text → ℕ → List SendPacket → State W → List Frame × State W
  unfolding process_found
  process_channel_messages conn channel_id channel_type packets st =
      let fake_channel_id =
        if channel_type == ChannelType.person
        then get_fake_channel_id_with svc conn.uid channel_id
        else channel_id in
      process_found conn packets (svc.get_channel st.world fake_channel_id channel_type) st

  -- `channelKey`
  unfoldable pub channel_key : SendPacket → Text
  channel_key p = p.channel_id ++ (b'-' ∷ svc.decimal p.channel_type)

  -- A packet goes behind those of its channel.
  unfoldable pub put_group : Text → SendPacket → Groups → Groups
  put_group key p [] = (key, p ∷ []) ∷ []
  put_group key p ((k, packets) ∷ groups) =
      if equal k key
      then (k, packets ++ (p ∷ [])) ∷ groups
      else (k, packets) ∷ put_group key p groups

  unfoldable pub split_by_channel : List SendPacket → Groups → Groups
  unfolding put_group channel_key
  split_by_channel [] groups = groups
  split_by_channel (p ∷ packets) groups =
      split_by_channel packets (put_group (channel_key p) p groups)

  -- The loop over the channels.
  unfoldable pub process_group : ConnInfo → List SendPacket → State W → List Frame × State W
  unfolding process_channel_messages
  process_group conn [] st = ([], st)
  process_group conn (p ∷ packets) st =
      process_channel_messages conn p.channel_id p.channel_type (p ∷ packets) st

  unfoldable pub process_groups : ConnInfo → Groups → State W → List Frame × State W
  unfolding process_group
  process_groups conn [] st = ([], st)
  process_groups conn ((key, packets) ∷ groups) st =
      let (acks, st') = process_group conn packets st in
      let (more, st'') = process_groups conn groups st' in (acks ++ more, st'')

  -- `processMsgs`. The first argument is the order in which Go ranges over the map.
  unfoldable pub process_msgs : (Groups → Groups) → ConnInfo → List SendPacket → State W → State W
  unfolding split_by_channel process_groups
  process_msgs range conn packets st =
      let (acks, st') = process_groups conn (range (split_by_channel packets [])) st in
      response acks st'
