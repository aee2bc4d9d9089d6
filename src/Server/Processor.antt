-- ===== src/Server/Processor.antt =====
-- internal/server/processor.go: what the processor needs of the rest of the server, and how a message
-- is made of a SEND packet, checked and stored.
pub mod Messages
pub mod Acks
pub mod Sorts
pub mod Refuses
use imserver.Prelude.{
  ℕ, zero, suc, Bool, true, false, not, ◌&&◌, ◌||◌, List, [], ◌∷◌, ◌++◌, length, Option, none, some,
  ltb, ◌==◌, if◌then◌else◌,
}
use imserver.Proto.ChannelType
use imserver.Proto.Types.{Text, Framer, zero_framer, SendPacket, SendackPacket, RecvPacket, Frame}
use imserver.Okstore.File.{equal}
use imserver.Okstore.Stream.Item.{StreamItem}
use imserver.Server.Channel.{Channel, Found}

-- What the processor reads of a connection.
pub record ConnInfo : Type 0 where
  pub uid : Text
  pub device_flag : ℕ
  pub device_id : Text
  pub device_level : ℕ
  pub aes_key : Text
  pub aes_iv : Text

-- `Message` of model.go, as the processor makes it.
pub record Message : Type 0 where
  pub recv_packet : RecvPacket
  pub from_device_flag : ℕ
  pub from_device_id : Text
  pub large : Bool

-- `streamFlagIng` of pkg/proto/recv.go.
abbrev pub stream_flag_ing : ℕ
stream_flag_ing = 1

-- What the processor calls, over a state `W` of the rest of the server. A call that fails gives
-- `none` or `false`, and may change the state all the same.
pub record Services (W : Type 0) : Type 0 where
  -- `fmt.Sprintf("%d")`, `strings.TrimSpace(s) == ""`, the checksum, AES and MD5 of pkg/okutil.
  pub decimal : ℕ → Text
  pub is_blank : Text → Bool
  pub hash_crc32 : Text → ℕ
  pub aes_encrypt : Text → Text → Text → Option Text
  pub aes_decrypt : Text → Text → Text → Option Text
  pub md5 : Text → Text
  -- The options and the clock.
  pub whitelist_off_of_person : ℕ
  pub webhook_on : Bool
  pub now : W → ℕ
  -- The channel manager, the system users, and the generator of message ids.
  pub get_channel : W → Text → ℕ → Found
  pub system_uid : W → Text → Bool
  pub gen_message_id : W → ℕ × W
  -- The store; `AppendMessages` sets the sequence numbers of its messages.
  pub append_stream_item : Text → ℕ → Text → StreamItem → W → Bool × W
  pub append_messages : Text → ℕ → List Message → W → List ℕ × Bool × W
  pub append_message_of_notify_queue : List Message → W → Bool × W
  -- `channel.Put`
  pub put : Channel → List Message → ConnInfo → W → Bool × W

-- The state of the rest of the server, and what was written to the connection.
pub record State (W : Type 0) : Type 0 where
  pub world : W
  pub out : List Frame

-- `response`, to the connection that is served.
unfoldable pub response : {W : Type 0} → List Frame → State W → State W
response frames st = record st { out = st.out ++ frames }

unfoldable pub get_sendack_packet : Message → ℕ → SendackPacket
get_sendack_packet m reason = record {
  framer = m.recv_packet.framer;
  message_id = m.recv_packet.message_id;
  message_seq = m.recv_packet.message_seq;
  client_seq = m.recv_packet.client_seq;
  client_msg_no = m.recv_packet.client_msg_no;
  reason_code = reason;
}

unfoldable pub get_sendack_packet_with_send_packet : SendPacket → ℕ → SendackPacket
get_sendack_packet_with_send_packet p reason = record {
  framer = p.framer;
  message_id = 0;
  message_seq = 0;
  client_seq = p.client_seq;
  client_msg_no = p.client_msg_no;
  reason_code = reason;
}

-- The acknowledgement of a packet that has an id already.
unfoldable pub refused : SendPacket → ℕ → ℕ → SendackPacket
refused p message_id reason = record {
  framer = p.framer;
  message_id = message_id;
  message_seq = 0;
  client_seq = p.client_seq;
  client_msg_no = p.client_msg_no;
  reason_code = reason;
}

module _ {W : Type 0} (svc : Services W) where
  -- `GetFakeChannelIDWith` of common.go.
  unfoldable pub get_fake_channel_id_with : Text → Text → Text
  get_fake_channel_id_with from_uid to_uid =
      if ltb (svc.hash_crc32 to_uid) (svc.hash_crc32 from_uid)
      then from_uid ++ (b'@' ∷ to_uid)
      else to_uid ++ (b'@' ∷ from_uid)

  -- `StreamIng`
  unfoldable pub stream_ing : Message → Bool
  stream_ing m =
      not (svc.is_blank m.recv_packet.stream_no) && m.recv_packet.stream_flag == stream_flag_ing

  -- `VerityString` of pkg/proto/send.go.
  unfoldable pub verity_string : SendPacket → Text
  verity_string p =
      svc.decimal p.client_seq
      ++ (p.client_msg_no ++ (p.channel_id ++ (svc.decimal p.channel_type ++ p.payload)))

  -- `sendPacketIsVail`, whose two results are `true` and no error, or `false` and an error.
  unfoldable pub send_packet_is_vail : SendPacket → ConnInfo → Bool
  unfolding verity_string
  send_packet_is_vail p conn = elim (svc.aes_encrypt (verity_string p) conn.aes_key conn.aes_iv) [
    | some act_msg_key ↦ equal p.msg_key (svc.md5 act_msg_key)
    | none ↦ false
  ]

  -- `checkAndDecodePayload`
  unfoldable pub check_and_decode_payload : SendPacket → ConnInfo → Option (List ℕ)
  unfolding send_packet_is_vail
  check_and_decode_payload p conn =
      if send_packet_is_vail p conn
      then svc.aes_decrypt p.payload conn.aes_key conn.aes_iv
      else none

  -- The message of a packet.
  unfoldable pub message_of : ConnInfo → Channel → SendPacket → ℕ → List ℕ → W → Message
  message_of conn channel p message_id payload w = record {
    recv_packet = record {
      framer = record zero_framer {
        red_dot = p.framer.red_dot;
        sync_once = p.framer.sync_once;
        no_persist = p.framer.no_persist;
      };
      setting = p.setting;
      msg_key = [];
      expire = p.expire;
      message_id = message_id;
      message_seq = 0;
      client_msg_no = p.client_msg_no;
      stream_no = p.stream_no;
      stream_seq = 0;
      stream_flag = stream_flag_ing;
      timestamp = svc.now w;
      channel_id = p.channel_id;
      channel_type = p.channel_type;
      topic = p.topic;
      from_uid = conn.uid;
      payload = payload;
      client_seq = p.client_seq;
    };
    from_device_flag = conn.device_flag;
    from_device_id = conn.device_id;
    large = channel.large;
  }

  -- The message goes to the store of the channel, not to a stream, and not nowhere.
  unfoldable pub is_stored : Message → Bool
  unfolding stream_ing
  is_stored m =
      not (m.recv_packet.framer.no_persist || m.recv_packet.framer.sync_once) && not (stream_ing m)

  -- The loop of `storeChannelMessagesIfNeed`: whether every stream item was stored, and the state.
  unfoldable pub store_streams : Text → List Message → W → Bool × W
  unfolding stream_ing get_fake_channel_id_with
  store_streams from_uid [] w = (true, w)
  store_streams from_uid (m ∷ messages) w =
      let p = m.recv_packet in
      let (done, w') =
        svc.append_stream_item (get_fake_channel_id_with from_uid p.channel_id) p.channel_type
          p.stream_no (record { client_msg_no = p.client_msg_no; stream_seq = 0; blob = p.payload })
          w in
      let after = store_streams from_uid messages w' in
      let skip = store_streams from_uid messages w in
      if p.framer.no_persist || p.framer.sync_once
      then skip
      else if stream_ing m
      then if done then after else (false, w')
      else skip

  -- The messages that are stored get these numbers, in their order.
  unfoldable pub set_seqs : List ℕ → List Message → List Message
  unfolding is_stored
  set_seqs seqs [] = []
  set_seqs [] (m ∷ messages) = m ∷ messages
  set_seqs (seq ∷ seqs) (m ∷ messages) =
      let numbered = record m { recv_packet = record m.recv_packet { message_seq = seq } } in
      let stored = numbered ∷ set_seqs seqs messages in
      let skipped = m ∷ set_seqs (seq ∷ seqs) messages in if is_stored m then stored else skipped

  unfoldable pub stored_messages : List Message → List Message
  unfolding is_stored
  stored_messages [] = []
  stored_messages (m ∷ messages) =
      let rest = stored_messages messages in if is_stored m then m ∷ rest else rest

  -- The second part of `storeChannelMessagesIfNeed`, behind the loop.
  unfoldable pub store_rest :
      Text → List Message → List Message → Bool → W → Bool × List Message × W
  unfolding set_seqs get_fake_channel_id_with
  store_rest from_uid messages stored false w = (false, messages, w)
  store_rest from_uid messages [] true w = (true, messages, w)
  store_rest from_uid messages (first ∷ more) true w =
      let p = first.recv_packet in
      let id =
        if p.channel_type == ChannelType.person
        then get_fake_channel_id_with from_uid p.channel_id
        else p.channel_id in
      let (seqs, done, w') = svc.append_messages id p.channel_type (first ∷ more) w in
      (done, set_seqs seqs messages, w')

  -- `storeChannelMessagesIfNeed`: whether it succeeds, the messages with their numbers, and the state.
  unfoldable pub store_channel_messages_if_need : Text → List Message → W → Bool × List Message × W
  unfolding store_streams stored_messages store_rest
  store_channel_messages_if_need from_uid messages w =
      let (done, w') = store_streams from_uid messages w in
      store_rest from_uid messages (stored_messages messages) done w'

  unfoldable pub notified_messages : List Message → List Message
  unfolding stream_ing
  notified_messages [] = []
  notified_messages (m ∷ messages) =
      let rest = notified_messages messages in
      if stream_ing m || (m.recv_packet.framer.no_persist && m.recv_packet.framer.sync_once)
      then rest
      else m ∷ rest

  -- `storeChannelMessagesToNotifyQueue`, if there is a webhook.
  unfoldable pub store_channel_messages_to_notify_queue : List Message → W → Bool × W
  unfolding notified_messages
  store_channel_messages_to_notify_queue messages w =
      if svc.webhook_on
      then svc.append_message_of_notify_queue (notified_messages messages) w
      else (true, w)
