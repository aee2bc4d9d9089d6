-- ===== src/Server/Conversation.antt =====
-- internal/server/conversation.go: the recent conversations of a user, kept in a cache for each user
-- and changed by every message that the user receives; with `Conversation` of pkg/okstore/model.go.
pub mod Counts
use imserver.Prelude.{
  ℕ, ◌+◌, ◌-◌, ◌^◌, Bool, true, false, not, ◌&&◌, ◌||◌, List, [], ◌∷◌, ◌++◌, Option, none, some,
  ltb, ◌==◌, if◌then◌else◌,
}
use imserver.Proto.ChannelType
use imserver.Proto.Types.{Text}
use imserver.Okstore.File.{equal}
use imserver.Server.Processor.{Message}

pub record Conversation : Type 0 where
  pub uid : Text
  pub channel_id : Text
  pub channel_type : ℕ
  pub unread_count : ℕ
  pub timestamp : ℕ
  pub last_msg_seq : ℕ
  pub last_client_msg_no : Text
  pub last_msg_id : ℕ
  pub version : ℕ

-- The cache of golang-lru, of conversations by channel key.
pub record Lru (C : Type 0) : Type 0 where
  pub get : Text → C → Option Conversation × C
  pub add : Text → Conversation → C → C
  pub remove : Text → C → C
  pub keys : C → List Text

-- The caches by user, and the users that were sent to `needSaveChan`.
pub record ConversationManager (C : Type 0) : Type 0 where
  pub caches : Text → C
  pub need_save : List Text

-- What the manager calls elsewhere: the formatting of a number, the store, in which an error counts
-- as no conversation, and the clock in milliseconds.
pub record ConversationServices : Type 0 where
  pub decimal : ℕ → Text
  pub get_conversation : Text → Text → ℕ → Option Conversation
  pub now : ℕ

abbrev pub set_cache : {C : Type 0} → Text → C → ConversationManager C → ConversationManager C
set_cache uid cache m = record m { caches = λ u. if equal u uid then cache else m.caches u }

unfoldable pub set_need_save : {C : Type 0} → Text → ConversationManager C → ConversationManager C
set_need_save uid m = record m { need_save = m.need_save ++ (uid ∷ []) }

-- The channel of a message, as the subscriber sees it.
unfoldable pub channel_of : Message → Text → Text
channel_of message subscriber =
    let p = message.recv_packet in
    if p.channel_type == ChannelType.person && equal p.channel_id subscriber
    then p.from_uid
    else p.channel_id

-- A red dot that counts: one of a message of somebody else.
unfoldable pub counts_red_dot : Message → Text → Bool
counts_red_dot message subscriber =
    message.recv_packet.framer.red_dot && not (equal message.recv_packet.from_uid subscriber)

-- `int64(message.Timestamp)` of an `int32`, on bit patterns: the sign goes on.
unfoldable pub int64_of_int32 : ℕ → ℕ
int64_of_int32 n = if ltb n (2 ^ 31) then n else n + (2 ^ 64 - 2 ^ 32)

-- A conversation that there was not.
unfoldable pub first_conversation : ℕ → Message → Text → Conversation
unfolding channel_of counts_red_dot int64_of_int32
first_conversation now message subscriber =
    let p = message.recv_packet in
    record {
      uid = subscriber;
      channel_id = channel_of message subscriber;
      channel_type = p.channel_type;
      unread_count = if counts_red_dot message subscriber then 1 else 0;
      timestamp = int64_of_int32 p.timestamp;
      last_msg_seq = p.message_seq;
      last_client_msg_no = p.client_msg_no;
      last_msg_id = p.message_id;
      version = now;
    }

-- The changes to one that there is.
unfoldable pub count_unread : Bool → Conversation → Conversation
count_unread red c = if red then record c { unread_count = c.unread_count + 1 } else c

unfoldable pub set_last : Bool → Message → Conversation → Conversation
unfolding int64_of_int32
set_last newer message c =
    let p = message.recv_packet in
    if newer
    then record c {
      timestamp = int64_of_int32 p.timestamp;
      last_client_msg_no = p.client_msg_no;
      last_msg_seq = p.message_seq;
      last_msg_id = p.message_id;
    }
    else c

unfoldable pub set_version : Bool → ℕ → Conversation → Conversation
set_version modify now c = if modify then record c { version = now } else c

-- The middle of `calConversation`: the conversation, and whether it changed.
unfoldable pub change : ℕ → Message → Text → Option Conversation → Conversation × Bool
unfolding first_conversation count_unread set_last set_version counts_red_dot
change now message subscriber none = (first_conversation now message subscriber, true)
change now message subscriber (some c) =
    let red = counts_red_dot message subscriber in
    let newer = ltb c.last_msg_seq message.recv_packet.message_seq in
    let modify = red || newer in
    (set_version modify now (set_last newer message (count_unread red c)), modify)

-- The conversation of the cache, or else of the store.
unfoldable pub or_else : Option Conversation → Option Conversation → Option Conversation
or_else none stored = stored
or_else (some c) stored = some c

module _ {C : Type 0} (lru : Lru C) (svc : ConversationServices) where
  -- `getChannelKey`
  unfoldable pub get_channel_key : Text → ℕ → Text
  get_channel_key channel_id channel_type = channel_id ++ (b'-' ∷ svc.decimal channel_type)

  -- `AddOrUpdateConversation`
  unfoldable pub add_or_update_conversation :
      Text → Conversation → ConversationManager C → ConversationManager C
  unfolding get_channel_key set_need_save
  add_or_update_conversation uid c m =
      let key = get_channel_key c.channel_id c.channel_type in
      set_need_save uid (set_cache uid (lru.add key c (m.caches uid)) m)

  -- The end of `calConversation`.
  unfoldable pub save_change :
      Text → Conversation × Bool → ConversationManager C → ConversationManager C
  unfolding add_or_update_conversation
  save_change subscriber (c, true) m = add_or_update_conversation subscriber c m
  save_change subscriber (c, false) m = m

  -- `calConversation`
  unfoldable pub cal_conversation : Message → Text → ConversationManager C → ConversationManager C
  unfolding channel_of get_channel_key or_else change save_change
  cal_conversation message subscriber m =
      let channel_id = channel_of message subscriber in
      let channel_type = message.recv_packet.channel_type in
      let (cached, cache) =
        lru.get (get_channel_key channel_id channel_type) (m.caches subscriber) in
      let conversation = or_else cached (svc.get_conversation subscriber channel_id channel_type) in
      save_change subscriber (change svc.now message subscriber conversation)
        (set_cache subscriber cache m)

  -- The rounds of `calcLoop` for the subscribers of one message.
  unfoldable pub cal_subscribers :
      Message → List Text → ConversationManager C → ConversationManager C
  unfolding cal_conversation
  cal_subscribers message [] m = m
  cal_subscribers message (subscriber ∷ subscribers) m =
      cal_subscribers message subscribers (cal_conversation message subscriber m)

  -- The changes by several messages, for one subscriber.
  unfoldable pub cal_messages : List Message → Text → ConversationManager C → ConversationManager C
  unfolding cal_conversation
  cal_messages [] subscriber m = m
  cal_messages (message ∷ messages) subscriber m =
      cal_messages messages subscriber (cal_conversation message subscriber m)
