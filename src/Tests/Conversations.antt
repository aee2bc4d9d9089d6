-- ===== src/Tests/Conversations.antt =====
-- The theorem on conversations at two messages to a new conversation.
use imserver.Prelude.{
  ℕ, ◌+◌, ◌≡◌, arith, ◌≢◌, refl, true, false, List, [], ◌∷◌, Option, none, some, if◌then◌else◌,
}
use imserver.Proto.Types.{Text, zero_framer}
use imserver.Okstore.File.{equal, equal_refl}
use imserver.Server.Processor.{Message}
use imserver.Server.Conversation.{
  Conversation, Lru, ConversationManager, ConversationServices, or_else, cal_messages,
}
use imserver.Server.Conversation.Counts.{
  IsLru, unread, last_seq, IsOf, AllIn, from_user, RedDots, nil, dotted, newest, seen,
  cal_messages-counts,
}

-- A cache that never drops anything.
abbrev Cache : Type 0
Cache = Text → Option Conversation

abbrev cache_ops : Lru Cache
cache_ops = record {
  get = λ key cache. (cache key, cache);
  add = λ key c cache k. if equal k key then some c else cache k;
  remove = λ key cache k. if equal k key then none else cache k;
  keys = λ cache. [];
}

cache_ops-IsLru : IsLru cache_ops
cache_ops-IsLru = record {
  get_add = λ key c cache. rw (equal_refl key) refl;
  get_get = λ key cache. refl;
}

abbrev services : ConversationServices
services = record { decimal = λ n. n ∷ []; get_conversation = λ uid id t. none; now = 9 }

abbrev none_yet : ConversationManager Cache
none_yet = record { caches = λ uid key. none; need_save = [] }

-- A message of the user b to the user a.
abbrev message : ℕ → Message
message seq = record {
  recv_packet = record {
    framer = record zero_framer { red_dot = true };
    setting = 0;
    msg_key = [];
    expire = 0;
    message_id = seq;
    message_seq = seq;
    client_msg_no = [];
    stream_no = [];
    stream_seq = 0;
    stream_flag = 0;
    timestamp = 0;
    channel_id = b'a' ∷ [];
    channel_type = 1;
    topic = [];
    from_uid = b'b' ∷ [];
    payload = [];
    client_seq = 0;
  };
  from_device_flag = 0;
  from_device_id = [];
  large = false;
}

abbrev two : List Message
two = message 5 ∷ message 4 ∷ []

two-AllIn : AllIn (b'a' ∷ []) (b'b' ∷ []) 1 two
two-AllIn = (from_user refl refl refl refl, (from_user refl refl refl refl, tt))

two-RedDots : RedDots (b'a' ∷ []) two 2
two-RedDots =
    let other : ◌≢◌ {A = Text} (b'b' ∷ []) (b'a' ∷ []) = λ e. ground arith in
    dotted (message 5) refl other (dotted (message 4) refl other nil)

none_yet-IsOf :
    IsOf (b'b' ∷ []) 1 (seen cache_ops services cache_ops-IsLru (b'a' ∷ []) (b'b' ∷ []) 1 none_yet)
unfolding or_else
none_yet-IsOf = tt

cal_messages-counts_example :
    let before = seen cache_ops services cache_ops-IsLru (b'a' ∷ []) (b'b' ∷ []) 1 none_yet in
    let after =
      seen cache_ops services cache_ops-IsLru
        (b'a' ∷ [])
        (b'b' ∷ [])
        1
        (cal_messages cache_ops services two (b'a' ∷ []) none_yet) in
    (unread after ≡ unread before + 2)
    × (last_seq after ≡ newest (last_seq before) two)
    × IsOf (b'b' ∷ []) 1 after
cal_messages-counts_example =
    cal_messages-counts cache_ops services cache_ops-IsLru (b'a' ∷ []) (b'b' ∷ []) 1 two none_yet 2
      two-AllIn two-RedDots none_yet-IsOf
