-- ===== src/Server/Conversation/Counts.antt =====
-- What a user's conversation holds after messages of its channel.
use imserver.Prelude.{
  ℕ, suc, ◌+◌, ◌≡◌, ◌≢◌, refl, sym, ap, ◌∙◌, ◌||◌, Bool, true, false, List, [], ◌∷◌, Option, none,
  some, ltb, ◌==◌, if◌then◌else◌, arith,
}
use mathlib.Core.Path.{subst}
use imserver.Proto.ChannelType
use imserver.Proto.Types.{Text}
use imserver.Okstore.File.{equal_refl, ≡→equal, ≢→equal}
use imserver.Server.Processor.{Message}
use imserver.Server.Conversation.{
  Conversation, Lru, ConversationManager, ConversationServices, set_cache, set_need_save,
  channel_of, counts_red_dot, first_conversation, count_unread, set_last, set_version, change,
  or_else, get_channel_key, add_or_update_conversation, save_change, cal_conversation, cal_messages,
}

-- What the code relies on in golang-lru: what was added last is found, and finding it keeps it.
pub record IsLru {C : Type 0} (lru : Lru C) : Type 0 where
  pub get_add :
      (key : Text) (c : Conversation) (cache : C) → (lru.get key (lru.add key c cache)).0 ≡ some c
  pub get_get :
      (key : Text) (cache : C) → (lru.get key (lru.get key cache).1).0 ≡ (lru.get key cache).0

abbrev pub unread : Option Conversation → ℕ
unread none = 0
unread (some c) = c.unread_count

abbrev pub last_seq : Option Conversation → ℕ
last_seq none = 0
last_seq (some c) = c.last_msg_seq

-- A conversation is the one of a channel.
abbrev pub IsOf : Text → ℕ → Option Conversation → Type 0
IsOf id t none = Unit
IsOf id t (some c) = (c.channel_id ≡ id) × (c.channel_type ≡ t)

-- A message belongs to the conversation of a user with an id and a type: it came to that group, or is
-- from that user to this one, or it went out to that user.
pub data IsIn (uid id : Text) (t : ℕ) (message : Message) : Type 0 where
  group :
      message.recv_packet.channel_type ≡ t
      → t ≢ ChannelType.person
      → message.recv_packet.channel_id ≡ id
      → IsIn uid id t message
  from_user :
      message.recv_packet.channel_type ≡ t
      → t ≡ ChannelType.person
      → message.recv_packet.channel_id ≡ uid
      → message.recv_packet.from_uid ≡ id
      → IsIn uid id t message
  to_user :
      message.recv_packet.channel_type ≡ t
      → t ≡ ChannelType.person
      → message.recv_packet.channel_id ≢ uid
      → message.recv_packet.channel_id ≡ id
      → IsIn uid id t message

abbrev pub AllIn : Text → Text → ℕ → List Message → Type 0
AllIn uid id t [] = Unit
AllIn uid id t (message ∷ messages) = IsIn uid id t message × AllIn uid id t messages

-- So many of the messages have a red dot and are from somebody else than the user.
pub data RedDots (uid : Text) : List Message → ℕ → Type 0 where
  nil : RedDots uid [] 0
  dotted :
      (message : Message) {messages : List Message} {n : ℕ}
      → message.recv_packet.framer.red_dot ≡ true
      → message.recv_packet.from_uid ≢ uid
      → RedDots uid messages n
      → RedDots uid (message ∷ messages) (suc n)
  plain :
      (message : Message) {messages : List Message} {n : ℕ}
      → message.recv_packet.framer.red_dot ≡ false
      → RedDots uid messages n
      → RedDots uid (message ∷ messages) n
  own :
      (message : Message) {messages : List Message} {n : ℕ}
      → message.recv_packet.from_uid ≡ uid
      → RedDots uid messages n
      → RedDots uid (message ∷ messages) n

-- The code's view of them.
IsIn-channel :
    (uid id : Text) (t : ℕ) (message : Message)
    → IsIn uid id t message
    → (channel_of message uid ≡ id) × (message.recv_packet.channel_type ≡ t)
unfolding channel_of
IsIn-channel uid id t message (group e n c) =
    let no_person : (message.recv_packet.channel_type == ChannelType.person) ≡ false =
      ground (arith, n) in
    (rw no_person c, e)
IsIn-channel uid id t message (from_user e p c f) =
    let is_person : (message.recv_packet.channel_type == ChannelType.person) ≡ true =
      ground arith in
    (rw (is_person, ≡→equal message.recv_packet.channel_id uid c) f, e)
IsIn-channel uid id t message (to_user e p n c) =
    let is_person : (message.recv_packet.channel_type == ChannelType.person) ≡ true =
      ground arith in
    (rw (is_person, ≢→equal message.recv_packet.channel_id uid n) c, e)

red_dots : Text → List Message → ℕ
red_dots uid [] = 0
red_dots uid (message ∷ messages) =
    (if counts_red_dot message uid then 1 else 0) + red_dots uid messages

red_dots-RedDots :
    (uid : Text) {messages : List Message} {n : ℕ}
    → RedDots uid messages n
    → red_dots uid messages ≡ n
unfolding red_dots counts_red_dot
red_dots-RedDots uid nil = refl
red_dots-RedDots uid (dotted message red other rest) =
    let away = ≢→equal message.recv_packet.from_uid uid other in
    rw (red, away) (omega (arith, red_dots-RedDots uid rest))
red_dots-RedDots uid (plain message red rest) = rw red (omega (arith, red_dots-RedDots uid rest))
red_dots-RedDots uid (own message same rest) =
    let self = ≡→equal message.recv_packet.from_uid uid same in
    ground (arith, self, red_dots-RedDots uid rest)

-- The highest number.
abbrev pub newer : ℕ → Message → ℕ
newer n message =
    if ltb n message.recv_packet.message_seq then message.recv_packet.message_seq else n

abbrev pub newest : ℕ → List Message → ℕ
newest n [] = n
newest n (message ∷ messages) = newest (newer n message) messages

module _ {C : Type 0} (lru : Lru C) (svc : ConversationServices) (is : IsLru lru) (uid id : Text)
    (t : ℕ) where
  -- The conversation that the manager knows: of the cache, or else of the store.
  abbrev pub seen : ConversationManager C → Option Conversation
  seen m =
      or_else (lru.get (get_channel_key lru svc id t) (m.caches uid)).0
        (svc.get_conversation uid id t)

  -- The manager after the conversation was looked up.
  abbrev looked : ConversationManager C → ConversationManager C
  looked m = set_cache uid (lru.get (get_channel_key lru svc id t) (m.caches uid)).1 m

  seen-looked : (m : ConversationManager C) → seen (looked m) ≡ seen m
  seen-looked m = rw (equal_refl uid) (
      ap (λ o. or_else o (svc.get_conversation uid id t))
        (is.get_get (get_channel_key lru svc id t) (m.caches uid)))

  seen-save_change :
      (m : ConversationManager C) (c : Conversation)
      → IsOf id t (some c)
      → seen (save_change lru svc uid (c, true) m) ≡ some c
  unfolding save_change add_or_update_conversation set_need_save or_else
  seen-save_change m c (same, same_type) = rw (same, same_type, equal_refl uid, is.get_add) refl

  cal_conversation-looked :
      (message : Message) (m : ConversationManager C)
      → channel_of message uid ≡ id
      → message.recv_packet.channel_type ≡ t
      → cal_conversation lru svc message uid m
        ≡ save_change lru svc uid (change svc.now message uid (seen m)) (looked m)
  unfolding cal_conversation
  cal_conversation-looked message m same same_type = rw (same, same_type) refl

  -- What a message does to the conversation.
  abbrev Counted : Message → Option Conversation → Option Conversation → Type 0
  Counted message old new =
      (unread new ≡ unread old + (if counts_red_dot message uid then 1 else 0))
      × (last_seq new ≡ newer (last_seq old) message)
      × IsOf id t new

  save_change-Counted :
      (message : Message) (m : ConversationManager C) (c : Conversation) (r : Conversation × Bool)
      → seen m ≡ some c
      → (r.1 ≡ false → r.0 ≡ c)
      → Counted message (some c) (some r.0)
      → Counted message (some c) (seen (save_change lru svc uid r (looked m)))
  unfolding save_change
  save_change-Counted message m c (c', true) known kept counted =
      subst (Counted message (some c)) (sym (seen-save_change (looked m) c' counted.2)) counted
  save_change-Counted message m c (c', false) known kept counted =
      subst (Counted message (some c)) (ap some (kept refl) ∙ sym known ∙ sym (seen-looked m))
        counted

  count_unread-one :
      (red : Bool) (c : Conversation)
      → ((count_unread red c).unread_count ≡ c.unread_count + (if red then 1 else 0))
        × ((count_unread red c).last_msg_seq ≡ c.last_msg_seq)
        × ((count_unread red c).channel_id ≡ c.channel_id)
        × ((count_unread red c).channel_type ≡ c.channel_type)
  unfolding count_unread
  count_unread-one true c = (refl, refl, refl, refl)
  count_unread-one false c = (omega arith, refl, refl, refl)

  set_last-newer :
      (is_newer : Bool) (message : Message) (c : Conversation)
      → ((set_last is_newer message c).unread_count ≡ c.unread_count)
        × ((set_last is_newer message c).last_msg_seq
            ≡ (if is_newer then message.recv_packet.message_seq else c.last_msg_seq))
        × ((set_last is_newer message c).channel_id ≡ c.channel_id)
        × ((set_last is_newer message c).channel_type ≡ c.channel_type)
  unfolding set_last
  set_last-newer true message c = (refl, refl, refl, refl)
  set_last-newer false message c = (refl, refl, refl, refl)

  set_version-same :
      (modify : Bool) (now : ℕ) (c : Conversation)
      → ((set_version modify now c).unread_count ≡ c.unread_count)
        × ((set_version modify now c).last_msg_seq ≡ c.last_msg_seq)
        × ((set_version modify now c).channel_id ≡ c.channel_id)
        × ((set_version modify now c).channel_type ≡ c.channel_type)
  unfolding set_version
  set_version-same true now c = (refl, refl, refl, refl)
  set_version-same false now c = (refl, refl, refl, refl)

  changed-Counted :
      (message : Message) (c : Conversation)
      → IsOf id t (some c)
      → Counted message (some c) (some (change svc.now message uid (some c)).0)
  unfolding change
  changed-Counted message c of =
      let red = counts_red_dot message uid in
      let is_newer = ltb c.last_msg_seq message.recv_packet.message_seq in
      let c1 = count_unread red c in
      let c2 = set_last is_newer message c1 in
      let (u1, l1, i1, t1) = count_unread-one red c in
      let (u2, l2, i2, t2) = set_last-newer is_newer message c1 in
      let (u3, l3, i3, t3) = set_version-same (red || is_newer) svc.now c2 in
      (
        u3 ∙ u2 ∙ u1,
        l3 ∙ l2 ∙ ap (λ n. if is_newer then message.recv_packet.message_seq else n) l1,
        (i3 ∙ i2 ∙ i1 ∙ of.0, t3 ∙ t2 ∙ t1 ∙ of.1),
      )

  unchanged-same :
      (red is_newer : Bool) (now : ℕ) (message : Message) (c : Conversation)
      → (red || is_newer) ≡ false
      → set_version (red || is_newer) now (set_last is_newer message (count_unread red c)) ≡ c
  unfolding set_version set_last count_unread
  unchanged-same true is_newer now message c h = absurd (cc)
  unchanged-same false true now message c h = absurd (cc)
  unchanged-same false false now message c h = refl

  change-Counted :
      (message : Message) (m : ConversationManager C) (old : Option Conversation)
      → channel_of message uid ≡ id
      → message.recv_packet.channel_type ≡ t
      → seen m ≡ old
      → IsOf id t old
      → Counted message old
          (seen (save_change lru svc uid (change svc.now message uid old) (looked m)))
  unfolding change first_conversation
  change-Counted message m none same same_type known of =
      let first = first_conversation svc.now message uid in
      subst (Counted message none) (sym (seen-save_change (looked m) first (same, same_type)))
        (omega arith, ground arith, (same, same_type))
  change-Counted message m (some c) same same_type known of =
      save_change-Counted message m c (change svc.now message uid (some c)) known
        (unchanged-same (counts_red_dot message uid)
          (ltb c.last_msg_seq message.recv_packet.message_seq) svc.now message c)
        (changed-Counted message c of)

  cal_conversation-Counted :
      (message : Message) (m : ConversationManager C)
      → channel_of message uid ≡ id
      → message.recv_packet.channel_type ≡ t
      → IsOf id t (seen m)
      → Counted message (seen m) (seen (cal_conversation lru svc message uid m))
  cal_conversation-Counted message m same same_type of =
      subst (λ m'. Counted message (seen m) (seen m'))
        (sym (cal_conversation-looked message m same same_type))
        (change-Counted message m (seen m) same same_type refl of)

  cal_messages-red_dots :
      (messages : List Message) (m : ConversationManager C)
      → AllIn uid id t messages
      → IsOf id t (seen m)
      → let after = seen (cal_messages lru svc messages uid m) in
        (unread after ≡ unread (seen m) + red_dots uid messages)
        × (last_seq after ≡ newest (last_seq (seen m)) messages)
        × IsOf id t after
  unfolding cal_messages red_dots
  cal_messages-red_dots [] m all of = (omega arith, refl, of)
  cal_messages-red_dots (message ∷ messages) m (here, all) of =
      let (same, same_type) = IsIn-channel uid id t message here in
      let (u, l, of') = cal_conversation-Counted message m same same_type of in
      let (u', l', of'') =
        cal_messages-red_dots messages (cal_conversation lru svc message uid m) all of' in
      (omega (arith, u, u'), l' ∙ ap (λ n. newest n messages) l, of'')

  -- For a cache that finds what was added last, after any messages of one conversation (to its group,
  -- or between its two users), from a manager whose conversation, if there is one, is of that channel:
  -- the conversation has as many unread messages more as messages with a red dot came from somebody
  -- else than the user, and the highest sequence number of it and of the messages.
  pub cal_messages-counts :
      (messages : List Message) (m : ConversationManager C) (n : ℕ)
      → AllIn uid id t messages
      → RedDots uid messages n
      → IsOf id t (seen m)
      → let after = seen (cal_messages lru svc messages uid m) in
        (unread after ≡ unread (seen m) + n)
        × (last_seq after ≡ newest (last_seq (seen m)) messages)
        × IsOf id t after
  cal_messages-counts messages m n all dots of =
      let (u, last, same) = cal_messages-red_dots messages m all of in
      (u ∙ ap (λ (j : ℕ). unread (seen m) + j) (red_dots-RedDots uid dots), last, same)
