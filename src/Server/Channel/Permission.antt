-- ===== src/Server/Channel/Permission.antt =====
-- Who may send to a channel, as rules.
use imserver.Prelude.{
  ℕ, ◌≡◌, ◌≢◌, ◌↔◌, ◌⊎◌, inl, inr, refl, ap, Bool, true, false, List, [], ◌∷◌, length, ltb, ◌==◌,
  Bool-cases, arith,
}
use imserver.Proto.ChannelType
use imserver.Proto.Reason
use imserver.Proto.Types.{Text}
use imserver.Server.Members.{contains}
use imserver.Server.Channel.{
  Channel, Found, found, missing, failed, is_fake_channel, allow, parent_channel,
  get_community_topic_parent_channel_id, is_subscriber, is_tmp_subscriber, has_permission,
}

-- The lists of a channel let a user through.
pub data IsListed (whitelist_off : ℕ) (uid : Text) (c : Channel) : Type 0 where
  -- A personal channel of two users goes by its blacklist.
  fake :
      c.channel_type ≡ ChannelType.person
      → is_fake_channel c.channel_id ≡ true
      → contains uid c.blacklist ≡ false
      → IsListed whitelist_off uid c
  -- A whitelist that is not empty decides.
  white :
      (c.channel_type ≢ ChannelType.person)
        ⊎ ((whitelist_off ≡ 0) × (is_fake_channel c.channel_id ≡ false))
      → contains uid c.whitelist ≡ true
      → IsListed whitelist_off uid c
  -- With an empty one the blacklist decides, in a channel that is not personal.
  black :
      c.channel_type ≢ ChannelType.person
      → length c.whitelist ≡ 0
      → contains uid c.blacklist ≡ false
      → IsListed whitelist_off uid c
  -- A personal channel of one user goes by its blacklist if the whitelists are off.
  off :
      c.channel_type ≡ ChannelType.person
      → is_fake_channel c.channel_id ≡ false
      → whitelist_off ≢ 0
      → contains uid c.blacklist ≡ false
      → IsListed whitelist_off uid c

-- The channel is open to the user.
pub data IsOpen (whitelist_off : ℕ) (is_system : Bool) (uid : Text) (c : Channel) : Type 0 where
  info : c.channel_type ≡ ChannelType.info → IsOpen whitelist_off is_system uid c
  system : is_system ≡ true → IsOpen whitelist_off is_system uid c
  listed : c.ban ≡ false → IsListed whitelist_off uid c → IsOpen whitelist_off is_system uid c

contained-length : (uid : Text) (uids : List Text) → contains uid uids ≡ true → length uids ≢ 0
unfolding contains
contained-length uid [] h = cc
contained-length uid (x ∷ uids) h = λ e. absurd (omega (arith, e))

module _ (whitelist_off : ℕ) (is_system : Bool) (uid : Text) (c : Channel) where
  listed_allow :
      c.ban ≡ false
      → IsListed whitelist_off uid c
      → allow whitelist_off is_system uid c ≡ (true, Reason.success)
  unfolding allow
  listed_allow b (fake p f d) = ground arith
  listed_allow b (white (inl p) w) = ground (arith, contained-length uid c.whitelist w)
  listed_allow b (white (inr p) w) = ground (arith, contained-length uid c.whitelist w)
  listed_allow b (black p e d) = ground arith
  listed_allow b (off p f o d) = ground arith

  open_allow :
      IsOpen whitelist_off is_system uid c
      → allow whitelist_off is_system uid c ≡ (true, Reason.success)
  unfolding allow
  open_allow (info i) = ground arith
  open_allow (system y) = ground arith
  open_allow (listed b l) = listed_allow b l

  IsListed-reason :
      c.ban ≡ false
      → is_system ≡ false
      → c.channel_type ≢ ChannelType.info
      → (allow whitelist_off is_system uid c).0 ≡ true
      → IsListed whitelist_off uid c
  unfolding allow
  IsListed-reason b s i h = elim (Bool-cases (c.channel_type == ChannelType.person)) [
    | inl p ↦ elim (Bool-cases (is_fake_channel c.channel_id)) [
      | inl f ↦ fake (ground arith) f (ground arith)
      | inr f ↦ elim (Bool-cases (whitelist_off == 0)) [
        | inl z ↦ white (inr (ground arith, f)) (ground arith)
        | inr o ↦ off (ground arith) f (λ e. ground arith) (ground arith)
      ]
    ]
    | inr p ↦ elim (Bool-cases (ltb 0 (length c.whitelist))) [
      | inl w ↦ white (inl (λ e. ground arith)) (ground arith)
      | inr w ↦ black (λ e. ground arith) (ground arith) (ground arith)
    ]
  ]

  IsOpen-reason :
      (allow whitelist_off is_system uid c).0 ≡ true → IsOpen whitelist_off is_system uid c
  IsOpen-reason h = elim (Bool-cases (c.channel_type == ChannelType.info)) [
    | inl i ↦ info (ground arith)
    | inr i ↦ elim (Bool-cases is_system) [
      | inl s ↦ system s
      | inr s ↦ elim (Bool-cases c.ban) [
        | inl b ↦ absurd (unfold allow in ground arith)
        | inr b ↦ listed b (IsListed-reason b s (λ e. ground arith) h)
      ]
    ]
  ]

-- The user belongs to the channel.
pub data IsMember (get_channel : Text → ℕ → Found) (uid : Text) (c : Channel) : Type 0 where
  subscribed : contains uid c.subscriber_map ≡ true → IsMember get_channel uid c
  visits : contains uid c.tmp_subscriber_map ≡ true → IsMember get_channel uid c
  -- A community topic has the subscribers of its community.
  of_parent :
      (p : Channel)
      → c.channel_type ≡ ChannelType.community_topic
      → length (get_community_topic_parent_channel_id c.channel_id) ≢ 0
      → get_channel (get_community_topic_parent_channel_id c.channel_id) ChannelType.community
        ≡ found p
      → contains uid p.subscriber_map ≡ true
      → IsMember get_channel uid c

-- Who may send.
pub data MaySend (get_channel : Text → ℕ → Found) (whitelist_off : ℕ) (is_system : Bool)
    (uid : Text) (c : Channel) : Type 0 where
  service :
      c.channel_type ≡ ChannelType.customer_service
      → MaySend get_channel whitelist_off is_system uid c
  to_person :
      (c.channel_type ≡ ChannelType.person) ⊎ (c.channel_type ≡ ChannelType.info)
      → IsOpen whitelist_off is_system uid c
      → MaySend get_channel whitelist_off is_system uid c
  to_group :
      IsMember get_channel uid c
      → IsOpen whitelist_off is_system uid c
      → MaySend get_channel whitelist_off is_system uid c

module _ (get_channel : Text → ℕ → Found) (uid : Text) (c : Channel) where
  abbrev parent_id : Text
  parent_id = get_community_topic_parent_channel_id c.channel_id

  parent_found :
      (p : Channel)
      → parent_channel get_channel c ≡ found p
      → (c.channel_type ≡ ChannelType.community_topic)
        × (length parent_id ≢ 0)
        × (get_channel parent_id ChannelType.community ≡ found p)
  unfolding parent_channel
  parent_found p h = elim (Bool-cases (c.channel_type == ChannelType.community_topic)) [
    | inl t ↦ elim (Bool-cases (length parent_id == 0)) [
      | inl z ↦ absurd (ground arith)
      | inr z ↦ (ground arith, λ e. ground arith, ground arith)
    ]
    | inr t ↦ absurd (ground arith)
  ]

  Found-cases : (f : Found) → ((p : Channel) × (f ≡ found p)) ⊎ ((f ≡ missing) ⊎ (f ≡ failed))
  Found-cases (found p) = inl (p, refl)
  Found-cases missing = inr (inl refl)
  Found-cases failed = inr (inr refl)

  IsMember-reason :
      (is_subscriber get_channel 1 uid c ≡ true) ⊎ (contains uid c.tmp_subscriber_map ≡ true)
      → IsMember get_channel uid c
  unfolding is_subscriber
  IsMember-reason (inr v) = visits v
  IsMember-reason (inl s) = elim (Bool-cases (contains uid c.subscriber_map)) [
    | inl y ↦ subscribed y
    | inr n ↦ elim (Found-cases (parent_channel get_channel c)) [
      | inl (p, e) ↦ (let (t, z, g) = parent_found p e in of_parent p t z g (ground arith))
      | inr (inl e) ↦ absurd (ground arith)
      | inr (inr e) ↦ absurd (ground arith)
    ]
  ]

  member_subscribes :
      IsMember get_channel uid c
      → (is_subscriber get_channel 1 uid c ≡ true) ⊎ (contains uid c.tmp_subscriber_map ≡ true)
  unfolding is_subscriber parent_channel
  member_subscribes (visits v) = inr v
  member_subscribes (subscribed y) = inl (elim (Found-cases (parent_channel get_channel c)) [
    | inl (p, e) ↦ ground arith
    | inr (inl e) ↦ ground arith
    | inr (inr e) ↦ ground arith
  ])
  member_subscribes (of_parent p t z g y) = inl (ground arith)

module _ (get_channel : Text → ℕ → Found) (whitelist_off : ℕ) (is_system : Bool) (uid : Text)
    (c : Channel) where
  abbrev permitted : Bool × ℕ
  permitted = has_permission get_channel whitelist_off is_system uid c

  abbrev opens : Bool × ℕ
  opens = allow whitelist_off is_system uid c

  permitted_open :
      permitted.0 ≡ true → (c.channel_type == ChannelType.customer_service) ≡ false → opens.0 ≡ true
  unfolding has_permission
  permitted_open h n = elim (Bool-cases opens.0) [ inl y ↦ y | inr f ↦ absurd (ground arith) ]

  permitted_member :
      permitted.0 ≡ true
      → (c.channel_type == ChannelType.customer_service) ≡ false
      → (c.channel_type == ChannelType.person) ≡ false
      → (c.channel_type == ChannelType.info) ≡ false
      → (is_subscriber get_channel 1 uid c ≡ true) ⊎ (contains uid c.tmp_subscriber_map ≡ true)
  unfolding has_permission is_tmp_subscriber
  permitted_member h n p i = elim (Bool-cases (is_subscriber get_channel 1 uid c)) [
    | inl y ↦ inl y
    | inr f ↦ inr (elim (Bool-cases (contains uid c.tmp_subscriber_map)) [
      | inl y ↦ y
      | inr g ↦ absurd (ground (arith, permitted_open h n))
    ])
  ]

  pub permitted_reason : permitted.0 ≡ true → MaySend get_channel whitelist_off is_system uid c
  permitted_reason h = elim (Bool-cases (c.channel_type == ChannelType.customer_service)) [
    | inl s ↦ service (ground arith)
    | inr n ↦
        (let open_c = IsOpen-reason whitelist_off is_system uid c (permitted_open h n) in
          elim (Bool-cases (c.channel_type == ChannelType.person)) [
            | inl p ↦ to_person (inl (ground arith)) open_c
            | inr p ↦ elim (Bool-cases (c.channel_type == ChannelType.info)) [
              | inl i ↦ to_person (inr (ground arith)) open_c
              | inr i ↦
                  to_group (IsMember-reason get_channel uid c (permitted_member h n p i)) open_c
            ]
          ])
  ]

  pub may_permitted :
      MaySend get_channel whitelist_off is_system uid c → permitted ≡ (true, Reason.success)
  unfolding has_permission is_tmp_subscriber
  may_permitted (service s) = ground arith
  may_permitted (to_person (inl p) o) = ground (arith, open_allow whitelist_off is_system uid c o)
  may_permitted (to_person (inr i) o) = ground (arith, open_allow whitelist_off is_system uid c o)
  may_permitted (to_group m o) = elim (member_subscribes get_channel uid c m) [
    | inl y ↦ ground (arith, open_allow whitelist_off is_system uid c o)
    | inr y ↦ ground (arith, open_allow whitelist_off is_system uid c o)
  ]

-- For every channel, user and option: `hasPermission` lets the user send, with the reason success,
-- exactly when a rule of `MaySend` does: to a customer service channel; to a personal or an info
-- channel that is open to the user; to any channel that is open to the user and that the user belongs
-- to, by a subscription, a temporary one, or one to the community of a community topic.
pub has_permission-MaySend :
    (get_channel : Text → ℕ → Found) (whitelist_off : ℕ) (is_system : Bool) (uid : Text)
    (c : Channel)
    → (has_permission get_channel whitelist_off is_system uid c ≡ (true, Reason.success))
      ↔ MaySend get_channel whitelist_off is_system uid c
has_permission-MaySend get_channel whitelist_off is_system uid c = (
  λ h. permitted_reason get_channel whitelist_off is_system uid c (ap (λ (r : Bool × ℕ). r.0) h),
  may_permitted get_channel whitelist_off is_system uid c,
)
