-- ===== src/Server/Channel.antt =====
-- internal/server/channel.go: a channel with its subscribers and its lists, and who may send to it;
-- with `hasPermission` of processor.go.
pub mod Permission
pub mod Reasons
pub mod Receivers
use imserver.Prelude.{
  ℕ, zero, suc, Bool, true, false, not, ◌&&◌, ◌||◌, List, [], ◌∷◌, ◌++◌, length, Option, none, some,
  ltb, ◌==◌, if◌then◌else◌,
}
use imserver.Proto.ChannelType
use imserver.Proto.Reason
use imserver.Proto.Types.{Text}
use imserver.Server.Members.{contains, store, delete, store_each, delete_each}

pub record Channel : Type 0 where
  pub channel_id : Text
  pub channel_type : ℕ
  pub ban : Bool
  pub large : Bool
  pub blacklist : List Text
  pub whitelist : List Text
  pub subscriber_map : List Text
  pub tmp_subscriber_map : List Text

-- `NewChannel` of a `ChannelInfo`.
unfoldable pub new_channel : Text → ℕ → Bool → Bool → Channel
new_channel channel_id channel_type ban large = record {
  channel_id = channel_id;
  channel_type = channel_type;
  ban = ban;
  large = large;
  blacklist = [];
  whitelist = [];
  subscriber_map = [];
  tmp_subscriber_map = [];
}

-- What `GetChannel` gives: a channel, nil, or an error.
pub data Found : Type 0 where
  found : Channel → Found
  missing : Found
  failed : Found

-- `strings.Split` by one byte.
unfoldable pub cons_first : ℕ → List Text → List Text
cons_first x [] = (x ∷ []) ∷ []
cons_first x (part ∷ parts) = (x ∷ part) ∷ parts

unfoldable pub split : ℕ → Text → List Text
unfolding cons_first
split sep [] = [] ∷ []
split sep (x ∷ s) = let rest = split sep s in if x == sep then [] ∷ rest else cons_first x rest

-- `GetCommunityTopicParentChannelID`
unfoldable pub first_of_two : List Text → Text
first_of_two (a ∷ b ∷ []) = a
first_of_two parts = []

unfoldable pub get_community_topic_parent_channel_id : Text → Text
unfolding split first_of_two
get_community_topic_parent_channel_id channel_id = first_of_two (split b'@' channel_id)

-- `IsFakeChannel`
unfoldable pub is_fake_channel : Text → Bool
is_fake_channel [] = false
is_fake_channel (x ∷ s) = x == b'@' || is_fake_channel s

unfoldable pub add_subscriber : Text → Channel → Channel
add_subscriber uid c = record c { subscriber_map = store uid c.subscriber_map }

unfoldable pub add_subscribers : List Text → Channel → Channel
add_subscribers uids c = record c { subscriber_map = store_each uids c.subscriber_map }

unfoldable pub add_tmp_subscriber : Text → Channel → Channel
add_tmp_subscriber uid c = record c { tmp_subscriber_map = store uid c.tmp_subscriber_map }

unfoldable pub add_tmp_subscribers : List Text → Channel → Channel
add_tmp_subscribers uids c = record c { tmp_subscriber_map = store_each uids c.tmp_subscriber_map }

unfoldable pub remove_subscriber : Text → Channel → Channel
remove_subscriber uid c = record c { subscriber_map = delete uid c.subscriber_map }

unfoldable pub remove_subscribers : List Text → Channel → Channel
remove_subscribers uids c = record c { subscriber_map = delete_each uids c.subscriber_map }

unfoldable pub remove_tmp_subscriber : Text → Channel → Channel
remove_tmp_subscriber uid c = record c { tmp_subscriber_map = delete uid c.tmp_subscriber_map }

unfoldable pub remove_tmp_subscribers : List Text → Channel → Channel
remove_tmp_subscribers uids c = record c {
  tmp_subscriber_map = delete_each uids c.tmp_subscriber_map;
}

-- `Range` with `Delete` of every key it meets.
unfoldable pub remove_all_subscriber : Channel → Channel
remove_all_subscriber c = record c {
  subscriber_map = delete_each c.subscriber_map c.subscriber_map;
}

unfoldable pub remove_all_tmp_subscriber : Channel → Channel
remove_all_tmp_subscriber c = record c {
  tmp_subscriber_map = delete_each c.tmp_subscriber_map c.tmp_subscriber_map;
}

unfoldable pub add_denylist : List Text → Channel → Channel
add_denylist uids c = record c { blacklist = store_each uids c.blacklist }

unfoldable pub set_denylist : List Text → Channel → Channel
unfolding add_denylist
set_denylist uids c =
    add_denylist uids (record c { blacklist = delete_each c.blacklist c.blacklist })

unfoldable pub remove_denylist : List Text → Channel → Channel
remove_denylist uids c = record c { blacklist = delete_each uids c.blacklist }

unfoldable pub add_allowlist : List Text → Channel → Channel
add_allowlist uids c = record c { whitelist = store_each uids c.whitelist }

unfoldable pub set_allowlist : List Text → Channel → Channel
unfolding add_allowlist
set_allowlist uids c =
    add_allowlist uids (record c { whitelist = delete_each c.whitelist c.whitelist })

unfoldable pub remove_allowlist : List Text → Channel → Channel
remove_allowlist uids c = record c { whitelist = delete_each uids c.whitelist }

unfoldable pub is_denylist : Text → Channel → Bool
is_denylist uid c = contains uid c.blacklist

unfoldable pub is_tmp_subscriber : Text → Channel → Bool
is_tmp_subscriber uid c = contains uid c.tmp_subscriber_map

-- The part of `Allow` behind the test for a fake personal channel. The first argument is the option
-- `WhitelistOffOfPerson`.
unfoldable pub allow_listed : ℕ → Text → Channel → Bool × ℕ
unfolding is_denylist
allow_listed whitelist_off uid c =
    let denied =
      if is_denylist uid c then (false, Reason.in_blacklist) else (true, Reason.success) in
    if not (c.channel_type == ChannelType.person) || whitelist_off == 0
    then if ltb 0 (length c.whitelist)
      then if contains uid c.whitelist
        then (true, Reason.success)
        else (false, Reason.not_in_whitelist)
      else if c.channel_type == ChannelType.person
      then (false, Reason.not_in_whitelist)
      else denied
    else denied

-- `Allow`. The first arguments are the option and whether the sender is a system user.
unfoldable pub allow : ℕ → Bool → Text → Channel → Bool × ℕ
unfolding allow_listed is_denylist
allow whitelist_off is_system uid c =
    if c.channel_type == ChannelType.info
    then (true, Reason.success)
    else if is_system
    then (true, Reason.success)
    else if c.ban
    then (false, Reason.ban)
    else if c.channel_type == ChannelType.person && is_fake_channel c.channel_id
    then if is_denylist uid c then (false, Reason.in_blacklist) else (true, Reason.success)
    else allow_listed whitelist_off uid c

-- What the channel manager gives for an id and a type, which a channel asks for its parent.
module _ (get_channel : Text → ℕ → Found) where
  unfoldable pub parent_channel : Channel → Found
  parent_channel c =
      let parent_id = get_community_topic_parent_channel_id c.channel_id in
      if c.channel_type == ChannelType.community_topic
      then if length parent_id == 0 then missing else get_channel parent_id ChannelType.community
      else missing

  -- `IsSubscriber`; the first argument bounds how many parents are asked.
  unfoldable pub is_subscriber : ℕ → Text → Channel → Bool
  unfolding parent_channel
  is_subscriber zero uid c = contains uid c.subscriber_map
  is_subscriber (suc depth) uid c = elim (parent_channel c) [
    | found p ↦ is_subscriber depth uid p || contains uid c.subscriber_map
    | missing ↦ contains uid c.subscriber_map
    | failed ↦ contains uid c.subscriber_map
  ]

  -- `hasPermission` of the processor.
  unfoldable pub has_permission : ℕ → Bool → Text → Channel → Bool × ℕ
  unfolding allow is_tmp_subscriber
  has_permission whitelist_off is_system uid c =
      let (allowed, reason) = allow whitelist_off is_system uid c in
      if c.channel_type == ChannelType.customer_service
      then (true, Reason.success)
      else if not allowed
      then (false, reason)
      else if not (c.channel_type == ChannelType.person)
          && not (c.channel_type == ChannelType.info)
          && (not (is_subscriber 1 uid c) && not (is_tmp_subscriber uid c))
      then (false, Reason.subscriber_not_exist)
      else (true, Reason.success)

-- `RemoveRepeatedElement` of pkg/okutil/common.go: the last of equal elements stays.
unfoldable pub remove_repeated_element : List Text → List Text
unfolding contains
remove_repeated_element [] = []
remove_repeated_element (x ∷ arr) =
    let rest = remove_repeated_element arr in if contains x arr then rest else x ∷ rest

-- `RealSubscribers`: the users, or an error; the first argument bounds how many parents are asked.
unfoldable pub own_subscribers : List Text → Channel → List Text
unfolding remove_repeated_element
own_subscribers custom c =
    let tmp = if c.channel_type == ChannelType.info then c.tmp_subscriber_map else [] in
    remove_repeated_element (tmp ++ (if ltb 0 (length custom) then custom else c.subscriber_map))

module _ (get_channel : Text → ℕ → Found) where
  unfoldable pub real_subscribers : ℕ → List Text → Channel → Option (List Text)
  unfolding own_subscribers parent_channel
  real_subscribers zero custom c = some (own_subscribers custom c)
  real_subscribers (suc depth) custom c =
      let from_parent : Option (List Text) = elim (parent_channel get_channel c) [
        | found p ↦ real_subscribers depth custom p
        | missing ↦ none
        | failed ↦ none
      ] in
      if c.channel_type == ChannelType.community_topic && length c.subscriber_map == 0
      then from_parent
      else some (own_subscribers custom c)
