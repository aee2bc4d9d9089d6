-- ===== src/Server/Channel/Receivers.antt =====
-- Who receives what is sent to a channel.
use imserver.Prelude.{
  ℕ, ◌≡◌, refl, Bool, false, ◌||◌, ◌&&◌, List, [], ◌∷◌, ◌++◌, length, ltb, ◌==◌, if◌then◌else◌,
  arith, some,
}
use imserver.Proto.ChannelType
use imserver.Proto.Types.{Text}
use imserver.Okstore.File.{equal→≡}
use imserver.Server.Members.{contains, contains-append, Distinct}
use imserver.Server.Channel.{
  Channel, Found, remove_repeated_element, own_subscribers, real_subscribers,
}

contains-repeated :
    (uid : Text) (arr : List Text) → contains uid (remove_repeated_element arr) ≡ contains uid arr
unfolding remove_repeated_element contains
contains-repeated uid [] = refl
contains-repeated uid (x ∷ arr) = ground (arith, contains-repeated uid arr, equal→≡ x uid)

repeated-Distinct : (arr : List Text) → Distinct (remove_repeated_element arr)
unfolding remove_repeated_element
repeated-Distinct [] = tt
repeated-Distinct (x ∷ arr) = ground (arith, repeated-Distinct arr, contains-repeated x arr)

-- The users that the code would send to before repeated ones are taken out.
abbrev pub is_receiver : List Text → Channel → Text → Bool
is_receiver custom c uid =
    (c.channel_type == ChannelType.info && contains uid c.tmp_subscriber_map)
    || (if ltb 0 (length custom) then contains uid custom else contains uid c.subscriber_map)

own_subscribers-contains :
    (custom : List Text) (c : Channel) (uid : Text)
    → contains uid (own_subscribers custom c) ≡ is_receiver custom c uid
unfolding own_subscribers contains
own_subscribers-contains custom c uid =
    let chosen = if ltb 0 (length custom) then custom else c.subscriber_map in
    let tmp = if c.channel_type == ChannelType.info then c.tmp_subscriber_map else [] in
    ground (arith, contains-repeated uid (tmp ++ chosen), contains-append uid tmp chosen)

-- For any channel, any chosen users and any channel manager: in a channel that is not a community
-- topic, or one that has subscribers, `RealSubscribers` gives every user at most once; it gives
-- exactly the chosen users, or the subscribers if none are chosen, and in an info channel the
-- temporary subscribers too, also beside chosen users.
pub real_subscribers-own :
    (get_channel : Text → ℕ → Found) (custom : List Text) (c : Channel)
    → (c.channel_type == ChannelType.community_topic && length c.subscriber_map == 0) ≡ false
    → (uids : List Text) × (real_subscribers get_channel 1 custom c ≡ some uids)
      × Distinct uids
      × ((uid : Text) → contains uid uids ≡ is_receiver custom c uid)
unfolding real_subscribers
real_subscribers-own get_channel custom c h = (
  own_subscribers custom c,
  rw h refl,
  unfold own_subscribers in repeated-Distinct _,
  own_subscribers-contains custom c,
)
