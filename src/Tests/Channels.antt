-- ===== src/Tests/Channels.antt =====
-- The theorems on channels at concrete channels.
use imserver.Prelude.{ℕ, ◌≡◌, ◌↔◌, refl, true, false, if◌then◌else◌, List, [], ◌∷◌, some}
use imserver.Proto.ChannelType
use imserver.Proto.Reason
use imserver.Proto.Types.{Text}
use imserver.Okstore.File.{equal}
use imserver.Server.Members.{contains, Distinct}
use imserver.Server.Channel.{Channel, Found, missing, found, has_permission, real_subscribers}
use imserver.Server.Channel.Permission.{MaySend, has_permission-MaySend}
use imserver.Server.Channel.Receivers.{is_receiver, real_subscribers-own}

abbrev group : Channel
group = record {
  channel_id = b'g' ∷ [];
  channel_type = 2;
  ban = false;
  large = false;
  blacklist = (b'x' ∷ []) ∷ [];
  whitelist = [];
  subscriber_map = (b'a' ∷ []) ∷ (b'b' ∷ []) ∷ [];
  tmp_subscriber_map = [];
}

abbrev topic : Channel
topic = record group {
  channel_id = b'g' ∷ b'@' ∷ b't' ∷ [];
  channel_type = ChannelType.community_topic;
  subscriber_map = [];
}

-- The community of the topic is found.
abbrev communities : Text → ℕ → Found
communities id t = if equal id (b'g' ∷ []) then found group else missing

has_permission-MaySend_example :
    (has_permission communities 0 false (b'a' ∷ []) topic ≡ (true, Reason.success))
    ↔ MaySend communities 0 false (b'a' ∷ []) topic
has_permission-MaySend_example = has_permission-MaySend communities 0 false (b'a' ∷ []) topic

real_subscribers-own_example :
    (uids : List Text) × (real_subscribers communities 1 ((b'b' ∷ []) ∷ (b'b' ∷ []) ∷ []) group
      ≡ some uids)
    × Distinct uids
    × ((uid : Text) → contains uid uids ≡ is_receiver ((b'b' ∷ []) ∷ (b'b' ∷ []) ∷ []) group uid)
real_subscribers-own_example =
    real_subscribers-own communities ((b'b' ∷ []) ∷ (b'b' ∷ []) ∷ []) group refl
