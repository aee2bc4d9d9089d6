-- ===== src/Proto/ChannelType.antt =====
-- The channel types of pkg/proto/common.go.
use imserver.Prelude.{ℕ}

abbrev pub person : ℕ
person = 1

abbrev pub customer_service : ℕ
customer_service = 3

abbrev pub community : ℕ
community = 4

abbrev pub community_topic : ℕ
community_topic = 5

abbrev pub info : ℕ
info = 6

abbrev pub data_channel : ℕ
data_channel = 7
