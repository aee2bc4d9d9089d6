-- ===== src/Proto/Reason.antt =====
-- The reason codes of pkg/proto/common.go that the server gives.
use imserver.Prelude.{ℕ}

abbrev pub success : ℕ
success = 1

abbrev pub auth_fail : ℕ
auth_fail = 2

abbrev pub subscriber_not_exist : ℕ
subscriber_not_exist = 3

abbrev pub in_blacklist : ℕ
in_blacklist = 4

abbrev pub channel_not_exist : ℕ
channel_not_exist = 5

abbrev pub payload_decode_error : ℕ
payload_decode_error = 9

abbrev pub connect_kick : ℕ
connect_kick = 12

abbrev pub not_in_whitelist : ℕ
not_in_whitelist = 13

abbrev pub system_error : ℕ
system_error = 15

abbrev pub ban : ℕ
ban = 19

abbrev pub not_support_header : ℕ
not_support_header = 20

abbrev pub not_support_channel_type : ℕ
not_support_channel_type = 23
