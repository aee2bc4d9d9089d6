-- ===== src/Proto/ByteSize.antt =====
-- The sizes of the fields in bytes: the constants of pkg/proto/common.go whose names end in
-- `ByteSize`.
use imserver.Prelude.{ℕ}

abbrev pub setting : ℕ
setting = 1

abbrev pub string_fix_len : ℕ
string_fix_len = 2

abbrev pub client_seq : ℕ
client_seq = 4

abbrev pub channel_type : ℕ
channel_type = 1

abbrev pub version : ℕ
version = 1

abbrev pub device_flag : ℕ
device_flag = 1

abbrev pub client_timestamp : ℕ
client_timestamp = 8

abbrev pub time_diff : ℕ
time_diff = 8

abbrev pub reason_code : ℕ
reason_code = 1

abbrev pub message_id : ℕ
message_id = 8

abbrev pub message_seq : ℕ
message_seq = 4

abbrev pub timestamp : ℕ
timestamp = 4

abbrev pub action : ℕ
action = 1

abbrev pub stream_seq : ℕ
stream_seq = 4

abbrev pub stream_flag : ℕ
stream_flag = 1

abbrev pub expire : ℕ
expire = 4
