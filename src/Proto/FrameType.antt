-- ===== src/Proto/FrameType.antt =====
-- `FrameType` of pkg/proto/common.go: a `uint8`, and its named values.
use imserver.Prelude.{ℕ}

abbrev pub unknown : ℕ
unknown = 0

abbrev pub connect : ℕ
connect = 1

abbrev pub connack : ℕ
connack = 2

abbrev pub send : ℕ
send = 3

abbrev pub sendack : ℕ
sendack = 4

abbrev pub recv : ℕ
recv = 5

abbrev pub recvack : ℕ
recvack = 6

abbrev pub ping : ℕ
ping = 7

abbrev pub pong : ℕ
pong = 8

abbrev pub disconnect : ℕ
disconnect = 9

abbrev pub sub : ℕ
sub = 10

abbrev pub suback : ℕ
suback = 11
