-- ===== src/Tests/Sending.antt =====
-- The theorems on the processor at two SEND packets, the second with a wrong key.
use imserver.Prelude.{ℕ, suc, ◌+◌, ◌≡◌, refl, Bool, true, false, List, [], ◌∷◌, length, some}
use imserver.Proto.Types.{Text, zero_framer, SendPacket}
use imserver.Server.Channel.{Channel, found}
use imserver.Server.Processor.{ConnInfo, Services, State}
use imserver.Server.Processor.Messages.{process_msgs}
use imserver.Server.Processor.Acks.{count_acks, count_sends, process_msgs-acknowledges}
use mathlib.Core.List.{Permᴰ}

abbrev room : Channel
room = record {
  channel_id = b'g' ∷ [];
  channel_type = 2;
  ban = false;
  large = false;
  blacklist = [];
  whitelist = [];
  subscriber_map = (b'a' ∷ []) ∷ (b'b' ∷ []) ∷ [];
  tmp_subscriber_map = [];
}

-- The state counts the ids that were given.
abbrev services : Services ℕ
services = record {
  decimal = λ n. n ∷ [];
  is_blank = λ s. true;
  hash_crc32 = λ s. length s;
  aes_encrypt = λ text key iv. some text;
  aes_decrypt = λ text key iv. some text;
  md5 = λ text. text;
  whitelist_off_of_person = 0;
  webhook_on = true;
  now = λ w. w;
  get_channel = λ w id t. found room;
  system_uid = λ w uid. false;
  gen_message_id = λ w. (w, suc w);
  append_stream_item = λ id t no item w. (true, w);
  append_messages = λ id t messages w. (7 ∷ 8 ∷ [], true, w);
  append_message_of_notify_queue = λ messages w. (true, w);
  put = λ channel messages conn w. (true, w);
}

abbrev alice : ConnInfo
alice = record {
  uid = b'a' ∷ [];
  device_flag = 0;
  device_id = b'd' ∷ [];
  device_level = 1;
  aes_key = [];
  aes_iv = [];
}

abbrev send : ℕ → Text → SendPacket
send seq key = record {
  framer = zero_framer;
  setting = 0;
  msg_key = key;
  expire = 0;
  client_seq = seq;
  client_msg_no = b'm' ∷ [];
  stream_no = [];
  channel_id = b'g' ∷ [];
  channel_type = 2;
  topic = [];
  payload = b'h' ∷ b'i' ∷ [];
}

abbrev two_packets : List SendPacket
two_packets = send 1 (1 ∷ b'm' ∷ b'g' ∷ 2 ∷ b'h' ∷ b'i' ∷ []) ∷ send 2 [] ∷ []

abbrev begin : State ℕ
begin = record { world = 40; out = [] }

permuted-same : {A : Type 0} → (l : List A) → Permᴰ l l
permuted-same [] = Permᴰ.nil
permuted-same (x ∷ l) = Permᴰ.cons refl (permuted-same l)

abbrev asks : ℕ → Text → Bool
asks seq client_msg_no = true

process_msgs-acknowledges_example :
    count_acks asks (process_msgs services (λ g. g) alice two_packets begin).out
    ≡ count_acks asks begin.out + count_sends asks two_packets
process_msgs-acknowledges_example =
    process_msgs-acknowledges services (λ g. g) permuted-same alice two_packets begin asks
