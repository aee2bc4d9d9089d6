-- ===== src/Tests/Dispatch.antt =====
-- The theorems on the dispatcher, at concrete connections.
use imserver.Prelude.{◌≡◌, refl, true, false, [], ◌∷◌, ◌++◌}
use imserver.Prelude.Int.{pos}
use imserver.Proto.Result.{ok}
use imserver.Proto.Types.{connect}
use imserver.Proto.Codec.{latest_version}
use imserver.Proto.Codec.Wire.{arrived}
use imserver.Proto.Connect.RoundTrip as ConnectBody
use imserver.Server.Dispatch.{Conn, ServerState, State, process, process_auth, data_in}
use imserver.Server.Dispatch.Unpack.{gnet_unpacket}
use imserver.Server.Dispatch.Unpack.Whole.{wires, gnet_unpacket-wires}
use imserver.Server.Dispatch.Stream.{Received, data_in-wires}
use imserver.Server.Dispatch.Out.{Sent, data_out, data_out-wires}
use imserver.Server.Dispatch.Unauthed.{data_in-connect}
use imserver.Tests.Frames.{
  login, login-IsSendable, cut_hello, cut_hello-IsPart, two_frames, two_frames-AllSendable,
  two_frames-some,
}

abbrev dispatch : ServerState
dispatch = record {
  in_msgs = 5;
  in_bytes = 70;
  out_msgs = 1;
  out_bytes = 9;
  slow_clients = pos 0;
  user_msg_queue_max_size = 0;
}

abbrev authed_conn : Conn
authed_conn = record {
  is_authed = true;
  proto_version = 3;
  closed = false;
  inbound = wires two_frames 3 ++ cut_hello;
  frame_caches = [];
  inflight_count = pos 0;
  is_disable_read = false;
  in_msgs = 2;
  in_bytes = 40;
  outbound = [];
  write_woken = false;
  out_msgs = 0;
  out_bytes = 0;
}

abbrev new_conn : Conn
new_conn = record {
  is_authed = false;
  proto_version = 0;
  closed = false;
  inbound = wires (connect login ∷ two_frames) latest_version ++ cut_hello;
  frame_caches = [];
  inflight_count = pos 0;
  is_disable_read = false;
  in_msgs = 0;
  in_bytes = 0;
  outbound = [];
  write_woken = false;
  out_msgs = 0;
  out_bytes = 0;
}

data_in-wires_example :
    (s : State) × (data_in true (dispatch, authed_conn)
      ≡ ok ((s.0, record s.1 { inbound = cut_hello }), process))
    × Received two_frames 3 (dispatch, authed_conn) s
data_in-wires_example =
    data_in-wires two_frames cut_hello dispatch authed_conn refl two_frames-some
      two_frames-AllSendable cut_hello-IsPart refl

data_in-connect_example :
    data_in true (dispatch, new_conn)
    ≡ ok (
      (dispatch, record new_conn { inbound = cut_hello }),
      process_auth (
          ConnectBody.delivered login
            (arrived (connect login) latest_version (wires two_frames latest_version))
            latest_version),
    )
data_in-connect_example =
    data_in-connect login two_frames cut_hello dispatch new_conn refl login-IsSendable
      two_frames-AllSendable cut_hello-IsPart refl

gnet_unpacket-wires_example : gnet_unpacket (wires two_frames 3 ++ cut_hello) ≡ wires two_frames 3
gnet_unpacket-wires_example =
    gnet_unpacket-wires two_frames 3 cut_hello two_frames-AllSendable cut_hello-IsPart

data_out-wires_example :
    (s : State) × (data_out (λ b. b) two_frames (dispatch, authed_conn) ≡ ok s)
    × Sent (λ b. b) two_frames (dispatch, authed_conn) s
data_out-wires_example =
    data_out-wires (λ b. b) two_frames (dispatch, authed_conn) two_frames-some
      two_frames-AllSendable
