-- ===== src/Server/Dispatch/Unauthed.antt =====
-- `dataIn` on a connection that has not authenticated.
use imserver.Prelude.{
  ℕ, ◌≡◌, refl, true, false, List, ◌∷◌, ◌++◌, length, length-append, drop, drop-append, arith,
}
use imserver.Proto.Result.{ok}
use imserver.Proto.Types.{Frame, ConnectPacket, connect}
use imserver.Proto.Connect.RoundTrip as ConnectBody
use imserver.Proto.Codec.{latest_version}
use imserver.Proto.Codec.Wire.{wire, IsSendable, arrived}
use imserver.Proto.Codec.RoundTrip.{decode_frame-wire}
use imserver.Server.Dispatch.{Conn, ServerState, process_auth, discard, data_in_unauthed, data_in}
use imserver.Server.Dispatch.Unpack.{gnet_unpacket}
use imserver.Server.Dispatch.Unpack.Whole.{
  wires, AllSendable, IsPart, gnet_unpacket-wires, wire_some,
}

-- A CONNECT reaches a connection that has not authenticated, with whole frames and a part of one
-- behind it, all of them frames that can be sent. The packet goes to authentication. All whole
-- frames are discarded with it: `part` is what is kept, and nothing else of the state changes.
pub data_in-connect :
    (p : ConnectPacket) (fs : List Frame) (part : List ℕ) (d : ServerState) (c : Conn)
    → c.is_authed ≡ false
    → IsSendable (connect p) latest_version
    → AllSendable fs latest_version
    → IsPart part latest_version
    → c.inbound ≡ wires (connect p ∷ fs) latest_version ++ part
    → data_in true (d, c)
      ≡ ok (
        (d, record c { inbound = part }),
        process_auth (
            ConnectBody.delivered p
              (arrived (connect p) latest_version (wires fs latest_version))
              latest_version),
      )
unfolding data_in data_in_unauthed discard
data_in-connect p fs part d c au s a q e =
    let v = latest_version in
    let input = wires (connect p ∷ fs) v in
    let unpacked : gnet_unpacket c.inbound ≡ input =
      rw e (gnet_unpacket-wires (connect p ∷ fs) v part (s, a) q) in
    let kept : drop (length input) c.inbound ≡ part = rw e (drop-append input part _ refl) in
    ground (
      arith,
      au,
      unpacked,
      kept,
      decode_frame-wire (connect p) v (wires fs v) s,
      wire_some (connect p) v s,
      length-append (wire (connect p) v) (wires fs v),
    )
