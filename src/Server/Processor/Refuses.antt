-- ===== src/Server/Processor/Refuses.antt =====
-- What the packets for a channel come to, with the permission of the sender and without.
use imserver.Prelude.{ℕ, ◌≡◌, ◌≢◌, ◌⊎◌, List, ◌++◌, map}
use imserver.Proto.Reason
use imserver.Proto.Types.{SendPacket, Frame}
use imserver.Server.Channel.{Channel, found}
use imserver.Server.Channel.Permission.{MaySend}
use imserver.Server.Processor.{ConnInfo, Services, State}
use imserver.Server.Processor.Messages.{Checked, deliver, process_found}
use imserver.Server.Processor.Sorts.{said, Told, told, answer, Sorts}

module _ {W : Type 0} (svc : Services W) (conn : ConnInfo) where
  -- How packets for a channel end. The sender may send: what `deliver` has to store, notify, put and
  -- acknowledge are the messages of the packets that open, in order, behind the answers to those that
  -- are for one sync only, and the packets that do not open are answered at once. Or the sender may not:
  -- nothing changes, and every packet is answered by one reason that is not success.
  abbrev pub Outcome : List SendPacket → Channel → State W → Type 0
  Outcome packets c st =
      let get_channel = svc.get_channel st.world in
      let off = svc.whitelist_off_of_person in
      let is_system = svc.system_uid st.world conn.uid in
      let result = process_found svc conn packets (found c) st in
      (MaySend get_channel off is_system conn.uid c
        × ((k : Checked W) × (soon : List Told) × (result ≡ deliver svc conn c k.messages k)
            × Sorts svc conn packets (map said k.messages) (map told k.acks) soon
            × (map told k.state.out ≡ map told st.out ++ soon)))
      ⊎ ((¬ (MaySend get_channel off is_system conn.uid c))
          × ((frames : List Frame) × (reason : ℕ) × (result ≡ (frames, st))
              × (reason ≢ Reason.success)
              × (map told frames ≡ map (answer reason) packets)))
