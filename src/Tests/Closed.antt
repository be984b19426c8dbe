-- ===== src/Tests/Closed.antt =====
-- src/receiver.c: the end of a transfer of one packet.
use lingi1341_projet.Receiver.State.{System as ReceiverSystem}
use lingi1341_projet.Prelude.{◌≡◌, refl, ◌⊎◌, inl, some, [], ◌++◌, arith, Yields}
use lingi1341_projet.Packet.Fields.{free_payload, pkt_del}
use lingi1341_projet.Packet.Wire.{wire}
use lingi1341_projet.Sender.Supply.{IsData}
use lingi1341_projet.Receiver.Handler.{read_to_list_r, finished}
use lingi1341_projet.Receiver.Delivery.{Delivers}
use lingi1341_projet.Receiver.Closing.{read_to_list_r-closes}
use lingi1341_projet.Network.Calls.{
  receiver_calls, receiver_calls-IsSound, blank, blank-IsByte, blank_room,
}
use lingi1341_projet.Network.Preservation.{Reach-Joint}
use lingi1341_projet.Tests.Packets.{checksum, checksum-IsU32}
use lingi1341_projet.Tests.Network.{greeting, receiver_served, last_pkt}
use lingi1341_projet.Tests.Reached.{ended_net, ended-Reach}
use lingi1341_projet.Network.Closing.{Finishing, Reach-closes}

-- The empty packet of the sender arrives.
abbrev last_arrives : ReceiverSystem
last_arrives = receiver_calls (some (wire checksum last_pkt [] ++ blank, 12))

last_pkt-IsData : IsData greeting 1 last_pkt
unfolding pkt_del free_payload
last_pkt-IsData = record {
  seqnum = refl;
  packet = record {
    window = omega arith;
    tr = omega arith;
    low_kind = omega arith;
    high_kind = omega arith;
    cut = inl refl;
    seqnum = omega arith;
    timestamp = omega arith;
    size = omega arith;
    carries = refl;
    contents = tt;
  };
  kind = refl;
  tr = refl;
  crc2 = refl;
  deletable = refl;
}

read_to_list_r-closes_example :
    Yields
      (λ (status, st'). (status ≡ finished) × Delivers checksum 2 greeting 2 st')
      (read_to_list_r checksum last_arrives receiver_served)
read_to_list_r-closes_example =
    read_to_list_r-closes checksum last_arrives (receiver_calls-IsSound _) greeting 1 refl refl
      checksum-IsU32 last_pkt blank 12 receiver_served refl refl refl refl last_pkt-IsData
      blank-IsByte (blank_room (wire checksum last_pkt []))
      (Reach-Joint checksum greeting checksum-IsU32 ended-Reach).delivers

Reach-closes_example :
    (ended_net.delivered ≡ ended_net.packets) ⊎ Finishing checksum greeting ended_net
Reach-closes_example = Reach-closes checksum greeting checksum-IsU32 ended_net ended-Reach refl refl
