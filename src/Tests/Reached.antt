-- ===== src/Tests/Reached.antt =====
-- src/sender.c and src/receiver.c: the theorems on the two programs together, on a whole transfer of
-- one packet.
use lingi1341_projet.Receiver.Handler.{
  okay as receiver_okay, running as receiver_running, Selected as ReceiverSelected,
  process_receiver, readable,
}
use lingi1341_projet.Receiver.Session.{process_receiver-once}
use lingi1341_projet.Receiver.State.{start as receiver_start}
use mathlib.Core.List.{mem-cons_self}
use lingi1341_projet.Prelude.{
  ℕ, zero, suc, ◌+◌, ◌≤◌, ◌≡◌, refl, sym, inl, inr, [], ◌∷◌, ◌++◌, arith, length, replicate, All,
  Yields, returns,
}
use lingi1341_projet.Bytes.{u32_bytes, zeros-IsByte}
use lingi1341_projet.Packet.Fields.{ptype_ack, free_payload, pkt_del}
use lingi1341_projet.Sender.Loop.{round, Selected, socket, input, running, ended}
use lingi1341_projet.Sender.Supply.{IsSent, IsData}
use lingi1341_projet.Receiver.Acks.{ack, IsAck}
use lingi1341_projet.Network.State.{
  start as net_start, Net, Allows, Expects, Reach, Works, here, next, send_round, receive_round,
  tick, sends as sends_net, receives,
}
use lingi1341_projet.Tests.Packets.{checksum, checksum-IsU32, hello}
use lingi1341_projet.Tests.Network.{
  greeting, reading, greeting_pkt, sender_waiting, greeting-read, arriving, answer, receiver_served,
  greeting-received, acking, sender_idle, greeting-acked, sender_done, greeting-ended,
  reading-IsWorking,
}
use lingi1341_projet.Packet.RoundTrip.{sent, sent_bytes, IsPacket}
use lingi1341_projet.Network.Results.{Reach-up_to, Reach-complete, Reach-continues}
use lingi1341_projet.Receiver.Delivery.{up_to}
use lingi1341_projet.Sender.Input.{IsWorking}
use lingi1341_projet.Network.Bounds.{Reach-bounds}
use lingi1341_projet.Packet.Format.{max_read_size}
use lingi1341_projet.Network.Invariant.{Ends}
use lingi1341_projet.Network.Completion.{Reach-completes}
use lingi1341_projet.Network.Runs.{Leads}
use lingi1341_projet.Network.Calls.{IsInput}

-- The states after the four rounds.
abbrev sent_net : Net
sent_net = record net_start { clock = 100; sender = sender_waiting; packets = 1 }

abbrev received_net : Net
received_net = record sent_net { receiver = receiver_served; delivered = 1 }

abbrev acked_net : Net
acked_net = record received_net { sender = sender_idle }

abbrev pub ended_net : Net
ended_net = record acked_net { sender = sender_done; loop = ended; packets = 2 }

greeting_pkt-IsData : IsData greeting 0 greeting_pkt
unfolding pkt_del free_payload
greeting_pkt-IsData = record {
  seqnum = refl;
  packet = record {
    window = omega arith;
    tr = omega arith;
    low_kind = omega arith;
    high_kind = omega arith;
    cut = inl refl;
    seqnum = omega arith;
    timestamp = omega arith;
    size = omega arith;
    carries = (refl, refl);
    contents = omega arith;
  };
  kind = refl;
  tr = refl;
  crc2 = refl;
  deletable = refl;
}

arriving-Works : Works checksum greeting sent_net arriving
arriving-Works = record {
  sound = record { acks = λ k. refl; writes = λ k bytes. inr refl };
  nodes = refl;
  payloads = refl;
  arrives = inr (
    0,
    greeting_pkt,
    replicate 510 0,
    18,
    greeting_pkt-IsData,
    mem-cons_self,
    omega arith,
    omega arith,
    refl,
    zeros-IsByte 510,
    unfold u32_bytes in omega arith,
  );
}

answer-IsAck : IsAck checksum 1 answer
answer-IsAck = record {
  window = 2;
  count = 1;
  kind = ptype_ack;
  timestamp = 100;
  wide = omega arith;
  narrow = omega arith;
  low = omega arith;
  high = omega arith;
  clock = omega arith;
  written = λ e. omega arith;
  contents = refl;
}

answer-IsPacket : IsPacket (ack 2 1 ptype_ack 100) []
answer-IsPacket = record {
  window = omega arith;
  tr = omega arith;
  low_kind = omega arith;
  high_kind = omega arith;
  cut = inl refl;
  seqnum = omega arith;
  timestamp = omega arith;
  size = omega arith;
  carries = refl;
  contents = tt;
}

sent-Reach : Reach checksum greeting sent_net
sent-Reach = next (next here (tick 100)) (
    send_round (input (reading hello)) running sender_waiting refl (refl, reading-IsWorking 0)
      greeting-read)

greeting-taken :
    process_receiver checksum (readable arriving ∷ []) receiver_start
    ≡ returns (receiver_running, receiver_served)
greeting-taken =
    process_receiver-once checksum arriving receiver_okay receiver_start receiver_served
      greeting-received

received-Reach : Reach checksum greeting received_net
received-Reach = next sent-Reach (
    receive_round (readable arriving) receiver_running receiver_served refl arriving-Works
      greeting-taken)

pub acking-IsWorking : IsWorking greeting 1 acking
unfolding u32_bytes
acking-IsWorking = record {
  packets = refl;
  payloads = refl;
  nodes = refl;
  input = (reading-IsWorking 1).input;
  buffers = λ bytes readed e.
      let same : answer ++ replicate 516 0 ≡ bytes = cc in
      (
        sent checksum checksum-IsU32 answer-IsPacket,
        replicate 516 0,
        sym same,
        sent_bytes checksum checksum-IsU32 answer-IsPacket,
        zeros-IsByte 516,
        omega arith,
      );
}

acked-Reach : Reach checksum greeting acked_net
acked-Reach = next received-Reach (
    send_round (socket acking) running sender_idle refl
      (
        refl,
        acking-IsWorking,
        inr (
          answer,
          replicate 516 0,
          12,
          answer-IsAck,
          mem-cons_self,
          omega arith,
          refl,
          zeros-IsByte 516,
          unfold u32_bytes in omega arith,
        ),
      )
      greeting-acked)

pub ended-Reach : Reach checksum greeting ended_net
ended-Reach = next acked-Reach (
    send_round (input (reading [])) ended sender_done refl (refl, reading-IsWorking 1)
      greeting-ended)

Reach-up_to_example :
    (receiver_served.output ≡ up_to greeting 1)
    × (1 ≤ 1)
    × (1 ≤ 1 + 32)
    × All (IsSent greeting checksum 1) sender_waiting.sent
Reach-up_to_example = Reach-up_to checksum greeting checksum-IsU32 received_net received-Reach

Reach-complete_example :
    (last : ℕ) × Ends greeting last × (receiver_served.output ≡ up_to greeting last)
Reach-complete_example = Reach-complete checksum greeting checksum-IsU32 ended_net ended-Reach refl

Reach-continues_example :
    ((event : Selected)
      → acked_net.loop ≡ running
      → Allows checksum greeting acked_net event
      → Yields
          (λ result. Reach checksum greeting (sends_net acked_net result.0 result.1))
          (round checksum event sender_idle))
    × ((event : ReceiverSelected)
        → acked_net.receiver_loop ≡ receiver_running
        → Expects checksum greeting acked_net event
        → Yields
            (λ result. Reach checksum greeting (receives acked_net result.0 result.1))
            (process_receiver checksum (event ∷ []) receiver_served))
Reach-continues_example = Reach-continues checksum greeting checksum-IsU32 acked_net acked-Reach

Reach-bounds_example :
    (1 ≤ 2)
    × (2 ≤ 31)
    × (0 ≤ 32)
    × All (λ bytes. length bytes ≡ 12) receiver_served.sent
    × (acked_net.loop ≡ running
        → (2 ≤ 31) × (0 ≤ 31) × All (λ bytes. length bytes ≤ max_read_size) sender_idle.sent)
Reach-bounds_example = Reach-bounds checksum greeting checksum-IsU32 acked_net acked-Reach

greeting-IsInput : IsInput greeting
greeting-IsInput zero = (omega arith, omega arith)
greeting-IsInput (suc i) = (omega arith, tt)

Reach-completes_example :
    (net' : Net) × Leads checksum greeting received_net net'
    × (net'.loop ≡ ended)
    × (net'.receiver_loop ≡ receiver_running)
    × ((first : ℕ) × Ends greeting first × (net'.receiver.output ≡ up_to greeting first))
Reach-completes_example =
    Reach-completes checksum greeting checksum-IsU32 1 received_net greeting-IsInput refl
      received-Reach refl refl
