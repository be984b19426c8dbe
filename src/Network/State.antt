-- ===== src/Network/State.antt =====
-- src/sender.c and src/receiver.c: the rounds of process_sender and of process_receiver, in any order,
-- and what the network gives to recv() in each.
use mathlib.Core.List.{Mem}
use lingi1341_projet.Sender.State.{Sender, start as sender_start}
use lingi1341_projet.Receiver.State.{Receiver, System as ReceiverSystem, start as receiver_start}
use lingi1341_projet.Prelude.{
  ℕ, suc, ◌+◌, ◌≤◌, ◌<◌, ◌≡◌, ◌⊎◌, true, Option, some, List, [], ◌∷◌, ◌++◌, length, All, returns,
}
use lingi1341_projet.Bytes.{IsByte}
use lingi1341_projet.Packet.Format.{max_read_size}
use lingi1341_projet.Packet.Wire.{wire}
use lingi1341_projet.Packet.Damage.{IsDamaged}
use lingi1341_projet.Packet.Fields.{Pkt}
use lingi1341_projet.Queue.Order.{offset}
use lingi1341_projet.Sender.Loop.{
  round, Selected, error, socket, input, neither, Loop, running, ended, aborted,
}
use lingi1341_projet.Sender.Supply.{IsData}
use lingi1341_projet.Sender.Input.{IsWorking}
use lingi1341_projet.Receiver.Acks.{IsAck}
use lingi1341_projet.Receiver.Delivery.{IsSound}
use lingi1341_projet.Receiver.Handler.{
  process_receiver, readable, Selected as ReceiverSelected, Loop as ReceiverLoop,
  running as receiver_running,
}

-- What time() gives to check_timeout, the two states, and how process_sender and process_receiver stand. `packets` and `delivered` count what `seqnum` and
-- `waited_seqnum` count modulo 256, the packets made from the input and the payloads written.
pub record Net : Type 0 where
  pub clock : ℕ
  pub sender : Sender
  pub loop : Loop
  pub receiver : Receiver
  pub receiver_loop : ReceiverLoop
  pub packets : ℕ
  pub delivered : ℕ

abbrev pub start : Net
start = record {
  clock = 0;
  sender = sender_start;
  loop = running;
  receiver = receiver_start;
  receiver_loop = receiver_running;
  packets = 0;
  delivered = 0;
}

-- A round of process_sender that ends with `st`: when the loop has ended, the empty packet is sent.
abbrev pub sends : Net → Loop → Sender → Net
sends net running st = record net {
  sender = st;
  loop = running;
  packets = net.packets + offset net.sender.seqnum st.seqnum;
}
sends net ended st = record net { sender = st; loop = ended; packets = suc net.packets }
sends net aborted st = record net { sender = st; loop = aborted }

-- A round of process_receiver that ends with `st`.
abbrev pub receives : Net → ReceiverLoop → Receiver → Net
receives net loop st = record net {
  receiver = st;
  receiver_loop = loop;
  delivered = net.delivered + offset net.receiver.waited_seqnum st.waited_seqnum;
}

module _ (crc32 : List ℕ → ℕ) (stream : ℕ → List ℕ) where
  -- recv() gives the sender a damaged datagram, or one that the receiver has sent, an acknowledgement of
  -- packets at most 223 behind the first one of the sender's list.
  abbrev pub AckArrives : Net → Option (List ℕ × ℕ) → Type 0
  AckArrives net r =
      IsDamaged crc32 r
      ⊎ ((bytes : List ℕ) × (junk : List ℕ) × (readed : ℕ) × (a : IsAck crc32 net.delivered bytes)
          × Mem bytes net.receiver.sent
          × (net.packets ≤ a.count + length net.sender.list + 223)
          × (r ≡ some (bytes ++ junk, readed))
          × All IsByte junk
          × (max_read_size ≤ length (bytes ++ junk)))

  -- recv() gives the receiver a damaged datagram, or one that the sender has sent, of a packet at most
  -- 223 behind the next one that is to be written.
  abbrev pub DataArrives : Net → Option (List ℕ × ℕ) → Type 0
  DataArrives net r =
      IsDamaged crc32 r
      ⊎ ((i : ℕ) × (pkt : Pkt) × (junk : List ℕ) × (readed : ℕ) × IsData stream i pkt
          × Mem (wire crc32 pkt (stream i)) net.sender.sent
          × (i < net.packets)
          × (net.delivered ≤ i + 223)
          × (r ≡ some (wire crc32 pkt (stream i) ++ junk, readed))
          × All IsByte junk
          × (max_read_size ≤ length (wire crc32 pkt (stream i) ++ junk)))

  -- check_timeout reads the clock, malloc has memory, read() gives the next payload of the stream, and recv() an arriving datagram.
  abbrev pub Allows : Net → Selected → Type 0
  Allows net error = Unit {0}
  Allows net (socket sys) =
      (sys.time ≡ net.clock) × IsWorking stream net.packets sys × AckArrives net sys.recv
  Allows net (input sys) = (sys.time ≡ net.clock) × IsWorking stream net.packets sys
  Allows net (neither sys) = sys.time ≡ net.clock

  pub record Works (net : Net) (sys : ReceiverSystem) : Type 0 where
    pub sound : IsSound sys
    pub nodes : sys.node_memory ≡ true
    pub payloads : sys.payload_memory ≡ true
    pub arrives : DataArrives net sys.recv

  -- In a round in which select() times out or fails nothing is received.
  abbrev pub Expects : Net → ReceiverSelected → Type 0
  Expects net (readable sys) = Works net sys
  Expects net _ = Unit {0}

  pub data Step (net : Net) : Net → Type 0 where
    send_round :
        (event : Selected) (loop : Loop) (st : Sender)
        → net.loop ≡ running
        → Allows net event
        → round crc32 event net.sender ≡ returns (loop, st)
        → Step net (sends net loop st)
    receive_round :
        (event : ReceiverSelected) (loop : ReceiverLoop) (st : Receiver)
        → net.receiver_loop ≡ receiver_running
        → Expects net event
        → process_receiver crc32 (event ∷ []) net.receiver ≡ returns (loop, st)
        → Step net (receives net loop st)
    tick : (time : ℕ) → Step net (record net { clock = time })

  pub data Reach : Net → Type 0 where
    here : Reach start
    next : {net net' : Net} → Reach net → Step net net' → Reach net'
