-- ===== src/Tests/Sends.antt =====
-- src/sender.c: the theorems on whole calls at concrete inputs.
use mathlib.Core.Path.{subst}
use lingi1341_projet.Prelude.{
  ℕ, ◌%◌, ◌≤◌, ◌≡◌, refl, sym, inl, true, some, List, [], ◌∷◌, ◌++◌, arith, length, replicate, All,
  Yields, returns,
}
use lingi1341_projet.Bytes.{IsByte, zeros-IsByte}
use lingi1341_projet.Packet.Fields.{free_payload, pkt_del, Pkt}
use lingi1341_projet.Packet.Wire.{wire}
use lingi1341_projet.Packet.Format.{header_list, Header}
use lingi1341_projet.Sender.State.{start, Sender, System}
use lingi1341_projet.Sender.Acks.{packet_checked, okay}
use lingi1341_projet.Sender.Timer.{check_timeout}
use lingi1341_projet.Sender.Loop.{round, socket}
use lingi1341_projet.Sender.Supply.{Stock, stamped, IsData}
use lingi1341_projet.Sender.Cumulative.{packet_checked-drop}
use lingi1341_projet.Sender.Input.{IsWorking}
use lingi1341_projet.Sender.Rounds.{round-Runs}
use lingi1341_projet.Tests.Packets.{checksum, checksum-IsU32, hello, hello_pkt}
use lingi1341_projet.Sender.Resend.{Resends, check_timeout-Resends}
use lingi1341_projet.Sender.Invariant.{Supplies}
use lingi1341_projet.Sender.Events.{Runs}

-- Every packet of the stream carries the same two bytes.
abbrev hellos : ℕ → List ℕ
hellos i = hello

-- An acknowledgement of the packets before number 1, with a window of 3.
abbrev ack_header : Header
ack_header = record {
  b0 = 131;
  b1 = 1;
  b2 = 0;
  b3 = 0;
  b4 = 0;
  b5 = 0;
  b6 = 0;
  b7 = 0;
  b8 = 0;
  b9 = 0;
  b10 = 0;
  b11 = 132;
}

abbrev ack_buffer : List ℕ
ack_buffer = header_list ack_header ++ replicate 516 0

abbrev busy : System
busy = record {
  time = 100;
  stamp = λ pkt. 100;
  send = λ bytes. true;
  recv = some (ack_buffer, 12);
  read = some hello;
  pkt_memory = true;
  payload_memory = true;
  node_memory = true;
}

busy-IsWorking : (i : ℕ) → IsWorking hellos i busy
busy-IsWorking i = record {
  packets = refl;
  payloads = refl;
  nodes = refl;
  input = λ bytes e.
      let same : hello ≡ bytes = cc in
      (
        sym same,
        subst (λ l. length l ≤ 512) same (omega arith),
        subst (All IsByte) same (omega arith),
      );
  buffers = λ bytes readed e.
      let same : ack_buffer ≡ bytes = cc in
      (ack_header, replicate 516 0, sym same, omega arith, zeros-IsByte 516, omega arith);
}

start-Supplies : Supplies hellos checksum 0 0 start
start-Supplies = record {
  stocked = tt;
  few = omega arith;
  window = omega arith;
  wide = omega arith;
  ready = (refl, inl refl);
  sent = tt;
}

hello-IsData : (i : ℕ) → IsData hellos i (hello_pkt (i % 256))
unfolding pkt_del free_payload
hello-IsData i = record {
  seqnum = refl;
  packet = record {
    window = omega arith;
    tr = omega arith;
    low_kind = omega arith;
    high_kind = omega arith;
    cut = inl refl;
    seqnum = omega arith;
    timestamp = omega arith;
    size = omega arith;
    carries = (refl, refl);
    contents = omega arith;
  };
  kind = refl;
  tr = refl;
  crc2 = refl;
  deletable = refl;
}

-- Three packets, across the numbers 255 and 0.
abbrev three : List Pkt
three = hello_pkt 254 ∷ hello_pkt 255 ∷ hello_pkt 0 ∷ []

three-Stock : Stock hellos 254 three
three-Stock = (
  hello-IsData 254,
  omega arith,
  (hello-IsData 255, omega arith, (hello-IsData 256, omega arith, tt)),
)

abbrev waiting : Sender
waiting = record start { seqnum = 1; window_size = 4; list = three }

waiting-Supplies : Supplies hellos checksum 0 254 waiting
waiting-Supplies = record {
  stocked = three-Stock;
  few = omega arith;
  window = omega arith;
  wide = omega arith;
  ready = (refl, inl refl);
  sent = tt;
}

packet_checked-drop_example : packet_checked 0 0 three ≡ returns (okay, hello_pkt 0 ∷ [])
packet_checked-drop_example =
    packet_checked-drop hellos 0 0 (omega arith) 254 three three-Stock (omega arith) (omega arith)

round-Runs_example :
    Yields (Runs hellos checksum 0 254 257 257) (round checksum (socket busy) waiting)
round-Runs_example =
    round-Runs hellos checksum checksum-IsU32 (socket busy) 254 waiting (busy-IsWorking 257)
      waiting-Supplies

check_timeout-Resends_example :
    Yields
      (Resends hellos checksum busy [] (wire checksum (stamped busy (hello_pkt 254)) hello))
      (check_timeout checksum busy waiting)
check_timeout-Resends_example =
    check_timeout-Resends hellos checksum busy 254 (hello_pkt 254)
      (hello_pkt 255 ∷ hello_pkt 0 ∷ []) waiting three-Stock (omega arith) (omega arith) refl
