-- ===== src/Tests/Transfers.antt =====
-- src/receiver.c: the theorems on whole calls at concrete inputs.
use lingi1341_projet.Prelude.{
  ℕ, ◌≡◌, refl, inl, inr, true, none, some, List, [], ◌∷◌, ◌++◌, arith, length, replicate, Yields,
  returns,
}
use lingi1341_projet.Packet.Fields.{free_payload, pkt_del, Pkt}
use lingi1341_projet.Packet.Wire.{wire}
use lingi1341_projet.Receiver.State.{start, Receiver, System}
use lingi1341_projet.Receiver.Handler.{read_to_list_r, process_receiver, okay, timeout, readable}
use lingi1341_projet.Receiver.Delivery.{up_to, Delivers, IsSound}
use lingi1341_projet.Receiver.Stream.{Keeps}
use lingi1341_projet.Receiver.Reception.{IsGenuine, read_to_list_r-Delivers}
use lingi1341_projet.Receiver.Session.{Ends, process_receiver-Delivers}
use lingi1341_projet.Tests.Packets.{
  checksum, checksum-IsU32, hello, hello_pkt, hello_header, hello_rest, hello_rest-IsByte,
}
use lingi1341_projet.Packet.Format.{header_list}
use lingi1341_projet.Sender.Supply.{IsData}
use lingi1341_projet.Transfer.{read_to_list_r-IsSent}
use lingi1341_projet.Bytes.{u32_bytes, zeros-IsByte}
use lingi1341_projet.Sockets.{found}
use lingi1341_projet.Programs.Options.{Command}
use lingi1341_projet.Receiver.Advance.{read_to_list_r-advances}
use lingi1341_projet.Receiver.Early.{early, read_to_list_r-waits}
use lingi1341_projet.Queue.Order.{insert}
use lingi1341_projet.Packet.RoundTrip.{received}
use lingi1341_projet.Receiver.Repetition.{answered, read_to_list_r-answers}

-- Every packet of the stream carries the same two bytes.
abbrev hellos : ℕ → List ℕ
hellos i = hello

abbrev hello_system : System
hello_system = record {
  recv = some (header_list hello_header ++ hello_rest, 18);
  pkt_memory = true;
  payload_memory = true;
  node_memory = true;
  recv_error = [];
  ack_memory = λ k. true;
  write = λ k bytes. some (length bytes);
}

hello_system-IsSound : IsSound hello_system
hello_system-IsSound = record { acks = λ k. refl; writes = λ k bytes. inr refl }

start-Delivers : Delivers checksum 1 hellos 0 start
unfolding up_to
start-Delivers = record {
  waited = refl;
  low = omega arith;
  high = omega arith;
  order = tt;
  stocked = tt;
  output = refl;
  bound = omega arith;
  clock = omega arith;
  acks = tt;
}

hello-IsGenuine :
    (n : ℕ) → Delivers checksum 1 hellos n start → IsGenuine checksum 1 hellos n hello_system.recv
hello-IsGenuine n d = (
  hello_header,
  hello_rest,
  refl,
  omega arith,
  hello_rest-IsByte,
  omega arith,
  λ accepted is_data whole near. (ground (arith, d.waited, d.bound), refl),
)

read_to_list_r-Delivers_example :
    Yields (Keeps checksum 1 hellos 0) (read_to_list_r checksum hello_system start)
read_to_list_r-Delivers_example =
    read_to_list_r-Delivers checksum hello_system hello_system-IsSound 1 hellos checksum-IsU32 0
      start refl refl (hello-IsGenuine 0 start-Delivers) start-Delivers

process_receiver-Delivers_example :
    Yields
      (Ends checksum 1 hellos 0)
      (process_receiver checksum (readable hello_system ∷ timeout ∷ []) start)
process_receiver-Delivers_example =
    process_receiver-Delivers checksum 1 hellos checksum-IsU32
      (readable hello_system ∷ timeout ∷ []) 0 start
      (hello_system-IsSound, refl, refl, hello-IsGenuine, (λ status next returned. tt))
      start-Delivers

hello_pkt-IsData : IsData hellos 257 (hello_pkt 1)
unfolding pkt_del free_payload
hello_pkt-IsData = record {
  seqnum = refl;
  packet = record {
    window = omega arith;
    tr = omega arith;
    low_kind = omega arith;
    high_kind = omega arith;
    cut = inl refl;
    seqnum = omega arith;
    timestamp = omega arith;
    size = omega arith;
    carries = (refl, refl);
    contents = omega arith;
  };
  kind = refl;
  tr = refl;
  crc2 = refl;
  deletable = refl;
}

-- The receiver waits for packet 257, in the second turn of the numbers, and has written nothing that
-- the test looks at but the payloads before it.
abbrev second_turn : Receiver
second_turn = record start { waited_seqnum = 1; window_size = 31; output = up_to hellos 257 }

second_turn-Delivers : Delivers checksum 258 hellos 257 second_turn
second_turn-Delivers = record {
  waited = refl;
  low = omega arith;
  high = omega arith;
  order = tt;
  stocked = tt;
  output = refl;
  bound = omega arith;
  clock = omega arith;
  acks = tt;
}

abbrev second_system : System
second_system = record hello_system {
  recv = some (wire checksum (hello_pkt 1) hello ++ replicate 510 0, 18);
}

read_to_list_r-IsSent_example :
    Yields (Keeps checksum 258 hellos 257) (read_to_list_r checksum second_system second_turn)
read_to_list_r-IsSent_example =
    read_to_list_r-IsSent checksum checksum-IsU32 258 hellos second_system
      (record { acks = λ k. refl; writes = λ k bytes. inr refl }) 257 257 (hello_pkt 1)
      (replicate 510 0) 18 second_turn refl refl refl hello_pkt-IsData (omega arith) (omega arith)
      (omega arith) (zeros-IsByte 510) (unfold u32_bytes in omega arith) second_turn-Delivers

-- The port 4242 and no options.
abbrev plain_command : Command
plain_command = record {
  argc = 3;
  options = [];
  port = some 4242;
  list_memory = true;
  open_file = λ name. none;
  lookup = found (replicate 28 0);
  sockets = record { socket = some 3; bind = true; connect = true };
}

read_to_list_r-advances_example :
    Yields (Keeps checksum 258 hellos 258) (read_to_list_r checksum second_system second_turn)
read_to_list_r-advances_example =
    read_to_list_r-advances checksum checksum-IsU32 second_system
      (record { acks = λ k. refl; writes = λ k bytes. inr refl }) 258 hellos 257 (hello_pkt 1)
      (replicate 510 0) 18 second_turn refl refl refl refl refl hello_pkt-IsData (omega arith)
      (zeros-IsByte 510) (unfold u32_bytes in omega arith) second_turn-Delivers

read_to_list_r-answers_example :
    read_to_list_r checksum second_system (record second_turn { waited_seqnum = 2 })
    ≡ returns
        (okay, answered checksum (hello_pkt 1).timestamp (record second_turn { waited_seqnum = 2 }))
read_to_list_r-answers_example =
    read_to_list_r-answers checksum second_system hellos 258 257 (hello_pkt 1)
      (record second_turn { waited_seqnum = 2 }) hello_pkt-IsData refl (omega arith) checksum-IsU32
      (replicate 510 0) 18 (omega arith) (omega arith) (omega arith) refl refl refl refl
      (zeros-IsByte 510) (unfold u32_bytes in omega arith)

-- The receiver waits for packet 255; packet 257 has the number 1.
abbrev before_wrap : Receiver
before_wrap = record start { waited_seqnum = 255; window_size = 31 }

read_to_list_r-waits_example :
    (x : Pkt) × (ys : List Pkt) × (insert (received checksum (hello_pkt 1) hello) [] ≡ x ∷ ys)
    × (read_to_list_r checksum second_system before_wrap
        ≡ returns (
          okay,
          early checksum second_system
              (hello_pkt 1).timestamp
              x
              (record before_wrap { list = x ∷ ys }),
        ))
read_to_list_r-waits_example =
    read_to_list_r-waits checksum second_system hellos 255 257 (hello_pkt 1) before_wrap
      hello_pkt-IsData refl checksum-IsU32 (replicate 510 0) 18 (omega arith) (omega arith)
      (omega arith) tt refl refl refl refl refl (zeros-IsByte 510) (unfold u32_bytes in omega arith)
