-- ===== src/Network/Calls.antt =====
-- src/sender.c and src/receiver.c: system calls that succeed, and what they give to the two programs.
use mathlib.Core.Path.{subst}
use lingi1341_projet.Sender.State.{System as SenderSystem}
use lingi1341_projet.Receiver.State.{System as ReceiverSystem}
use lingi1341_projet.Prelude.{
  ℕ, ◌%◌, ◌≤◌, ◌≡◌, refl, sym, ap, ◌∙◌, inr, true, Option, none, some, List, [], ◌++◌, arith,
  length, replicate, All, length-append, length-replicate,
}
use lingi1341_projet.Bytes.{IsByte, IsU32, u32_bytes, zeros-IsByte}
use lingi1341_projet.Packet.Format.{max_read_size}
use lingi1341_projet.Packet.RoundTrip.{sent, sent_bytes}
use lingi1341_projet.Receiver.Acks.{IsAck}
use lingi1341_projet.Receiver.Delivery.{IsSound}
use lingi1341_projet.Sender.Input.{IsWorking}
use lingi1341_projet.Sender.Recent.{ack-IsPacket}

-- All calls succeed; recv() and read() give what is named.
abbrev pub sender_calls :
    (time : ℕ) (recv : Option (List ℕ × ℕ)) (read : Option (List ℕ)) → SenderSystem
sender_calls time recv read = record {
  time = time;
  stamp = λ pkt. time;
  send = λ bytes. true;
  recv = recv;
  read = read;
  pkt_memory = true;
  payload_memory = true;
  node_memory = true;
}

abbrev pub receiver_calls : (recv : Option (List ℕ × ℕ)) → ReceiverSystem
receiver_calls recv = record {
  recv = recv;
  pkt_memory = true;
  payload_memory = true;
  node_memory = true;
  recv_error = [];
  ack_memory = λ k. true;
  write = λ k bytes. some (length bytes);
}

pub receiver_calls-IsSound : (recv : Option (List ℕ × ℕ)) → IsSound (receiver_calls recv)
receiver_calls-IsSound recv = record { acks = λ k. refl; writes = λ k bytes. inr refl }

-- What the buffer of recv() holds behind the datagram.
abbrev pub blank : List ℕ
blank = replicate 528 0

pub blank-IsByte : All IsByte blank
blank-IsByte = zeros-IsByte 528

pub blank_room : (bytes : List ℕ) → max_read_size ≤ length (bytes ++ blank)
blank_room bytes = omega (arith, length-append bytes blank, length-replicate {A = ℕ} 528 0)

-- The payloads of the stream are what read() may give.
abbrev pub IsInput : (ℕ → List ℕ) → Type 0
IsInput stream = (i : ℕ) → (length (stream i) ≤ 512) × All IsByte (stream i)

module _ (stream : ℕ → List ℕ) (i : ℕ) where
  pub reads-IsWorking :
      (time : ℕ) → IsInput stream → IsWorking stream i (sender_calls time none (some (stream i)))
  reads-IsWorking time is_input = record {
    packets = refl;
    payloads = refl;
    nodes = refl;
    input = λ bytes e.
        let same : stream i ≡ bytes = cc in
        (
          sym same,
          subst (λ l. length l ≤ 512) same (is_input i).0,
          subst (All IsByte) same (is_input i).1,
        );
    buffers = λ bytes readed e. cc;
  }

  -- An acknowledgement of the receiver arrives.
  pub acks-IsWorking :
      (time : ℕ) (crc32 : List ℕ → ℕ) (small : (bytes : List ℕ) → IsU32 (crc32 bytes)) (n : ℕ)
      (bytes : List ℕ)
      → IsAck crc32 n bytes
      → IsWorking stream i (sender_calls time (some (bytes ++ blank, 528)) none)
  unfolding u32_bytes
  acks-IsWorking time crc32 small n bytes a = record {
    packets = refl;
    payloads = refl;
    nodes = refl;
    input = λ bytes e. cc;
    buffers = λ buffer readed e.
        let same : bytes ++ blank ≡ buffer = cc in
        let is_packet =
          ack-IsPacket a.window (a.count % 256) a.kind a.timestamp a.narrow (omega arith) a.low
            a.high a.clock in
        (
          sent crc32 small is_packet,
          blank,
          sym same ∙ ap (λ l. l ++ blank) a.contents,
          sent_bytes crc32 small is_packet,
          blank-IsByte,
          omega (arith, length-replicate {A = ℕ} 528 0),
        );
  }
