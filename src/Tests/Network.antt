-- ===== src/Tests/Network.antt =====
-- src/sender.c and src/receiver.c: a whole transfer of one packet.
use mathlib.Core.Path.{subst}
use lingi1341_projet.Receiver.State.{
  Receiver, System as ReceiverSystem, check_in_window as receiver_check_in_window,
  start as receiver_start, window_add, create_ack, send_ack,
}
use lingi1341_projet.Sender.State.{System, start as sender_start}
use lingi1341_projet.Prelude.{
  ℕ, zero, suc, ◌≤◌, ◌≡◌, refl, sym, true, none, some, List, [], ◌∷◌, ◌++◌, arith, length,
  replicate, All, returns,
}
use lingi1341_projet.Packet.Fields.{
  ptype_ack, pkt_new, free_payload, pkt_del, pkt_get_payload, pkt_set_type, pkt_set_tr,
  pkt_set_window, pkt_set_seqnum, pkt_set_timestamp, drop_payload, copy_payload, pkt_set_payload,
  first_bytes, header_bytes, Pkt,
}
use lingi1341_projet.Packet.Wire.{wire_header, wire}
use lingi1341_projet.Sender.Loop.{
  after_events, on_socket, on_input, round, socket, input, running, ended,
}
use lingi1341_projet.Sender.Supply.{stamped}
use lingi1341_projet.Sender.Input.{IsWorking}
use lingi1341_projet.Tests.Packets.{checksum, hello}
use lingi1341_projet.Sender.State.{send_packet, add_packet, read_to_list, deleted, Sender, System}
use lingi1341_projet.Receiver.Handler.{
  read_to_list_r, dispatch, accept, after_write, okay as receiver_okay,
}
use lingi1341_projet.Sender.Timer.{
  check_in_window, is_due, delete_fin, timeout_loop, check_timeout, final_send,
}
use lingi1341_projet.Packet.Encode.{
  read_payload, encode_payload, encode_crc1, encode_header, pkt_encode,
}
use lingi1341_projet.Bytes.{
  IsByte, u16_bytes, u32_bytes, bytes_u32, swap16, swap32, read_at, write_at,
}
use lingi1341_projet.Packet.Decode.{
  store_front, decode_payload, decode_crc1, decode_header, decode_length, decode_type, pkt_decode,
}
use lingi1341_projet.Receiver.Sequence.{
  written_bytes, is_eof, acknowledge, write_loop, write_in_sequence,
}
use lingi1341_projet.Receiver.Acks.{ack}
use lingi1341_projet.Queue.Order.{comes_before, insert}
use lingi1341_projet.Sender.Acks.{is_covered, packet_checked, take_ack, handle_ack, check_ack}
use lingi1341_projet.Sender.Filling.{filled}

-- The input has two bytes.
abbrev pub greeting : ℕ → List ℕ
greeting zero = hello
greeting (suc n) = []

abbrev pub reading : List ℕ → System
reading bytes = record {
  time = 100;
  stamp = λ pkt. 100;
  send = λ datagram. true;
  recv = none;
  read = some bytes;
  pkt_memory = true;
  payload_memory = true;
  node_memory = true;
}

abbrev pub greeting_pkt : Pkt
greeting_pkt = stamped (reading hello) (filled 0 hello)

-- The state of the sender after it has read and sent its two bytes.
abbrev pub sender_waiting : Sender
sender_waiting = record sender_start {
  seqnum = 1;
  list = greeting_pkt ∷ [];
  sent = wire checksum greeting_pkt hello ∷ [];
}

pub greeting-read :
    round checksum (input (reading hello)) sender_start ≡ returns (running, sender_waiting)
unfolding round on_input read_to_list pkt_new pkt_set_type pkt_set_tr pkt_set_window pkt_set_seqnum
    pkt_set_payload drop_payload copy_payload add_packet send_packet pkt_set_timestamp pkt_encode
    after_events check_timeout timeout_loop check_in_window is_due encode_payload encode_crc1
    encode_header header_bytes first_bytes u16_bytes u32_bytes swap16 swap32 read_at write_at
    read_payload pkt_get_payload
greeting-read = refl

abbrev pub arriving : ReceiverSystem
arriving = record {
  recv = some (wire checksum greeting_pkt hello ++ replicate 510 0, 18);
  pkt_memory = true;
  payload_memory = true;
  node_memory = true;
  recv_error = [];
  ack_memory = λ k. true;
  write = λ k bytes. some (length bytes);
}

-- The acknowledgement of packet 0.
abbrev pub answer : List ℕ
answer = wire_header checksum (ack 2 1 ptype_ack 100)

-- The state of the receiver after it has written the two bytes.
abbrev pub receiver_served : Receiver
receiver_served = record receiver_start {
  waited_seqnum = 1;
  window_size = 2;
  last_timestamp = 100;
  output = hello;
  sent = answer ∷ [];
}

pub greeting-received :
    read_to_list_r checksum arriving receiver_start ≡ returns (receiver_okay, receiver_served)
unfolding read_to_list_r pkt_new pkt_decode store_front decode_payload decode_crc1 decode_header
    decode_length decode_type dispatch accept write_in_sequence write_loop written_bytes is_eof
    acknowledge after_write window_add create_ack send_ack pkt_del free_payload pkt_set_type
    pkt_set_tr pkt_set_window pkt_set_seqnum pkt_set_payload drop_payload copy_payload
    pkt_set_timestamp pkt_encode encode_payload encode_crc1 encode_header header_bytes first_bytes
    u16_bytes u32_bytes bytes_u32 swap16 swap32 read_at write_at read_payload pkt_get_payload
    receiver_check_in_window insert comes_before
greeting-received = refl

abbrev pub acking : System
acking = record (reading []) { recv = some (answer ++ replicate 516 0, 12) }

-- The state of the sender after its packet was acknowledged.
abbrev pub sender_idle : Sender
sender_idle = record sender_waiting { window_size = 2; list = [] }

pub greeting-acked : round checksum (socket acking) sender_waiting ≡ returns (running, sender_idle)
unfolding round on_socket check_ack handle_ack take_ack packet_checked is_covered pkt_new pkt_decode
    store_front decode_payload decode_crc1 decode_header decode_length decode_type pkt_del
    free_payload after_events check_timeout encode_payload u16_bytes u32_bytes bytes_u32 swap16
    swap32 read_at write_at first_bytes pkt_set_tr header_bytes
greeting-acked = refl

abbrev pub last_pkt : Pkt
last_pkt = stamped (reading []) (filled 1 [])

-- The state of the sender after it has read the end of its input and sent the empty packet.
abbrev pub sender_done : Sender
sender_done = record sender_idle {
  seqnum_eof = 1;
  pkt_fin = deleted;
  sent = wire checksum greeting_pkt hello ∷ wire checksum last_pkt [] ∷ [];
}

pub greeting-ended : round checksum (input (reading [])) sender_idle ≡ returns (ended, sender_done)
unfolding round on_input read_to_list pkt_new pkt_set_type pkt_set_tr pkt_set_window pkt_set_seqnum
    pkt_set_payload drop_payload copy_payload add_packet send_packet pkt_set_timestamp pkt_encode
    after_events final_send delete_fin pkt_del free_payload check_timeout encode_payload encode_crc1
    encode_header header_bytes first_bytes u16_bytes u32_bytes swap16 swap32 read_at write_at
    read_payload pkt_get_payload
greeting-ended = refl

pub reading-IsWorking : (i : ℕ) → IsWorking greeting i (reading (greeting i))
reading-IsWorking zero = record {
  packets = refl;
  payloads = refl;
  nodes = refl;
  input = λ bytes e.
      let same : hello ≡ bytes = cc in
      (
        sym same,
        subst (λ l. length l ≤ 512) same (omega arith),
        subst (All IsByte) same (omega arith),
      );
  buffers = λ bytes readed e. cc;
}
reading-IsWorking (suc i) = record {
  packets = refl;
  payloads = refl;
  nodes = refl;
  input = λ bytes e.
      let same : [] ≡ bytes = cc in
      (sym same, subst (λ l. length l ≤ 512) same (omega arith), subst (All IsByte) same tt);
  buffers = λ bytes readed e. cc;
}
