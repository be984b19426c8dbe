-- ===== src/Receiver/Handler.antt =====
-- src/receiver.c: read_to_list_r, free_timeout and the loop of process_receiver.
use lingi1341_projet.Prelude.{
  ℕ, ◌+◌, ◌%◌, Bool, ◌&&◌, ◌||◌, not, none, some, List, [], ◌∷◌, ◌++◌, ltb, ◌==◌, if◌then◌else◌,
  ◌>>=◌, Outcome, returns, undefined,
}
use lingi1341_projet.Packet.Fields.{
  ptype_data, ptype_ack, ptype_nack, max_payload_size, pkt_new, pkt_del, StatusCode, Pkt,
}
use lingi1341_projet.Packet.Encode.{is_ok}
use lingi1341_projet.Packet.Decode.{pkt_decode}
use lingi1341_projet.Queue.Order.{insert}
use lingi1341_projet.Receiver.State.{
  window_divide, create_ack, send_ack, check_in_window, Receiver, System,
}
use lingi1341_projet.Receiver.Sequence.{
  write_in_sequence, Progress, waits, written, write_error, eof,
}

-- The results 0, -1 and -2 of read_to_list_r.
pub data Status : Type 0 where
  okay failed finished : Status

-- add_specific_queue, of which the caller ignores the status: without memory nothing is added.
abbrev pub stock : Bool → Pkt → Receiver → Receiver
stock memory pkt st = if memory then record st { list = insert pkt st.list } else st

-- `waited_seqnum-1`, converted to uint8_t.
abbrev pub seqnum_before : ℕ → ℕ
seqnum_before seqnum = (seqnum + 255) % 256

module _ (crc32 : List ℕ → ℕ) (sys : System) where
  -- create_ack, its test for NULL, send_ack and pkt_del.
  unfoldable pub reply : (seqnum kind : ℕ) → Status → Receiver → Outcome (Status × Receiver)
  reply seqnum kind status st = create_ack (sys.ack_memory 0) st.window_size seqnum kind >>= elim [
    | none ↦ returns (failed, st)
    | some ack ↦
        send_ack crc32 (some ack) st.last_timestamp st
        >>= (λ st'. pkt_del (some ack) >>= (λ _. returns (status, st')))
  ]

  -- What follows write_in_sequence.
  unfoldable pub after_write : Progress × Receiver → Outcome (Status × Receiver)
  after_write (write_error, st) = returns (failed, st)
  after_write (eof, st) = returns (finished, st)
  after_write (waits, st) = reply st.waited_seqnum ptype_ack okay st
  after_write (written, st) = returns (okay, st)

  -- The packet is deleted before the acknowledgement is created, and once more if that fails.
  unfoldable pub out_of_window : Pkt → Receiver → Outcome (Status × Receiver)
  out_of_window pkt st =
      pkt_del (some pkt)
      >>= (λ _. if sys.ack_memory 0 then reply st.waited_seqnum ptype_ack okay st else undefined)

  -- From the line that stores the timestamp on.
  unfoldable pub accept : Pkt → Receiver → Outcome (Status × Receiver)
  accept pkt st =
      if pkt.truncated == 1
      then (let narrow = window_divide st in
          reply pkt.seqnum ptype_nack okay narrow
          >>= (λ result. pkt_del (some pkt) >>= (λ _. returns result)))
      else if check_in_window st pkt.seqnum
      then write_in_sequence crc32 sys (stock sys.node_memory pkt st) >>= after_write
      else if (pkt.seqnum + 1 == st.waited_seqnum) && (pkt.length == 0) && (pkt.kind == ptype_data)
      then reply (seqnum_before st.waited_seqnum) ptype_data finished st
        >>= (λ result. pkt_del (some pkt) >>= (λ _. returns result))
      else out_of_window pkt st

  -- From the result of pkt_decode on.
  unfoldable pub dispatch : StatusCode × Pkt → Receiver → Outcome (Status × Receiver)
  dispatch (status, pkt) st =
      if not (is_ok status) || ltb max_payload_size pkt.length || not (pkt.kind == ptype_data)
      then pkt_del (some pkt) >>= (λ _. returns (failed, st))
      else accept pkt (record st { last_timestamp = pkt.timestamp })

  -- The message of an error of recv(), and a newline.
  abbrev pub report : Receiver → Receiver
  report st = record st { printed = st.printed ++ (sys.recv_error ++ (10 ∷ [])) }

  unfoldable pub read_to_list_r : Receiver → Outcome (Status × Receiver)
  read_to_list_r st = elim sys.recv [
    | none ↦ returns (okay, report st)
    | some (buffer, readed) ↦ elim (pkt_new sys.pkt_memory) [
      | none ↦ returns (okay, st)
      | some pkt ↦
          pkt_decode crc32 (some buffer) readed sys.payload_memory pkt
          >>= (λ decoded. dispatch decoded st)
    ]
  ]

-- Every packet left in the list is deleted.
unfoldable pub free_list : List Pkt → Outcome (Unit {0})
free_list [] = returns tt
free_list (packet ∷ rest) = pkt_del (some packet) >>= (λ _. free_list rest)

unfoldable pub free_timeout : Receiver → Outcome Receiver
free_timeout st = free_list st.list >>= (λ _. returns (record st { list = [] }))

-- What select() reports: a timeout, an error, or a datagram to read.
pub data Selected : Type 0 where
  timeout error : Selected
  readable : System → Selected

-- How process_receiver stands after the given rounds.
pub data Loop : Type 0 where
  running ended aborted : Loop

-- From the loop on; list_create before it is in `serve` of Programs.
module _ (crc32 : List ℕ → ℕ) where
  unfoldable pub process_receiver : List Selected → Receiver → Outcome (Loop × Receiver)
  process_receiver [] st = returns (running, st)
  process_receiver (timeout ∷ events) st = free_timeout st >>= (λ st'. returns (ended, st'))
  process_receiver (error ∷ events) st = returns (aborted, st)
  process_receiver (readable sys ∷ events) st = read_to_list_r crc32 sys st >>= (λ (status, st').
      elim status [ finished ↦ returns (ended, st') | _ ↦ process_receiver events st' ])
