-- ===== src/Sender/State.antt =====
-- src/sender.c: the state of the sender, send_packet and read_to_list.
use lingi1341_projet.Prelude.{
  ℕ, zero, suc, ◌+◌, ◌%◌, Bool, true, false, Option, none, some, List, [], ◌∷◌, ◌++◌, leb,
  if◌then◌else◌, length, ◌>>=◌, Outcome, returns,
}
use lingi1341_projet.Packet.Fields.{
  ptype_data, pkt_new, pkt_del, pkt_set_type, pkt_set_tr, pkt_set_window, pkt_set_seqnum,
  pkt_set_timestamp, pkt_set_payload, StatusCode, Pkt,
}
use lingi1341_projet.Packet.Encode.{is_ok, pkt_encode}
use lingi1341_projet.Packet.Datagram.{buffer_size, fresh_buffer, datagram}

-- What the pointer `pkt_fin` holds: NULL, the address of a deleted packet, or a packet.
pub data Fin : Type 0 where
  null_pkt deleted : Fin
  fin : Pkt → Fin

-- The global variables, the list of packets (by the theorems of Queue.Fifo), and the datagrams that
-- send() has taken so far.
pub record Sender : Type 0 where
  pub seqnum : ℕ
  pub window_size : ℕ
  pub seqnum_eof : ℕ
  pub pkt_fin : Fin
  pub list : List Pkt
  pub sent : List (List ℕ)

abbrev pub start : Sender
start = record {
  seqnum = 0;
  window_size = 1;
  seqnum_eof = 0;
  pkt_fin = null_pkt;
  list = [];
  sent = [];
}

-- What the system answers during one round of process_sender: time() in check_timeout, and
-- in the call of send_packet for a packet, whether send() takes a
-- datagram, recv() (`none` is -1) with the contents of the whole buffer and the number of bytes
-- received, read() (`none` is -1) with the bytes read, and malloc for the packet, the payload and
-- the node.
pub record System : Type 0 where
  pub time : ℕ
  pub stamp : Pkt → ℕ
  pub send : List ℕ → Bool
  pub recv : Option (List ℕ × ℕ)
  pub read : Option (List ℕ)
  pub pkt_memory : Bool
  pub payload_memory : Bool
  pub node_memory : Bool

-- The 32 low bits of a time.
abbrev pub a_lo : ℕ → ℕ
a_lo time = time % 4294967296

abbrev pub transmit : Sender → List ℕ → Sender
transmit st bytes = record st { sent = st.sent ++ (bytes ∷ []) }

-- The packet of read_to_list before its payload is set.
abbrev pub data_pkt : ℕ → Pkt → Pkt
data_pkt seqnum new =
    (pkt_set_seqnum (pkt_set_window (pkt_set_tr (pkt_set_type new ptype_data).1 0).1 0).1
      (seqnum % 256)).1

module _ (crc32 : List ℕ → ℕ) (sys : System) where
  -- Whether the call succeeded (false is -1), the packet with its new timestamp, and the state.
  unfoldable pub send_packet : Pkt → Sender → Outcome (Bool × Pkt × Sender)
  send_packet pkt st =
      let stamped = (pkt_set_timestamp pkt (a_lo (sys.stamp pkt))).1 in
      pkt_encode crc32 (some stamped) (some (fresh_buffer stamped)) (buffer_size stamped)
      >>= (λ encoded. elim (datagram encoded) [
        | none ↦ returns (false, stamped, st)
        | some bytes ↦
            if sys.send bytes
            then returns (true, stamped, transmit st bytes)
            else returns (false, stamped, st)
      ])

  -- add_element_queue, of which the caller only reports the status.
  abbrev pub enqueue : Pkt → Sender → Sender
  enqueue pkt st = if sys.node_memory then record st { list = st.list ++ (pkt ∷ []) } else st

  -- What follows pkt_set_payload, of which `status` is the result. The setters of the type, TR, the
  -- window and the seqnum cannot fail on these values.
  unfoldable pub add_packet : (readed : ℕ) → StatusCode → Pkt → Sender → Outcome Sender
  add_packet zero status pkt st =
      if is_ok status
      then returns (record st { seqnum_eof = 1; pkt_fin = fin pkt })
      else pkt_del (some pkt) >>= (λ _. returns (record st { seqnum_eof = 1; pkt_fin = deleted }))
  add_packet (suc readed) status pkt st =
      if is_ok status
      then send_packet pkt st >>= (λ (_, pkt', st').
        returns (record (enqueue pkt' st') { seqnum = (st'.seqnum + 1) % 256 }))
      else pkt_del (some pkt) >>= (λ _. returns st)

  unfoldable pub read_to_list : Sender → Outcome Sender
  read_to_list st = if leb st.window_size (length st.list) then returns st else elim sys.read [
    | none ↦ returns st
    | some bytes ↦ elim (pkt_new sys.pkt_memory) [
      | none ↦ returns st
      | some new ↦
          pkt_set_payload (data_pkt st.seqnum new) (some bytes) (length bytes) sys.payload_memory
          >>= (λ (status, pkt). add_packet (length bytes) status pkt st)
    ]
  ]
