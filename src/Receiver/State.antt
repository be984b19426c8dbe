-- ===== src/Receiver/State.antt =====
-- src/receiver.c: the state of the receiver, its window, and the acknowledgements that it sends.
use lingi1341_projet.Prelude.{
  ℕ, ◌+◌, ◌/◌, ◌%◌, Bool, true, Option, none, some, List, [], ◌∷◌, ◌++◌, ltb, leb, if◌then◌else◌,
  ◌>>=◌, Outcome, returns, undefined,
}
use lingi1341_projet.Packet.Fields.{
  max_window_size, pkt_new, pkt_set_type, pkt_set_window, pkt_set_seqnum, pkt_set_timestamp,
  pkt_set_payload, Pkt,
}
use lingi1341_projet.Packet.Encode.{pkt_encode}
use lingi1341_projet.Packet.Datagram.{buffer_size, fresh_buffer, datagram}

-- The global variables, the list of packets (by the theorems of Queue.Fifo and Queue.Place), the
-- bytes that write() has put into the output so far, what printf() has put on stdout, which is the
-- same file if no other is named, and the datagrams handed to send() so far.
pub record Receiver : Type 0 where
  pub waited_seqnum : ℕ
  pub window_size : ℕ
  pub last_timestamp : ℕ
  pub list : List Pkt
  pub output : List ℕ
  pub printed : List ℕ
  pub sent : List (List ℕ)

abbrev pub start : Receiver
start = record {
  waited_seqnum = 0;
  window_size = 1;
  last_timestamp = 0;
  list = [];
  output = [];
  printed = [];
  sent = [];
}

-- What the system answers during one call of read_to_list_r: recv() (`none` is -1) with the contents
-- of the whole buffer afterwards and the number of bytes received, strerror() of its error, malloc for the packet, its
-- payload, its node and the k-th acknowledgement, and the k-th write(), given the bytes to write
-- (`none` is -1).
pub record System : Type 0 where
  pub recv : Option (List ℕ × ℕ)
  pub recv_error : List ℕ
  pub pkt_memory : Bool
  pub payload_memory : Bool
  pub node_memory : Bool
  pub ack_memory : ℕ → Bool
  pub write : ℕ → List ℕ → Option ℕ

unfoldable pub window_add : Receiver → Receiver
window_add st =
    if ltb st.window_size max_window_size
    then record st { window_size = st.window_size + 1 }
    else st

unfoldable pub window_divide : Receiver → Receiver
window_divide st =
    if ltb 1 st.window_size then record st { window_size = st.window_size / 2 } else st

-- `none` is NULL. The seqnum and the window are converted to uint8_t.
unfoldable pub create_ack : (memory : Bool) → (window_size seqnum kind : ℕ) → Outcome (Option Pkt)
create_ack memory window_size seqnum kind = elim (pkt_new memory) [
  | none ↦ returns none
  | some new ↦
      let typed = (pkt_set_type new kind).1 in
      let numbered = (pkt_set_seqnum typed (seqnum % 256)).1 in
      pkt_set_payload numbered none 0 true
      >>= (λ (_, empty). returns (some (pkt_set_window empty (window_size % 256)).1))
]

abbrev pub transmit : Receiver → Option (List ℕ) → Receiver
transmit st none = st
transmit st (some bytes) = record st { sent = st.sent ++ (bytes ∷ []) }

module _ (crc32 : List ℕ → ℕ) where
  -- No caller looks at the status, so it is left out.
  unfoldable pub send_ack : Option Pkt → (timestamp : ℕ) → Receiver → Outcome Receiver
  send_ack none timestamp st = undefined
  send_ack (some pkt) timestamp st =
      let stamped = (pkt_set_timestamp pkt timestamp).1 in
      pkt_encode crc32 (some stamped) (some (fresh_buffer stamped)) (buffer_size stamped)
      >>= (λ encoded. returns (transmit st (datagram encoded)))

-- Of ints, as in nyancat.c.
unfoldable pub check_in_window : Receiver → (seqnum : ℕ) → Bool
check_in_window st seqnum =
    if leb st.waited_seqnum seqnum
    then leb seqnum (st.window_size + st.waited_seqnum)
    else leb (255 + seqnum) (st.window_size + st.waited_seqnum)
