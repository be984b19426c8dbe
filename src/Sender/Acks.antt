-- ===== src/Sender/Acks.antt =====
-- src/sender.c: packet_checked and check_ack.
use lingi1341_projet.Prelude.{
  ℕ, ◌+◌, Bool, ◌&&◌, ◌||◌, not, none, some, List, [], ◌∷◌, ltb, leb, ◌==◌, if◌then◌else◌, is_empty,
  ◌>>=◌, Outcome, returns,
}
use lingi1341_projet.Packet.Fields.{
  ptype_ack, ptype_nack, max_window_size, pkt_new, pkt_del, StatusCode, Pkt,
}
use lingi1341_projet.Packet.Encode.{is_ok}
use lingi1341_projet.Packet.Decode.{pkt_decode}
use lingi1341_projet.Sender.State.{Sender, System}

-- The results 0, -1 and 1 of packet_checked and of check_ack.
pub data Checked : Type 0 where
  okay failed finished : Checked

-- The test on a packet's number, of ints: here the subtrahend is on the other side. 31 is
-- MAX_WINDOW_SIZE.
unfoldable pub is_covered : (seqnum_ack seqn : ℕ) → Bool
is_covered seqnum_ack seqn =
    leb (255 + seqnum_ack) (max_window_size + seqn)
    || (ltb seqn seqnum_ack && leb seqnum_ack (max_window_size + seqn))

-- The result and the packets left. The list has a head in every round, so pop_element_queue does not
-- answer NULL, and -1 is not a result.
unfoldable pub packet_checked :
    (seqnum_ack seqnum_eof : ℕ) → List Pkt → Outcome (Checked × List Pkt)
packet_checked seqnum_ack seqnum_eof [] = returns (okay, [])
packet_checked seqnum_ack seqnum_eof (packet ∷ rest) =
    if not (is_covered seqnum_ack packet.seqnum)
    then returns (okay, packet ∷ rest)
    else if is_empty rest && (packet.length == 0) && (seqnum_eof == 1)
    then returns (finished, packet ∷ rest)
    else pkt_del (some packet) >>= (λ _. packet_checked seqnum_ack seqnum_eof rest)

-- From the line that stores the window on.
unfoldable pub take_ack : Pkt → Sender → Outcome (Checked × Sender)
take_ack pkt st =
    let st' = record st { window_size = pkt.window } in
    if pkt.kind == ptype_ack
    then packet_checked pkt.seqnum st'.seqnum_eof st'.list >>= (λ (checked, list').
      pkt_del (some pkt) >>= (λ _. returns (checked, record st' { list = list' })))
    else pkt_del (some pkt)
      >>= (λ _. returns (if pkt.kind == ptype_nack then okay else failed, st'))

-- From the result of pkt_decode on.
unfoldable pub handle_ack : StatusCode × Pkt → Sender → Outcome (Checked × Sender)
handle_ack (status, pkt) st =
    if not (is_ok status) || pkt.truncated == 1
    then pkt_del (some pkt) >>= (λ _. returns (failed, st))
    else take_ack pkt st

module _ (crc32 : List ℕ → ℕ) (sys : System) where
  unfoldable pub check_ack : Sender → Outcome (Checked × Sender)
  check_ack st = elim sys.recv [
    | none ↦ returns (failed, st)
    | some (buffer, readed) ↦ elim (pkt_new sys.pkt_memory) [
      | none ↦ returns (okay, st)
      | some pkt ↦
          pkt_decode crc32 (some buffer) readed sys.payload_memory pkt
          >>= (λ decoded. handle_ack decoded st)
    ]
  ]
