-- ===== src/Receiver/Sequence.antt =====
-- src/receiver.c: write_in_sequence.
use lingi1341_projet.Prelude.{
  ℕ, suc, ◌+◌, ◌%◌, Bool, ◌&&◌, none, some, List, [], ◌∷◌, ◌++◌, ltb, ◌==◌, if◌then◌else◌, take,
  is_empty, ◌>>=◌, Outcome, returns, undefined,
}
use lingi1341_projet.Packet.Fields.{ptype_ack, pkt_del, pkt_get_payload, Pkt}
use lingi1341_projet.Packet.Encode.{read_payload}
use lingi1341_projet.Receiver.State.{window_add, create_ack, send_ack, Receiver, System}

-- The results 1, 0, -1 and -10 of write_in_sequence.
pub data Progress : Type 0 where
  waits written write_error eof : Progress

-- The bytes that write() is given.
unfoldable pub written_bytes : Pkt → Outcome (List ℕ)
written_bytes pkt =
    if pkt.length == 0 then returns [] else read_payload (pkt_get_payload pkt) pkt.length

-- The last packet of the list was written, it is empty, and it has the number before the one that
-- is waited for now.
unfoldable pub is_eof : List Pkt → Pkt → (waited_seqnum : ℕ) → Bool
is_eof rest packet waited_seqnum =
    is_empty rest && (packet.length == 0) && (packet.seqnum + 1 == waited_seqnum)

-- The acknowledgement after a packet was written.
module _ (crc32 : List ℕ → ℕ) (sys : System) where
  unfoldable pub acknowledge : ℕ → Receiver → Outcome Receiver
  acknowledge k st = do
    let wider = window_add st
    ack ← create_ack (sys.ack_memory k) wider.window_size wider.waited_seqnum ptype_ack
    st' ← send_ack crc32 ack wider.last_timestamp wider
    _ ← pkt_del ack
    returns st'

  -- The loop, at its k-th round; the list of the state is the argument.
  unfoldable pub write_loop : ℕ → List Pkt → Receiver → Outcome (Progress × Receiver)
  write_loop k [] st = returns (written, record st { list = [] })
  write_loop k (packet ∷ rest) st =
      if packet.seqnum == st.waited_seqnum
      then written_bytes packet >>= (λ bytes. elim (sys.write k bytes) [
        | none ↦ returns (write_error, record st { list = packet ∷ rest })
        | some n ↦
            let st' = record st {
              waited_seqnum = (st.waited_seqnum + 1) % 256;
              list = rest;
              output = st.output ++ take n bytes;
            } in
            if is_eof rest packet st'.waited_seqnum
            then pkt_del (some packet) >>= (λ _. returns (eof, st'))
            else acknowledge k st'
              >>= (λ st''. pkt_del (some packet) >>= (λ _. write_loop (suc k) rest st''))
      ])
      else returns (written, record st { list = packet ∷ rest })

  -- The head's packet is read before the test for NULL.
  unfoldable pub write_in_sequence : Receiver → Outcome (Progress × Receiver)
  write_in_sequence st = elim st.list [
    | [] ↦ undefined
    | packet ∷ rest ↦
        if ltb st.waited_seqnum packet.seqnum
        then returns (waits, st)
        else write_loop 0 (packet ∷ rest) st
  ]
