-- ===== src/Sender/Timer.antt =====
-- src/sender.c: check_in_window, check_timeout and final_send.
use lingi1341_projet.Prelude.{
  ℕ, ◌+◌, ◌-◌, ◌%◌, Bool, true, false, ◌&&◌, some, List, [], ◌∷◌, leb, ◌==◌, if◌then◌else◌,
  is_empty, ◌>>=◌, Outcome, returns, undefined,
}
use lingi1341_projet.Packet.Fields.{pkt_del, Pkt}
use lingi1341_projet.Sender.State.{a_lo, send_packet, null_pkt, deleted, fin, Sender, System}

-- RETRANSMISSION_TIMER
abbrev pub retransmission_timer : ℕ
retransmission_timer = 2

-- Of ints: here the subtrahends are on the other side.
unfoldable pub check_in_window : (window_size seqnum_check first : ℕ) → Bool
check_in_window window_size seqnum_check first =
    if leb first seqnum_check
    then leb (seqnum_check + 1) (window_size + first)
    else leb (255 + seqnum_check + 1) (window_size + first)

-- The difference is of uint32_t.
unfoldable pub is_due : (now time_sent : ℕ) → Bool
is_due now time_sent = leb retransmission_timer ((now + 4294967296 - time_sent) % 4294967296)

-- `pkt_del(pkt_fin)`
unfoldable pub delete_fin : Sender → Outcome Sender
delete_fin st = elim st.pkt_fin [
  | null_pkt ↦ returns st
  | deleted ↦ undefined
  | fin pkt ↦ pkt_del (some pkt) >>= (λ _. returns (record st { pkt_fin = deleted }))
]

-- The result (true is 1), the packets from the one at hand on, and the state.
abbrev pub Scanned : Type 0
Scanned = Bool × List Pkt × Sender

-- A packet that the loop is done with.
abbrev pub behind : Pkt → Scanned → Outcome Scanned
behind packet (result, rest, st) = returns (result, packet ∷ rest, st)

module _ (crc32 : List ℕ → ℕ) (sys : System) where
  -- The loop of check_timeout: `first` is the number of the list's head, `single` says that its size
  -- is 1.
  unfoldable pub timeout_loop : (first : ℕ) (single : Bool) → List Pkt → Sender → Outcome Scanned
  timeout_loop first single [] st = returns (false, [], st)
  timeout_loop first single (packet ∷ rest) st =
      if check_in_window st.window_size packet.seqnum first
      then if is_due (a_lo sys.time) packet.timestamp
        then if (packet.length == 0) && (st.seqnum_eof == 1) && single
          then delete_fin st >>= (λ st'. returns (true, packet ∷ rest, st'))
          else send_packet crc32 sys packet st
            >>= (λ (_, packet', st'). timeout_loop first single rest st' >>= behind packet')
        else timeout_loop first single rest st >>= behind packet
      else returns (false, packet ∷ rest, st)

  unfoldable pub check_timeout : Sender → Outcome (Bool × Sender)
  check_timeout st = elim st.list [
    | [] ↦ returns (false, st)
    | packet ∷ rest ↦
        timeout_loop packet.seqnum (is_empty rest) (packet ∷ rest) st
        >>= (λ (result, list', st'). returns (result, record st' { list = list' }))
  ]

  -- Whether the sender is done: true is the result 0, false is 1 or -1.
  unfoldable pub final_send : Sender → Outcome (Bool × Sender)
  final_send st =
      if is_empty st.list
      then elim st.pkt_fin [
        | null_pkt ↦ undefined
        | deleted ↦ undefined
        | fin pkt ↦ send_packet crc32 sys pkt st >>= (λ (sent, pkt', st').
            if sent
            then delete_fin (record st' { pkt_fin = fin pkt' }) >>= (λ st''. returns (true, st''))
            else returns (false, record st' { pkt_fin = fin pkt' }))
      ]
      else returns (false, st)
