-- ===== src/Sender/Loop.antt =====
-- src/sender.c: the loop of process_sender.
use lingi1341_projet.Prelude.{ℕ, false, List, [], ◌∷◌, ◌==◌, if◌then◌else◌, ◌>>=◌, Outcome, returns}
use lingi1341_projet.Sender.State.{read_to_list, Sender, System}
use lingi1341_projet.Sender.Acks.{check_ack, finished}
use lingi1341_projet.Sender.Timer.{check_timeout, final_send}

-- What select() reports: an error, or which of the socket and the input is looked at.
pub data Selected : Type 0 where
  error : Selected
  socket input neither : System → Selected

-- How process_sender stands after the given rounds.
pub data Loop : Type 0 where
  running ended aborted : Loop

module _ (crc32 : List ℕ → ℕ) (sys : System) where
  -- What every round does after the socket or the input: final_send and check_timeout.
  unfoldable pub after_events : Sender → Outcome (Loop × Sender)
  after_events st =
      (if st.seqnum_eof == 1 then final_send crc32 sys st else returns (false, st))
      >>= (λ (done, st').
          if done
          then returns (ended, st')
          else check_timeout crc32 sys st'
            >>= (λ (stop, st''). returns (if stop then ended else running, st'')))

  unfoldable pub on_socket : Sender → Outcome (Loop × Sender)
  on_socket st = check_ack crc32 sys st >>= (λ (checked, st'). elim checked [
    | finished ↦ returns (ended, st')
    | _ ↦ after_events st'
  ])

  unfoldable pub on_input : Sender → Outcome (Loop × Sender)
  on_input st =
      (if st.seqnum_eof == 0 then read_to_list crc32 sys st else returns st) >>= after_events

-- One round.
unfoldable pub round : (List ℕ → ℕ) → Selected → Sender → Outcome (Loop × Sender)
round crc32 error st = returns (aborted, st)
round crc32 (socket sys) st = on_socket crc32 sys st
round crc32 (input sys) st = on_input crc32 sys st
round crc32 (neither sys) st = after_events crc32 sys st

-- From the loop on; list_create before it, whose result the code does not test, is in SenderMain.
unfoldable pub process_sender : (List ℕ → ℕ) → List Selected → Sender → Outcome (Loop × Sender)
process_sender crc32 [] st = returns (running, st)
process_sender crc32 (event ∷ events) st = round crc32 event st >>= (λ (loop, st'). elim loop [
  | running ↦ process_sender crc32 events st'
  | ended ↦ returns (ended, st')
  | aborted ↦ returns (aborted, st')
])
