-- ===== src/Sender/Rounds.antt =====
-- src/sender.c: process_sender over any number of rounds.
use mathlib.Core.Path.{subst}
use lingi1341_projet.Prelude.{
  ℕ, suc, ◌+◌, ◌≤◌, ◌≡◌, refl, sym, List, [], ◌∷◌, arith, length, All, Yields, returns,
}
use lingi1341_projet.Bytes.{IsU32}
use lingi1341_projet.Sender.State.{Sender}
use lingi1341_projet.Sender.Loop.{
  after_events, on_input, round, process_sender, Selected, error, socket, input, neither, Loop,
  running, ended, aborted,
}
use lingi1341_projet.Sender.Supply.{IsSent}
use lingi1341_projet.Sender.Input.{IsWorking}
use lingi1341_projet.Sender.Replies.{check_ack-Supplies}
use lingi1341_projet.Sender.Invariant.{posted, Supplies}
use lingi1341_projet.Sender.Events.{
  on_socket-Proceeds, neither-Proceeds, on_input-Proceeds, widen, Runs, Proceeds-Runs,
}
use lingi1341_projet.Queue.Order.{offset}

module _ (stream : ℕ → List ℕ) (crc32 : List ℕ → ℕ) where
  abbrev pub Sent : Loop × Sender → Type 0
  Sent (_, st) = (top : ℕ) × All (IsSent stream crc32 top) st.sent

  -- In the given round malloc has memory, and read() gives the payload of packet `top`.
  abbrev pub IsSteady : Selected → (top : ℕ) → Type 0
  IsSteady error top = Unit {0}
  IsSteady (socket sys) top = IsWorking stream top sys
  IsSteady (input sys) top = IsWorking stream top sys
  IsSteady (neither sys) top = Unit {0}

  -- In every round, from a state that has made `top` packets: each makes at most one, which shows in
  -- the next number.
  abbrev pub AreSteady : List Selected → (top : ℕ) → Sender → Type 0
  AreSteady [] top st = Unit {0}
  AreSteady (event ∷ events) top st =
      IsSteady event top
      × ((next : Sender)
          → round crc32 event st ≡ returns (running, next)
          → AreSteady events (top + offset st.seqnum next.seqnum) next)

  made :
      (n m : ℕ) (st next : Sender)
      → Supplies stream crc32 0 n st
      → n + length st.list ≤ m + length next.list
      → m + length next.list ≤ n + length st.list + 1
      → Supplies stream crc32 0 m next
      → m + length next.list ≡ n + length st.list + offset st.seqnum next.seqnum
  made n m st next d early late kept = ground (arith, d.ready.0, kept.ready.0)

  module _ (small : (bytes : List ℕ) → IsU32 (crc32 bytes)) where
    -- One round of process_sender from a state whose list holds the packets of the stream from
    -- packet `n` on, in which malloc has memory, recv() gives a buffer of at least 528 bytes, and
    -- read() gives the payload of the packet behind the list, at most 512 bytes: it returns, and
    -- either the state still supplies the stream, from the same packet or a later one on and up to
    -- the same packet or the next one, or the loop is over and all datagrams sent were packets of
    -- the stream in the packet format.
    pub round-Runs :
        (event : Selected) (n : ℕ) (st : Sender)
        → IsSteady event (n + length st.list)
        → Supplies stream crc32 0 n st
        → Yields
            (Runs stream crc32 0 n (n + length st.list) (n + length st.list))
            (round crc32 event st)
    unfolding round
    round-Runs error n st steady d = (_, refl, d.sent)
    round-Runs (socket sys) n st steady d =
        Proceeds-Runs stream crc32 0 n (n + length st.list) (n + length st.list) _ (
          on_socket-Proceeds stream crc32 0 sys n (n + length st.list) (n + length st.list) st
            (check_ack-Supplies stream crc32 sys small n (n + length st.list) st steady d))
    round-Runs (input sys) n st steady d =
        Proceeds-Runs stream crc32 0 n (n + length st.list) (n + length st.list) _ (
          widen stream crc32 0 n (n + length st.list) (n + length st.list) (on_input crc32 sys st)
            (omega arith) (on_input-Proceeds stream crc32 0 sys n st steady d))
    round-Runs (neither sys) n st steady d =
        Proceeds-Runs stream crc32 0 n (n + length st.list) (n + length st.list) _ (
          widen stream crc32 0 n (n + length st.list) (n + length st.list)
            (after_events crc32 sys st) (omega arith) (neither-Proceeds stream crc32 0 sys n st d))

    -- The rounds of process_sender from a state that supplies the stream, as long as in each of
    -- them malloc has memory, recv() gives a buffer of at least 528 bytes, and read() gives the
    -- payload of the stream for the next packet, counted from the packets made so far, at most 512
    -- bytes: the loop returns, and all datagrams sent were packets of the stream in the packet
    -- format, whatever acknowledgements arrived.
    pub process_sender-IsSent :
        (events : List Selected) (n : ℕ) (st : Sender)
        → AreSteady events (n + length st.list) st
        → Supplies stream crc32 0 n st
        → Yields Sent (process_sender crc32 events st)
    unfolding process_sender
    process_sender-IsSent [] n st steady d = (_, refl, (n + length st.list, d.sent))
    process_sender-IsSent (event ∷ events) n st (now, later) d =
        let (result, called, runs) = round-Runs event n st now d in
        rw called (go result called runs (λ m next. process_sender-IsSent events m next))
      where
        go :
            (result : Loop × Sender)
            → round crc32 event st ≡ returns result
            → Runs stream crc32 0 n (n + length st.list) (n + length st.list) result
            → ((m : ℕ) (next : Sender)
                → AreSteady events (m + length next.list) next
                → Supplies stream crc32 0 m next
                → Yields Sent (process_sender crc32 events next))
            → Yields Sent (elim result.0 [
              | running ↦ process_sender crc32 events result.1
              | ended ↦ returns (ended, result.1)
              | aborted ↦ returns (aborted, result.1)
            ])
        go (running, next) called (m, above, below, early, late, kept) rest =
            rest m next
              (subst (λ top. AreSteady events top next) (sym (made n m st next d early late kept))
                (later next called))
              kept
        go (ended, next) called (m, early, late, empty, sent, posted) rest =
            (_, refl, (suc m, sent))
        go (aborted, next) called sent rest = (_, refl, (n + length st.list, sent))
