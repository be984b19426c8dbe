-- ===== src/Sender/Events.antt =====
-- src/sender.c: what a round of process_sender does on the socket and on the input.
use lingi1341_projet.Prelude.{
  ℕ, suc, ◌+◌, ◌≤◌, ◌≡◌, refl, inl, inr, Bool, true, false, List, [], arith, ◌==◌, if◌then◌else◌,
  ==→eq, Bool-cases, length, All, ◌>>=◌, Yields, Outcome, returns,
}
use lingi1341_projet.Sender.State.{Sender, System}
use lingi1341_projet.Sender.Acks.{check_ack, Checked, okay, failed, finished}
use lingi1341_projet.Sender.Timer.{check_timeout}
use lingi1341_projet.Sender.Loop.{after_events, on_socket, on_input, Loop, running, ended, aborted}
use lingi1341_projet.Sender.Supply.{IsSent, IsPosted}
use lingi1341_projet.Sender.Timeouts.{check_timeout-Supplies}
use lingi1341_projet.Sender.Input.{Goes, Takes, read_to_list-Supplies, IsWorking}
use lingi1341_projet.Sender.Invariant.{Supplies}
use lingi1341_projet.Sender.Ending.{Closes, final_send-Closes}

module _ (stream : ℕ → List ℕ) (crc32 : List ℕ → ℕ) (least : ℕ) where
  -- While the loop runs the state supplies the stream, from a packet between `low` and `high` on and up
  -- to packet `top` or the next one; when it has ended, no packet before an empty one, between `top` and
  -- `high`, was left, and all datagrams were of packets up to the empty one, which
  -- is among them. It is not aborted.
  abbrev pub Proceeds : (low high top : ℕ) → Loop × Sender → Type 0
  Proceeds low high top (running, st) = Goes stream crc32 least low high top st
  Proceeds low high top (ended, st) =
      (m : ℕ) × (top ≤ m)
      × (m ≤ high)
      × (stream m ≡ [])
      × All (IsSent stream crc32 (suc m)) st.sent
      × IsPosted stream crc32 m st.sent
  Proceeds low high top (aborted, st) = ⊥

  module _ (sys : System) (low high top : ℕ) where
    timed :
        (m k : ℕ) (st : Sender)
        → low ≤ m
        → m ≤ high
        → top ≤ m + k
        → m + k ≤ top + 1
        → length st.list ≡ k
        → Supplies stream crc32 least m st
        → Yields (Proceeds low high top) (
            check_timeout crc32 sys st
            >>= (λ (stop, st'). returns (if stop then ended else running, st')))
    timed m k st above below early late size d =
        let ((stop, next), called, (clear, same, kept)) =
          check_timeout-Supplies stream crc32 least sys m st d in
        rw (called, clear)
          (_, refl, (m, above, below, omega (arith, same, size), omega (arith, same, size), kept))

    closed :
        (m k : ℕ) (result : Bool × Sender)
        → low ≤ m
        → m ≤ high
        → top ≤ m + k
        → m + k ≤ top + 1
        → Closes stream crc32 least sys m k result
        → Yields (Proceeds low high top) (
            if result.0
            then returns (ended, result.1)
            else check_timeout crc32 sys result.1
              >>= (λ (stop, st'). returns (if stop then ended else running, st')))
    closed m k (true, st) above below early late (none_left, empty, all_sent, posted) =
        (_, refl, (m, omega arith, below, empty, all_sent, posted))
    closed m k (false, st) above below early late (size, d) =
        timed m k st above below early late size d

    pub after_events-Proceeds :
        (st : Sender)
        → Goes stream crc32 least low high top st
        → Yields (Proceeds low high top) (after_events crc32 sys st)
    unfolding after_events
    after_events-Proceeds st (m, above, below, early, late, d) =
        elim (Bool-cases (st.seqnum_eof == 1)) [
          | inr unread ↦ rw unread (timed m (length st.list) st above below early late refl d)
          | inl read_all ↦
              let (result, called, closes) =
                final_send-Closes stream crc32 least sys m st (==→eq st.seqnum_eof 1 read_all) d in
              rw (read_all, called) (closed m (length st.list) result above below early late closes)
        ]

    acked :
        (checked : Checked) (st : Sender)
        → Takes stream crc32 least low high top (checked, st)
        → Yields
            (Proceeds low high top)
            (elim checked [ finished ↦ returns (ended, st) | _ ↦ after_events crc32 sys st ])
    acked finished st (goes_on, goes) = absurd (goes_on refl)
    acked okay st (goes_on, goes) = after_events-Proceeds st goes
    acked failed st (goes_on, goes) = after_events-Proceeds st goes

    -- By what check_ack does.
    pub on_socket-Proceeds :
        (st : Sender)
        → Yields (Takes stream crc32 least low high top) (check_ack crc32 sys st)
        → Yields (Proceeds low high top) (on_socket crc32 sys st)
    unfolding on_socket
    on_socket-Proceeds st ((checked, next), called, takes) = rw called (acked checked next takes)

  module _ (sys : System) where
    pub neither-Proceeds :
        (n : ℕ) (st : Sender)
        → Supplies stream crc32 least n st
        → Yields (Proceeds n n (n + length st.list)) (after_events crc32 sys st)
    neither-Proceeds n st d =
        after_events-Proceeds sys n n (n + length st.list) st
          (n, omega arith, omega arith, omega arith, omega arith, d)

    pub on_input-Proceeds :
        (n : ℕ) (st : Sender)
        → IsWorking stream (n + length st.list) sys
        → Supplies stream crc32 least n st
        → Yields (Proceeds n n (n + length st.list)) (on_input crc32 sys st)
    unfolding on_input
    on_input-Proceeds n st works d = elim (Bool-cases (st.seqnum_eof == 0)) [
      | inr read_all ↦ rw read_all (neither-Proceeds n st d)
      | inl unread ↦
          let (next, called, goes) =
            read_to_list-Supplies stream crc32 least sys n st works (==→eq st.seqnum_eof 0 unread)
              d in
          rw (unread, called) (after_events-Proceeds sys n n (n + length st.list) next goes)
    ]

  wider :
      (n high top : ℕ) (result : Loop × Sender)
      → n ≤ high
      → Proceeds n n top result
      → Proceeds n high top result
  wider n high top (running, st) below (m, above, least, early, late, d) =
      (m, above, omega arith, early, late, d)
  wider n high top (ended, st) below (m, early, late, empty, sent, posted) =
      (m, early, omega arith, empty, sent, posted)
  wider n high top (aborted, st) below never = absurd never

  -- The first of the packets may be a later one.
  pub widen :
      (n high top : ℕ) (outcome : Outcome (Loop × Sender))
      → n ≤ high
      → Yields (Proceeds n n top) outcome
      → Yields (Proceeds n high top) outcome
  widen n high top outcome below (result, called, runs) =
      (result, called, wider n high top result below runs)

  -- The same, or the loop is aborted.
  abbrev pub Runs : (low high top : ℕ) → Loop × Sender → Type 0
  Runs low high top (running, st) = Proceeds low high top (running, st)
  Runs low high top (ended, st) = Proceeds low high top (ended, st)
  Runs low high top (aborted, st) = All (IsSent stream crc32 top) st.sent

  runs :
      (low high top : ℕ) (result : Loop × Sender)
      → Proceeds low high top result
      → Runs low high top result
  runs low high top (running, st) proceeds = proceeds
  runs low high top (ended, st) proceeds = proceeds
  runs low high top (aborted, st) never = absurd never

  pub Proceeds-Runs :
      (low high top : ℕ) (outcome : Outcome (Loop × Sender))
      → Yields (Proceeds low high top) outcome
      → Yields (Runs low high top) outcome
  Proceeds-Runs low high top outcome (result, called, proceeds) =
      (result, called, runs low high top result proceeds)
