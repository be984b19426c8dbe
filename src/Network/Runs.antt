-- ===== src/Network/Runs.antt =====
-- src/sender.c and src/receiver.c: runs of the two programs from a state in which the sender runs.
use lingi1341_projet.Receiver.State.{Receiver, System as ReceiverSystem}
use lingi1341_projet.Receiver.Handler.{
  read_to_list_r, readable, okay, failed, finished, Status as ReceiverStatus, Loop as ReceiverLoop,
  running as receiver_running,
}
use lingi1341_projet.Receiver.Session.{loop_after, process_receiver-once}
use lingi1341_projet.Sender.State.{Sender}
use lingi1341_projet.Sender.Loop.{round, Selected, Loop, running, ended, aborted}
use lingi1341_projet.Prelude.{
  ℕ, ◌+◌, ◌≤◌, ◌≡◌, refl, sym, ◌⊎◌, inl, inr, List, arith, length, Yields, Yields-both, returns,
  Outcome, ◌≢◌, ◌∙◌,
}
use lingi1341_projet.Network.State.{
  sends, receives, Allows, Net, Works, Step, send_round, receive_round, Reach, next,
}
use lingi1341_projet.Network.Invariant.{packets-count, Joint}
use lingi1341_projet.Network.Preservation.{Step-Joint}
use lingi1341_projet.Sender.Invariant.{Supplies}
use lingi1341_projet.Sender.Events.{Proceeds}
use lingi1341_projet.Bytes.{IsU32}

module _ (crc32 : List ℕ → ℕ) (stream : ℕ → List ℕ) where
  -- Rounds of the two programs lead from the one state to the other. The clock is not set back, and
  -- not more than four seconds pass at a time.
  pub data Leads (net : Net) : Net → Type 0 where
    stay : Leads net net
    onward :
        {mid net' : Net}
        → Leads net mid
        → Step crc32 stream mid net'
        → mid.clock ≤ net'.clock
        → net'.clock ≤ mid.clock + 4
        → Leads net net'

  pub Leads-trans : {net mid net' : Net} → Leads net mid → Leads mid net' → Leads net net'
  Leads-trans r stay = r
  Leads-trans r (onward s step after soon) = onward (Leads-trans r s) step after soon

  pub Reach-Leads :
      {net net' : Net} → Reach crc32 stream net → Leads net net' → Reach crc32 stream net'
  Reach-Leads r stay = r
  Reach-Leads r (onward s step after soon) = next (Reach-Leads r s) step

  -- The sender runs and its list starts with packet `n`.
  pub record At (n : ℕ) (net : Net) : Type 0 where
    pub live : net.loop ≡ running
    pub supplies : Supplies stream crc32 1 n net.sender
    pub total : n + length net.sender.list ≡ net.packets
    pub below : n ≤ net.delivered
    pub joint : Joint crc32 stream net
    pub listens : net.receiver_loop ≡ receiver_running

  pub Joint-At :
      (net : Net)
      → Joint crc32 stream net
      → net.loop ≡ running
      → net.receiver_loop ≡ receiver_running
      → (n : ℕ) × At n net
  Joint-At net joint live listens =
      let (n, d, total, below) = joint.serves live in
      (
        n,
        record {
          live = live;
          supplies = d;
          total = total;
          below = below;
          joint = joint;
          listens = listens;
        },
      )

  -- The sender has ended by itself, and the receiver runs.
  abbrev pub Over : Net → Type 0
  Over net = (net.loop ≡ ended) × (net.receiver_loop ≡ receiver_running)

  -- A run leads to a state where the sender has ended, or that has the property.
  abbrev pub Leading : Net → (Net → Type 0) → Type 0
  Leading net Q = (net' : Net) × Leads net net' × (Over net' ⊎ Q net')

  pub and_then :
      {net : Net} {P Q : Net → Type 0}
      → Leading net P
      → ((net' : Net) → P net' → Leading net' Q)
      → Leading net Q
  and_then (net', r, inl over) f = (net', r, inl over)
  and_then (net', r, inr p) f = let (net'', s, q) = f net' p in (net'', Leads-trans r s, q)

  module _ (small : (bytes : List ℕ) → IsU32 (crc32 bytes)) where
    -- The state after a round of the sender, from a packet between `low` and `high` on.
    abbrev pub Sends : (low high : ℕ) → (Loop × Sender → Type 0) → Net → Net → Type 0
    Sends low high Q net net' =
        (m : ℕ) × (low ≤ m)
        × (m ≤ high)
        × At m net'
        × Q (net'.loop, net'.sender)
        × (net'.receiver ≡ net.receiver)
        × (net'.delivered ≡ net.delivered)
        × (net.packets ≤ net'.packets)

    pub send_step :
        (n low high : ℕ) (net : Net) (event : Selected) (Q : Loop × Sender → Type 0)
        → At n net
        → Allows crc32 stream net event
        → high ≤ net.delivered
        → Yields (Proceeds stream crc32 1 low high net.packets) (round crc32 event net.sender)
        → Yields Q (round crc32 event net.sender)
        → Leading net (Sends low high Q net)
    send_step n low high net event Q at allows bound proceeds holds =
        let ((loop, st), called, both) = Yields-both proceeds holds in
        let step = send_round event loop st at.live allows called in
        go loop st step (Step-Joint crc32 stream small at.joint step) both
      where
        go :
            (loop : Loop) (st : Sender)
            → Step crc32 stream net (sends net loop st)
            → Joint crc32 stream (sends net loop st)
            → Proceeds stream crc32 1 low high net.packets (loop, st) × Q (loop, st)
            → Leading net (Sends low high Q net)
        go running st step joint ((m, above, below, early, late, d), q) =
            let count =
              packets-count crc32 stream n m net.packets net.sender st at.supplies at.total d early
                late in
            (
              _,
              onward stay step (omega arith) (omega arith),
              inr (
                m,
                above,
                below,
                record {
                  live = refl;
                  supplies = d;
                  total = sym count;
                  below = omega arith;
                  joint = joint;
                  listens = at.listens;
                },
                q,
                refl,
                refl,
                omega (arith, count, early),
              ),
            )
        go ended st step joint (proceeds', q) =
            (_, onward stay step (omega arith) (omega arith), inl (refl, at.listens))
        go aborted st step joint (never, q) = absurd never

    pub receive_step :
        (n : ℕ) (net : Net) (sys : ReceiverSystem) (status : ReceiverStatus) (st : Receiver)
        → At n net
        → Works crc32 stream net sys
        → read_to_list_r crc32 sys net.receiver ≡ returns (status, st)
        → status ≢ finished
        → Leads net (receives net receiver_running st) × At n (receives net receiver_running st)
    receive_step n net sys status st at works called on =
        let step =
          receive_round (readable sys) receiver_running st at.listens works
            (process_receiver-once crc32 sys status net.receiver st called ∙ still status on) in
        (
          onward stay step (omega arith) (omega arith),
          record {
            live = at.live;
            supplies = at.supplies;
            total = at.total;
            below = omega (arith, at.below);
            joint = Step-Joint crc32 stream small at.joint step;
            listens = refl;
          },
        )
      where
        still :
            (status' : ReceiverStatus)
            → status' ≢ finished
            → Path
                (Outcome (ReceiverLoop × Receiver))
                (returns (loop_after status', st))
                (returns (receiver_running, st))
        still okay goes_on = refl
        still failed goes_on = refl
        still finished goes_on = absurd (goes_on refl)
