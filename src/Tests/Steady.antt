-- ===== src/Tests/Steady.antt =====
-- src/sender.c: process_sender over the rounds of a whole transfer of one packet.
use mathlib.Core.Path.{subst}
use lingi1341_projet.Sender.Rounds.{Sent, AreSteady, process_sender-IsSent}
use lingi1341_projet.Sender.Loop.{round, process_sender, Selected, socket, input, Loop, running}
use lingi1341_projet.Sender.State.{Sender, start as sender_start}
use lingi1341_projet.Sender.Invariant.{Supplies}
use lingi1341_projet.Queue.Order.{offset}
use lingi1341_projet.Prelude.{
  ◌+◌, ◌≡◌, refl, sym, ap, ◌∙◌, inl, List, [], ◌∷◌, arith, Yields, Outcome, returns, undefined,
}
use lingi1341_projet.Sender.Loop.{round, process_sender, Selected, socket, input, Loop, running}
use lingi1341_projet.Tests.Packets.{checksum, checksum-IsU32, hello}
use lingi1341_projet.Tests.Network.{
  greeting, reading, sender_waiting, greeting-read, acking, sender_idle, greeting-acked,
  reading-IsWorking,
}
use lingi1341_projet.Tests.Reached.{acking-IsWorking}

-- A packet, its acknowledgement, and the end of the input.
abbrev sender_events : List Selected
sender_events = input (reading hello) ∷ socket acking ∷ input (reading []) ∷ []

sender_start-Supplies : Supplies greeting checksum 0 0 sender_start
sender_start-Supplies = record {
  stocked = tt;
  few = omega arith;
  window = omega arith;
  wide = omega arith;
  ready = (refl, inl refl);
  sent = tt;
}

abbrev outcome_or : Sender → Outcome (Loop × Sender) → Sender
outcome_or other (returns result) = result.1
outcome_or other undefined = other

-- The state after a round is the one that it computes to.
follows :
    (event : Selected) (st first : Sender) {next : Sender}
    → round checksum event st ≡ returns (running, first)
    → round checksum event st ≡ returns (running, next)
    → first ≡ next
follows event st first computed e = ap (outcome_or first) (sym computed ∙ e)

sender_events-AreSteady : AreSteady greeting checksum sender_events 0 sender_start
sender_events-AreSteady = (
  reading-IsWorking 0,
  λ next e.
      let first : sender_waiting ≡ next =
        follows (input (reading hello)) sender_start sender_waiting greeting-read e in
      subst
        (λ (s : Sender).
          AreSteady greeting checksum (socket acking ∷ input (reading []) ∷ [])
            (0 + offset 0 s.seqnum) s)
        first
        (
          acking-IsWorking,
          λ next' e'.
              let second : sender_idle ≡ next' =
                follows (socket acking) sender_waiting sender_idle greeting-acked e' in
              subst
                (λ (s : Sender).
                  AreSteady greeting checksum (input (reading []) ∷ []) (1 + offset 1 s.seqnum) s)
                second (reading-IsWorking 1, λ last f. tt),
        ),
)

process_sender-IsSent_example :
    Yields (Sent greeting checksum) (process_sender checksum sender_events sender_start)
process_sender-IsSent_example =
    process_sender-IsSent greeting checksum checksum-IsU32 sender_events 0 sender_start
      sender_events-AreSteady sender_start-Supplies
