-- ===== src/Network/Completion.antt =====
-- src/sender.c and src/receiver.c: the transfer can always be completed.
use lingi1341_projet.Receiver.Handler.{running as receiver_running}
use lingi1341_projet.Prelude.{
  ℕ, zero, suc, ◌+◌, ◌≤◌, ◌<◌, ◌≡◌, inl, inr, List, [], arith, ◌==◌, ==→eq, not_==→ne, Bool-cases,
  length,
}
use lingi1341_projet.Bytes.{IsU32}
use lingi1341_projet.Network.State.{Net, Reach}
use lingi1341_projet.Network.Runs.{Reach-Leads, Joint-At, Leading, and_then, Leads, At}
use lingi1341_projet.Network.Calls.{IsInput}
use lingi1341_projet.Network.Turns.{Holding, Posted, refine, fills, resends}
use lingi1341_projet.Network.Preservation.{Reach-Joint}
use lingi1341_projet.Network.Results.{Reach-complete}
use lingi1341_projet.Sender.Loop.{running, ended}
use lingi1341_projet.Receiver.Delivery.{up_to}
use lingi1341_projet.Receiver.Repetition.{answered}
use lingi1341_projet.Receiver.Handler.{running, ended}
use lingi1341_projet.Network.Invariant.{Ends}
use lingi1341_projet.Network.Exchange.{delivers, answers, acked}

module _ (crc32 : List ℕ → ℕ) (stream : ℕ → List ℕ)
    (small : (bytes : List ℕ) → IsU32 (crc32 bytes)) where
  -- The sender goes on behind packet `n`.
  abbrev Beyond : ℕ → Net → Type 0
  Beyond n net = (m : ℕ) × (n < m) × At crc32 stream m net

  confirms :
      (n : ℕ) (net : Net)
      → Holding crc32 stream n net
      → Posted crc32 stream n net
      → n < net.delivered
      → Leading crc32 stream net (Beyond n)
  confirms n net h posted before =
      and_then crc32 stream (answers crc32 stream small n net h posted before)
        (λ net' (at, answered, more).
          refine crc32 stream small (acked crc32 stream small n net' at answered)
            (λ net'' (m, above, at'). (m, omega (arith, before, more), at')))

  holds : (n : ℕ) (net : Net) → Holding crc32 stream n net → Leading crc32 stream net (Beyond n)
  holds n net h =
      and_then crc32 stream (resends crc32 stream small n net h) (λ net' (h', posted, _).
        elim (Bool-cases (n == net'.delivered)) [
          | inr other ↦
              confirms n net' h' posted
                (let differ = not_==→ne n net'.delivered other in omega (arith, h'.0.below))
          | inl waited ↦
              and_then crc32 stream
                (delivers crc32 stream small n net' h' posted (==→eq n net'.delivered waited))
                (λ later (held, written).
                  and_then crc32 stream (resends crc32 stream small n later held)
                    (λ later' (held', posted', same).
                      confirms n later' held' posted' (omega (arith, written, same))))
        ])

  goes_on :
      (n : ℕ) (net : Net)
      → IsInput stream
      → At crc32 stream n net
      → Leading crc32 stream net (Beyond n)
  goes_on n net is_input at = elim (Bool-cases (length net.sender.list == 0)) [
    | inr some_left ↦
        let differ = not_==→ne (length net.sender.list) 0 some_left in holds n net (at, omega arith)
    | inl none_left ↦
        and_then crc32 stream
          (fills crc32 stream small n net is_input at (==→eq (length net.sender.list) 0 none_left))
          (holds n)
  ]

  -- With `k` packets at most before the empty one.
  completes :
      (k n last : ℕ) (net : Net)
      → IsInput stream
      → stream last ≡ []
      → At crc32 stream n net
      → last ≤ n + k
      → Leading crc32 stream net (λ _. ⊥)
  completes zero n last net is_input empty at near =
      and_then crc32 stream (goes_on n net is_input at) (λ net' (m, more, at').
        absurd (omega (arith, near, more, at'.total, at'.joint.early at'.live last empty)))
  completes (suc k) n last net is_input empty at near =
      and_then crc32 stream (goes_on n net is_input at) (λ net' (m, more, at').
        completes k m last net' is_input empty at' (omega (arith, near, more)))

  -- From every state in which both loops run and that is reached by rounds under the conditions of
  -- Reach-complete, if the payloads of the stream have at most 512 bytes and one of them is empty,
  -- there are rounds under the same conditions, in which the clock is not set back and never
  -- advances more than four seconds at a time, that lead to a state in which the sender has ended
  -- by itself, the receiver still runs, and the bytes that write() has taken are the whole input,
  -- all payloads before the first empty one. That a timeout of select() ends the receiver earlier
  -- is possible, but not in these rounds.
  pub Reach-completes :
      (last : ℕ) (net : Net)
      → IsInput stream
      → stream last ≡ []
      → Reach crc32 stream net
      → net.loop ≡ running
      → net.receiver_loop ≡ receiver_running
      → (net' : Net) × Leads crc32 stream net net'
        × (net'.loop ≡ ended)
        × (net'.receiver_loop ≡ receiver_running)
        × ((first : ℕ) × Ends stream first × (net'.receiver.output ≡ up_to stream first))
  Reach-completes last net is_input empty r live listens =
      let (n, at) = Joint-At crc32 stream net (Reach-Joint crc32 stream small r) live listens in
      let (net', leads, result) = completes last n last net is_input empty at (omega arith) in
      elim result [
        | inr never ↦ absurd never
        | inl (over, listening) ↦ (
          net',
          leads,
          over,
          listening,
          Reach-complete crc32 stream small net' (Reach-Leads crc32 stream r leads) over,
        )
      ]
