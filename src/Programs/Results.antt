-- ===== src/Programs/Results.antt =====
-- src/sender.c and src/receiver.c: what the two programs promise, from their command line on.
use lingi1341_projet.Prelude.{ℕ, ◌≡◌, Bool, List, [], ◌∷◌, if◌then◌else◌, ◌>>=◌, Outcome, returns}
use lingi1341_projet.Bytes.{IsU32}
use lingi1341_projet.Sockets.{Waiting}
use lingi1341_projet.Programs.Options.{chosen_fd, closed_file, Command}
use lingi1341_projet.Programs.ReceiverMain.{ReceiverExit, failure, success}
use lingi1341_projet.Receiver.State.{start}
use lingi1341_projet.Receiver.Handler.{process_receiver, Selected}
use lingi1341_projet.Receiver.Delivery.{up_to}

module _ (crc32 : List ℕ → ℕ) (top : ℕ) (stream : ℕ → List ℕ)
    (small : (bytes : List ℕ) → IsU32 (crc32 bytes)) where
  -- Any exit but success writes nothing; with success the output is a number of first payloads.
  abbrev pub Exits : ReceiverExit → Type 0
  Exits (success st closed) = (m : ℕ) × (st.output ≡ up_to stream m)
  Exits _ = Unit {0}

  module _ (cmd : Command) (waiting : Waiting) (recvfrom connect : Bool) where
    abbrev run : ℕ → List Selected → Outcome ReceiverExit
    run sfd events =
        if cmd.list_memory
        then process_receiver crc32 events start
          >>= (λ (loop, st). returns (success st (sfd ∷ closed_file (chosen_fd cmd 1) 1)))
        else returns (failure [])
