-- ===== src/Programs/ReceiverMain.antt =====
-- src/receiver.c: main.
use lingi1341_projet.Prelude.{
  ℕ, Bool, none, some, List, [], ◌∷◌, ◌==◌, if◌then◌else◌, ◌>>=◌, Outcome, returns, undefined,
}
use lingi1341_projet.Sockets.{create_socket, wait_for_client, Waiting, accepted, lost, absent}
use lingi1341_projet.Programs.Options.{
  is_unresolved, is_usage_error, chosen_fd, closed_file, Command,
}
use lingi1341_projet.Receiver.State.{start, Receiver}
use lingi1341_projet.Receiver.Handler.{process_receiver, Selected}

-- How the program ends: EXIT_FAILURE, -1, or EXIT_SUCCESS with the final state; with the descriptors
-- closed.
pub data ReceiverExit : Type 0 where
  failure minus_one : (closed : List ℕ) → ReceiverExit
  success : Receiver → (closed : List ℕ) → ReceiverExit

module _ (crc32 : List ℕ → ℕ) (cmd : Command) (waiting : Waiting) (recvfrom connect : Bool) where
  -- From wait_for_client on. The list is created at the start of process_receiver. The tests `sfd > 0` do not hold for descriptor 0.
  unfoldable pub serve : (sfd : ℕ) → List Selected → Outcome ReceiverExit
  serve sfd events =
      let run =
        if cmd.list_memory
        then process_receiver crc32 events start
          >>= (λ (loop, st). returns (success st (sfd ∷ closed_file (chosen_fd cmd 1) 1)))
        else returns (failure []) in
      if sfd == 0 then run else elim (wait_for_client waiting recvfrom connect) [
        | lost ↦ returns (minus_one (closed_file (chosen_fd cmd 1) 1))
        | absent ↦ returns (failure (closed_file (chosen_fd cmd 1) 1))
        | accepted ↦ run
      ]

  unfoldable pub receiver_main : List Selected → Outcome ReceiverExit
  receiver_main events = if is_usage_error cmd then returns (failure []) else elim cmd.port [
    | none ↦ undefined
    | some port ↦
        if is_unresolved cmd
        then returns (failure [])
        else elim (create_socket cmd.sockets (some port) none).0 [
          | none ↦ returns (failure [])
          | some sfd ↦ serve sfd events
        ]
  ]
