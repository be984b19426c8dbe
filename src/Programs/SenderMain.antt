-- ===== src/Programs/SenderMain.antt =====
-- src/sender.c: main.
use lingi1341_projet.Prelude.{
  ℕ, none, some, List, [], ◌∷◌, if◌then◌else◌, ◌>>=◌, Outcome, returns, undefined,
}
use lingi1341_projet.Sockets.{create_socket}
use lingi1341_projet.Programs.Options.{
  is_unresolved, is_usage_error, chosen_fd, closed_file, Command,
}
use lingi1341_projet.Sender.State.{start, Sender}
use lingi1341_projet.Sender.Loop.{process_sender, Selected, error, Loop, running, aborted}

-- How the program ends: EXIT_FAILURE, or EXIT_SUCCESS with the final state and the descriptors closed.
pub data SenderExit : Type 0 where
  failure : SenderExit
  success : Sender → (closed : List ℕ) → SenderExit

-- process_sender without memory for its list, for which it does not test: every round but one in which
-- select() fails comes to `list->head`.
unfoldable pub without_list : List Selected → Outcome (Loop × Sender)
without_list [] = returns (running, start)
without_list (error ∷ events) = returns (aborted, start)
without_list (_ ∷ events) = undefined

-- `events` is what the rounds of process_sender meet.
unfoldable pub sender_main : (List ℕ → ℕ) → Command → List Selected → Outcome SenderExit
sender_main crc32 cmd events = if is_usage_error cmd then returns failure else elim cmd.port [
  | none ↦ undefined
  | some port ↦
      if is_unresolved cmd
      then returns failure
      else elim (create_socket cmd.sockets none (some port)).0 [
        | none ↦ returns failure
        | some sfd ↦
            (if cmd.list_memory then process_sender crc32 events start else without_list events)
            >>= (λ (loop, st). returns (success st (closed_file (chosen_fd cmd 0) 0)))
      ]
]
