-- ===== src/Chat/Loop.antt =====
-- src/inginious/envoyer_recevoir_donnees: read_write_loop and wait_for_client.
use lingi1341_projet.Prelude.{
  ℕ, Bool, true, false, Option, none, some, List, [], ◌∷◌, ◌++◌, if◌then◌else◌, take,
}

-- One round: whether select() fails, which descriptors it reports, what read() gives of the one that is
-- looked at (`none` is -1), and what send() or write() answers (`none` is -1).
pub record Event : Type 0 where
  pub failed : Bool
  pub input_ready : Bool
  pub socket_ready : Bool
  pub read : Option (List ℕ)
  pub answer : Option ℕ

-- The datagrams sent and the bytes written so far.
pub record Chat : Type 0 where
  pub sent : List (List ℕ)
  pub output : List ℕ

-- Whether the loop goes on, and the state.
unfoldable pub on_input : Event → Chat → Bool × Chat
on_input event st = elim event.read [
  | none ↦ (false, st)
  | some bytes ↦ elim event.answer [
    | none ↦ (true, st)
    | some _ ↦ (true, record st { sent = st.sent ++ (bytes ∷ []) })
  ]
]

unfoldable pub on_socket : Event → Chat → Bool × Chat
on_socket event st = elim event.read [
  | none ↦ (false, st)
  | some bytes ↦ elim event.answer [
    | none ↦ (false, st)
    | some count ↦ (true, record st { output = st.output ++ take count bytes })
  ]
]

unfoldable pub turn : Event → Chat → Bool × Chat
turn event st =
    if event.failed
    then (true, st)
    else if event.input_ready
    then on_input event st
    else if event.socket_ready
    then on_socket event st
    else (true, st)

-- After the given rounds: whether the loop still runs, and the state.
unfoldable pub read_write_loop : List Event → Chat → Bool × Chat
read_write_loop [] st = (true, st)
read_write_loop (event ∷ events) st =
    let (goes_on, st') = turn event st in
    let rest = read_write_loop events st' in if goes_on then rest else (false, st')

-- Whether the socket is connected to the sender of the first datagram.
unfoldable pub wait_for_client : (recvfrom connect : Bool) → Bool
wait_for_client recvfrom connect = if recvfrom then connect else false
