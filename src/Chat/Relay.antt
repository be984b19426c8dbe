-- ===== src/Chat/Relay.antt =====
-- src/inginious/envoyer_recevoir_donnees/read_write_loop.c: what two chats pass to each other.
use lingi1341_projet.Prelude.{
  ℕ, ◌≡◌, refl, sym, ap, ◌∙◌, inl, inr, true, ◌&&◌, not, none, some, List, [], ◌∷◌, ◌++◌,
  append_assoc, append-nil, if◌then◌else◌, Bool-cases, length, take-length,
}
use lingi1341_projet.Chat.Loop.{on_input, on_socket, turn, read_write_loop, Event, Chat}

-- What is read from the input, and from the socket: select() succeeds, and the input goes first.
abbrev pub typed : List Event → List (List ℕ)
typed [] = []
typed (event ∷ events) = elim event.read [
  | none ↦ typed events
  | some bytes ↦
      if not event.failed && event.input_ready then bytes ∷ typed events else typed events
]

abbrev pub heard : List Event → List (List ℕ)
heard [] = []
heard (event ∷ events) = elim event.read [
  | none ↦ heard events
  | some bytes ↦
      if not event.failed && not event.input_ready && event.socket_ready
      then bytes ∷ heard events
      else heard events
]

abbrev pub joined : List (List ℕ) → List ℕ
joined [] = []
joined (bytes ∷ rest) = bytes ++ joined rest

-- read(), send() and write() succeed, and write() takes all bytes.
abbrev pub AreSound : List Event → Type 0
AreSound [] = Unit {0}
AreSound (event ∷ events) =
    ((bytes : List ℕ) × (event.read ≡ some bytes) × (event.answer ≡ some (length bytes)))
    × AreSound events

relays :
    (events : List Event) (st : Chat)
    → AreSound events
    → read_write_loop events st ≡ (
      true,
      record { sent = st.sent ++ typed events; output = st.output ++ joined (heard events) },
    )
unfolding read_write_loop turn on_input on_socket
relays [] st sound =
    λ i. (true, record { sent = sym (append-nil st.sent) i; output = sym (append-nil st.output) i })
relays (event ∷ events) st ((bytes, given, all), sound) =
    rw (given, all)
      (elim (Bool-cases event.failed) [
        | inl failed ↦ rw failed (relays events st sound)
        | inr fine ↦ rw fine (elim (Bool-cases event.input_ready) [
          | inl input ↦ rw input (
              relays events (record st { sent = st.sent ++ (bytes ∷ []) }) sound
              ∙ rw (append_assoc st.sent (bytes ∷ []) (typed events)) refl)
          | inr quiet ↦ rw quiet (elim (Bool-cases event.socket_ready) [
            | inl socket ↦
                rw (socket, take-length bytes)
                  (relays events (record st { output = st.output ++ bytes }) sound
                    ∙ rw (append_assoc st.output bytes (joined (heard events))) refl)
            | inr neither ↦ rw neither (relays events st sound)
          ])
        ])
      ])

-- Two chats whose system calls succeed, the first with nothing sent yet, where what the second
-- reads from its socket is what the first has sent, in order: the second has written what was
-- typed into the first, and nothing else, and both loops still run, even where the input has ended
-- and read() gives no bytes, although read_write_loop.h says that the function returns then.
pub conversation :
    (first second : List Event) (st st' : Chat)
    → AreSound first
    → AreSound second
    → st.sent ≡ []
    → heard second ≡ ((read_write_loop first st).1).sent
    → ((read_write_loop first st).0 ≡ true)
      × ((read_write_loop second st').0 ≡ true)
      × (((read_write_loop second st').1).output ≡ st'.output ++ joined (typed first))
conversation first second st st' sound sound' fresh passed =
    let e = relays first st sound in
    let e' = relays second st' sound' in
    (
      ap (λ r. r.0) e,
      ap (λ r. r.0) e',
      ap (λ r. (r.1).output) e'
          ∙ ap (λ l. st'.output ++ joined l)
              (passed ∙ ap (λ r. (r.1).sent) e ∙ ap (λ l. l ++ typed first) fresh),
    )
