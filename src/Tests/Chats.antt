-- ===== src/Tests/Chats.antt =====
-- src/inginious/envoyer_recevoir_donnees: two chats at concrete inputs.
use lingi1341_projet.Prelude.{ℕ, ◌≡◌, refl, Bool, true, false, some, List, [], ◌∷◌, length}
use lingi1341_projet.Sockets.{bind_source, connect_dest, create_socket, real_address, found}
use lingi1341_projet.Chat.Loop.{
  on_input, on_socket, turn, read_write_loop, wait_for_client, Event, Chat,
}
use lingi1341_projet.Chat.Main.{parse, chat_main, port_option, failure}
use lingi1341_projet.Chat.Relay.{conversation}

abbrev blank_chat : Chat
blank_chat = record { sent = []; output = [] }

abbrev event : (input socket : Bool) → List ℕ → Event
event input socket bytes = record {
  failed = false;
  input_ready = input;
  socket_ready = socket;
  read = some bytes;
  answer = some (length bytes);
}

-- Where both descriptors are ready the input goes first.
abbrev typing : List Event
typing = event true true (104 ∷ 105 ∷ []) ∷ event true false (33 ∷ []) ∷ []

abbrev hearing : List Event
hearing = event false true (104 ∷ 105 ∷ []) ∷ event false true (33 ∷ []) ∷ []

typing_test :
    read_write_loop typing blank_chat
    ≡ (true, record blank_chat { sent = (104 ∷ 105 ∷ []) ∷ (33 ∷ []) ∷ [] })
unfolding read_write_loop turn on_input on_socket
typing_test = refl

-- The end of the input is not noticed: an empty datagram is sent, and the loop goes on.
end_test :
    read_write_loop (event true false [] ∷ []) blank_chat
    ≡ (true, record blank_chat { sent = [] ∷ [] })
unfolding read_write_loop turn on_input on_socket
end_test = refl

-- A server whose client cannot be reached.
main_test :
    chat_main
      (λ host. found [])
      (record { socket = some 3; bind = true; connect = true })
      true
      false
      []
      (port_option 4242 ∷ [])
    ≡ failure (3 ∷ [])
unfolding chat_main parse wait_for_client create_socket bind_source connect_dest real_address
    lingi1341_projet.Bytes.swap16
main_test = refl

conversation_example :
    ((read_write_loop typing blank_chat).0 ≡ true)
    × ((read_write_loop hearing blank_chat).0 ≡ true)
    × (((read_write_loop hearing blank_chat).1).output ≡ 104 ∷ 105 ∷ 33 ∷ [])
unfolding read_write_loop turn on_input on_socket
conversation_example =
    conversation typing hearing blank_chat blank_chat ((_, refl, refl), ((_, refl, refl), tt))
      ((_, refl, refl), ((_, refl, refl), tt)) refl refl
