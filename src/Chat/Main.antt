-- ===== src/Chat/Main.antt =====
-- src/inginious/envoyer_recevoir_donnees/chat.c: main.
use lingi1341_projet.Prelude.{
  ℕ, Bool, true, false, ◌&&◌, not, Option, none, some, List, [], ◌∷◌, ltb, if◌then◌else◌,
}
use lingi1341_projet.Sockets.{create_socket, real_address, SocketSystem, Lookup}
use lingi1341_projet.Chat.Loop.{read_write_loop, wait_for_client, Event, Chat}

-- What getopt() finds; a host name is a number.
pub data Opt : Type 0 where
  act_server act_client : Opt
  port_option : (port : ℕ) → Opt
  host_option : (host : ℕ) → Opt
  unknown_option : Opt

-- `none` is the host "::1".
pub record Settings : Type 0 where
  pub client : Bool
  pub port : ℕ
  pub host : Option ℕ

abbrev pub defaults : Settings
defaults = record { client = false; port = 12345; host = none }

-- The loop over the options: the last of a kind counts.
unfoldable pub parse : List Opt → Settings → Settings
parse [] cfg = cfg
parse (act_server ∷ rest) cfg = parse rest (record cfg { client = false })
parse (act_client ∷ rest) cfg = parse rest (record cfg { client = true })
parse (port_option port ∷ rest) cfg = parse rest (record cfg { port = port })
parse (host_option host ∷ rest) cfg = parse rest (record cfg { host = some host })
parse (unknown_option ∷ rest) cfg = parse rest cfg

-- EXIT_FAILURE or EXIT_SUCCESS, with the descriptors closed.
pub data Exit : Type 0 where
  failure : (closed : List ℕ) → Exit
  success : Chat → (closed : List ℕ) → Exit
  still_running : Chat → Exit

-- What getaddrinfo() gives for a host, the system calls for the socket, and whether recvfrom() and
-- connect() succeed in wait_for_client.
module _ (lookup : Option ℕ → Lookup) (sys : SocketSystem) (recvfrom connect : Bool)
    (events : List Event) where
  -- From the open socket on.
  abbrev pub talk : (sfd : ℕ) → Exit
  talk sfd =
      let (goes_on, st) = read_write_loop events (record { sent = []; output = [] }) in
      if goes_on then still_running st else success st (sfd ∷ [])

  unfoldable pub chat_main : List Opt → Exit
  chat_main options =
      let cfg = parse options defaults in
      elim (real_address (λ error. error) (lookup cfg.host) []).0 [
        | some _ ↦ failure []
        | none ↦
            if cfg.client
            then elim (create_socket sys none (some cfg.port)).0 [
              | none ↦ failure []
              | some sfd ↦ talk sfd
            ]
            else elim (create_socket sys (some cfg.port) none).0 [
              | none ↦ failure []
              | some sfd ↦
                  if ltb 0 sfd && not (wait_for_client recvfrom connect)
                  then failure (sfd ∷ [])
                  else talk sfd
            ]
      ]
