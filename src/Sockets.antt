-- ===== src/Sockets.antt =====
-- src/nyancat.c: create_socket and real_address. src/receiver.c: wait_for_client. They are given what the system calls
-- answer.
use lingi1341_projet.Prelude.{
  ℕ, ◌%◌, Bool, Option, none, some, List, [], ◌∷◌, ◌++◌, if◌then◌else◌, take,
}
use lingi1341_projet.Bytes.{swap16}

-- The ports given to bind() and connect(), in network byte order.
pub data Call : Type 0 where
  bound connected : (sin6_port : ℕ) → Call

-- socket() (`none` is -1), and whether bind() and connect() succeed.
pub record SocketSystem : Type 0 where
  pub socket : Option ℕ
  pub bind : Bool
  pub connect : Bool

module _ (sys : SocketSystem) where
  -- The port of the source, `none` without a source address, and what follows.
  unfoldable pub bind_source : Option ℕ → (List Call → Option ℕ × List Call) → Option ℕ × List Call
  bind_source none next = next []
  bind_source (some port) next =
      let calls = bound (swap16 (port % 65536)) ∷ [] in
      if sys.bind then next calls else (none, calls)

  unfoldable pub connect_dest : (fd : ℕ) → Option ℕ → List Call → Option ℕ × List Call
  connect_dest fd none calls = (some fd, calls)
  connect_dest fd (some port) calls =
      let calls' = calls ++ (connected (swap16 (port % 65536)) ∷ []) in
      if sys.connect then (some fd, calls') else (none, calls')

  -- The descriptor (`none` is -1) and the calls made.
  unfoldable pub create_socket : (source dest : Option ℕ) → Option ℕ × List Call
  create_socket source dest = elim sys.socket [
    | none ↦ (none, [])
    | some fd ↦ bind_source source (connect_dest fd dest)
  ]

-- getaddrinfo() with the hints of the program: an error code that is not 0, or the address of the
-- first result.
pub data Lookup : Type 0 where
  lookup_error : (error : ℕ) → Lookup
  found : (ai_addr : List ℕ) → Lookup

-- The string of gai_strerror() for an error (`none` is NULL), and the address in `*rval`: the 28 bytes
-- of a sockaddr_in6 are copied.
unfoldable pub real_address :
    {Message : Type 0}
    → (gai_strerror : ℕ → Message) → Lookup
    → (rval : List ℕ) → Option Message × List ℕ
real_address gai_strerror (lookup_error error) rval = (some (gai_strerror error), rval)
real_address gai_strerror (found ai_addr) rval = (none, take 28 ai_addr)

-- select(): -1, 0 at the timeout, or a message.
pub data Waiting : Type 0 where
  select_error expired message : Waiting

-- The results 0, -1 and 1 of wait_for_client.
pub data Client : Type 0 where
  accepted lost absent : Client

-- `recvfrom` and `connect` say whether these calls succeed.
unfoldable pub wait_for_client : Waiting → (recvfrom connect : Bool) → Client
wait_for_client select_error recvfrom connect = lost
wait_for_client expired recvfrom connect = absent
wait_for_client message recvfrom connect =
    if recvfrom then (if connect then accepted else lost) else lost
