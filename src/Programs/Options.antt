-- ===== src/Programs/Options.antt =====
-- src/sender.c and src/receiver.c: the command line, which both main functions read alike.
use lingi1341_projet.Prelude.{
  ℕ, Bool, true, false, ◌&&◌, ◌||◌, Option, none, some, List, [], ◌∷◌, ltb, ◌==◌, if◌then◌else◌,
}
use lingi1341_projet.Sockets.{real_address, SocketSystem, Lookup}

-- What getopt() finds: -f with a file name, of which the model keeps a number, or another option.
pub data Opt : Type 0 where
  file_option : ℕ → Opt
  other_option : Opt

-- argc, the options, the port after atoi() (`none` where fewer than two arguments are left: then
-- atoi() is given NULL or what stands behind it), what open() answers for a file (`none` is negative),
-- whether list_create has memory,
-- what getaddrinfo() gives for the host name, and the system calls for the socket.
pub record Command : Type 0 where
  pub argc : ℕ
  pub options : List Opt
  pub port : Option ℕ
  pub open_file : ℕ → Option ℕ
  pub list_memory : Bool
  pub lookup : Lookup
  pub sockets : SocketSystem

-- The loop over the options: the last -f counts.
unfoldable pub chosen_file : List Opt → (file : Option ℕ) → Option ℕ
chosen_file [] file = file
chosen_file (file_option name ∷ rest) file = chosen_file rest (some name)
chosen_file (other_option ∷ rest) file = chosen_file rest file

abbrev pub is_given : Option ℕ → Bool
is_given none = false
is_given (some _) = true

-- The host name has no address: real_address returns a message.
unfoldable pub is_unresolved : Command → Bool
is_unresolved cmd = is_given (real_address (λ error. error) cmd.lookup []).0

-- Too few arguments, counted with the two of the option.
unfoldable pub is_usage_error : Command → Bool
is_usage_error cmd = ltb cmd.argc 3 || (is_given (chosen_file cmd.options none) && ltb cmd.argc 5)

-- The file's descriptor, or the standard one without a file or if it cannot be opened.
unfoldable pub chosen_fd : Command → (standard : ℕ) → ℕ
chosen_fd cmd standard = elim (chosen_file cmd.options none) [
  | none ↦ standard
  | some name ↦ elim (cmd.open_file name) [ none ↦ standard | some fd ↦ fd ]
]

-- close() of the descriptor unless it is the standard one.
unfoldable pub closed_file : (fd standard : ℕ) → List ℕ
closed_file fd standard = if fd == standard then [] else fd ∷ []
