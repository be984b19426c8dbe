-- ===== src/Tests/Sockets.antt =====
-- src/nyancat.c: create_socket and real_address, on concrete answers of the system calls.
use lingi1341_projet.Prelude.{suc, ◌≡◌, refl, true, false, none, some, [], ◌∷◌, replicate}
use lingi1341_projet.Bytes.{swap16}
use lingi1341_projet.Sockets.{
  bind_source, connect_dest, create_socket, real_address, bound, connected, SocketSystem,
  lookup_error, found,
}

abbrev working : SocketSystem
working = record { socket = some 3; bind = true; connect = true }

-- Port 8080 is 0x1f90.
bound_test : create_socket working (some 8080) none ≡ (some 3, bound 36895 ∷ [])
unfolding create_socket bind_source connect_dest swap16
bound_test = refl

connected_test : create_socket working none (some 8080) ≡ (some 3, connected 36895 ∷ [])
unfolding create_socket bind_source connect_dest swap16
connected_test = refl

no_bind_test :
    create_socket (record working { bind = false }) (some 8080) (some 1) ≡ (none, bound 36895 ∷ [])
unfolding create_socket bind_source connect_dest swap16
no_bind_test = refl

no_socket_test : create_socket (record working { socket = none }) (some 8080) none ≡ (none, [])
unfolding create_socket
no_socket_test = refl

unresolved_test : real_address suc (lookup_error 4) (1 ∷ []) ≡ (some 5, 1 ∷ [])
unfolding real_address
unresolved_test = refl

resolved_test : real_address suc (found (replicate 30 7)) [] ≡ (none, replicate 28 7)
unfolding real_address
resolved_test = refl
