-- ===== src/Chat.antt =====
-- src/inginious/envoyer_recevoir_donnees: a chat over UDP. create_socket.c and real_address.c are the
-- functions that src/nyancat.c has taken over, in Sockets.
pub mod Loop
pub mod Main
pub mod Relay
