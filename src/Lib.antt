-- ===== src/Lib.antt =====
-- The reliable transfer protocol of this repository: a sender and a receiver that pass a file over
-- UDP with a sliding window of at most 31 packets, numbered modulo 256.
--
-- - Prelude: Boolean tests, lists and the result `Outcome` of code that may do something undefined
--   (a read or write outside an object, a double free, a NULL dereference).
-- - Bytes: integers as bytes in the order of the host (little endian), htons and htonl, memcpy.
-- - Packet (src/packet_implement.h, src/packet_implement.c): Fields has the structure, pkt_new,
--   pkt_del and the setters; Encode and Decode have pkt_encode and pkt_decode, divided into
--   consecutive parts; Wire and Format describe the packet format without reference to that code.
--   Ranges has the C types of the fields.
--   zlib's crc32 is a parameter; theorems that need it assume that its values have 32 bits.
-- - Queue (src/nyancat.h, src/nyancat.c): Nodes has the linked list over a heap of nodes; Order has
--   `comes_before`, the comparison of the code, and `insert`, what add_specific_queue means for a
--   list of packets. Split and Place relate the two. The loop of add_specific_queue has one unit of
--   fuel more than the list has nodes, which the theorem on it shows to be enough.
-- - Receiver (src/receiver.c): State, Sequence (write_in_sequence) and Handler (read_to_list_r,
--   free_timeout, process_receiver) have the code; Acks, Delivery, Writing, Insertion, Stream,
--   Reception, Advance, Repetition, Early, Unfinished, Last, Closing and Session have the proofs, which follow the
--   calls from the inside out.
-- - Sender (src/sender.c): State (send_packet, read_to_list), Acks (packet_checked, check_ack), Timer
--   (check_timeout, final_send) and Loop (process_sender) have the code. Supply and Invariant say what
--   holds between two calls; Cumulative, Timeouts, Resend, Ending, Filling, Input, Replies, Recent,
--   Damaged, Events, Progress and Rounds have the proofs. Transfer has a datagram of the sender meet
--   the receiver.
-- - Network: both programs with a network between them, as a step relation on their two states, with
--   a clock, and with the timeout of the receiver's select() as one of its rounds. The network may
--   lose, repeat, reorder and damage datagrams, but it delivers none so late that its number, modulo
--   256, may be taken for another: 223 is 255 less the 32 numbers of a window. Invariant, Preservation,
--   Results and Bounds are on whatever rounds there are; Runs, Calls, Turns, Exchange and Completion
--   choose rounds by which the transfer goes on, and Closing one in which the receiver ends too.
-- - Programs: the main functions of src/sender.c and src/receiver.c, with Sockets for create_socket
--   and real_address (src/nyancat.c) and wait_for_client (src/receiver.c).
-- - Record (src/inginious/decoder_encore_structures/record.c): records in a file.
-- - Correction (src/inginious/format_segment/correction.c): an earlier version of the packets with
--   checks of its own, on the structure and the format of Packet. Its accessors that only read a
--   field are the fields themselves.
-- - Draft (src/inginious/format_segment/packet_implement.c): the packets between that exercise and the
--   program, against the program's.
-- - Chat (src/inginious/envoyer_recevoir_donnees): a chat over UDP, with the functions of Sockets.
-- - Calculator (src/inginious/interpreter_commande/interpreter.c and
--   src/inginious/decoder_encore_structures/reading.c): two calculators, with the floating-point
--   numbers as a parameter.
-- - Tests: the theorems at concrete inputs.
--
-- The system calls of one round (recv, read, write, send, time) and malloc are answers in a record
-- `System`, and a run is a list of what select() reports. Both programs hold their list of packets as
-- a list, by the theorems of Queue. The numbers of a packet are natural numbers within the bounds of
-- their fields. Messages on stderr are left out. The theorems on what is delivered assume that write()
-- takes all bytes it is given or fails; where it takes fewer, receiver.c loses the others. What it has
-- taken is `output`; what printf() puts on stdout is `printed`.
--
-- Not modelled: the unit tests, the debug output
-- (print_data, print_list) and what only demonstrates (the main functions of the exercises on records
-- and packets, database.c), and LINGI1341-linksim-master, the link simulator that comes with the course.
pub mod Prelude
pub mod Bytes
pub mod Calculator
pub mod Packet
pub mod Queue
pub mod Sender
pub mod Receiver
pub mod Record
pub mod Correction
pub mod Draft
pub mod Chat
pub mod Sockets
pub mod Programs
pub mod Transfer
pub mod Network
pub mod Tests
