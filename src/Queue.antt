-- ===== src/Queue.antt =====
-- src/nyancat.h and src/nyancat.c: the linked list of packets. The functions over the heap are in
-- Nodes, what they promise as functions on lists in Order, the proofs in Chain, Fifo and Place.
pub mod Order
pub mod Sorting
pub mod Nodes
pub mod Chain
pub mod Fifo
pub mod Split
pub mod Place
