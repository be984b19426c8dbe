-- ===== src/Receiver.antt =====
-- src/receiver.c: the receiver. The state and the functions are in State, Sequence and Handler, the
-- proofs in the other modules.
pub mod State
pub mod Sequence
pub mod Handler
pub mod Acks
pub mod Delivery
pub mod Writing
pub mod Insertion
pub mod Stream
pub mod Reception
pub mod Session
pub mod Advance
pub mod Repetition
pub mod Early
pub mod Unfinished
pub mod Last
pub mod Closing
