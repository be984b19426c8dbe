-- ===== src/Network.antt =====
-- src/sender.c and src/receiver.c: the two programs together, with a network that loses, repeats,
-- reorders and damages datagrams.
pub mod State
pub mod Invariant
pub mod Preservation
pub mod Results
pub mod Runs
pub mod Calls
pub mod Turns
pub mod Exchange
pub mod Completion
pub mod Bounds
pub mod Closing
