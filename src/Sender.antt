-- ===== src/Sender.antt =====
-- src/sender.c: the sender. The state and the functions are in State, Acks, Timer and Loop, the
-- proofs in the other modules.
pub mod State
pub mod Acks
pub mod Timer
pub mod Loop
pub mod Supply
pub mod Cumulative
pub mod Invariant
pub mod Timeouts
pub mod Ending
pub mod Filling
pub mod Input
pub mod Replies
pub mod Recent
pub mod Resend
pub mod Progress
pub mod Damaged
pub mod Events
pub mod Rounds
