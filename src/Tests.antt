-- ===== src/Tests.antt =====
-- The theorems at concrete inputs. The checksum of the tests is the sum of the bytes modulo 2^32.
pub mod Packets
pub mod Queues
pub mod Transfers
pub mod Sends
pub mod Sockets
pub mod Records
pub mod Network
pub mod Reached
pub mod Closed
pub mod Corrections
pub mod Drafts
pub mod Chats
pub mod Calculators
pub mod Steady
