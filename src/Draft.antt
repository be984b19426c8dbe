-- ===== src/Draft.antt =====
-- src/inginious/format_segment/packet_implement.c: the packets as they were before the program, from
-- which src/packet_implement.c was made.
pub mod Fields
pub mod Encode
pub mod Decode
pub mod Agreement
pub mod RoundTrip
