-- ===== src/Correction.antt =====
-- src/inginious/format_segment/correction.c: an earlier version of the packets, from the exercise on
-- their format.
pub mod Fields
pub mod Encode
pub mod Decode
pub mod Wire
pub mod Verdict
pub mod Agreement
pub mod RoundTrip
pub mod Payload
