-- ===== src/Packet.antt =====
-- src/packet_implement.h and src/packet_implement.c: packets and their encoding. The structure and
-- the accessors are in Fields, pkt_encode in Encode, pkt_decode in Decode.
pub mod Fields
pub mod Encode
pub mod Decode
pub mod Wire
pub mod Format
pub mod Verdict
pub mod Ranges
pub mod RoundTrip
pub mod Datagram
pub mod Damage
pub mod Deletion
