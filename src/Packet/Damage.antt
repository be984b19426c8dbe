-- ===== src/Packet/Damage.antt =====
-- What recv() gives when a datagram was lost or damaged on its way.
use lingi1341_projet.Prelude.{ℕ, ◌≤◌, ◌≡◌, Option, none, some, List, ◌++◌, length, All}
use lingi1341_projet.Bytes.{IsByte}
use lingi1341_projet.Packet.Fields.{pkt_ok}
use lingi1341_projet.Packet.Format.{header_list, wire_tr, verdict, Header}

-- Nothing, or a buffer of at least 528 bytes that pkt_decode refuses, or that it takes for a packet
-- with TR set.
abbrev pub IsDamaged : (List ℕ → ℕ) → Option (List ℕ × ℕ) → Type 0
IsDamaged crc32 none = Unit {0}
IsDamaged crc32 (some (bytes, readed)) =
    (h : Header) × (rest : List ℕ) × (bytes ≡ header_list h ++ rest)
    × All IsByte (header_list h)
    × All IsByte rest
    × (516 ≤ length rest)
    × (verdict crc32 h rest ≡ pkt_ok → wire_tr h ≡ 1)
