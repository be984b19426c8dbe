-- ===== src/Correction/Encode.antt =====
-- src/inginious/format_segment/correction.c: pkt_encode. `crc32` is zlib's function with the initial
-- value 0.
use lingi1341_projet.Prelude.{
  ℕ, ◌+◌, ◌*◌, ◌/◌, ◌%◌, ◌&&◌, not, Option, none, some, List, [], ◌∷◌, ltb, ◌==◌, if◌then◌else◌,
  ◌>>=◌, Outcome, returns, undefined,
}
use lingi1341_projet.Bytes.{u16_bytes, u32_bytes, swap16, swap32, read_at, write_at}
use lingi1341_projet.Packet.Encode.{read_payload, Encoded}
use lingi1341_projet.Packet.Fields.{first_bytes, pkt_ok, e_nomem, Pkt}
use lingi1341_projet.Correction.Fields.{pkt_get_payload}

-- pkt_set_tr of the copy of the header, to 0, which cannot fail.
unfoldable pub clear_tr : List ℕ → List ℕ
clear_tr [] = []
clear_tr (b ∷ rest) = (b % 32 + b / 64 * 64) ∷ rest

module _ (crc32 : List ℕ → ℕ) where
  -- From offset 12 on.
  unfoldable pub write_payload : Pkt → List ℕ → Outcome Encoded
  write_payload pkt buf = do
    bytes ← read_payload (pkt_get_payload pkt) pkt.length
    buf ← write_at buf 12 bytes
    buf ← write_at buf (12 + pkt.length) (u32_bytes (swap32 (crc32 bytes)))
    returns (pkt_ok, some buf, 16 + pkt.length)

  -- Behind the checks.
  unfoldable pub write_packet : Pkt → List ℕ → Outcome Encoded
  write_packet pkt buf = do
    buf ← write_at buf 0 (first_bytes pkt)
    buf ← write_at buf 2 (u16_bytes (swap16 pkt.length))
    buf ← write_at buf 4 (u32_bytes pkt.timestamp)
    buftemp ← read_at buf 0 8
    buf ← write_at buf 8 (u32_bytes (swap32 (crc32 (clear_tr buftemp))))
    if pkt.length == 0 then returns (pkt_ok, some buf, 12) else write_payload pkt buf

  -- The seqnum is read before the test for NULL.
  unfoldable pub pkt_encode : Option Pkt → Option (List ℕ) → ℕ → Outcome Encoded
  pkt_encode none buf len = undefined
  pkt_encode (some pkt) none len = returns (e_nomem, none, len)
  pkt_encode (some pkt) (some buf) len =
      if len == 0
      then returns (e_nomem, some buf, len)
      else if ltb len 12
      then returns (e_nomem, some buf, len)
      else if not (pkt.length == 0) && ltb len (pkt.length + 4 + 12)
      then returns (e_nomem, some buf, len)
      else write_packet pkt buf
