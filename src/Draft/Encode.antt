-- ===== src/Draft/Encode.antt =====
-- src/inginious/format_segment/packet_implement.c: pkt_encode. `crc32` is zlib's function with the
-- initial value 0. The memory at a payload and the size that is asked for are those of
-- src/packet_implement.c.
use lingi1341_projet.Prelude.{
  ℕ, ◌+◌, Option, none, some, List, ltb, ◌==◌, if◌then◌else◌, ◌>>=◌, Outcome, returns,
}
use lingi1341_projet.Bytes.{u16_bytes, u32_bytes, swap16, swap32, write_at}
use lingi1341_projet.Packet.Fields.{first_bytes, header_bytes, pkt_ok, e_tr, e_nomem, Pkt}
use lingi1341_projet.Packet.Encode.{is_ok, read_payload, Encoded, required_size}
use lingi1341_projet.Draft.Fields.{pkt_set_tr}

module _ (crc32 : List ℕ → ℕ) where
  -- From offset 12 on: the payload and its checksum.
  unfoldable pub encode_payload : Pkt → List ℕ → Outcome Encoded
  encode_payload pkt buf = do
    bytes ← read_payload pkt.payload pkt.length
    buf ← write_at buf 12 bytes
    buf ← write_at buf (12 + pkt.length) (u32_bytes (swap32 (crc32 bytes)))
    returns (pkt_ok, some buf, 16 + pkt.length)

  -- From offset 8 on; `temp` has the length in network byte order and TR cleared.
  unfoldable pub encode_crc1 : Pkt → Pkt → List ℕ → Outcome Encoded
  encode_crc1 pkt temp buf = do
    buf ← write_at buf 8 (u32_bytes (swap32 (crc32 (header_bytes temp))))
    if pkt.length == 0 then returns (pkt_ok, some buf, 12) else encode_payload pkt buf

  unfoldable pub encode_header : Pkt → List ℕ → ℕ → Outcome Encoded
  encode_header pkt buf len = do
    buf ← write_at buf 0 (first_bytes pkt)
    buf ← write_at buf 2 (u16_bytes (swap16 pkt.length))
    buf ← write_at buf 4 (u32_bytes pkt.timestamp)
    let (status, temp) = pkt_set_tr (record pkt { length = swap16 pkt.length }) 0
    if is_ok status then encode_crc1 pkt temp buf else returns (e_tr, some buf, len)

  unfoldable pub pkt_encode : Option Pkt → Option (List ℕ) → ℕ → Outcome Encoded
  pkt_encode pkt none len = returns (e_nomem, none, len)
  pkt_encode none (some buf) len = returns (if len == 0 then e_nomem else pkt_ok, some buf, len)
  pkt_encode (some pkt) (some buf) len =
      if len == 0
      then returns (e_nomem, some buf, len)
      else if ltb len (required_size pkt)
      then returns (e_nomem, some buf, len)
      else encode_header pkt buf len
