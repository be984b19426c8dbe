-- ===== src/Correction/Decode.antt =====
-- src/inginious/format_segment/correction.c: pkt_decode. The first of the two answers of malloc is for
-- a block that the code does not use, the second one for the payload of the packet.
use lingi1341_projet.Prelude.{
  ℕ, ◌+◌, ◌-◌, ◌*◌, ◌/◌, ◌%◌, Bool, ◌&&◌, not, Option, none, some, List, [], ◌∷◌, ltb, ◌==◌,
  if◌then◌else◌, drop, ◌>>=◌, Outcome, returns,
}
use lingi1341_projet.Bytes.{bytes_u32, swap16, swap32, read_at}
use lingi1341_projet.Packet.Encode.{is_ok}
use lingi1341_projet.Packet.Fields.{
  StatusCode, pkt_ok, e_type, e_tr, e_length, e_crc, e_nomem, e_unconsistent, Pkt,
}
use lingi1341_projet.Correction.Fields.{
  is_type, pkt_set_length, pkt_set_crc1, pkt_set_crc2, pkt_set_payload,
}

-- `int temp = len-16` of a size_t, and its test: `none` where the code returns.
unfoldable pub payload_size : ℕ → Option ℕ
payload_size len =
    if ltb 12 len
    then (let temp = (len + 18446744073709551616 - 16) % 4294967296 in
        if ltb 0 temp && ltb temp 2147483648 then some temp else none)
    else some 0

-- memcpy of twelve bytes onto the start of the structure.
unfoldable pub store_header : List ℕ → Pkt → Pkt
store_header (a ∷ b ∷ c ∷ d ∷ t0 ∷ t1 ∷ t2 ∷ t3 ∷ c0 ∷ c1 ∷ c2 ∷ c3 ∷ _) pkt = record pkt {
  window = a % 32;
  truncated = a / 32 % 2;
  kind = a / 64 % 4;
  seqnum = b;
  length = c + 256 * d;
  timestamp = bytes_u32 (t0 ∷ t1 ∷ t2 ∷ t3 ∷ []);
  crc1 = bytes_u32 (c0 ∷ c1 ∷ c2 ∷ c3 ∷ []);
}
store_header _ pkt = pkt

module _ (crc32 : List ℕ → ℕ) where
  -- The second checksum is kept if the packet can have one.
  unfoldable pub decode_crc2 : ℕ → StatusCode × Pkt → StatusCode × Pkt
  decode_crc2 crc2 (status, pkt) = if is_ok status then pkt_set_crc2 pkt crc2 else (status, pkt)

  unfoldable pub decode_payload :
      List ℕ → (size : ℕ) → (memory memory' : Bool) → Pkt → Outcome (StatusCode × Pkt)
  decode_payload bytes size memory memory' pkt =
      if memory
      then (do
        payload ← read_at bytes 12 size
        crc ← read_at bytes (12 + size) 4
        let crc2 = swap32 (bytes_u32 crc)
        if crc32 payload == crc2
            then pkt_set_payload pkt (some (drop 12 bytes)) (size % 65536) memory'
              >>= (λ result. returns (decode_crc2 crc2 result))
            else returns (e_crc, pkt))
      else returns (e_nomem, pkt)

  -- `pkt` has its length and its first checksum in the order of the host.
  unfoldable pub decode_checked :
      List ℕ → (size : ℕ) → (memory memory' : Bool) → Pkt → Outcome (StatusCode × Pkt)
  decode_checked bytes size memory memory' pkt = do
    covered ← read_at bytes 0 8
    if not (crc32 covered == pkt.crc1)
        then returns (e_crc, pkt)
        else if not (size == pkt.length)
        then returns (e_length, pkt)
        else if not (is_type pkt.kind)
        then returns (e_type, pkt)
        else if size == 0
        then returns (pkt_ok, pkt)
        else decode_payload bytes size memory memory' pkt

  -- From memcpy on. Where pkt_set_length fails, the code returns `err`, which is 0.
  unfoldable pub decode_header :
      List ℕ → (size : ℕ) → (memory memory' : Bool) → Pkt → Outcome (StatusCode × Pkt)
  decode_header bytes size memory memory' pkt = do
    header ← read_at bytes 0 12
    let pkt' = store_header header pkt
    let (status, host) = pkt_set_length pkt' (swap16 pkt'.length)
    if pkt'.truncated == 1
        then returns (e_tr, pkt')
        else if is_ok status
        then decode_checked bytes size memory memory' (pkt_set_crc1 host (swap32 host.crc1)).1
        else returns (pkt_ok, host)

  unfoldable pub pkt_decode :
      Option (List ℕ)
      → (len : ℕ) → (memory memory' : Bool) → Option Pkt
      → Outcome (StatusCode × Option Pkt)
  pkt_decode none len memory memory' pkt = returns (e_unconsistent, pkt)
  pkt_decode (some bytes) len memory memory' none = returns (e_unconsistent, none)
  pkt_decode (some bytes) len memory memory' (some pkt) =
      if ltb len 12 then returns (e_unconsistent, some pkt) else elim (payload_size len) [
        | none ↦ returns (e_unconsistent, some pkt)
        | some size ↦
            decode_header bytes size memory memory' pkt
            >>= (λ (status, pkt'). returns (status, some pkt'))
      ]
