-- ===== src/Packet/Decode.antt =====
-- src/packet_implement.c: pkt_decode. `crc32` is zlib's function with the initial value 0, `memory`
-- says whether malloc succeeds. The buffer is the whole object at `data`: the code does not look at
-- the number of bytes received, the parameter `len`.
use lingi1341_projet.Prelude.{
  ℕ, ◌+◌, ◌*◌, ◌/◌, ◌%◌, Outcome, returns, ◌>>=◌, Bool, ◌||◌, Option, none, some, List, ◌∷◌, ltb,
  ◌==◌, if◌then◌else◌,
}
use lingi1341_projet.Bytes.{bytes_u32, swap16, swap32, read_at}
use lingi1341_projet.Packet.Fields.{
  ptype_data, max_payload_size, StatusCode, pkt_ok, e_type, e_tr, e_length, e_crc, e_nomem,
  e_unconsistent, block, Pkt, pkt_set_tr, pkt_set_length, header_bytes,
}
use lingi1341_projet.Packet.Encode.{is_ok}

-- memcpy of four bytes onto the start of the structure.
unfoldable pub store_front : List ℕ → Pkt → Pkt
store_front (a ∷ b ∷ c ∷ d ∷ _) pkt = record pkt {
  window = a % 32;
  truncated = a / 32 % 2;
  kind = a / 64 % 4;
  seqnum = b;
  length = c + 256 * d;
}
store_front _ pkt = pkt

module _ (crc32 : List ℕ → ℕ) where
  unfoldable pub decode_payload : List ℕ → (memory : Bool) → Pkt → Outcome (StatusCode × Pkt)
  decode_payload bytes memory pkt =
      if memory
      then (do
        payload ← read_at bytes 12 pkt.length
        crc ← read_at bytes (12 + pkt.length) 4
        let crc2 = swap32 (bytes_u32 crc)
        if crc32 payload == crc2
            then returns (pkt_ok, record pkt { payload = block payload; crc2 = crc2 })
            else returns (e_crc, (pkt_set_length pkt 0).1))
      else returns (e_nomem, pkt)

  -- `pkt` has TR cleared and its length in host byte order.
  unfoldable pub decode_crc1 :
      List ℕ → (memory : Bool) → (flag : ℕ) → (crc_load : ℕ) → Pkt → Outcome (StatusCode × Pkt)
  decode_crc1 bytes memory flag crc_load pkt =
      let network = record pkt { length = swap16 pkt.length } in
      let crc = crc32 (header_bytes network) % 4294967296 in
      let restored = record network { truncated = flag } in
      if crc == crc_load
      then (let host = record restored { length = swap16 restored.length } in
          if host.length == 0 then returns (pkt_ok, host) else decode_payload bytes memory host)
      else returns (e_crc, restored)

  unfoldable pub decode_header : List ℕ → (memory : Bool) → Pkt → Outcome (StatusCode × Pkt)
  decode_header bytes memory pkt = do
    time ← read_at bytes 4 4
    crc ← read_at bytes 8 4
    let crc1 = swap32 (bytes_u32 crc)
    let pkt' = record pkt { timestamp = bytes_u32 time; crc1 = crc1 }
    let (status, cleared) = pkt_set_tr pkt' 0
    if is_ok status
        then decode_crc1 bytes memory pkt'.truncated crc1 cleared
        else returns (e_tr, cleared)

  unfoldable pub decode_length : List ℕ → (memory : Bool) → Pkt → Outcome (StatusCode × Pkt)
  decode_length bytes memory pkt =
      let host = record pkt { length = swap16 pkt.length } in
      if ltb max_payload_size host.length
      then returns (e_length, host)
      else decode_header bytes memory host

  unfoldable pub decode_type : List ℕ → (memory : Bool) → Pkt → Outcome (StatusCode × Pkt)
  decode_type bytes memory pkt =
      if ltb pkt.kind 1 || ltb 3 pkt.kind
      then returns (e_type, pkt)
      else if pkt.truncated == 0
      then decode_length bytes memory pkt
      else if pkt.kind == ptype_data
      then decode_length bytes memory pkt
      else returns (e_type, pkt)

  unfoldable pub pkt_decode :
      Option (List ℕ) → (len : ℕ) → (memory : Bool) → Pkt → Outcome (StatusCode × Pkt)
  pkt_decode none len memory pkt = returns (e_unconsistent, pkt)
  pkt_decode (some bytes) len memory pkt = do
    front ← read_at bytes 0 4
    decode_type bytes memory (store_front front pkt)
