-- ===== src/Packet/Wire.antt =====
-- The packet format of src/packet_implement.h, byte by byte and in network byte order, and
-- pkt_encode against it.
use lingi1341_projet.Prelude.{
  ℕ, ◌+◌, ◌*◌, ◌/◌, ◌%◌, ◌≤◌, ◌<◌, ◌≡◌, ap₂, ◌∙◌, false, some, List, [], ◌∷◌, ◌++◌, arith, ltb,
  le→not_ltb, ne→not_==, length, drop, length-append, length-drop, ◌>>=◌, Outcome, returns,
  undefined,
}
use lingi1341_projet.Bytes.{u16_bytes, u32_bytes, swap16, swap32, write_at}
use lingi1341_projet.Bytes.Memory.{write_at-append, read_at-whole, write_at-out_of_range}
use lingi1341_projet.Packet.Fields.{pkt_set_tr, first_bytes, header_bytes, pkt_ok, block, Pkt}
use lingi1341_projet.Packet.Encode.{
  read_payload, required_size, encode_payload, encode_crc1, encode_header, pkt_encode,
}

abbrev pub be16 : ℕ → List ℕ
be16 n = n / 256 % 256 ∷ n % 256 ∷ []

abbrev pub be32 : ℕ → List ℕ
be32 n = n / 16777216 % 256 ∷ n / 65536 % 256 ∷ n / 256 % 256 ∷ n % 256 ∷ []

-- The first eight bytes, with the given TR bit. The timestamp is in the order of the host.
abbrev pub wire_front : ℕ → Pkt → List ℕ
wire_front tr pkt =
    (pkt.window + 32 * tr + 64 * pkt.kind)
    ∷ pkt.seqnum
    ∷ pkt.length / 256 % 256
    ∷ pkt.length % 256
    ∷ u32_bytes pkt.timestamp

module _ (crc32 : List ℕ → ℕ) where
  abbrev pub wire_header : Pkt → List ℕ
  wire_header pkt = wire_front pkt.truncated pkt ++ be32 (crc32 (wire_front 0 pkt))

  -- The payload with its checksum, absent when it is empty.
  abbrev pub wire_payload : List ℕ → List ℕ
  wire_payload [] = []
  wire_payload (x ∷ xs) = (x ∷ xs) ++ be32 (crc32 (x ∷ xs))

  abbrev pub wire : Pkt → List ℕ → List ℕ
  wire pkt bytes = wire_header pkt ++ wire_payload bytes

-- `length` bytes stand at the payload's address.
abbrev pub Carries : Pkt → List ℕ → Type 0
Carries pkt [] = pkt.length ≡ 0
Carries pkt (x ∷ xs) = (pkt.length ≡ length (x ∷ xs)) × (pkt.payload ≡ block (x ∷ xs))

pub u16_bytes-swap16 : (n : ℕ) → u16_bytes (swap16 n) ≡ be16 n
unfolding u16_bytes swap16
u16_bytes-swap16 n = ap₂ (λ a b. a ∷ b ∷ []) (omega arith) (omega arith)

pub u32_bytes-swap32 : (n : ℕ) → u32_bytes (swap32 n) ≡ be32 n
unfolding u32_bytes swap32
u32_bytes-swap32 n = ground arith

-- One write behind what is already written, in a chain of writes.
pub write_step {ℓ} :
    {B : Type ℓ} (old done bytes : List ℕ) (next : List ℕ → Outcome B)
    → length done + length bytes ≤ length old
    → (write_at (done ++ drop (length done) old) (length done) bytes >>= next)
      ≡ next ((done ++ bytes) ++ drop (length (done ++ bytes)) old)
write_step old done bytes next room = rw (write_at-append old done bytes room)

module _ (crc32 : List ℕ → ℕ) (pkt : Pkt) (old : List ℕ) where
  abbrev pub temp : Pkt
  temp = record pkt { length = swap16 pkt.length; truncated = 0 }

  pub temp_bytes : header_bytes temp ≡ wire_front 0 pkt
  unfolding header_bytes first_bytes
  temp_bytes = rw (u16_bytes-swap16 pkt.length)

  abbrev pub front : List ℕ
  front = wire_front pkt.truncated pkt

  abbrev pub header : List ℕ
  header = wire_header crc32 pkt

  pub encode_front :
      (len : ℕ)
      → 8 ≤ length old
      → encode_header crc32 pkt old len ≡ encode_crc1 crc32 pkt temp (front ++ drop 8 old)
  unfolding encode_header first_bytes u32_bytes pkt_set_tr
  encode_front len room = rw (u16_bytes-swap16 pkt.length) (
      write_step old [] (first_bytes pkt) _ (omega arith)
      ∙ write_step old (first_bytes pkt) (be16 pkt.length) _ (omega arith)
      ∙ write_step old (first_bytes pkt ++ be16 pkt.length) (u32_bytes pkt.timestamp) _
          (omega arith))

  pub encode_empty :
      pkt.length ≡ 0
      → 12 ≤ length old
      → encode_crc1 crc32 pkt temp (front ++ drop 8 old)
        ≡ returns (pkt_ok, some (header ++ drop 12 old), 12)
  unfolding encode_crc1 u32_bytes
  encode_empty empty room =
      rw (temp_bytes, u32_bytes-swap32 (crc32 (wire_front 0 pkt)))
        (write_step old front (be32 (crc32 (wire_front 0 pkt))) _ (omega arith) ∙ rw empty)

  -- Behind any twelve bytes `head`.
  encode_payload_lem :
      (head bytes : List ℕ)
      → length head ≡ 12
      → pkt.length ≡ length bytes
      → pkt.payload ≡ block bytes
      → 16 + length bytes ≤ length old
      → let done = (head ++ bytes) ++ be32 (crc32 bytes) in
        encode_payload crc32 pkt (head ++ drop (length head) old)
        ≡ returns (pkt_ok, some (done ++ drop (length done) old), length done)
  unfolding encode_payload read_payload
  encode_payload_lem head bytes twelve size carried room =
      rw
        (
          carried,
          size,
          read_at-whole bytes,
          u32_bytes-swap32 (crc32 bytes),
          at_end,
          total,
          ← twelve,
        )
        (write_step old head bytes _ (omega arith)
          ∙ write_step old (head ++ bytes) (be32 (crc32 bytes)) _
              (omega (arith, length-append head bytes)))
    where
      at_end : 12 + length bytes ≡ length (head ++ bytes)
      at_end = omega (arith, length-append head bytes)

      total : 16 + length bytes ≡ length ((head ++ bytes) ++ be32 (crc32 bytes))
      total =
          omega
            (arith, length-append head bytes, length-append (head ++ bytes) (be32 (crc32 bytes)))

  pub encode_full :
      (bytes : List ℕ)
      → 0 < length bytes
      → pkt.length ≡ length bytes
      → pkt.payload ≡ block bytes
      → 16 + length bytes ≤ length old
      → let done = (header ++ bytes) ++ be32 (crc32 bytes) in
        encode_crc1 crc32 pkt temp (front ++ drop 8 old)
        ≡ returns (pkt_ok, some (done ++ drop (length done) old), length done)
  unfolding encode_crc1 u32_bytes
  encode_full bytes positive size carried room =
      rw (temp_bytes, u32_bytes-swap32 (crc32 (wire_front 0 pkt)))
        (write_step old front (be32 (crc32 (wire_front 0 pkt))) _ (omega arith)
          ∙ rw (ne→not_== pkt.length 0 (omega arith))
              (encode_payload_lem header bytes (omega arith) size carried room))

  payload_no_room :
      (head bytes : List ℕ)
      → length head ≡ 12
      → pkt.length ≡ length bytes
      → pkt.payload ≡ block bytes
      → 12 + length bytes ≤ length old
      → length old < 16 + length bytes
      → encode_payload crc32 pkt (head ++ drop (length head) old) ≡ undefined
  unfolding encode_payload read_payload u32_bytes
  payload_no_room head bytes twelve size carried low high =
      rw (carried, size, read_at-whole bytes, at_end, ← twelve)
        (write_step old head bytes _ (omega arith)
          ∙ rw (
              write_at-out_of_range ((head ++ bytes) ++ drop (length (head ++ bytes)) old)
                (length (head ++ bytes)) (u32_bytes (swap32 (crc32 bytes)))
                (omega (
                  arith,
                  length-append head bytes,
                  length-append (head ++ bytes) (drop (length (head ++ bytes)) old),
                  length-drop (length (head ++ bytes)) old,
                ))))
    where
      at_end : 12 + length bytes ≡ length (head ++ bytes)
      at_end = omega (arith, length-append head bytes)

  no_room :
      (bytes : List ℕ)
      → 0 < length bytes
      → pkt.length ≡ length bytes
      → pkt.payload ≡ block bytes
      → 12 + length bytes ≤ length old
      → length old < 16 + length bytes
      → encode_crc1 crc32 pkt temp (front ++ drop 8 old) ≡ undefined
  unfolding encode_crc1 u32_bytes
  no_room bytes positive size carried low high =
      rw (temp_bytes, u32_bytes-swap32 (crc32 (wire_front 0 pkt)))
        (write_step old front (be32 (crc32 (wire_front 0 pkt))) _ (omega arith)
          ∙ rw (ne→not_== pkt.length 0 (omega arith))
              (payload_no_room header bytes (omega arith) size carried low high))

  -- If the packet carries `bytes`, `*len` passes the size check and the buffer has room for the
  -- packet's format, `pkt_encode` succeeds, writes exactly that format at the start of the buffer,
  -- keeps the rest of it, and sets `*len` to the number of bytes written.
  pub pkt_encode-wire :
      (bytes : List ℕ) (len : ℕ)
      → Carries pkt bytes
      → length (wire crc32 pkt bytes) ≤ length old
      → required_size pkt ≤ len
      → let done = wire crc32 pkt bytes in
        pkt_encode crc32 (some pkt) (some old) len
        ≡ returns (pkt_ok, some (done ++ drop (length done) old), length done)
  unfolding pkt_encode u32_bytes
  pkt_encode-wire [] len empty room enough =
      rw (ne→not_== len 0 (omega arith), le→not_ltb len (required_size pkt) enough)
        (encode_front len (omega arith) ∙ encode_empty empty (omega arith))
  pkt_encode-wire (x ∷ xs) len (size, carried) room enough =
      rw (ne→not_== len 0 (omega arith), le→not_ltb len (required_size pkt) enough)
        (encode_front len (omega arith)
          ∙ encode_full (x ∷ xs) (omega arith) size carried
              (omega (arith, length-append xs (be32 (crc32 (x ∷ xs))))))

  -- The check of `*len` leaves out the payload's checksum while `crc2` is 0: with a payload and a
  -- buffer of `*len` bytes that holds the payload and not its checksum, the check passes and the
  -- last memcpy writes past the end of the buffer.
  pub pkt_encode-overflow :
      (bytes : List ℕ)
      → 0 < length bytes
      → Carries pkt bytes
      → pkt.crc2 ≡ 0
      → 12 + length bytes ≤ length old
      → length old < 16 + length bytes
      → pkt_encode crc32 (some pkt) (some old) (length old) ≡ undefined
  unfolding pkt_encode
  pkt_encode-overflow [] positive carries zero_crc2 low high = absurd (omega arith)
  pkt_encode-overflow (x ∷ xs) positive (size, carried) zero_crc2 low high =
      rw (ne→not_== (length old) 0 (omega arith), passes)
        (encode_front (length old) (omega arith) ∙ no_room (x ∷ xs) positive size carried low high)
    where
      passes : ltb (length old) (required_size pkt) ≡ false
      passes = rw zero_crc2 (le→not_ltb (length old) (12 + 0 + pkt.length) (omega arith))
