-- ===== src/Packet/Ranges.antt =====
-- src/packet_implement.c: the fields of a packet stay within their C types.
use lingi1341_projet.Prelude.{
  ℕ, length, ◌+◌, ◌%◌, ◌≤◌, ◌<◌, ◌≡◌, refl, Bool, ◌||◌, some, List, [], ◌∷◌, arith, ltb, ◌==◌,
  not_ltb→le, drop, All, length-take, length-drop, All-take, All-drop, Yields, Yields-bind,
  Yields-if,
}
use lingi1341_projet.Bytes.{IsByte, IsU16, IsU32, bytes_u32, swap16, swap32, read_at}
use lingi1341_projet.Bytes.Memory.{swap16-swap16, swap16-IsU16, swap32-IsU32, read_at-in_range}
use lingi1341_projet.Packet.Fields.{
  ptype_data, max_payload_size, pkt_set_tr, pkt_set_length, header_bytes, StatusCode, Payload, null,
  freed, block, Pkt,
}
use lingi1341_projet.Packet.Decode.{
  store_front, decode_payload, decode_crc1, decode_header, decode_length, decode_type, pkt_decode,
}

-- A live block holds bytes.
abbrev pub IsBlock : Payload → Type 0
IsBlock null = Unit {0}
IsBlock freed = Unit {0}
IsBlock (block bytes) = All IsByte bytes

-- The ranges of the bit-fields, of uint8_t, uint16_t and uint32_t.
pub record InRange (pkt : Pkt) : Type 0 where
  pub window : pkt.window < 32
  pub truncated : pkt.truncated < 2
  pub kind : pkt.kind < 4
  pub seqnum : IsByte pkt.seqnum
  pub length : IsU16 pkt.length
  pub timestamp : IsU32 pkt.timestamp
  pub crc1 : IsU32 pkt.crc1
  pub crc2 : IsU32 pkt.crc2
  pub payload : IsBlock pkt.payload

abbrev pub Ranged : StatusCode × Pkt → Type 0
Ranged (_, pkt) = InRange pkt

-- `n` bytes are read.
read_at-IsByte :
    (object : List ℕ) (at n : ℕ)
    → at + n ≤ length object
    → All IsByte object
    → Yields (λ bytes. (length bytes ≡ n) × All IsByte bytes) (read_at object at n)
read_at-IsByte object at n inside bytes = (
  _,
  read_at-in_range object at n inside,
  (
    omega (arith, length-take n (drop at object), length-drop at object),
    All-take IsByte n (drop at object) (All-drop IsByte at object bytes),
  ),
)

bytes_u32-IsU32 : (bytes : List ℕ) → All IsByte bytes → IsU32 (bytes_u32 bytes)
unfolding bytes_u32
bytes_u32-IsU32 [] h = omega arith
bytes_u32-IsU32 (a ∷ []) h = omega arith
bytes_u32-IsU32 (a ∷ b ∷ []) h = omega arith
bytes_u32-IsU32 (a ∷ b ∷ c ∷ []) h = omega arith
bytes_u32-IsU32 (a ∷ b ∷ c ∷ d ∷ _) h = omega arith

store_front-InRange :
    (front : List ℕ) (pkt : Pkt) → All IsByte front → InRange pkt → InRange (store_front front pkt)
unfolding store_front
store_front-InRange [] pkt h r = r
store_front-InRange (a ∷ []) pkt h r = r
store_front-InRange (a ∷ b ∷ []) pkt h r = r
store_front-InRange (a ∷ b ∷ c ∷ []) pkt h r = r
store_front-InRange (a ∷ b ∷ c ∷ d ∷ _) pkt h r = record {
  window = omega arith;
  truncated = omega arith;
  kind = omega arith;
  seqnum = omega arith;
  length = omega arith;
  timestamp = r.timestamp;
  crc1 = r.crc1;
  crc2 = r.crc2;
  payload = r.payload;
}

-- Another length.
resized : (pkt : Pkt) (n : ℕ) → IsU16 n → InRange pkt → InRange (record pkt { length = n })
resized pkt n h r = record {
  window = r.window;
  truncated = r.truncated;
  kind = r.kind;
  seqnum = r.seqnum;
  length = h;
  timestamp = r.timestamp;
  crc1 = r.crc1;
  crc2 = r.crc2;
  payload = r.payload;
}

module _ (crc32 : List ℕ → ℕ) (bytes : List ℕ) (is_bytes : All IsByte bytes)
    (room : 528 ≤ length bytes) (memory : Bool) where
  payload-InRange :
      (pkt : Pkt)
      → pkt.length ≤ 512
      → InRange pkt
      → Yields Ranged (decode_payload crc32 bytes memory pkt)
  unfolding decode_payload pkt_set_length
  payload-InRange pkt fits r =
      Yields-if memory
        (λ _.
          Yields-bind _ _ (read_at-IsByte bytes 12 pkt.length (omega arith) is_bytes)
            (λ payload (size, contents).
              Yields-bind _ _ (read_at-IsByte bytes (12 + pkt.length) 4 (omega arith) is_bytes)
                (λ crc word.
                  Yields-if (crc32 payload == swap32 (bytes_u32 crc))
                    (λ _. (
                      _,
                      refl,
                      record {
                        window = r.window;
                        truncated = r.truncated;
                        kind = r.kind;
                        seqnum = r.seqnum;
                        length = r.length;
                        timestamp = r.timestamp;
                        crc1 = r.crc1;
                        crc2 = swap32-IsU32 (bytes_u32 crc);
                        payload = contents;
                      },
                    ))
                    (λ _. (_, refl, resized pkt 0 (omega arith) r)))))
        (λ _. (_, refl, r))

  crc1-InRange :
      (flag crc_load : ℕ) (pkt : Pkt)
      → flag < 2
      → pkt.length ≤ 512
      → InRange pkt
      → Yields Ranged (decode_crc1 crc32 bytes memory flag crc_load pkt)
  unfolding decode_crc1
  crc1-InRange flag crc_load pkt bit fits r =
      Yields-if (crc32 (header_bytes network) % 4294967296 == crc_load)
        (λ _.
          Yields-if (host.length == 0) (λ _. (_, refl, done))
            (λ _. payload-InRange host (rw (swap16-swap16 pkt.length r.length) fits) done))
        (λ _. (_, refl, restored (swap16 pkt.length) (swap16-IsU16 pkt.length)))
    where
      network : Pkt
      network = record pkt { length = swap16 pkt.length }

      host : Pkt
      host = record pkt { length = swap16 (swap16 pkt.length); truncated = flag }

      restored : (n : ℕ) → IsU16 n → InRange (record pkt { length = n; truncated = flag })
      restored n h = record {
        window = r.window;
        truncated = bit;
        kind = r.kind;
        seqnum = r.seqnum;
        length = h;
        timestamp = r.timestamp;
        crc1 = r.crc1;
        crc2 = r.crc2;
        payload = r.payload;
      }

      done : InRange host
      done = restored (swap16 (swap16 pkt.length)) (swap16-IsU16 (swap16 pkt.length))

  header-InRange :
      (pkt : Pkt)
      → pkt.length ≤ 512
      → InRange pkt
      → Yields Ranged (decode_header crc32 bytes memory pkt)
  unfolding decode_header pkt_set_tr
  header-InRange pkt fits r =
      Yields-bind _ _ (read_at-IsByte bytes 4 4 (omega arith) is_bytes) (λ time (_, word).
        Yields-bind _ _ (read_at-IsByte bytes 8 4 (omega arith) is_bytes) (λ crc _.
          crc1-InRange pkt.truncated (swap32 (bytes_u32 crc))
            (record pkt {
              timestamp = bytes_u32 time;
              crc1 = swap32 (bytes_u32 crc);
              truncated = 0;
            })
            r.truncated fits
            (record {
              window = r.window;
              truncated = omega arith;
              kind = r.kind;
              seqnum = r.seqnum;
              length = r.length;
              timestamp = bytes_u32-IsU32 time word;
              crc1 = swap32-IsU32 (bytes_u32 crc);
              crc2 = r.crc2;
              payload = r.payload;
            })))

  length-InRange : (pkt : Pkt) → InRange pkt → Yields Ranged (decode_length crc32 bytes memory pkt)
  unfolding decode_length
  length-InRange pkt r =
      Yields-if (ltb max_payload_size (swap16 pkt.length)) (λ _. (_, refl, host))
        (λ fits. header-InRange _ (not_ltb→le 512 (swap16 pkt.length) fits) host)
    where
      host : InRange (record pkt { length = swap16 pkt.length })
      host = resized pkt (swap16 pkt.length) (swap16-IsU16 pkt.length) r

  -- pkt_decode of a buffer of at least 528 bytes, into a structure whose fields are within their C
  -- types and whether malloc succeeds or not: it returns, and whatever the status, the fields of
  -- the structure are within their C types, and its payload, if it has one, consists of bytes.
  pub pkt_decode-InRange :
      (len : ℕ) (pkt : Pkt)
      → InRange pkt
      → Yields Ranged (pkt_decode crc32 (some bytes) len memory pkt)
  unfolding pkt_decode decode_type
  pkt_decode-InRange len pkt r =
      Yields-bind _ _ (read_at-IsByte bytes 0 4 (omega arith) is_bytes) (λ front (_, contents).
        let stored = store_front-InRange front pkt contents r in
        Yields-if (ltb (store_front front pkt).kind 1 || ltb 3 (store_front front pkt).kind)
          (λ _. (_, refl, stored))
          (λ _.
            Yields-if ((store_front front pkt).truncated == 0)
              (λ _. length-InRange (store_front front pkt) stored)
              (λ _.
                Yields-if ((store_front front pkt).kind == ptype_data)
                  (λ _. length-InRange (store_front front pkt) stored) (λ _. (_, refl, stored)))))
