-- ===== src/Packet/Verdict.antt =====
-- pkt_decode of src/packet_implement.c against the packet format: what it answers on any buffer of
-- the size that its callers pass, which checks come first, and the packet that it builds.
use lingi1341_projet.Prelude.{
  ℕ, ◌+◌, ◌*◌, ◌%◌, ◌≤◌, ◌<◌, ◌≡◌, refl, ◌≢◌, ◌⊎◌, inl, inr, true, ◌||◌, some, List, [], ◌∷◌, ◌++◌,
  arith, ltb, ◌==◌, not_ltb→le, ne→not_==, not_==→ne, Bool-cases, length, take, drop, All,
  length-take, length-drop, drop-drop, All-take, All-drop, Outcome, returns,
}
use lingi1341_projet.Bytes.{IsByte, IsU32, u16_bytes, u32_bytes, bytes_u32, swap16, swap32}
use lingi1341_projet.Bytes.Memory.{swap16-swap16, read_at-in_range}
use lingi1341_projet.Packet.Fields.{
  ptype_data, pkt_set_tr, pkt_set_length, first_bytes, header_bytes, StatusCode, pkt_ok, block, Pkt,
}
use lingi1341_projet.Packet.Decode.{
  store_front, decode_payload, decode_crc1, decode_header, decode_length, decode_type, pkt_decode,
}
use lingi1341_projet.Packet.Format.{
  be_number, header_list, wire_kind, wire_tr, wire_size, wire_crc1, covered, payload_verdict,
  crc_verdict, length_verdict, verdict, decoded, Header,
}
use native.Mathlib.Nat.{mod-eq_of_lt}

-- The call answers `status`; it builds `good` if that is success, and keeps the payload of `old` if
-- not.
abbrev pub Decides : Outcome (StatusCode × Pkt) → StatusCode → Pkt → Pkt → Type 0
Decides call status old good =
    (out : Pkt) × (call ≡ returns (status, out))
    × (status ≡ pkt_ok → out ≡ good)
    × ((out.payload ≡ old.payload) ⊎ (status ≡ pkt_ok))

pub swap32-bytes_u32 :
    (bytes : List ℕ)
    → length bytes ≡ 4
    → All IsByte bytes
    → swap32 (bytes_u32 bytes) ≡ be_number bytes
unfolding swap32 bytes_u32
swap32-bytes_u32 [] size h = absurd (omega arith)
swap32-bytes_u32 (a ∷ []) size h = absurd (omega arith)
swap32-bytes_u32 (a ∷ b ∷ []) size h = absurd (omega arith)
swap32-bytes_u32 (a ∷ b ∷ c ∷ []) size h = absurd (omega arith)
swap32-bytes_u32 (a ∷ b ∷ c ∷ d ∷ []) size h = omega arith
swap32-bytes_u32 (a ∷ b ∷ c ∷ d ∷ e ∷ l) size h = absurd (omega arith)

module _ (crc32 : List ℕ → ℕ) (h : Header) (rest : List ℕ) where
  abbrev pub buffer : List ℕ
  buffer = header_list h ++ rest

  module _ (is_rest : All IsByte rest) (room : 516 ≤ length rest) where
    payload_Decides :
        (pkt : Pkt)
        → pkt.length ≡ wire_size h
        → wire_size h ≤ 512
        → wire_size h ≢ 0
        → Decides
            (decode_payload crc32 buffer true pkt)
            (payload_verdict crc32 h rest)
            pkt
            (record pkt {
              payload = block (take (wire_size h) rest);
              crc2 = be_number (take 4 (drop (wire_size h) rest));
            })
    unfolding decode_payload pkt_set_length
    payload_Decides pkt size fits positive =
        rw
          (
            size,
            read_at-in_range buffer 12 (wire_size h) (omega arith),
            read_at-in_range buffer (12 + wire_size h) 4 (omega arith),
            ← drop-drop 12 (wire_size h) buffer,
            number,
            ne→not_== (wire_size h) 0 positive,
          )
          (elim (Bool-cases (crc32 (take (wire_size h) rest) == be_number tail)) [
            | inl same ↦ rw same (_, refl, λ _. refl, inr refl)
            | inr differ ↦ rw differ (_, refl, λ e. cc, inl refl)
          ])
      where
        tail : List ℕ
        tail = take 4 (drop (wire_size h) rest)

        number : swap32 (bytes_u32 tail) ≡ be_number tail
        number =
            swap32-bytes_u32 tail
              (omega
                (arith, length-take 4 (drop (wire_size h) rest), length-drop (wire_size h) rest))
              (All-take IsByte 4 _ (All-drop IsByte (wire_size h) rest is_rest))

    -- The structure after the header has been read, with the given TR.
    abbrev fields : ℕ → Pkt → Pkt
    fields tr pkt = record pkt {
      window = h.b0 % 32;
      truncated = tr;
      kind = wire_kind h;
      seqnum = h.b1;
      length = wire_size h;
      timestamp = bytes_u32 (h.b4 ∷ h.b5 ∷ h.b6 ∷ h.b7 ∷ []);
      crc1 = wire_crc1 h;
    }

    module _ (is_header : All IsByte (header_list h)) where
      size-IsU16 : wire_size h < 65536
      size-IsU16 = omega arith

      network_bytes :
          (pkt : Pkt)
          → header_bytes (record (fields 0 pkt) { length = swap16 (wire_size h) }) ≡ covered h
      unfolding header_bytes first_bytes u16_bytes u32_bytes bytes_u32 swap16
      network_bytes pkt = ground arith

      crc_Decides :
          ((bytes : List ℕ) → IsU32 (crc32 bytes))
          → (pkt : Pkt) → wire_size h ≤ 512
          → Decides
              (decode_crc1 crc32 buffer true (wire_tr h) (wire_crc1 h) (fields 0 pkt))
              (crc_verdict crc32 h rest)
              pkt
              (decoded crc32 h rest pkt)
      unfolding decode_crc1
      crc_Decides small pkt fits =
          rw
            (
              network_bytes pkt,
              mod-eq_of_lt (small (covered h)),
              swap16-swap16 (wire_size h) size-IsU16,
            )
            (elim (Bool-cases (crc32 (covered h) == wire_crc1 h)) [
              | inl same ↦ rw same (elim (Bool-cases (wire_size h == 0)) [
                | inl empty ↦ rw empty (_, refl, λ _. refl, inr refl)
                | inr full ↦ rw full (
                    rw full at (
                      payload_Decides (fields (wire_tr h) pkt) refl fits
                        (not_==→ne (wire_size h) 0 full)))
              ])
              | inr differ ↦ rw differ (_, refl, λ e. cc, inl refl)
            ])

      header_Decides :
          ((bytes : List ℕ) → IsU32 (crc32 bytes))
          → (pkt : Pkt) → wire_size h ≤ 512
          → Decides
              (decode_header crc32 buffer true
                (record (fields (wire_tr h) pkt) { timestamp = pkt.timestamp; crc1 = pkt.crc1 }))
              (crc_verdict crc32 h rest)
              pkt
              (decoded crc32 h rest pkt)
      unfolding decode_header pkt_set_tr
      header_Decides small pkt fits =
          rw
            (
              read_at-in_range buffer 4 4 (omega arith),
              read_at-in_range buffer 8 4 (omega arith),
              swap32-bytes_u32 (h.b8 ∷ h.b9 ∷ h.b10 ∷ h.b11 ∷ []) refl (omega arith),
            )
            (crc_Decides small pkt fits)

      length_Decides :
          ((bytes : List ℕ) → IsU32 (crc32 bytes))
          → (pkt : Pkt)
          → Decides
              (decode_length crc32 buffer true (record (fields (wire_tr h) pkt) {
                length = h.b2 + 256 * h.b3;
                timestamp = pkt.timestamp;
                crc1 = pkt.crc1;
              }))
              (length_verdict crc32 h rest)
              pkt
              (decoded crc32 h rest pkt)
      unfolding decode_length
      length_Decides small pkt = rw host (elim (Bool-cases (ltb 512 (wire_size h))) [
        | inl large ↦ rw large (_, refl, λ e. cc, inl refl)
        | inr fits ↦ rw fits (header_Decides small pkt (not_ltb→le 512 (wire_size h) fits))
      ])
        where
          host : swap16 (h.b2 + 256 * h.b3) ≡ wire_size h
          host = unfold swap16 in omega arith

      type_test : (k : ℕ) → k < 4 → (ltb k 1 || ltb 3 k) ≡ (k == 0)
      type_test k small = ground arith

      -- On a buffer of at least 528 bytes, `pkt_decode` reads no byte outside it when malloc
      -- succeeds, answers the status of the first check that fails (type, TR on a packet that is
      -- no data, length, header checksum, payload checksum) and PKT_OK if none does; and in that
      -- case the structure holds the packet that the bytes stand for; otherwise its payload is the
      -- old one.
      pub pkt_decode-verdict :
          ((bytes : List ℕ) → IsU32 (crc32 bytes))
          → (len : ℕ) (pkt : Pkt)
          → Decides
              (pkt_decode crc32 (some buffer) len true pkt)
              (verdict crc32 h rest)
              pkt
              (decoded crc32 h rest pkt)
      unfolding pkt_decode store_front decode_type
      pkt_decode-verdict small len pkt =
          rw
            (
              read_at-in_range buffer 0 4 (omega arith),
              mod-eq_of_lt (let k : wire_kind h < 4 = omega arith in k),
              type_test (wire_kind h) (omega arith),
            )
            (elim (Bool-cases (wire_kind h == 0)) [
              | inl none_such ↦ rw none_such (_, refl, λ e. cc, inl refl)
              | inr typed ↦ rw typed (elim (Bool-cases (wire_tr h == 0)) [
                | inl clear ↦ rw clear (length_Decides small pkt)
                | inr set ↦ rw set (elim (Bool-cases (wire_kind h == ptype_data)) [
                  | inl is_data ↦ rw is_data (length_Decides small pkt)
                  | inr other ↦ rw other (_, refl, λ e. cc, inl refl)
                ])
              ])
            ])
