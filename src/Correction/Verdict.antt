-- ===== src/Correction/Verdict.antt =====
-- src/inginious/format_segment/correction.c: what pkt_decode answers on any buffer.
use lingi1341_projet.Correction.Fields.{
  is_type, pkt_set_length, pkt_set_crc1, pkt_set_crc2, drop_payload, copy_payload, pkt_set_payload,
}
use lingi1341_projet.Correction.Decode.{
  payload_size, store_header, decode_crc2, decode_payload, decode_checked, decode_header,
  pkt_decode,
}
use native.Mathlib.Nat.{mod-eq_of_lt}
use lingi1341_projet.Prelude.{
  ℕ, ◌+◌, ◌-◌, ◌*◌, ◌%◌, ◌≤◌, ◌<◌, ◌≡◌, refl, ◌≢◌, inl, inr, true, not, Option, none, some, List,
  [], ◌∷◌, ◌++◌, arith, ltb, ◌==◌, if◌then◌else◌, ltb→lt, le→not_ltb, not_ltb→le, le→leb, ==→eq,
  ne→not_==, not_==→ne, Bool-cases, length, take, drop, All, length-take, length-drop, drop-drop,
  All-take, All-drop, Outcome, returns,
}
use lingi1341_projet.Bytes.{IsByte, bytes_u32, swap16, swap32}
use lingi1341_projet.Bytes.Memory.{read_at-in_range}
use lingi1341_projet.Packet.Fields.{
  zero_pkt, StatusCode, pkt_ok, e_type, e_tr, e_length, e_crc, e_unconsistent, Pkt,
}
use lingi1341_projet.Packet.Format.{
  be_number, header_list, wire_kind, wire_tr, wire_size, wire_crc1, payload_verdict, decoded,
  Header,
}
use lingi1341_projet.Packet.Verdict.{swap32-bytes_u32}

-- The payload's bytes, from the number of bytes received: a header alone, or with a payload that is not
-- empty and its checksum.
abbrev pub received_size : ℕ → Option ℕ
received_size len = if ltb 12 len then (if ltb 16 len then some (len - 16) else none) else some 0

payload_size-received_size : (len : ℕ) → len < 2147483648 → payload_size len ≡ received_size len
unfolding payload_size
payload_size-received_size len small = ground arith

module _ (crc32 : List ℕ → ℕ) (h : Header) (rest : List ℕ) where
  abbrev pub eight : List ℕ
  eight = h.b0 ∷ h.b1 ∷ h.b2 ∷ h.b3 ∷ h.b4 ∷ h.b5 ∷ h.b6 ∷ h.b7 ∷ []

  -- For a payload of `size` bytes.
  abbrev pub size_verdict : ℕ → StatusCode
  size_verdict size =
      if wire_tr h == 1
      then e_tr
      else if ltb 512 (wire_size h)
      then pkt_ok
      else if not (crc32 eight == wire_crc1 h)
      then e_crc
      else if not (size == wire_size h)
      then e_length
      else if wire_kind h == 0
      then e_type
      else payload_verdict crc32 h rest

  abbrev pub size_answer : Option ℕ → StatusCode
  size_answer none = e_unconsistent
  size_answer (some size) = size_verdict size

  abbrev pub received_verdict : ℕ → StatusCode
  received_verdict len = if ltb len 12 then e_unconsistent else size_answer (received_size len)

  -- The call answers `status`, and with success builds the packet unless its length is too large.
  abbrev pub Answers : Outcome (StatusCode × Pkt) → StatusCode → Type 0
  Answers call status =
      (out : Pkt) × (call ≡ returns (status, out))
      × (status ≡ pkt_ok → wire_size h ≤ 512 → out ≡ decoded crc32 h rest zero_pkt)

  module _ (is_rest : All IsByte rest) (is_header : All IsByte (header_list h)) where
    abbrev received_bytes : List ℕ
    received_bytes = header_list h ++ rest

    abbrev host : Pkt
    host = record zero_pkt {
      window = h.b0 % 32;
      truncated = wire_tr h;
      kind = wire_kind h;
      seqnum = h.b1;
      length = wire_size h;
      timestamp = bytes_u32 (h.b4 ∷ h.b5 ∷ h.b6 ∷ h.b7 ∷ []);
      crc1 = wire_crc1 h;
    }

    payload_Answers :
        wire_size h ≤ 512
        → wire_size h ≢ 0
        → wire_size h + 4 ≤ length rest
        → wire_tr h ≡ 0
        → Answers
            (decode_payload crc32 received_bytes (wire_size h) true true host)
            (payload_verdict crc32 h rest)
    unfolding decode_payload pkt_set_payload drop_payload copy_payload pkt_set_length decode_crc2
        pkt_set_crc2
    payload_Answers fits positive room clear =
        rw
          (
            read_at-in_range received_bytes 12 (wire_size h) (omega arith),
            read_at-in_range received_bytes (12 + wire_size h) 4 (omega arith),
            ← drop-drop 12 (wire_size h) received_bytes,
            number,
            ne→not_== (wire_size h) 0 positive,
          )
          (elim (Bool-cases (crc32 (take (wire_size h) rest) == be_number tail)) [
            | inr differ ↦ rw differ (_, refl, λ e. cc)
            | inl same ↦
                rw
                  (
                    same,
                    mod-eq_of_lt (let e : wire_size h < 65536 = omega arith in e),
                    ne→not_== (wire_size h) 0 positive,
                    le→leb (wire_size h) 512 fits,
                    read_at-in_range rest 0 (wire_size h) (omega arith),
                    le→not_ltb 512 (wire_size h) fits,
                    clear,
                  )
                  (_, refl, λ e f. refl)
          ])
      where
        tail : List ℕ
        tail = take 4 (drop (wire_size h) rest)

        number : swap32 (bytes_u32 tail) ≡ be_number tail
        number =
            swap32-bytes_u32 tail
              (omega
                (arith, length-take 4 (drop (wire_size h) rest), length-drop (wire_size h) rest))
              (All-take IsByte 4 _ (All-drop IsByte (wire_size h) rest is_rest))

    checked_Answers :
        (size : ℕ)
        → (size ≢ 0 → size + 4 ≤ length rest)
        → wire_size h ≤ 512
        → wire_tr h ≡ 0
        → Answers (decode_checked crc32 received_bytes size true true host) (
            if not (crc32 eight == wire_crc1 h)
            then e_crc
            else if not (size == wire_size h)
            then e_length
            else if wire_kind h == 0
            then e_type
            else payload_verdict crc32 h rest)
    unfolding decode_checked is_type
    checked_Answers size room fits clear =
        rw (read_at-in_range received_bytes 0 8 (omega arith), typed)
          (elim (Bool-cases (crc32 eight == wire_crc1 h)) [
            | inr differ ↦ rw differ (_, refl, λ e. cc)
            | inl intact ↦ rw intact (elim (Bool-cases (size == wire_size h)) [
              | inr other ↦ rw other (_, refl, λ e. cc)
              | inl same ↦ rw same (elim (Bool-cases (wire_kind h == 0)) [
                | inl none_such ↦ rw none_such (_, refl, λ e. cc)
                | inr known ↦ rw known (elim (Bool-cases (wire_size h == 0)) [
                  | inl empty ↦ rw (==→eq size (wire_size h) same, empty) (_, refl, λ e f. refl)
                  | inr full ↦
                      let e = ==→eq size (wire_size h) same in
                      let positive = not_==→ne (wire_size h) 0 full in
                      rw (e, full)
                        (rw full at (
                          payload_Answers fits positive
                            (let enough = room (omega (arith, e, positive)) in
                              omega (arith, e, enough))
                            clear))
                ])
              ])
            ])
          ])
      where
        typed : is_type (wire_kind h) ≡ not (wire_kind h == 0)
        typed = ground (arith, is_header.0)

    header_Answers :
        (size : ℕ)
        → (size ≢ 0 → size + 4 ≤ length rest)
        → Answers (decode_header crc32 received_bytes size true true zero_pkt) (size_verdict size)
    unfolding decode_header store_header pkt_set_length pkt_set_crc1
    header_Answers size room =
        rw
          (
            read_at-in_range received_bytes 0 12 (omega arith),
            mod-eq_of_lt (let k : wire_kind h < 4 = omega arith in k),
            host_size,
          )
          (elim (Bool-cases (wire_tr h == 1)) [
            | inl cut ↦ rw cut (_, refl, λ e. cc)
            | inr whole ↦ rw whole (elim (Bool-cases (ltb 512 (wire_size h))) [
              | inl large ↦
                  let above = ltb→lt 512 (wire_size h) large in
                  rw large (_, refl, λ e f. absurd (omega (arith, above, f)))
              | inr fits ↦
                  rw (fits, host_crc1)
                    (checked_Answers size room (not_ltb→le 512 (wire_size h) fits)
                      (let bit = not_==→ne (wire_tr h) 1 whole in omega arith))
            ])
          ])
      where
        host_size : swap16 (h.b2 + 256 * h.b3) ≡ wire_size h
        host_size = unfold swap16 in omega arith

        host_crc1 : swap32 (bytes_u32 (h.b8 ∷ h.b9 ∷ h.b10 ∷ h.b11 ∷ [])) ≡ wire_crc1 h
        host_crc1 = swap32-bytes_u32 (h.b8 ∷ h.b9 ∷ h.b10 ∷ h.b11 ∷ []) refl (omega arith)

    -- On a buffer of any size, of which the first `len` bytes were received, less than 2^31, pkt_decode
    -- of a fresh structure reads no byte outside the buffer when malloc succeeds. It answers
    -- E_UNCONSISTENT for a number of bytes that no packet has, E_TR if TR is set, then PKT_OK if the
    -- length field exceeds 512, then E_CRC for the header, E_LENGTH if the length is not that of the
    -- bytes received, E_TYPE, E_CRC for the payload, and otherwise PKT_OK; with PKT_OK and a length of
    -- at most 512 the structure holds the packet that the bytes stand for.
    pub pkt_decode-received_verdict :
        (len : ℕ)
        → len ≤ 12 + length rest
        → len < 2147483648
        → (out : Pkt) × (pkt_decode crc32 (some received_bytes) len true true (some zero_pkt)
            ≡ returns (received_verdict len, some out))
          × (received_verdict len ≡ pkt_ok
              → wire_size h ≤ 512
              → out ≡ decoded crc32 h rest zero_pkt)
    unfolding pkt_decode
    pkt_decode-received_verdict len inside small = elim (Bool-cases (ltb len 12)) [
      | inl short ↦ rw short (_, refl, λ e. cc)
      | inr enough ↦
          rw (enough, payload_size-received_size len small)
            (elim (Bool-cases (ltb 12 len)) [
              | inr header ↦
                  let (out, called, good) = header_Answers 0 (λ positive. absurd (positive refl)) in
                  rw (header, called) (out, refl, good)
              | inl more ↦ rw more (elim (Bool-cases (ltb 16 len)) [
                | inr between ↦ rw between (_, refl, λ e. cc)
                | inl payload ↦
                    let above = ltb→lt 16 len payload in
                    let (out, called, good) =
                      header_Answers (len - 16) (λ positive. omega (arith, above)) in
                    rw (payload, called) (out, refl, good)
              ])
            ])
    ]
