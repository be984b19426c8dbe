-- ===== src/Correction/Agreement.antt =====
-- src/inginious/format_segment/correction.c: pkt_decode against the pkt_decode of
-- src/packet_implement.c, and against the pkt_encode of the same file.

use lingi1341_projet.Correction.Decode.{pkt_decode}
use lingi1341_projet.Packet.Decode.{pkt_decode as pkt_decode_sent}
use lingi1341_projet.Packet.Verdict.{pkt_decode-verdict}
use lingi1341_projet.Correction.Verdict.{
  received_size, eight, received_verdict, pkt_decode-received_verdict,
}
use lingi1341_projet.Prelude.{
  ℕ, ◌+◌, ◌≤◌, ◌<◌, ◌≡◌, refl, sym, ap, ap₂, ◌∙◌, ◌⊎◌, inl, inr, Bool, true, false, not, some, List,
  [], ◌∷◌, ◌++◌, arith, ltb, ◌==◌, if◌then◌else◌, le→not_ltb, ==→eq, not_==→ne, Bool-cases, length,
  All, returns,
}
use lingi1341_projet.Bytes.{IsByte, IsU32}
use lingi1341_projet.Packet.Fields.{zero_pkt, StatusCode, pkt_ok, e_type, e_crc, Pkt}
use lingi1341_projet.Packet.Format.{
  header_list, wire_kind, wire_tr, wire_size, wire_crc1, covered, payload_verdict, verdict, Header,
}

-- Both tests pass in either order.
either_order :
    (untyped intact : Bool) (status : StatusCode)
    → let first = (if untyped then e_type else if intact then status else e_crc) in
      let second = (if not intact then e_crc else if untyped then e_type else status) in
      (first ≡ pkt_ok → second ≡ pkt_ok) × (second ≡ pkt_ok → first ≡ pkt_ok)
either_order true true status = ((λ e. cc), (λ e. cc))
either_order true false status = ((λ e. cc), (λ e. cc))
either_order false true status = ((λ e. e), (λ e. e))
either_order false false status = ((λ e. cc), (λ e. cc))

module _ (crc32 : List ℕ → ℕ) (h : Header) (rest : List ℕ)
    (is_header : All IsByte (header_list h)) where
  -- The number of bytes of a packet with this header.
  abbrev pub whole_size : ℕ
  whole_size = if wire_size h == 0 then 12 else wire_size h + 16

  received_size-whole_size : wire_size h ≤ 512 → received_size whole_size ≡ some (wire_size h)
  received_size-whole_size fits = elim (Bool-cases (wire_size h == 0)) [
    | inl empty ↦ rw empty (let e = ==→eq (wire_size h) 0 empty in ap some (sym e))
    | inr full ↦ rw full (let e = not_==→ne (wire_size h) 0 full in ground arith)
  ]

  covered-eight : wire_tr h ≡ 0 → covered h ≡ eight crc32 h rest
  covered-eight clear =
      ap (λ b. b ∷ h.b1 ∷ h.b2 ∷ h.b3 ∷ h.b4 ∷ h.b5 ∷ h.b6 ∷ h.b7 ∷ []) (omega (arith, clear))

  checked_verdict : StatusCode
  checked_verdict =
      if not (crc32 (eight crc32 h rest) == wire_crc1 h)
      then e_crc
      else if wire_kind h == 0
      then e_type
      else payload_verdict crc32 h rest

  received_verdict-whole_size :
      wire_tr h ≡ 0 → wire_size h ≤ 512 → received_verdict crc32 h rest whole_size ≡ checked_verdict
  unfolding checked_verdict
  received_verdict-whole_size clear fits =
      rw
        (
          (let e : ltb whole_size 12 ≡ false = ground arith in e),
          received_size-whole_size fits,
          clear,
          le→not_ltb 512 (wire_size h) fits,
          (let e : (wire_size h == wire_size h) ≡ true = ground arith in e),
        )
        refl

  verdict-clear :
      wire_tr h ≡ 0
      → wire_size h ≤ 512
      → verdict crc32 h rest ≡ (
          if wire_kind h == 0
          then e_type
          else if crc32 (eight crc32 h rest) == wire_crc1 h
          then payload_verdict crc32 h rest
          else e_crc)
  verdict-clear clear fits =
      rw (covered-eight clear, le→not_ltb 512 (wire_size h) fits) (rw clear refl)

  -- Where TR is clear and the length is that of the bytes received and at most 512, pkt_decode accepts
  -- what the program's pkt_decode accepts, and nothing else.
  pub verdict-received_verdict :
      wire_tr h ≡ 0
      → wire_size h ≤ 512
      → (verdict crc32 h rest ≡ pkt_ok → received_verdict crc32 h rest whole_size ≡ pkt_ok)
        × (received_verdict crc32 h rest whole_size ≡ pkt_ok → verdict crc32 h rest ≡ pkt_ok)
  verdict-received_verdict clear fits =
      rw (received_verdict-whole_size clear fits, verdict-clear clear fits)
        (unfold checked_verdict in
          either_order (wire_kind h == 0) (crc32 (eight crc32 h rest) == wire_crc1 h)
            (payload_verdict crc32 h rest))

  module _ (is_rest : All IsByte rest) (small : (bytes : List ℕ) → IsU32 (crc32 bytes)) where
    -- On a buffer of at least 528 bytes, where TR is clear, the length is at most 512 and as many bytes
    -- were received as a packet of that length has, the two versions of pkt_decode accept the same
    -- packets and read the same fields and payload, when malloc succeeds.
    pub pkt_decode-agrees :
        (readed : ℕ) (pkt : Pkt)
        → 516 ≤ length rest
        → wire_tr h ≡ 0
        → wire_size h ≤ 512
        → let sent_call =
            pkt_decode_sent crc32 (some (header_list h ++ rest)) readed true zero_pkt in
          let call =
            pkt_decode crc32 (some (header_list h ++ rest)) whole_size true true (some zero_pkt) in
          (sent_call ≡ returns (pkt_ok, pkt) → call ≡ returns (pkt_ok, some pkt))
          × (call ≡ returns (pkt_ok, some pkt) → sent_call ≡ returns (pkt_ok, pkt))
    pkt_decode-agrees readed pkt room clear fits =
        let (there, back) = verdict-received_verdict clear fits in
        let (out, called, good, kept) =
          pkt_decode-verdict crc32 h rest is_rest room is_header small readed zero_pkt in
        let (out', called', good') =
          pkt_decode-received_verdict crc32 h rest is_rest is_header whole_size
            (ground (arith, room)) (ground (arith, fits)) in
        (
          λ e.
              let accepted : verdict crc32 h rest ≡ pkt_ok = cc in
              let same : out ≡ pkt = cc in
              called'
              ∙ ap₂ (λ s p. returns (s, some p)) (there accepted)
                  (good' (there accepted) fits ∙ sym (good accepted) ∙ same),
          λ e.
              let accepted : received_verdict crc32 h rest whole_size ≡ pkt_ok = cc in
              let same : out' ≡ pkt = cc in
              called
              ∙ ap₂ (λ s p. returns (s, p)) (back accepted)
                  (good (back accepted) ∙ sym (good' accepted fits) ∙ same),
        )

    -- A header whose length field exceeds 512, with TR clear, in a datagram of 12 bytes or more than
    -- 16: pkt_decode answers PKT_OK, whatever the type and the checksums.
    pub pkt_decode-too_long :
        (len : ℕ)
        → len ≤ 12 + length rest
        → len < 2147483648
        → 12 ≤ len
        → (len ≡ 12) ⊎ (16 < len)
        → wire_tr h ≡ 0
        → 512 < wire_size h
        → (out : Pkt) × (pkt_decode crc32
              (some (header_list h ++ rest))
              len
              true
              true
              (some zero_pkt)
            ≡ returns (pkt_ok, some out))
    pkt_decode-too_long len inside bound enough plausible clear large =
        let (out, called, good) =
          pkt_decode-received_verdict crc32 h rest is_rest is_header len inside bound in
        let accepted : received_verdict crc32 h rest len ≡ pkt_ok = elim plausible [
          | inl header ↦ rw (header, clear, too_long) refl
          | inr more ↦
              rw
                (
                  (let e : ltb len 12 ≡ false = ground arith in e),
                  (let e : ltb 12 len ≡ true = ground arith in e),
                  (let e : ltb 16 len ≡ true = ground arith in e),
                  clear,
                  too_long,
                )
                refl
        ] in
        (out, called ∙ ap (λ s. returns (s, some out)) accepted)
      where
        too_long : ltb 512 (wire_size h) ≡ true
        too_long = ground arith
