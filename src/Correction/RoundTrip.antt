-- ===== src/Correction/RoundTrip.antt =====
-- src/inginious/format_segment/correction.c: what pkt_encode writes, pkt_decode reads back.
use mathlib.Core.Path.{subst}
use lingi1341_projet.Correction.Decode.{pkt_decode}
use lingi1341_projet.Correction.Encode.{pkt_encode}
use lingi1341_projet.Prelude.{
  ℕ, ◌+◌, ◌≤◌, ◌<◌, ◌≡◌, refl, sym, ap₂, ◌∙◌, true, some, List, ◌++◌, arith, ◌==◌, if◌then◌else◌,
  le→leb, length, drop, All, length-append, All-append, All-drop, returns,
}
use lingi1341_projet.Bytes.{IsByte, IsU32, u32_bytes}
use lingi1341_projet.Packet.Fields.{zero_pkt, pkt_ok, Pkt}
use lingi1341_projet.Packet.Format.{wire_tr, wire_size, Header}
use lingi1341_projet.Packet.Wire.{wire_payload, wire}
use lingi1341_projet.Packet.RoundTrip.{
  received, Carries-length, wire_payload-IsByte, sent, sent_bytes, sent_size, sent_rest,
  sent_verdict, sent_decoded, IsPacket,
}
use lingi1341_projet.Correction.Verdict.{received_verdict, pkt_decode-received_verdict}
use lingi1341_projet.Correction.Wire.{size-wire, pkt_encode-fits}
use lingi1341_projet.Correction.Agreement.{whole_size, verdict-received_verdict}

module _ (crc32 : List ℕ → ℕ) (small : (bytes : List ℕ) → IsU32 (crc32 bytes)) {pkt : Pkt}
    {bytes : List ℕ} (p : IsPacket pkt bytes) (clear : pkt.truncated ≡ 0) where
  abbrev sent_header : Header
  sent_header = sent crc32 small p

  -- A packet of the protocol with TR clear, encoded by pkt_encode into a buffer of at least `*len`
  -- bytes, less than 2^31, where the packet format fits: pkt_encode succeeds, and pkt_decode of as
  -- many bytes as it wrote into a fresh structure, when malloc succeeds, succeeds and gives the
  -- packet back, payload included, with its two checksums.
  pub pkt_decode-pkt_encode_exact :
      (old : List ℕ) (len : ℕ)
      → All IsByte old
      → len ≤ length old
      → length old < 2147483648
      → length (wire crc32 pkt bytes) ≤ len
      → (buf : List ℕ) × (n : ℕ) × (pkt_encode crc32 (some pkt) (some old) len
          ≡ returns (pkt_ok, some buf, n))
        × (pkt_decode crc32 (some buf) n true true (some zero_pkt)
            ≡ returns (pkt_ok, some (received crc32 pkt bytes)))
  unfolding u32_bytes
  pkt_decode-pkt_encode_exact old len is_old room bound fits = (_, _, encoded, answer)
    where
      done : List ℕ
      done = wire crc32 pkt bytes

      junk : List ℕ
      junk = drop (length done) old

      encoded :
          pkt_encode crc32 (some pkt) (some old) len
          ≡ returns (pkt_ok, some (done ++ junk), length done)
      encoded =
          pkt_encode-fits crc32 pkt old bytes len p.window p.tr p.carries room
          ∙ rw (le→leb (length done) len fits) refl

      clear_wire : wire_tr sent_header ≡ 0
      clear_wire = omega (arith, clear)

      fits_wire : wire_size sent_header ≤ 512
      fits_wire = omega (arith, sent_size crc32 small p)

      same : pkt.length ≡ wire_size sent_header
      same = Carries-length pkt bytes p.carries ∙ sym (sent_size crc32 small p)

      size :
          length done
          ≡ whole_size crc32 sent_header (sent_rest crc32 small p junk) (sent_bytes crc32 small p)
      size =
          size-wire crc32 pkt old bytes p.carries
          ∙ subst
              (λ k.
                (if pkt.length == 0 then 12 else pkt.length + 4 + 12)
                ≡ (if k == 0 then 12 else k + 16))
              same (ground arith)

      accepted :
          received_verdict crc32 sent_header (sent_rest crc32 small p junk) (length done) ≡ pkt_ok
      accepted =
          subst (λ n. received_verdict crc32 sent_header (sent_rest crc32 small p junk) n ≡ pkt_ok)
            (sym size)
            ((verdict-received_verdict crc32 sent_header (sent_rest crc32 small p junk)
                (sent_bytes crc32 small p) clear_wire fits_wire).0
              (sent_verdict crc32 small p junk))

      answer :
          pkt_decode crc32 (some (done ++ junk)) (length done) true true (some zero_pkt)
          ≡ returns (pkt_ok, some (received crc32 pkt bytes))
      answer =
          let (out, called, good) =
            pkt_decode-received_verdict crc32 sent_header (sent_rest crc32 small p junk)
              (All-append IsByte _ junk (wire_payload-IsByte crc32 small bytes p.contents)
                (All-drop IsByte (length done) old is_old))
              (sent_bytes crc32 small p) (length done)
              (omega (arith, length-append (wire_payload crc32 bytes) junk))
              (omega (arith, fits)) in
          called
          ∙ ap₂ (λ s o. returns (s, some o)) accepted
              (good accepted fits_wire ∙ sent_decoded crc32 small p junk)
