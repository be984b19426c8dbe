-- ===== src/Draft/RoundTrip.antt =====
-- src/inginious/format_segment/packet_implement.c: pkt_decode of what pkt_encode writes.
use lingi1341_projet.Prelude.{
  ℕ, ◌≤◌, ◌≡◌, refl, ap₂, ◌∙◌, true, Option, none, some, List, length, All, returns,
}
use lingi1341_projet.Draft.Decode.{pkt_decode}
use lingi1341_projet.Draft.Encode as Draft
use lingi1341_projet.Packet.Encode as Packet
use lingi1341_projet.Packet.RoundTrip as Program
use lingi1341_projet.Bytes.{IsByte, IsU32}
use lingi1341_projet.Packet.Fields.{zero_pkt, pkt_ok, Pkt}
use lingi1341_projet.Packet.Format.{max_read_size, decoded}
use lingi1341_projet.Packet.RoundTrip.{received, pkt_decode-pkt_encode, IsPacket}
use lingi1341_projet.Draft.Agreement.{pkt_decode-Follows, Follows-returns}
use lingi1341_projet.Packet.Encode.{
  required_size, encode_payload, encode_crc1, encode_header, pkt_encode,
}

module _ (crc32 : List ℕ → ℕ) where
  pkt_encode-same :
      (pkt : Option Pkt) (buf : Option (List ℕ)) (len : ℕ)
      → Draft.pkt_encode crc32 pkt buf len ≡ Packet.pkt_encode crc32 pkt buf len
  unfolding Draft.pkt_encode Draft.encode_header Draft.encode_crc1 Draft.encode_payload
      Packet.pkt_encode Packet.encode_header Packet.encode_crc1 Packet.encode_payload
      lingi1341_projet.Packet.Fields.pkt_set_tr lingi1341_projet.Draft.Fields.pkt_set_tr
  pkt_encode-same pkt none len = refl
  pkt_encode-same none (some buf) len = refl
  pkt_encode-same (some pkt) (some buf) len = refl

  -- Whatever packet of the protocol the earlier pkt_encode writes into a buffer of 528 bytes, with
  -- `*len` large enough for the packet: it succeeds, and the earlier pkt_decode of that buffer
  -- into a fresh structure, when malloc succeeds, succeeds and gives the packet back, payload
  -- included, with its two checksums.
  pub pkt_decode-pkt_encode_draft :
      (small : (bytes : List ℕ) → IsU32 (crc32 bytes)) {pkt : Pkt} {bytes : List ℕ}
      → IsPacket pkt bytes
      → (old : List ℕ) (len : ℕ) → length old ≡ max_read_size
      → All IsByte old
      → required_size pkt ≤ len
      → (buf : List ℕ) × (n : ℕ) × (Draft.pkt_encode crc32 (some pkt) (some old) len
          ≡ returns (pkt_ok, some buf, n))
        × (pkt_decode crc32 (some buf) n true zero_pkt
            ≡ returns (pkt_ok, some (received crc32 pkt bytes)))
  pkt_decode-pkt_encode_draft small {pkt} {bytes} p old len size is_old enough =
      let (buf, n, encoded, decoded) =
        Program.pkt_decode-pkt_encode crc32 small p old len size is_old enough in
      let ((status, held), called, (same, good, _, _)) =
        Follows-returns _ _ _ (pkt_decode-Follows crc32 (some buf) n true zero_pkt refl) decoded in
      (
        buf,
        n,
        pkt_encode-same (some pkt) (some old) len ∙ encoded,
        called ∙ ap₂ (λ s h. returns (s, h)) same (good refl),
      )
