-- ===== src/Tests/Drafts.antt =====
-- src/inginious/format_segment/packet_implement.c: the theorems at concrete inputs.
use lingi1341_projet.Prelude.{
  ℕ, ◌≡◌, refl, true, false, some, List, [], ◌∷◌, arith, replicate, returns,
}
use lingi1341_projet.Packet.Decode.{pkt_decode as program_decode}
use lingi1341_projet.Draft.Fields.{
  pkt_set_type, pkt_set_window, drop_payload, copy_payload, pkt_set_payload,
}
use lingi1341_projet.Draft.Encode.{pkt_encode}
use lingi1341_projet.Draft.Decode.{pkt_decode}
use lingi1341_projet.Draft.Agreement.{Follows, pkt_decode-Follows}
use lingi1341_projet.Draft.RoundTrip.{pkt_decode-pkt_encode_draft}
use lingi1341_projet.Packet.Fields.{zero_pkt, free_payload, pkt_ok, e_nomem, freed, block}
use lingi1341_projet.Bytes.{read_at, zeros-IsByte}
use lingi1341_projet.Packet.Format.{max_read_size}
use lingi1341_projet.Packet.RoundTrip.{received}
use lingi1341_projet.Tests.Packets.{checksum, checksum-IsU32, hello, hello_pkt, hello-IsPacket}

-- A type of 0 is refused.
pkt_decode-Follows_example :
    Follows
      (program_decode checksum (some (replicate 528 0)) 12 true zero_pkt)
      (pkt_decode checksum (some (replicate 528 0)) 12 true zero_pkt)
pkt_decode-Follows_example =
    pkt_decode-Follows checksum (some (replicate 528 0)) 12 true zero_pkt refl

pkt_decode-pkt_encode_draft_example :
    (buf : List ℕ) × (n : ℕ) × (pkt_encode checksum
        (some (hello_pkt 255))
        (some (replicate max_read_size 0))
        18
      ≡ returns (pkt_ok, some buf, n))
    × (pkt_decode checksum (some buf) n true zero_pkt
        ≡ returns (pkt_ok, some (received checksum (hello_pkt 255) hello)))
pkt_decode-pkt_encode_draft_example =
    pkt_decode-pkt_encode_draft checksum checksum-IsU32 hello-IsPacket (replicate max_read_size 0)
      18 (omega arith) (zeros-IsByte max_read_size) (omega arith)

-- The setters keep what fits.
window_test : pkt_set_window zero_pkt 33 ≡ (pkt_ok, record zero_pkt { window = 1 })
unfolding pkt_set_window
window_test = refl

type_test : pkt_set_type zero_pkt 6 ≡ (pkt_ok, record zero_pkt { kind = 2 })
unfolding pkt_set_type
type_test = refl

payload_test :
    pkt_set_payload (hello_pkt 3) (some hello) 1 true
    ≡ returns (pkt_ok, record (hello_pkt 3) { length = 1; payload = block (104 ∷ []) })
unfolding pkt_set_payload drop_payload copy_payload free_payload read_at
payload_test = refl

no_memory_test :
    pkt_set_payload (hello_pkt 3) (some hello) 1 false
    ≡ returns (e_nomem, record (hello_pkt 3) { length = 0; payload = freed })
unfolding pkt_set_payload drop_payload copy_payload free_payload
no_memory_test = refl
