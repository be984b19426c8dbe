-- ===== src/Tests/Corrections.antt =====
-- src/inginious/format_segment/correction.c: the theorems at concrete inputs.

use lingi1341_projet.Correction.Encode.{pkt_encode}
use lingi1341_projet.Correction.Decode.{pkt_decode}
use lingi1341_projet.Packet.Decode.{pkt_decode as pkt_decode_sent}
use lingi1341_projet.Prelude.{
  ℕ, ◌≤◌, ◌≡◌, refl, inr, true, false, some, List, [], ◌∷◌, ◌++◌, arith, replicate, All, Yields,
  returns,
}
use lingi1341_projet.Bytes.{IsByte, u32_bytes, zeros-IsByte}
use lingi1341_projet.Packet.Fields.{zero_pkt, pkt_ok, e_nomem, block, Pkt}
use lingi1341_projet.Packet.Format.{header_list, decoded, Header}
use lingi1341_projet.Correction.Wire.{pkt_encode-fits}
use lingi1341_projet.Correction.Verdict.{pkt_decode-received_verdict}
use lingi1341_projet.Tests.Packets.{
  checksum, checksum-IsU32, hello, hello_pkt, hello-IsPacket, hello_header, hello_rest,
  hello_rest-IsByte,
}
use lingi1341_projet.Packet.RoundTrip.{received}
use lingi1341_projet.Correction.Agreement.{pkt_decode-agrees, pkt_decode-too_long}
use lingi1341_projet.Correction.RoundTrip.{pkt_decode-pkt_encode_exact}
use lingi1341_projet.Correction.Payload.{Loads, pkt_set_payload-Loads}
use lingi1341_projet.Correction.Fields.{pkt_set_payload}

pkt_encode-fits_example :
    pkt_encode checksum (some (hello_pkt 255)) (some (replicate 20 7)) 17
    ≡ returns (e_nomem, some (replicate 20 7), 17)
unfolding u32_bytes
pkt_encode-fits_example =
    pkt_encode-fits checksum (hello_pkt 255) (replicate 20 7) hello 17 (omega arith) (omega arith)
      (refl, refl) (omega arith)

hello-is_header : All IsByte (header_list hello_header)
hello-is_header = omega arith

pkt_decode-received_verdict_example :
    (out : Pkt) × (pkt_decode checksum
        (some (header_list hello_header ++ hello_rest))
        18
        true
        true
        (some zero_pkt)
      ≡ returns (pkt_ok, some out))
    × (pkt_ok ≡ pkt_ok → 2 ≤ 512 → out ≡ decoded checksum hello_header hello_rest zero_pkt)
pkt_decode-received_verdict_example =
    pkt_decode-received_verdict checksum hello_header hello_rest hello_rest-IsByte hello-is_header
      18 (omega arith) (omega arith)

pkt_decode-agrees_example :
    let sent_call =
      pkt_decode_sent checksum (some (header_list hello_header ++ hello_rest)) 18 true zero_pkt in
    let call =
      pkt_decode checksum
        (some (header_list hello_header ++ hello_rest))
        18
        true
        true
        (some zero_pkt) in
    let pkt = decoded checksum hello_header hello_rest zero_pkt in
    (sent_call ≡ returns (pkt_ok, pkt) → call ≡ returns (pkt_ok, some pkt))
    × (call ≡ returns (pkt_ok, some pkt) → sent_call ≡ returns (pkt_ok, pkt))
pkt_decode-agrees_example =
    pkt_decode-agrees checksum hello_header hello_rest hello-is_header hello_rest-IsByte
      checksum-IsU32 18 (decoded checksum hello_header hello_rest zero_pkt) (omega arith) refl
      (omega arith)

-- Its length field is 2 * 256 + 2.
abbrev long_header : Header
long_header = record hello_header { b2 = 2 }

long-is_header : All IsByte (header_list long_header)
long-is_header = omega arith

pkt_decode-too_long_example :
    (out : Pkt) × (pkt_decode checksum
        (some (header_list long_header ++ hello_rest))
        18
        true
        true
        (some zero_pkt)
      ≡ returns (pkt_ok, some out))
pkt_decode-too_long_example =
    pkt_decode-too_long checksum long_header hello_rest long-is_header hello_rest-IsByte
      checksum-IsU32 18 (omega arith) (omega arith) (omega arith) (inr (omega arith)) refl
      (omega arith)

pkt_decode-pkt_encode_exact_example :
    (buf : List ℕ) × (n : ℕ) × (pkt_encode checksum
        (some (hello_pkt 255))
        (some (replicate 20 0))
        19
      ≡ returns (pkt_ok, some buf, n))
    × (pkt_decode checksum (some buf) n true true (some zero_pkt)
        ≡ returns (pkt_ok, some (received checksum (hello_pkt 255) hello)))
unfolding u32_bytes
pkt_decode-pkt_encode_exact_example =
    pkt_decode-pkt_encode_exact checksum checksum-IsU32 hello-IsPacket refl (replicate 20 0) 19
      (zeros-IsByte 20) (omega arith) (omega arith) (omega arith)

pkt_set_payload-Loads_example : Yields (Loads hello 2) (
    pkt_set_payload (record zero_pkt { payload = block (7 ∷ []); length = 1 }) (some hello) 2 false)
pkt_set_payload-Loads_example =
    pkt_set_payload-Loads (record zero_pkt { payload = block (7 ∷ []); length = 1 }) hello 2 false
      (inr (7 ∷ [], refl, refl, omega arith, omega arith)) (omega arith)
