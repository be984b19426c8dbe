-- ===== src/Tests/Packets.antt =====
-- src/packet_implement.c: the theorems on packets at concrete inputs, with the sum of the bytes modulo
-- 2 ^ 32 in place of the checksum.
use lingi1341_projet.Prelude.{
  ℕ, ◌+◌, ◌%◌, ◌≡◌, refl, inl, true, false, some, List, [], ◌∷◌, ◌++◌, arith, replicate, All,
  All-append, Yields, returns, undefined,
}
use lingi1341_projet.Bytes.{IsByte, IsU32, u32_bytes, zeros-IsByte}
use lingi1341_projet.Packet.Fields.{zero_pkt, pkt_del, pkt_set_payload, pkt_ok, e_nomem, block, Pkt}
use lingi1341_projet.Packet.Wire.{wire, pkt_encode-wire, pkt_encode-overflow}
use lingi1341_projet.Packet.Encode.{pkt_encode}
use lingi1341_projet.Packet.Decode.{pkt_decode}
use lingi1341_projet.Packet.Verdict.{Decides, pkt_decode-verdict}
use lingi1341_projet.Packet.RoundTrip.{received, pkt_decode-pkt_encode, IsPacket}
use lingi1341_projet.Packet.Format.{max_read_size, header_list, decoded, Header}
use lingi1341_projet.Packet.Deletion.{pkt_set_payload-freed}
use lingi1341_projet.Packet.Ranges.{Ranged, pkt_decode-InRange}

abbrev total : List ℕ → ℕ
total [] = 0
total (x ∷ xs) = x + total xs

abbrev pub checksum : List ℕ → ℕ
checksum bytes = total bytes % 4294967296

pub checksum-IsU32 : (bytes : List ℕ) → IsU32 (checksum bytes)
checksum-IsU32 bytes = omega arith

abbrev pub hello : List ℕ
hello = 104 ∷ 105 ∷ []

abbrev pub hello_pkt : ℕ → Pkt
hello_pkt seqnum = record zero_pkt {
  window = 1;
  kind = 1;
  seqnum = seqnum;
  length = 2;
  timestamp = 70000;
  payload = block hello;
}

abbrev pub hello-IsPacket : IsPacket (hello_pkt 255) hello
hello-IsPacket = record {
  window = omega arith;
  tr = omega arith;
  low_kind = omega arith;
  high_kind = omega arith;
  cut = inl refl;
  seqnum = omega arith;
  timestamp = omega arith;
  size = omega arith;
  carries = (refl, refl);
  contents = (omega arith, (omega arith, tt));
}

pkt_encode-wire_example :
    pkt_encode checksum (some (hello_pkt 255)) (some (replicate 20 7)) 20
    ≡ returns (pkt_ok, some (wire checksum (hello_pkt 255) hello ++ (7 ∷ 7 ∷ [])), 18)
unfolding u32_bytes
pkt_encode-wire_example =
    pkt_encode-wire checksum (hello_pkt 255) (replicate 20 7) hello 20 (refl, refl) (omega arith)
      (omega arith)

pkt_encode-overflow_example :
    pkt_encode checksum (some (hello_pkt 255)) (some (replicate 16 7)) 16 ≡ undefined
pkt_encode-overflow_example =
    pkt_encode-overflow checksum (hello_pkt 255) (replicate 16 7) hello (omega arith) (refl, refl)
      refl (omega arith) (omega arith)

-- A data packet with number 0 that carries `hello`.
abbrev pub hello_header : Header
hello_header = record {
  b0 = 65;
  b1 = 0;
  b2 = 0;
  b3 = 2;
  b4 = 0;
  b5 = 0;
  b6 = 0;
  b7 = 0;
  b8 = 0;
  b9 = 0;
  b10 = 0;
  b11 = 67;
}

abbrev pub hello_rest : List ℕ
hello_rest = 104 ∷ 105 ∷ 0 ∷ 0 ∷ 0 ∷ 209 ∷ replicate 510 0

pub hello_rest-IsByte : All IsByte hello_rest
hello_rest-IsByte = (
  omega arith,
  (omega arith, (omega arith, (omega arith, (omega arith, (omega arith, zeros-IsByte 510))))),
)

pkt_decode-verdict_example :
    Decides
      (pkt_decode checksum (some (header_list hello_header ++ hello_rest)) 18 true zero_pkt)
      pkt_ok
      zero_pkt
      (decoded checksum hello_header hello_rest zero_pkt)
pkt_decode-verdict_example =
    pkt_decode-verdict checksum hello_header hello_rest hello_rest-IsByte (omega arith)
      (omega arith) checksum-IsU32 18 zero_pkt

pkt_decode-pkt_encode_example :
    (buf : List ℕ) × (n : ℕ) × (pkt_encode checksum
        (some (hello_pkt 255))
        (some (replicate max_read_size 0))
        18
      ≡ returns (pkt_ok, some buf, n))
    × (pkt_decode checksum (some buf) n true zero_pkt
        ≡ returns (pkt_ok, received checksum (hello_pkt 255) hello))
pkt_decode-pkt_encode_example =
    pkt_decode-pkt_encode checksum checksum-IsU32 hello-IsPacket (replicate max_read_size 0) 18
      (omega arith) (zeros-IsByte max_read_size) (omega arith)

pkt_set_payload-freed_example :
    (out : Pkt) × (pkt_set_payload (hello_pkt 3) (some (7 ∷ 8 ∷ 9 ∷ [])) 3 false
      ≡ returns (e_nomem, out))
    × (pkt_del (some out) ≡ undefined)
pkt_set_payload-freed_example =
    pkt_set_payload-freed (hello_pkt 3) hello (7 ∷ 8 ∷ 9 ∷ []) 3 refl (omega arith) (omega arith)

pkt_decode-InRange_example :
    Yields Ranged
      (pkt_decode checksum (some (header_list hello_header ++ hello_rest)) 18 false zero_pkt)
pkt_decode-InRange_example =
    pkt_decode-InRange checksum (header_list hello_header ++ hello_rest)
      (All-append IsByte (header_list hello_header) hello_rest (omega arith) hello_rest-IsByte)
      (omega arith) false 18 zero_pkt
      (record {
        window = omega arith;
        truncated = omega arith;
        kind = omega arith;
        seqnum = omega arith;
        length = omega arith;
        timestamp = omega arith;
        crc1 = omega arith;
        crc2 = omega arith;
        payload = tt;
      })
