-- ===== src/Packet/RoundTrip.antt =====
-- src/packet_implement.c: what pkt_encode writes, pkt_decode reads back.
use lingi1341_projet.Prelude.{
  ℕ, ◌+◌, ◌*◌, ◌/◌, ◌%◌, ◌≤◌, ◌<◌, ◌≡◌, sym, ap, ap₂, ◌∙◌, ◌⊎◌, true, some, List, [], ◌∷◌, ◌++◌,
  append_assoc, arith, ◌==◌, if◌then◌else◌, length, take, drop, All, length-append, length-drop,
  take-append, drop-append, All-append, All-drop, returns,
}
use lingi1341_projet.Bytes.{IsByte, IsU32, u32_bytes, bytes_u32}
use lingi1341_projet.Packet.Fields.{zero_pkt, pkt_ok, Payload, null, block, Pkt}
use lingi1341_projet.Packet.Wire.{be32, wire_front, wire_payload, wire, Carries, pkt_encode-wire}
use lingi1341_projet.Packet.Verdict.{pkt_decode-verdict}
use lingi1341_projet.Packet.Encode.{required_size, pkt_encode}
use lingi1341_projet.Packet.Decode.{pkt_decode}
use lingi1341_projet.Packet.Format.{
  max_read_size, be_number, header_list, wire_kind, wire_tr, wire_size, wire_crc1, covered,
  payload_verdict, verdict, decoded, verdict-ok, Header,
}

-- A packet of the protocol that carries `bytes`.
pub record IsPacket (pkt : Pkt) (bytes : List ℕ) : Type 0 where
  pub window : pkt.window < 32
  pub tr : pkt.truncated < 2
  pub low_kind : 0 < pkt.kind
  pub high_kind : pkt.kind < 4
  pub cut : (pkt.truncated ≡ 0) ⊎ (pkt.kind ≡ 1)
  pub seqnum : IsByte pkt.seqnum
  pub timestamp : IsU32 pkt.timestamp
  pub size : length bytes ≤ 512
  pub carries : Carries pkt bytes
  pub contents : All IsByte bytes

abbrev pub payload_of : List ℕ → Payload
payload_of [] = null
payload_of (x ∷ xs) = block (x ∷ xs)

abbrev pub crc2_of : (List ℕ → ℕ) → List ℕ → ℕ
crc2_of crc32 [] = 0
crc2_of crc32 (x ∷ xs) = crc32 (x ∷ xs)

-- What arrives: the packet with its checksums computed.
abbrev pub received : (List ℕ → ℕ) → Pkt → List ℕ → Pkt
received crc32 pkt bytes = record pkt {
  crc1 = crc32 (wire_front 0 pkt);
  payload = payload_of bytes;
  crc2 = crc2_of crc32 bytes;
}

be_number-be32 : (n : ℕ) → IsU32 n → be_number (be32 n) ≡ n
be_number-be32 n h = omega arith

pub Carries-length : (pkt : Pkt) (bytes : List ℕ) → Carries pkt bytes → pkt.length ≡ length bytes
Carries-length pkt [] h = h
Carries-length pkt (x ∷ xs) h = h.0

module _ (crc32 : List ℕ → ℕ) (small : (bytes : List ℕ) → IsU32 (crc32 bytes)) where
  pub wire_payload-IsByte :
      (bytes : List ℕ) → All IsByte bytes → All IsByte (wire_payload crc32 bytes)
  wire_payload-IsByte [] h = tt
  wire_payload-IsByte (x ∷ xs) h = All-append IsByte (x ∷ xs) _ h (omega arith)

  payload_verdict-wire :
      (h : Header) (bytes junk : List ℕ)
      → wire_size h ≡ length bytes
      → payload_verdict crc32 h (wire_payload crc32 bytes ++ junk) ≡ pkt_ok
  payload_verdict-wire h [] junk size = rw size
  payload_verdict-wire h (x ∷ xs) junk size =
      rw (size, append_assoc xs _ junk, take-append xs _, drop-append xs _)
        (ground (arith, be_number-be32 (crc32 (x ∷ xs)) (small (x ∷ xs))))

  length-wire_payload :
      (bytes : List ℕ) → length bytes ≤ 512 → length (wire_payload crc32 bytes) ≤ 516
  length-wire_payload [] h = omega arith
  length-wire_payload (x ∷ xs) h = omega (arith, length-append xs (be32 (crc32 (x ∷ xs))))

  payload-wire :
      (h : Header) (bytes junk : List ℕ)
      → wire_size h ≡ length bytes
      → (if wire_size h == 0
          then null
          else block (take (wire_size h) (wire_payload crc32 bytes ++ junk)))
        ≡ payload_of bytes
  payload-wire h [] junk size = rw size
  payload-wire h (x ∷ xs) junk size =
      rw (size, append_assoc xs _ junk, take-append xs _) (ground arith)

  crc2-wire :
      (h : Header) (bytes junk : List ℕ)
      → wire_size h ≡ length bytes
      → (if wire_size h == 0
          then 0
          else be_number (take 4 (drop (wire_size h) (wire_payload crc32 bytes ++ junk))))
        ≡ crc2_of crc32 bytes
  crc2-wire h [] junk size = rw size
  crc2-wire h (x ∷ xs) junk size =
      rw (size, append_assoc xs _ junk, drop-append xs _)
        (ground (arith, be_number-be32 (crc32 (x ∷ xs)) (small (x ∷ xs))))

  module _ {pkt : Pkt} {bytes : List ℕ} (p : IsPacket pkt bytes) where
    open p use {carries, contents}

    size_eq : pkt.length ≡ length bytes
    size_eq = Carries-length pkt bytes carries

    -- The header that `pkt_encode` writes.
    abbrev pub sent : Header
    sent = record {
      b0 = pkt.window + 32 * pkt.truncated + 64 * pkt.kind;
      b1 = pkt.seqnum;
      b2 = pkt.length / 256 % 256;
      b3 = pkt.length % 256;
      b4 = pkt.timestamp % 256;
      b5 = pkt.timestamp / 256 % 256;
      b6 = pkt.timestamp / 65536 % 256;
      b7 = pkt.timestamp / 16777216 % 256;
      b8 = crc32 (wire_front 0 pkt) / 16777216 % 256;
      b9 = crc32 (wire_front 0 pkt) / 65536 % 256;
      b10 = crc32 (wire_front 0 pkt) / 256 % 256;
      b11 = crc32 (wire_front 0 pkt) % 256;
    }

    pub sent_bytes : All IsByte (header_list sent)
    sent_bytes = omega arith

    pub sent_size : wire_size sent ≡ length bytes
    sent_size = omega (arith, size_eq)

    sent_covered : covered sent ≡ wire_front 0 pkt
    unfolding u32_bytes
    sent_covered = ground arith

    abbrev pub sent_rest : List ℕ → List ℕ
    sent_rest junk = wire_payload crc32 bytes ++ junk

    sent_crc1 : wire_crc1 sent ≡ crc32 (wire_front 0 pkt)
    sent_crc1 = be_number-be32 _ (small (wire_front 0 pkt))

    pub sent_verdict : (junk : List ℕ) → verdict crc32 sent (sent_rest junk) ≡ pkt_ok
    sent_verdict junk =
        verdict-ok crc32 sent (sent_rest junk) (omega arith) (ground (arith, p.cut))
          (omega (arith, sent_size)) (ap crc32 sent_covered ∙ sym sent_crc1)
          (payload_verdict-wire sent bytes junk sent_size)

    pub sent_decoded :
        (junk : List ℕ) → decoded crc32 sent (sent_rest junk) zero_pkt ≡ received crc32 pkt bytes
    unfolding bytes_u32
    sent_decoded junk = λ i. record {
      window = let e : (sent.b0 % 32) ≡ pkt.window = omega arith in e i;
      truncated = let e : wire_tr sent ≡ pkt.truncated = omega arith in e i;
      kind = let e : wire_kind sent ≡ pkt.kind = omega arith in e i;
      seqnum = pkt.seqnum;
      length = let e : wire_size sent ≡ pkt.length = omega (arith, size_eq) in e i;
      timestamp =
          let e : bytes_u32 (sent.b4 ∷ sent.b5 ∷ sent.b6 ∷ sent.b7 ∷ []) ≡ pkt.timestamp =
            omega arith in
          e i;
      crc1 = sent_crc1 i;
      payload = payload-wire sent bytes junk sent_size i;
      crc2 = crc2-wire sent bytes junk sent_size i;
    }

    -- On the packet format of a packet of the protocol, at the start of a buffer of at least 528 bytes,
    -- pkt_decode into a fresh structure succeeds and gives the packet, with its two checksums.
    pub pkt_decode-wire :
        (junk : List ℕ) (readed : ℕ)
        → All IsByte junk
        → 516 ≤ length (wire_payload crc32 bytes ++ junk)
        → pkt_decode crc32 (some (wire crc32 pkt bytes ++ junk)) readed true zero_pkt
          ≡ returns (pkt_ok, received crc32 pkt bytes)
    unfolding u32_bytes
    pkt_decode-wire junk readed is_junk room =
        let (out, called, good, kept) =
          pkt_decode-verdict crc32 sent (sent_rest junk)
            (All-append IsByte _ junk (wire_payload-IsByte bytes contents) is_junk) room sent_bytes
            small readed zero_pkt in
        called
        ∙ ap₂ (λ s o. returns (s, o)) (sent_verdict junk)
            (good (sent_verdict junk) ∙ sent_decoded junk)

    -- Whatever packet of the protocol is encoded into a buffer of 528 bytes, with `*len` large
    -- enough for the packet: pkt_encode succeeds, and pkt_decode of that buffer into a fresh
    -- structure, when malloc succeeds, succeeds and gives the packet back, payload included, with
    -- its two checksums.
    pub pkt_decode-pkt_encode :
        (old : List ℕ) (len : ℕ)
        → length old ≡ max_read_size
        → All IsByte old
        → required_size pkt ≤ len
        → (buf : List ℕ) × (n : ℕ) × (pkt_encode crc32 (some pkt) (some old) len
            ≡ returns (pkt_ok, some buf, n))
          × (pkt_decode crc32 (some buf) n true zero_pkt
              ≡ returns (pkt_ok, received crc32 pkt bytes))
    unfolding u32_bytes
    pkt_decode-pkt_encode old len size is_old enough = (_, _, encoded, answer)
      where
        done : List ℕ
        done = wire crc32 pkt bytes

        junk : List ℕ
        junk = drop (length done) old

        done_size : length (wire_payload crc32 bytes) ≤ 516
        done_size = length-wire_payload bytes p.size

        encoded :
            pkt_encode crc32 (some pkt) (some old) len
            ≡ returns (pkt_ok, some (done ++ junk), length done)
        encoded = pkt_encode-wire crc32 pkt old bytes len carries (omega (arith, done_size)) enough

        answer :
            pkt_decode crc32 (some (done ++ junk)) (length done) true zero_pkt
            ≡ returns (pkt_ok, received crc32 pkt bytes)
        answer = pkt_decode-wire junk (length done) (All-drop IsByte (length done) old is_old) (
            omega (
              arith,
              done_size,
              length-append (wire_payload crc32 bytes) junk,
              length-drop (length done) old,
            ))
