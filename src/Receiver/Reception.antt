-- ===== src/Receiver/Reception.antt =====
-- src/receiver.c: read_to_list_r and process_receiver from the datagrams on: what is written is a
-- prefix of the stream whatever was lost, repeated, reordered or damaged on the way.
use lingi1341_projet.Prelude.{
  ℕ, ◌+◌, ◌%◌, ◌≤◌, ◌<◌, ◌≡◌, refl, ◌≢◌, inl, inr, Bool, true, false, Option, none, some, List, [],
  ◌∷◌, ◌++◌, arith, ltb, ◌==◌, not_ltb→le, ==→eq, Bool-cases, length, take, All, length-take, ◌>>=◌,
  Yields, returns,
}
use lingi1341_projet.Bytes.{IsByte, IsU32, bytes_u32}
use lingi1341_projet.Packet.Fields.{ptype_data, zero_pkt, pkt_new, pkt_del, StatusCode, pkt_ok, Pkt}
use lingi1341_projet.Packet.Wire.{Carries}
use lingi1341_projet.Packet.Verdict.{buffer, pkt_decode-verdict}
use lingi1341_projet.Queue.Order.{offset, Near}
use lingi1341_projet.Receiver.Handler.{dispatch, report, read_to_list_r, okay}
use mathlib.Core.Path.{subst}
use lingi1341_projet.Receiver.Stream.{Carries-block, Keeps, accept-Delivers}
use lingi1341_projet.Packet.Decode.{pkt_decode}
use lingi1341_projet.Receiver.State.{Receiver, System}
use lingi1341_projet.Receiver.Delivery.{Delivers, IsSound}
use lingi1341_projet.Packet.Encode.{is_ok}
use lingi1341_projet.Packet.Format.{
  header_list, wire_kind, wire_tr, wire_size, verdict, decoded, is_ok→, Header,
}
use lingi1341_projet.Packet.Deletion.{pkt_del-out}

-- The buffer after recv(): bytes, at least as many as the largest packet has. If pkt_decode accepts
-- them as a whole data packet with a number near `n`, they carry the payload of the stream that the
-- number stands for.
abbrev pub IsGenuine : (List ℕ → ℕ) → ℕ → (ℕ → List ℕ) → ℕ → Option (List ℕ × ℕ) → Type 0
IsGenuine crc32 top stream n none = Unit {0}
IsGenuine crc32 top stream n (some (bytes, readed)) =
    (h : Header) × (rest : List ℕ) × (bytes ≡ header_list h ++ rest)
    × All IsByte (header_list h)
    × All IsByte rest
    × (516 ≤ length rest)
    × (verdict crc32 h rest ≡ pkt_ok
        → wire_kind h ≡ ptype_data
        → wire_tr h ≢ 1
        → Near (n % 256) h.b1
        → (n + offset (n % 256) h.b1 < top)
          × (take (wire_size h) rest ≡ stream (n + offset (n % 256) h.b1)))

timestamp-IsU32 :
    (h : Header) → All IsByte (header_list h) → IsU32 (bytes_u32 (h.b4 ∷ h.b5 ∷ h.b6 ∷ h.b7 ∷ []))
unfolding bytes_u32
timestamp-IsU32 h (_, (_, (_, (_, (b4, (b5, (b6, (b7, _)))))))) = omega (arith, b4, b5, b6, b7)

module _ (crc32 : List ℕ → ℕ) (h : Header) (rest : List ℕ) where
  Carries-decoded :
      wire_size h ≤ length rest → Carries (decoded crc32 h rest zero_pkt) (take (wire_size h) rest)
  Carries-decoded room =
      Carries-block (decoded crc32 h rest zero_pkt) (take (wire_size h) rest)
        (omega (arith, length-take (wire_size h) rest))
        (λ some_bytes. ground (arith, length-take (wire_size h) rest))

module _ (crc32 : List ℕ → ℕ) (sys : System) (sound : IsSound sys) (top : ℕ)
    (stream : ℕ → List ℕ) where
  dispatch-Delivers :
      (n : ℕ) (status : StatusCode) (pkt : Pkt) (st : Receiver)
      → sys.node_memory ≡ true
      → pkt_del (some pkt) ≡ returns tt
      → (status ≡ pkt_ok
          → (pkt.seqnum < 256)
            × IsU32 pkt.timestamp
            × (pkt.kind ≡ ptype_data
                → pkt.length ≤ 512
                → pkt.truncated ≢ 1
                → Near (n % 256) pkt.seqnum
                → (n + offset (n % 256) pkt.seqnum < top)
                  × Carries pkt (stream (n + offset (n % 256) pkt.seqnum))))
      → Delivers crc32 top stream n st
      → Yields (Keeps crc32 top stream n) (dispatch crc32 sys (status, pkt) st)
  unfolding dispatch
  dispatch-Delivers n status pkt st memory deletable genuine d = elim (Bool-cases (is_ok status)) [
    | inr bad ↦ rw (bad, deletable) (_, refl, (n, omega arith, d))
    | inl good ↦
        let (hs, ht, carries) = genuine (is_ok→ status good) in
        rw good (elim (Bool-cases (ltb 512 pkt.length)) [
          | inl large ↦ rw (large, deletable) (_, refl, (n, omega arith, d))
          | inr fits ↦ rw fits (elim (Bool-cases (pkt.kind == ptype_data)) [
            | inr other ↦ rw (other, deletable) (_, refl, (n, omega arith, d))
            | inl is_data ↦ rw is_data (
                accept-Delivers crc32 sys sound top stream n pkt
                  (record st { last_timestamp = pkt.timestamp }) memory hs deletable
                  (carries (==→eq pkt.kind ptype_data is_data) (not_ltb→le 512 pkt.length fits))
                  (record {
                    waited = d.waited;
                    low = d.low;
                    high = d.high;
                    order = d.order;
                    stocked = d.stocked;
                    output = d.output;
                    bound = d.bound;
                    clock = ht;
                    acks = d.acks;
                  }))
          ])
        ])
  ]

  module _ (small : (bytes : List ℕ) → IsU32 (crc32 bytes)) where
    received-Delivers :
        (n : ℕ) (st : Receiver)
        → sys.node_memory ≡ true
        → (bytes : List ℕ) (readed : ℕ) → IsGenuine crc32 top stream n (some (bytes, readed))
        → Delivers crc32 top stream n st
        → Yields (Keeps crc32 top stream n) (
            pkt_decode crc32 (some bytes) readed true zero_pkt
            >>= (λ result. dispatch crc32 sys result st))
    received-Delivers n st node bytes readed (h, rest, e, is_header, is_rest, room, genuine) d =
        let (out, called, good, kept) =
          pkt_decode-verdict crc32 h rest is_rest room is_header small readed zero_pkt in
        rw (e, called)
          (dispatch-Delivers n (verdict crc32 h rest) out st node
            (pkt_del-out crc32 h rest out good kept)
            (λ accepted. stands accepted out (good accepted)) d)
      where
        stands :
            verdict crc32 h rest ≡ pkt_ok
            → (out : Pkt) → out ≡ decoded crc32 h rest zero_pkt
            → (out.seqnum < 256)
              × IsU32 out.timestamp
              × (out.kind ≡ ptype_data
                  → out.length ≤ 512
                  → out.truncated ≢ 1
                  → Near (n % 256) out.seqnum
                  → (n + offset (n % 256) out.seqnum < top)
                    × Carries out (stream (n + offset (n % 256) out.seqnum)))
        stands accepted out is_decoded = rw is_decoded (
          is_header.1.0,
          timestamp-IsU32 h is_header,
          λ is_data fits whole near.
              let (below, carries) = genuine accepted is_data whole near in
              (
                below,
                subst (Carries (decoded crc32 h rest zero_pkt)) carries
                    (Carries-decoded crc32 h rest (omega arith)),
              ),
        )

    answered :
        (n : ℕ) (st : Receiver) (r : Option (List ℕ × ℕ)) (packet payload : Bool)
        → sys.node_memory ≡ true
        → payload ≡ true
        → IsGenuine crc32 top stream n r
        → Delivers crc32 top stream n st
        → Yields (Keeps crc32 top stream n) (elim r [
          | none ↦ returns (okay, report crc32 sys st)
          | some (buffer, readed) ↦ elim (pkt_new packet) [
            | none ↦ returns (okay, st)
            | some pkt ↦
                pkt_decode crc32 (some buffer) readed payload pkt
                >>= (λ decoded. dispatch crc32 sys decoded st)
          ]
        ])
    unfolding pkt_new
    answered n st none packet payload node memory genuine d = (
      _,
      refl,
      (
        n,
        omega arith,
        record {
          waited = d.waited;
          low = d.low;
          high = d.high;
          order = d.order;
          stocked = d.stocked;
          output = d.output;
          bound = d.bound;
          clock = d.clock;
          acks = d.acks;
        },
      ),
    )
    answered n st (some (bytes, readed)) false payload node memory genuine d =
        (_, refl, (n, omega arith, d))
    answered n st (some (bytes, readed)) true payload node memory genuine d =
        rw memory (received-Delivers n st node bytes readed genuine d)

    -- One call of read_to_list_r, on whatever recv() gave, where malloc has memory for
    -- acknowledgements, the payload and the node and write() takes all bytes or fails, as long as
    -- the intact data packets near the number waited for are of the first `top` packets of the
    -- stream: it returns, and the bytes that write() has taken are still a number of first
    -- payloads of the stream, no fewer than before (what printf() puts on stdout when recv() fails
    -- is apart).
    pub read_to_list_r-Delivers :
        (n : ℕ) (st : Receiver)
        → sys.node_memory ≡ true
        → sys.payload_memory ≡ true
        → IsGenuine crc32 top stream n sys.recv
        → Delivers crc32 top stream n st
        → Yields (Keeps crc32 top stream n) (read_to_list_r crc32 sys st)
    unfolding read_to_list_r
    read_to_list_r-Delivers n st node payload genuine d =
        answered n st sys.recv sys.pkt_memory sys.payload_memory node payload genuine d
