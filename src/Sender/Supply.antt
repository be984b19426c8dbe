-- ===== src/Sender/Supply.antt =====
-- src/sender.c: send_packet and packet_checked on a list that holds consecutive packets of a stream.
-- `stream i` is the payload of packet i, whose number is i modulo 256.
use mathlib.Core.List.{Mem}
use lingi1341_projet.Prelude.{
  ℕ, suc, ◌+◌, ◌%◌, ◌≤◌, ◌<◌, ◌≡◌, refl, inl, inr, false, ◌&&◌, some, List, [], ◌∷◌, ◌++◌, arith,
  ◌==◌, if◌then◌else◌, ne→not_==, Bool-cases, suc-not_zero, length, drop, length-append,
  length-replicate, take-append, is_empty, returns, All,
}
use lingi1341_projet.Bytes.{u32_bytes}
use lingi1341_projet.Packet.Fields.{ptype_data, pkt_del, pkt_set_timestamp, Pkt}
use lingi1341_projet.Packet.Datagram.{buffer_size, fresh_buffer}
use lingi1341_projet.Packet.Wire.{be32, wire, Carries, pkt_encode-wire}
use lingi1341_projet.Sender.State.{a_lo, send_packet, Sender, System}
use lingi1341_projet.Sender.Acks.{is_covered, packet_checked, okay}
use lingi1341_projet.Packet.RoundTrip.{IsPacket}

-- The packet `i` of the stream, with any timestamp.
pub record IsData (stream : ℕ → List ℕ) (i : ℕ) (pkt : Pkt) : Type 0 where
  pub seqnum : pkt.seqnum ≡ i % 256
  pub packet : IsPacket pkt (stream i)
  pub kind : pkt.kind ≡ ptype_data
  pub tr : pkt.truncated ≡ 0
  pub crc2 : pkt.crc2 ≡ 0
  pub deletable : pkt_del (some pkt) ≡ returns tt

module _ (stream : ℕ → List ℕ) where
  -- Consecutive packets from packet `n` on, none of them the empty last one.
  abbrev pub Stock : ℕ → List Pkt → Type 0
  Stock n [] = Unit {0}
  Stock n (x ∷ xs) = IsData stream n x × (0 < length (stream n)) × Stock (suc n) xs

  -- The datagram is that of one of the first `top` packets of the stream.
  abbrev pub IsSent : (List ℕ → ℕ) → (top : ℕ) → List ℕ → Type 0
  IsSent crc32 top bytes =
      (i : ℕ) × (pkt : Pkt) × (i < top) × IsData stream i pkt × (bytes ≡ wire crc32 pkt (stream i))

  -- The datagram of packet `n`, with some timestamp, is among those sent.
  abbrev pub IsPosted : (List ℕ → ℕ) → (n : ℕ) → List (List ℕ) → Type 0
  IsPosted crc32 n log = (pkt : Pkt) × IsData stream n pkt × Mem (wire crc32 pkt (stream n)) log

  pub All-IsSent :
      (crc32 : List ℕ → ℕ) (top top' : ℕ) (log : List (List ℕ))
      → top ≤ top'
      → All (IsSent crc32 top) log
      → All (IsSent crc32 top') log
  All-IsSent crc32 top top' [] more h = tt
  All-IsSent crc32 top top' (bytes ∷ log) more ((i, pkt, made, d, e), h) =
      ((i, pkt, omega arith, d, e), All-IsSent crc32 top top' log more h)

abbrev pub stamped : System → Pkt → Pkt
stamped sys pkt = record pkt { timestamp = a_lo (sys.stamp pkt) }

pub length-wire :
    (crc32 : List ℕ → ℕ) (pkt : Pkt) (bytes : List ℕ)
    → Carries pkt bytes
    → length (wire crc32 pkt bytes) ≡ buffer_size pkt
unfolding u32_bytes
length-wire crc32 pkt [] c = rw c
length-wire crc32 pkt (x ∷ xs) (size, c) =
    rw (size, suc-not_zero (length xs)) (omega (arith, length-append xs (be32 (crc32 (x ∷ xs)))))

pub IsData-stamped :
    (stream : ℕ → List ℕ) (sys : System) (i : ℕ) (pkt : Pkt)
    → IsData stream i pkt
    → IsData stream i (stamped sys pkt)
unfolding pkt_del
IsData-stamped stream sys i pkt d = record {
  seqnum = d.seqnum;
  packet = record {
    window = d.packet.window;
    tr = d.packet.tr;
    low_kind = d.packet.low_kind;
    high_kind = d.packet.high_kind;
    cut = d.packet.cut;
    seqnum = d.packet.seqnum;
    timestamp = omega arith;
    size = d.packet.size;
    carries = Carries-stamped (stream i) d.packet.carries;
    contents = d.packet.contents;
  };
  kind = d.kind;
  tr = d.tr;
  crc2 = d.crc2;
  deletable = d.deletable;
}
  where
    Carries-stamped : (bytes : List ℕ) → Carries pkt bytes → Carries (stamped sys pkt) bytes
    Carries-stamped [] c = c
    Carries-stamped (x ∷ xs) c = c

module _ (crc32 : List ℕ → ℕ) (sys : System) (stream : ℕ → List ℕ) where
  -- send_packet of a packet of the stream sends the packet format with the time of the call, if send()
  -- takes it; it reports whether it did, and changes nothing else of the state.
  pub send_packet-wire :
      (i : ℕ) (pkt : Pkt) (st : Sender)
      → IsData stream i pkt
      → let bytes = wire crc32 (stamped sys pkt) (stream i) in
        send_packet crc32 sys pkt st
        ≡ returns (
          sys.send bytes,
          stamped sys pkt,
          record st { sent = if sys.send bytes then st.sent ++ (bytes ∷ []) else st.sent },
        )
  unfolding send_packet pkt_set_timestamp
  send_packet-wire i pkt st d =
      rw
        (
          pkt_encode-wire crc32 (stamped sys pkt) (fresh_buffer pkt) (stream i) (buffer_size pkt)
              later.packet.carries room (ground (arith, d.crc2)),
          take-append bytes (drop (length bytes) (fresh_buffer pkt)),
        )
        (elim (Bool-cases (sys.send bytes)) [
          | inl taken ↦ rw taken refl
          | inr refused ↦ rw refused refl
        ])
    where
      later : IsData stream i (stamped sys pkt)
      later = IsData-stamped stream sys i pkt d

      bytes : List ℕ
      bytes = wire crc32 (stamped sys pkt) (stream i)

      room : length bytes ≤ length (fresh_buffer pkt)
      room = omega (
        arith,
        length-wire crc32 (stamped sys pkt) (stream i) later.packet.carries,
        length-replicate {A = ℕ} (buffer_size pkt) 0,
      )

-- No packet of a list is the empty last one.
pub Carries-not_empty :
    (pkt : Pkt) (bytes : List ℕ) → Carries pkt bytes → 0 < length bytes → (pkt.length == 0) ≡ false
Carries-not_empty pkt [] c positive = absurd (omega arith)
Carries-not_empty pkt (x ∷ xs) (size, c) positive = ne→not_== pkt.length 0 (omega arith)

pub not_last :
    (stream : ℕ → List ℕ) (eof n : ℕ) (x : Pkt) (xs : List Pkt)
    → Stock stream n (x ∷ xs)
    → (is_empty xs && (x.length == 0) && (eof == 1)) ≡ false
not_last stream eof n x xs s =
    rw (Carries-not_empty x (stream n) s.0.packet.carries s.1) (ground arith)

-- Whatever number is acknowledged, packets are only deleted from the front, and the end of the
-- transfer is not reported.
pub packet_checked-Stock :
    (stream : ℕ → List ℕ) (ack eof n : ℕ) (xs : List Pkt)
    → Stock stream n xs
    → (m : ℕ) × (ys : List Pkt) × (packet_checked ack eof xs ≡ returns (okay, ys))
      × (n ≤ m)
      × (m + length ys ≡ n + length xs)
      × Stock stream m ys
unfolding packet_checked
packet_checked-Stock stream ack eof n [] s = (n, [], refl, omega arith, refl, tt)
packet_checked-Stock stream ack eof n (x ∷ xs) s = elim (Bool-cases (is_covered ack x.seqnum)) [
  | inr kept ↦ rw kept (n, x ∷ xs, refl, omega arith, refl, s)
  | inl covered ↦
      let (m, ys, called, above, total, rest) =
        packet_checked-Stock stream ack eof (suc n) xs s.2 in
      rw (covered, not_last stream eof n x xs s, s.0.deletable)
        (m, ys, called, omega arith, omega arith, rest)
]
