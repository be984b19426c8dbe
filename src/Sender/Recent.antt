-- ===== src/Sender/Recent.antt =====
-- src/sender.c: check_ack on an acknowledgement of the receiver, and on damaged datagrams.
use mathlib.Core.Path.{subst}
use lingi1341_projet.Prelude.{
  ℕ, ◌+◌, ◌-◌, ◌%◌, ◌≤◌, ◌<◌, ◌≡◌, refl, sym, ap, ◌≢◌, inl, inr, true, some, List, [], ◌++◌, arith,
  leb, leb→le, Bool-cases, not_leb→lt, length, drop, All, length-drop, Yields, returns,
}
use lingi1341_projet.Bytes.{IsByte, IsU32, u32_bytes}
use lingi1341_projet.Packet.Fields.{
  ptype_ack, zero_pkt, pkt_new, free_payload, pkt_del, pkt_ok, Pkt,
}
use lingi1341_projet.Packet.RoundTrip.{received, pkt_decode-wire, IsPacket}
use lingi1341_projet.Queue.Order.{offset}
use lingi1341_projet.Receiver.Acks.{ack, IsAck}
use lingi1341_projet.Sender.State.{start, Sender, System}
use lingi1341_projet.Sender.Acks.{packet_checked, take_ack, handle_ack, check_ack, okay}
use lingi1341_projet.Sender.Supply.{Stock, packet_checked-Stock}
use lingi1341_projet.Sender.Cumulative.{packet_checked-drop, packet_checked-old}
use lingi1341_projet.Sender.Input.{Takes, IsWorking}
use lingi1341_projet.Sender.Replies.{Deletes, take_ack-Takes}
use lingi1341_projet.Packet.Format.{max_read_size}
use lingi1341_projet.Packet.Decode.{pkt_decode}
use lingi1341_projet.Packet.Wire.{wire_header}
use lingi1341_projet.Sender.Invariant.{Supplies}

pub ack-IsPacket :
    (window seqnum kind timestamp : ℕ)
    → window ≤ 31
    → seqnum < 256
    → 0 < kind
    → kind ≤ 3
    → IsU32 timestamp
    → IsPacket (ack window seqnum kind timestamp) []
ack-IsPacket window seqnum kind timestamp narrow byte low high clock = record {
  window = omega arith;
  tr = omega arith;
  low_kind = low;
  high_kind = omega arith;
  cut = inl refl;
  seqnum = byte;
  timestamp = clock;
  size = omega arith;
  carries = refl;
  contents = tt;
}

module _ (stream : ℕ → List ℕ) where
  -- On at most 31 packets of the stream from packet `n` on, an acknowledgement of the first `count`
  -- packets, at most 223 behind and not of a packet that the list does not have yet: the packets
  -- before packet `count` are deleted, and nothing else.
  packet_checked-count :
      (count eof n : ℕ) (xs : List Pkt)
      → Stock stream n xs
      → length xs ≤ 31
      → n ≤ count + 223
      → count ≤ n + length xs
      → packet_checked (count % 256) eof xs ≡ returns (okay, drop (count - n) xs)
  packet_checked-count count eof n xs s few recent known = elim (Bool-cases (leb n count)) [
    | inl ahead ↦
        let above = leb→le n count ahead in
        let e : offset (n % 256) (count % 256) ≡ count - n = ground arith in
        rw (← e)
          (packet_checked-drop stream (count % 256) eof (omega arith) n xs s few (omega (arith, e)))
    | inr behind ↦
        let below = not_leb→lt n count behind in
        let e : count - n ≡ 0 = omega arith in
        rw e (packet_checked-old stream (count % 256) eof (omega arith) n xs s (ground arith))
  ]

  -- What is left are the packets from packet `count` on.
  packet_checked-recent :
      (count eof n : ℕ) (xs : List Pkt)
      → Stock stream n xs
      → length xs ≤ 31
      → n ≤ count + 223
      → count ≤ n + length xs
      → (m : ℕ) × (ys : List Pkt) × (packet_checked (count % 256) eof xs ≡ returns (okay, ys))
        × (n ≤ m)
        × (m ≡ n + (count - n))
        × (m + length ys ≡ n + length xs)
        × Stock stream m ys
  packet_checked-recent count eof n xs s few recent known =
      let (m, ys, called, above, total, stock) =
        packet_checked-Stock stream (count % 256) eof n xs s in
      let same : ys ≡ drop (count - n) xs =
        (let e = packet_checked-count count eof n xs s few recent known in cc) in
      (
        m,
        ys,
        called,
        above,
        omega (arith, ap length same, length-drop (count - n) xs, total),
        total,
        stock,
      )

module _ (stream : ℕ → List ℕ) (crc32 : List ℕ → ℕ) (least : ℕ) (sys : System) where
  take_ack-recent :
      (n low high count : ℕ) (pkt : Pkt) (st : Sender)
      → least ≤ pkt.window
      → pkt.window ≤ 31
      → pkt.seqnum ≡ count % 256
      → pkt_del (some pkt) ≡ returns tt
      → n ≤ count + 223
      → n ≤ low
      → n ≤ high
      → high ≤ n + length st.list
      → (pkt.kind ≢ ptype_ack → low ≤ n)
      → (pkt.kind ≡ ptype_ack → (low ≤ n + (count - n)) × (count ≤ high))
      → Supplies stream crc32 least n st
      → Yields (Takes stream crc32 least low high (n + length st.list)) (take_ack pkt st)
  take_ack-recent n low high count pkt st wide window number deletable recent start end top others
        written d =
      take_ack-Takes stream crc32 least sys n low high pkt st wide window deletable start end others
        deletes d
    where
      deletes :
          pkt.kind ≡ ptype_ack
          → Deletes stream crc32 least sys n low high pkt.seqnum st.seqnum_eof st.list
      deletes is_ack =
          let (reached, known) = written is_ack in
          let (m, ys, called, above, first, total, stock) =
            packet_checked-recent stream count st.seqnum_eof n st.list d.stocked d.few recent
              (omega arith) in
          (
            m,
            ys,
            subst (λ s. packet_checked s st.seqnum_eof st.list ≡ returns (okay, ys)) (sym number)
                called,
            omega (arith, first),
            omega (arith, first),
            total,
            stock,
          )

  module _ (small : (bytes : List ℕ) → IsU32 (crc32 bytes)) where
    -- check_ack, when it receives an acknowledgement of the first `count` packets that the receiver
    -- sent, at most 223 behind the sender's first packet, and count is at most `high`: only packets before
    -- packet `high` are deleted, and if it is an acknowledgement, all packets before packet `count`.
    pub check_ack-recent :
        (n low high i : ℕ) (bytes junk : List ℕ) (readed : ℕ) (st : Sender)
        → IsWorking stream i sys
        → sys.recv ≡ some (bytes ++ junk, readed)
        → (a : IsAck crc32 high bytes) → All IsByte junk
        → max_read_size ≤ length (bytes ++ junk)
        → n ≤ a.count + 223
        → least ≤ 1
        → n ≤ low
        → n ≤ high
        → high ≤ n + length st.list
        → (a.kind ≢ ptype_ack → low ≤ n)
        → (a.kind ≡ ptype_ack → low ≤ n + (a.count - n))
        → Supplies stream crc32 least n st
        → Yields (Takes stream crc32 least low high (n + length st.list)) (check_ack crc32 sys st)
    unfolding check_ack pkt_new handle_ack pkt_del free_payload u32_bytes
    check_ack-recent n low high i bytes junk readed st works arrived a is_junk room recent wide
          start end top others first d =
        rw (arrived, works.packets, works.payloads, a.contents, decoded_ack) handled
      where
        reply : Pkt
        reply = ack a.window (a.count % 256) a.kind a.timestamp

        is_packet : IsPacket reply []
        is_packet =
            ack-IsPacket a.window (a.count % 256) a.kind a.timestamp a.narrow (omega arith) a.low
              a.high a.clock

        size : length (wire_header crc32 reply ++ junk) ≡ length (bytes ++ junk)
        size = rw a.contents refl

        decoded_ack :
            pkt_decode crc32 (some (wire_header crc32 reply ++ junk)) readed true zero_pkt
            ≡ returns (pkt_ok, received crc32 reply [])
        decoded_ack =
            pkt_decode-wire crc32 small is_packet junk readed is_junk (omega (arith, size))

        handled :
            Yields
              (Takes stream crc32 least low high (n + length st.list))
              (handle_ack (pkt_ok, received crc32 reply []) st)
        handled =
            take_ack-recent n low high a.count (received crc32 reply []) st (omega (arith, a.wide))
              a.narrow refl refl recent start end top others
              (λ is_ack. (first is_ack, a.written is_ack)) d
