-- ===== src/Sender/Replies.antt =====
-- src/sender.c: check_ack on consecutive packets of a stream.
use lingi1341_projet.Bytes.{IsByte, IsU32}
use lingi1341_projet.Packet.Decode.{pkt_decode}
use lingi1341_projet.Packet.Deletion.{pkt_del-out}
use lingi1341_projet.Packet.Encode.{is_ok}
use lingi1341_projet.Packet.Fields.{ptype_ack, zero_pkt, pkt_new, pkt_del, StatusCode, pkt_ok, Pkt}
use lingi1341_projet.Packet.Format.{header_list, verdict, is_ok→, Header}
use lingi1341_projet.Packet.Verdict.{buffer, pkt_decode-verdict}
use lingi1341_projet.Prelude.{
  ℕ, ◌+◌, ◌≤◌, ◌≡◌, refl, ◌≢◌, inl, inr, Bool, true, Option, none, some, List, ◌++◌, arith, ◌==◌,
  ==→eq, not_==→ne, Bool-cases, length, All, ◌>>=◌, Yields, returns,
}
use lingi1341_projet.Sender.Acks.{
  packet_checked, take_ack, handle_ack, check_ack, Checked, okay, failed, finished,
}
use lingi1341_projet.Sender.State.{start, Sender, System}
use lingi1341_projet.Sender.Supply.{Stock, packet_checked-Stock}
use lingi1341_projet.Sender.Input.{Takes, IsWorking}
use lingi1341_projet.Sender.Invariant.{Supplies}

module _ (stream : ℕ → List ℕ) (crc32 : List ℕ → ℕ) (least : ℕ) (sys : System) where
  pub Takes-same :
      (n : ℕ) (checked : Checked) (st : Sender)
      → checked ≢ finished
      → Supplies stream crc32 least n st
      → Takes stream crc32 least n (n + length st.list) (n + length st.list) (checked, st)
  Takes-same n checked st goes_on d =
      (goes_on, (n, omega arith, omega arith, omega arith, omega arith, d))

  -- By what packet_checked does: packets before one between `low` and `high` are deleted from the front.
  abbrev pub Deletes : (n low high ack eof : ℕ) → List Pkt → Type 0
  Deletes n low high ack eof xs =
      (m : ℕ) × (ys : List Pkt) × (packet_checked ack eof xs ≡ returns (okay, ys))
      × (low ≤ m)
      × (m ≤ high)
      × (m + length ys ≡ n + length xs)
      × Stock stream m ys

  pub take_ack-Takes :
      (n low high : ℕ) (pkt : Pkt) (st : Sender)
      → least ≤ pkt.window
      → pkt.window ≤ 31
      → pkt_del (some pkt) ≡ returns tt
      → n ≤ low
      → n ≤ high
      → (pkt.kind ≢ ptype_ack → low ≤ n)
      → (pkt.kind ≡ ptype_ack → Deletes n low high pkt.seqnum st.seqnum_eof st.list)
      → Supplies stream crc32 least n st
      → Yields (Takes stream crc32 least low high (n + length st.list)) (take_ack pkt st)
  unfolding take_ack
  take_ack-Takes n low high pkt st wide window deletable start end others deletes d =
      elim (Bool-cases (pkt.kind == ptype_ack)) [
        | inr other ↦
            rw (other, deletable)
              (
                _,
                refl,
                (
                  ground arith,
                  (
                    n,
                    others (not_==→ne pkt.kind ptype_ack other),
                    end,
                    omega arith,
                    omega arith,
                    widened n st.list refl (omega arith) d.stocked,
                  ),
                ),
              )
        | inl is_ack ↦
            let (m, ys, called, above, below, total, stock) =
              deletes (==→eq pkt.kind ptype_ack is_ack) in
            rw (is_ack, called, deletable)
              (
                _,
                refl,
                (
                  λ e. cc,
                  (
                    m,
                    above,
                    below,
                    omega (arith, total),
                    omega (arith, total),
                    widened m ys total (omega (arith, above)) stock,
                  ),
                ),
              )
      ]
    where
      widened :
          (m : ℕ) (ys : List Pkt)
          → m + length ys ≡ n + length st.list
          → n ≤ m
          → Stock stream m ys
          → Supplies stream crc32 least m (record st { window_size = pkt.window; list = ys })
      widened m ys total above stock = record {
        stocked = stock;
        few = omega (arith, d.few, total);
        window = window;
        wide = wide;
        ready = rw total d.ready;
        sent = rw total d.sent;
      }

module _ (stream : ℕ → List ℕ) (crc32 : List ℕ → ℕ) (sys : System) where
  handle_ack-Supplies :
      (n : ℕ) (status : StatusCode) (pkt : Pkt) (st : Sender)
      → (status ≡ pkt_ok → pkt.window ≤ 31)
      → pkt_del (some pkt) ≡ returns tt
      → Supplies stream crc32 0 n st
      → Yields
          (Takes stream crc32 0 n (n + length st.list) (n + length st.list))
          (handle_ack (status, pkt) st)
  unfolding handle_ack
  handle_ack-Supplies n status pkt st window deletable d = elim (Bool-cases (is_ok status)) [
    | inr bad ↦ rw (bad, deletable) (_, refl, Takes-same stream crc32 0 sys n failed st (λ e. cc) d)
    | inl good ↦ rw good (elim (Bool-cases (pkt.truncated == 1)) [
      | inl cut ↦
          rw (cut, deletable) (_, refl, Takes-same stream crc32 0 sys n failed st (λ e. cc) d)
      | inr whole ↦ rw whole (
          take_ack-Takes stream crc32 0 sys n n (n + length st.list) pkt st (omega arith)
            (window (is_ok→ status good)) deletable (omega arith) (omega arith)
            (λ other. omega arith)
            (λ is_ack.
              let (m, ys, called, above, total, stock) =
                packet_checked-Stock stream pkt.seqnum st.seqnum_eof n st.list d.stocked in
              (m, ys, called, above, omega (arith, total), total, stock))
            d)
    ])
  ]

  module _ (small : (bytes : List ℕ) → IsU32 (crc32 bytes)) where
    -- What recv() gave, with the packet's and the payload's memory.
    taken :
        (n : ℕ) (st : Sender) (r : Option (List ℕ × ℕ)) (packet payload : Bool)
        → packet ≡ true
        → payload ≡ true
        → ((bytes : List ℕ) (readed : ℕ)
            → r ≡ some (bytes, readed)
            → (h : Header) × (rest : List ℕ) × (bytes ≡ header_list h ++ rest)
              × All IsByte (header_list h)
              × All IsByte rest
              × (516 ≤ length rest))
        → Supplies stream crc32 0 n st
        → Yields (Takes stream crc32 0 n (n + length st.list) (n + length st.list)) (elim r [
          | none ↦ returns (failed, st)
          | some (buffer, readed) ↦ elim (pkt_new packet) [
            | none ↦ returns (okay, st)
            | some pkt ↦
                pkt_decode crc32 (some buffer) readed payload pkt
                >>= (λ decoded. handle_ack decoded st)
          ]
        ])
    unfolding pkt_new
    taken n st none packet payload have_packet have_payload buffers d =
        (_, refl, Takes-same stream crc32 0 sys n failed st (λ e. cc) d)
    taken n st (some (bytes, readed)) packet payload have_packet have_payload buffers d =
        let (h, rest, e, is_header, is_rest, room) = buffers bytes readed refl in
        let (out, called, good, kept) =
          pkt_decode-verdict crc32 h rest is_rest room is_header small readed zero_pkt in
        let window : verdict crc32 h rest ≡ pkt_ok → out.window ≤ 31 =
          (λ accepted. rw (good accepted) (omega arith)) in
        rw (have_packet, have_payload, e, called)
          (handle_ack-Supplies n (verdict crc32 h rest) out st window
            (pkt_del-out crc32 h rest out good kept) d)

    -- check_ack of a state that supplies the stream, on whatever arrives in a buffer of at least 528
    -- bytes, when malloc has memory: it returns and does not report the end, and the state still
    -- supplies the stream, from the same packet or a later one on and up to the same packet.
    pub check_ack-Supplies :
        (n i : ℕ) (st : Sender)
        → IsWorking stream i sys
        → Supplies stream crc32 0 n st
        → Yields
            (Takes stream crc32 0 n (n + length st.list) (n + length st.list))
            (check_ack crc32 sys st)
    unfolding check_ack
    check_ack-Supplies n i st works d =
        taken n st sys.recv sys.pkt_memory sys.payload_memory works.packets works.payloads
          works.buffers d
