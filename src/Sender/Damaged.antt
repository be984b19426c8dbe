-- ===== src/Sender/Damaged.antt =====
-- src/sender.c: check_ack when what it receives was lost or damaged.
use lingi1341_projet.Prelude.{
  ℕ, ◌+◌, ◌≡◌, refl, inl, inr, Bool, true, Option, none, some, List, arith, ◌==◌, Bool-cases,
  length, ◌>>=◌, Yields, returns,
}
use lingi1341_projet.Bytes.{IsU32}
use lingi1341_projet.Packet.Fields.{zero_pkt, pkt_new, pkt_del, StatusCode, pkt_ok, Pkt}
use lingi1341_projet.Sender.State.{Sender, System}
use lingi1341_projet.Sender.Acks.{handle_ack, check_ack, okay, failed}
use lingi1341_projet.Sender.Input.{Takes, IsWorking}
use lingi1341_projet.Packet.Format.{verdict, is_ok→}
use lingi1341_projet.Packet.Decode.{pkt_decode}
use lingi1341_projet.Packet.Damage.{IsDamaged}
use lingi1341_projet.Packet.Encode.{is_ok}
use lingi1341_projet.Packet.Verdict.{buffer, pkt_decode-verdict}
use lingi1341_projet.Packet.Deletion.{pkt_del-out}
use lingi1341_projet.Sender.Invariant.{Supplies}

module _ (stream : ℕ → List ℕ) (crc32 : List ℕ → ℕ) (least : ℕ) (sys : System) where
  module _ (small : (bytes : List ℕ) → IsU32 (crc32 bytes)) where
    handle_ack-damaged :
        (n : ℕ) (status : StatusCode) (pkt : Pkt) (st : Sender)
        → (status ≡ pkt_ok → pkt.truncated ≡ 1)
        → pkt_del (some pkt) ≡ returns tt
        → Supplies stream crc32 least n st
        → Yields (Takes stream crc32 least n n (n + length st.list)) (handle_ack (status, pkt) st)
    unfolding handle_ack
    handle_ack-damaged n status pkt st cut deletable d = elim (Bool-cases (is_ok status)) [
      | inr bad ↦ rw (bad, deletable) (_, refl, unchanged)
      | inl good ↦
          let marked : (pkt.truncated == 1) ≡ true =
            (let e = cut (is_ok→ status good) in ground arith) in
          rw (good, marked, deletable) (_, refl, unchanged)
    ]
      where
        unchanged : Takes stream crc32 least n n (n + length st.list) (failed, st)
        unchanged = ((λ e. cc), (n, omega arith, omega arith, omega arith, omega arith, d))

    damaged :
        (n i : ℕ) (st : Sender) (r : Option (List ℕ × ℕ)) (packet payload : Bool)
        → packet ≡ true
        → payload ≡ true
        → IsDamaged crc32 r
        → Supplies stream crc32 least n st
        → Yields (Takes stream crc32 least n n (n + length st.list)) (elim r [
          | none ↦ returns (failed, st)
          | some (buffer, readed) ↦ elim (pkt_new packet) [
            | none ↦ returns (okay, st)
            | some pkt ↦
                pkt_decode crc32 (some buffer) readed payload pkt
                >>= (λ decoded. handle_ack decoded st)
          ]
        ])
    unfolding pkt_new
    damaged n i st none packet payload have_packet have_payload damage d =
        (_, refl, ((λ e. cc), (n, omega arith, omega arith, omega arith, omega arith, d)))
    damaged n i st (some (bytes, readed)) packet payload have_packet have_payload
          (h, rest, e, is_header, is_rest, room, cut) d =
        let (out, called, good, kept) =
          pkt_decode-verdict crc32 h rest is_rest room is_header small readed zero_pkt in
        let marked : verdict crc32 h rest ≡ pkt_ok → out.truncated ≡ 1 =
          (λ accepted. rw (good accepted) (cut accepted)) in
        rw (have_packet, have_payload, e, called)
          (handle_ack-damaged n (verdict crc32 h rest) out st marked
            (pkt_del-out crc32 h rest out good kept) d)

    -- check_ack, when what it receives was damaged: no packet is deleted.
    pub check_ack-damaged :
        (n i : ℕ) (st : Sender)
        → IsWorking stream i sys
        → IsDamaged crc32 sys.recv
        → Supplies stream crc32 least n st
        → Yields (Takes stream crc32 least n n (n + length st.list)) (check_ack crc32 sys st)
    unfolding check_ack
    check_ack-damaged n i st works damage d =
        damaged n i st sys.recv sys.pkt_memory sys.payload_memory works.packets works.payloads
          damage d
