-- ===== src/Receiver/Closing.antt =====
-- src/receiver.c: read_to_list_r on the empty packet, with which the transfer ends.
use mathlib.Core.Path.{subst}
use lingi1341_projet.Prelude.{
  ℕ, suc, ◌≤◌, ◌≡◌, refl, sym, true, false, some, List, [], ◌++◌, arith, ltb, ◌==◌, le→not_ltb,
  length, All, Yields, Yields-both,
}
use lingi1341_projet.Packet.Fields.{ptype_data, pkt_ok, Pkt}
use lingi1341_projet.Packet.Wire.{wire}
use lingi1341_projet.Packet.RoundTrip.{received, Carries-length}
use lingi1341_projet.Receiver.State.{Receiver, System}
use lingi1341_projet.Receiver.Handler.{dispatch, read_to_list_r}
use lingi1341_projet.Receiver.Delivery.{Delivers, IsSound}
use lingi1341_projet.Bytes.{IsByte, IsU32}
use lingi1341_projet.Packet.Format.{max_read_size}
use lingi1341_projet.Receiver.Advance.{
  received-Carries, received-pkt_del, read_to_list_r-decodes, read_to_list_r-advances,
}
use lingi1341_projet.Sender.Supply.{IsData}
use lingi1341_projet.Receiver.Last.{closing, accept-closes}

module _ (crc32 : List ℕ → ℕ) (sys : System) (sound : IsSound sys) (stream : ℕ → List ℕ) (n : ℕ)
    (empty : stream n ≡ []) (all : sys.write 0 (stream n) ≡ some (length (stream n))) where
  module _ (small : (bytes : List ℕ) → IsU32 (crc32 bytes)) where
    -- When the system works, write() takes an empty payload, and recv() gives, in a buffer of at
    -- least 528 bytes, a datagram of the sender for the empty packet `n`, the last one made, while
    -- all payloads before it are written: read_to_list_r returns and has counted the packet as
    -- written, and it reports the end of the transfer, except where the number of the packet is
    -- 255: then it goes on.
    pub read_to_list_r-closes :
        (pkt : Pkt) (junk : List ℕ) (readed : ℕ) (st : Receiver)
        → sys.pkt_memory ≡ true
        → sys.payload_memory ≡ true
        → sys.node_memory ≡ true
        → sys.recv ≡ some (wire crc32 pkt (stream n) ++ junk, readed)
        → IsData stream n pkt
        → All IsByte junk
        → max_read_size ≤ length (wire crc32 pkt (stream n) ++ junk)
        → Delivers crc32 (suc n) stream n st
        → Yields
            (λ (status, st'). (status ≡ closing n) × Delivers crc32 (suc n) stream (suc n) st')
            (read_to_list_r crc32 sys st)
    unfolding dispatch
    read_to_list_r-closes pkt junk readed st packets payloads nodes arrived d is_junk room kept =
        let (result, called, (closes, (m, above, later))) =
          Yields-both
            (subst (Yields (λ (status, _). status ≡ closing n)) (sym decoded) (
              rw (fits, is_data)
                (accept-closes crc32 sys sound stream n empty all (received crc32 pkt (stream n))
                  (record st { last_timestamp = pkt.timestamp }) nodes d.tr d.seqnum
                  (received-Carries crc32 pkt (stream n) d.packet.carries)
                  (received-pkt_del crc32 pkt (stream n) d.packet.carries) noted)))
            (read_to_list_r-advances crc32 small sys sound (suc n) stream n pkt junk readed st
              packets payloads nodes all arrived d (omega arith) is_junk room kept) in
        (
          result,
          called,
          (
            closes,
            subst (λ k. Delivers crc32 (suc n) stream k (result.1))
                (omega (arith, above, later.bound)) later,
          ),
        )
      where
        decoded :
            read_to_list_r crc32 sys st
            ≡ dispatch crc32 sys (pkt_ok, received crc32 pkt (stream n)) st
        decoded =
            read_to_list_r-decodes crc32 small sys (stream n) pkt junk readed st packets payloads
              arrived d.packet is_junk room

        noted : Delivers crc32 (suc n) stream n (record st { last_timestamp = pkt.timestamp })
        noted = record {
          waited = kept.waited;
          low = kept.low;
          high = kept.high;
          order = kept.order;
          stocked = kept.stocked;
          output = kept.output;
          bound = kept.bound;
          clock = d.packet.timestamp;
          acks = kept.acks;
        }

        fits : ltb 512 pkt.length ≡ false
        fits =
            le→not_ltb 512 pkt.length
              (omega (arith, Carries-length pkt (stream n) d.packet.carries, d.packet.size))

        is_data : (pkt.kind == ptype_data) ≡ true
        is_data = rw d.kind refl
