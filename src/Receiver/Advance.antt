-- ===== src/Receiver/Advance.antt =====
-- src/receiver.c: read_to_list_r on the packet that is waited for.
use mathlib.Core.Path.{subst}
use lingi1341_projet.Prelude.{
  ℕ, suc, ◌+◌, ◌%◌, ◌≤◌, ◌<◌, ◌≡◌, refl, sym, ap, ◌∙◌, inl, inr, Bool, true, false, Option, none,
  some, List, [], ◌∷◌, ◌++◌, arith, ltb, ◌==◌, le→not_ltb, ==→eq, Bool-cases, length, All, ◌>>=◌,
  Yields, Outcome, returns,
}
use lingi1341_projet.Packet.Fields.{ptype_data, pkt_new, free_payload, pkt_del, pkt_ok, Pkt}
use lingi1341_projet.Packet.Wire.{wire, Carries}
use lingi1341_projet.Packet.RoundTrip.{received, Carries-length, pkt_decode-wire, IsPacket}
use lingi1341_projet.Queue.Order.{comes_before, insert, offset, InOrder}
use lingi1341_projet.Queue.Sorting.{comes_before-offset}
use lingi1341_projet.Receiver.State.{check_in_window, Receiver, System}
use lingi1341_projet.Receiver.Handler.{
  stock, accept, dispatch, report, read_to_list_r, Status, okay,
}
use lingi1341_projet.Receiver.Delivery.{Delivers, IsSound}
use lingi1341_projet.Receiver.Writing.{write_in_sequence-advances}
use lingi1341_projet.Receiver.Stream.{Keeps, after_write-Delivers, stock-Delivers}
use lingi1341_projet.Packet.Format.{max_read_size}
use lingi1341_projet.Bytes.{IsByte, IsU32, u32_bytes}
use lingi1341_projet.Sender.Supply.{IsData}
use lingi1341_projet.Packet.Decode.{pkt_decode}

-- A packet with the first number comes to the head, if there is none with that number.
insert-head :
    (base : ℕ) (p : Pkt) (xs : List Pkt)
    → base < 256
    → p.seqnum ≡ base
    → InOrder base 0 xs
    → (x : Pkt) × (ys : List Pkt) × (insert p xs ≡ x ∷ ys) × (x.seqnum ≡ base)
unfolding insert
insert-head base p [] hb e s = (_, _, refl, e)
insert-head base p (x ∷ xs) hb e s =
    rw
      (let first : comes_before x.seqnum p.seqnum ≡ false =
          comes_before-offset base x.seqnum p.seqnum hb s.0 (omega (arith, e)) s.2
            (ground (arith, e))
          ∙ ground (arith, e) in
        first)
      (elim (Bool-cases (x.seqnum == p.seqnum)) [
        | inl same ↦ rw same (_, _, refl, ==→eq x.seqnum p.seqnum same ∙ e)
        | inr other ↦ rw other (_, _, refl, e)
      ])

module _ (crc32 : List ℕ → ℕ) (sys : System) (sound : IsSound sys) (top : ℕ)
    (stream : ℕ → List ℕ) where
  accept-advances :
      (n : ℕ) (pkt : Pkt) (st : Receiver)
      → sys.node_memory ≡ true
      → sys.write 0 (stream n) ≡ some (length (stream n))
      → pkt.truncated ≡ 0
      → pkt.seqnum ≡ n % 256
      → n < top
      → Carries pkt (stream n)
      → pkt_del (some pkt) ≡ returns tt
      → Delivers crc32 top stream n st
      → Yields (Keeps crc32 top stream (suc n)) (accept crc32 sys pkt st)
  unfolding accept check_in_window
  accept-advances n pkt st node all whole number made carries deletable d =
      let (x, ys, e, here) = insert-head (n % 256) pkt st.list (omega arith) number d.order in
      let (result, returned, kept) =
        write_in_sequence-advances crc32 sys sound top stream n x ys st (here ∙ sym d.waited) all
          (subst (λ l. Delivers crc32 top stream n (record st { list = l })) e stocked) in
      rw (cut, inside, store, e, returned)
        (after_write-Delivers crc32 sys sound top stream (suc n) result kept)
    where
      same : n ≡ n + offset (n % 256) pkt.seqnum
      same = omega (arith, number)

      stocked : Delivers crc32 top stream n (record st { list = insert pkt st.list })
      stocked =
          stock-Delivers crc32 sys sound top stream n pkt st (omega (arith, number))
            (ground (arith, number))
            (omega (arith, same), subst (λ i. Carries pkt (stream i)) same carries, deletable) d

      cut : (pkt.truncated == 1) ≡ false
      cut = rw whole refl

      inside : check_in_window st pkt.seqnum ≡ true
      inside = ground (arith, number, d.waited)

      store : stock sys.node_memory pkt st ≡ record st { list = insert pkt st.list }
      store = rw node refl

pub received-Carries :
    (crc32 : List ℕ → ℕ) (pkt : Pkt) (bytes : List ℕ)
    → Carries pkt bytes
    → Carries (received crc32 pkt bytes) bytes
received-Carries crc32 pkt [] c = c
received-Carries crc32 pkt (x ∷ xs) c = (c.0, refl)

pub received-pkt_del :
    (crc32 : List ℕ → ℕ) (pkt : Pkt) (bytes : List ℕ)
    → Carries pkt bytes
    → pkt_del (some (received crc32 pkt bytes)) ≡ returns tt
unfolding pkt_del free_payload
received-pkt_del crc32 pkt [] c = ground arith
received-pkt_del crc32 pkt (x ∷ xs) c = ground arith

-- recv() gives a datagram of the sender, in a buffer of at least 528 bytes: it is decoded.
pub read_to_list_r-decodes :
    (crc32 : List ℕ → ℕ) (small : (bytes : List ℕ) → IsU32 (crc32 bytes)) (sys : System)
    (bytes : List ℕ) (pkt : Pkt) (junk : List ℕ) (readed : ℕ) (st : Receiver)
    → sys.pkt_memory ≡ true
    → sys.payload_memory ≡ true
    → sys.recv ≡ some (wire crc32 pkt bytes ++ junk, readed)
    → IsPacket pkt bytes
    → All IsByte junk
    → max_read_size ≤ length (wire crc32 pkt bytes ++ junk)
    → read_to_list_r crc32 sys st ≡ dispatch crc32 sys (pkt_ok, received crc32 pkt bytes) st
unfolding read_to_list_r pkt_new u32_bytes
read_to_list_r-decodes crc32 small sys bytes pkt junk readed st packets payloads arrived is_packet
      is_junk room =
    (λ i. branch (arrived i) (packets i) (payloads i))
    ∙ ap (λ outcome. outcome >>= (λ decoded. dispatch crc32 sys decoded st))
        (pkt_decode-wire crc32 small is_packet junk readed is_junk (omega (arith, room)))
  where
    branch : Option (List ℕ × ℕ) → (packet payload : Bool) → Outcome (Status × Receiver)
    branch r packet payload = elim r [
      | none ↦ returns (okay, report crc32 sys st)
      | some (buffer, size) ↦ elim (pkt_new packet) [
        | none ↦ returns (okay, st)
        | some new ↦
            pkt_decode crc32 (some buffer) size payload new
            >>= (λ decoded. dispatch crc32 sys decoded st)
      ]
    ]

module _ (crc32 : List ℕ → ℕ) (small : (bytes : List ℕ) → IsU32 (crc32 bytes)) (sys : System)
    (sound : IsSound sys) (top : ℕ) (stream : ℕ → List ℕ) where
  dispatch-advances :
      (n : ℕ) (pkt : Pkt) (st : Receiver)
      → sys.node_memory ≡ true
      → sys.write 0 (stream n) ≡ some (length (stream n))
      → IsData stream n pkt
      → n < top
      → Delivers crc32 top stream n st
      → Yields
          (Keeps crc32 top stream (suc n))
          (dispatch crc32 sys (pkt_ok, received crc32 pkt (stream n)) st)
  unfolding dispatch
  dispatch-advances n pkt st node all data_pkt made d =
      rw (fits, is_data)
        (accept-advances crc32 sys sound top stream n (received crc32 pkt (stream n))
          (record st { last_timestamp = pkt.timestamp }) node all data_pkt.tr data_pkt.seqnum made
          (received-Carries crc32 pkt (stream n) data_pkt.packet.carries)
          (received-pkt_del crc32 pkt (stream n) data_pkt.packet.carries)
          (record {
            waited = d.waited;
            low = d.low;
            high = d.high;
            order = d.order;
            stocked = d.stocked;
            output = d.output;
            bound = d.bound;
            clock = data_pkt.packet.timestamp;
            acks = d.acks;
          }))
    where
      fits : ltb 512 pkt.length ≡ false
      fits = le→not_ltb 512 pkt.length (
          omega
            (arith, Carries-length pkt (stream n) data_pkt.packet.carries, data_pkt.packet.size))

      is_data : (pkt.kind == ptype_data) ≡ true
      is_data = rw data_pkt.kind refl

  -- When the system works and recv() gives a datagram of the sender for the packet that is waited for,
  -- one of the first `top`, in a buffer of at least 528 bytes, and write() takes its payload:
  -- read_to_list_r returns, and has written at least that payload, and then further ones of the
  -- stream.
  pub read_to_list_r-advances :
      (n : ℕ) (pkt : Pkt) (junk : List ℕ) (readed : ℕ) (st : Receiver)
      → sys.pkt_memory ≡ true
      → sys.payload_memory ≡ true
      → sys.node_memory ≡ true
      → sys.write 0 (stream n) ≡ some (length (stream n))
      → sys.recv ≡ some (wire crc32 pkt (stream n) ++ junk, readed)
      → IsData stream n pkt
      → n < top
      → All IsByte junk
      → max_read_size ≤ length (wire crc32 pkt (stream n) ++ junk)
      → Delivers crc32 top stream n st
      → Yields (Keeps crc32 top stream (suc n)) (read_to_list_r crc32 sys st)
  read_to_list_r-advances n pkt junk readed st packets payloads nodes all arrived data_pkt made
        is_junk room d =
      subst (Yields (Keeps crc32 top stream (suc n)))
        (sym (
          read_to_list_r-decodes crc32 small sys (stream n) pkt junk readed st packets payloads
            arrived data_pkt.packet is_junk room))
        (dispatch-advances n pkt st nodes all data_pkt made d)
