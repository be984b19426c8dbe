-- ===== src/Receiver/Early.antt =====
-- src/receiver.c: read_to_list_r on a packet that is early, while the one that is waited for is missing.
use mathlib.Core.Path.{subst}
use lingi1341_projet.Prelude.{
  ℕ, ◌+◌, ◌%◌, ◌≤◌, ◌<◌, ◌≡◌, refl, ◌∙◌, ◌≢◌, inl, inr, true, false, some, List, ◌∷◌, ◌++◌, arith,
  ltb, ◌==◌, if◌then◌else◌, le→not_ltb, ne→not_==, Bool-cases, length, All, ◌>>=◌, returns,
}
use lingi1341_projet.Receiver.State.{check_in_window, Receiver, System}
use lingi1341_projet.Receiver.Handler.{stock, after_write, accept, dispatch, read_to_list_r, okay}
use lingi1341_projet.Receiver.Sequence.{write_loop, write_in_sequence}
use lingi1341_projet.Receiver.Acks.{reply-sent}
use lingi1341_projet.Receiver.Advance.{read_to_list_r-decodes}
use lingi1341_projet.Receiver.Insertion.{insert-All, insert-not_empty}
use lingi1341_projet.Receiver.Repetition.{answered}
use lingi1341_projet.Queue.Order.{insert}
use lingi1341_projet.Packet.Fields.{ptype_data, ptype_ack, Pkt}
use lingi1341_projet.Packet.RoundTrip.{received, Carries-length}
use lingi1341_projet.Packet.Wire.{wire}
use lingi1341_projet.Sender.Supply.{IsData}
use lingi1341_projet.Bytes.{IsByte, IsU32}
use lingi1341_projet.Packet.Format.{max_read_size}

module _ (crc32 : List ℕ → ℕ) (sys : System) where
  -- After a packet with this timestamp was stocked: the number waited for is acknowledged again, but
  -- only if the first number of the list is greater.
  abbrev pub early : (timestamp : ℕ) → Pkt → Receiver → Receiver
  early timestamp x st =
      if ltb st.waited_seqnum x.seqnum
      then answered crc32 timestamp st
      else record st { last_timestamp = timestamp }

  writes_none :
      (x : Pkt) (ys : List Pkt) (st : Receiver)
      → x.seqnum ≢ st.waited_seqnum
      → sys.ack_memory 0 ≡ true
      → st.window_size ≤ 31
      → st.waited_seqnum < 256
      → (write_in_sequence crc32 sys (record st { list = x ∷ ys }) >>= after_write crc32 sys)
        ≡ returns (okay, early st.last_timestamp x (record st { list = x ∷ ys }))
  unfolding write_in_sequence write_loop after_write
  writes_none x ys st other memory narrow byte = elim (Bool-cases (ltb st.waited_seqnum x.seqnum)) [
    | inl above ↦ rw above (
        reply-sent crc32 sys st.waited_seqnum ptype_ack okay (record st { list = x ∷ ys }) memory
          narrow byte (omega arith))
    | inr behind ↦ rw (behind, ne→not_== x.seqnum st.waited_seqnum other) refl
  ]

  module _ (stream : ℕ → List ℕ) (n i : ℕ) (pkt : Pkt) (st : Receiver) (d : IsData stream i pkt)
      (waited : st.waited_seqnum ≡ n % 256) where
    abbrev copy : Pkt
    copy = received crc32 pkt (stream i)

    -- The packet is stocked, and only an acknowledgement is sent.
    abbrev pub Waits : Type 0
    Waits =
        (x : Pkt) × (ys : List Pkt) × (insert copy st.list ≡ x ∷ ys)
        × (read_to_list_r crc32 sys st
            ≡ returns (okay, early pkt.timestamp x (record st { list = x ∷ ys })))

    accept-waits :
        (x : Pkt) (ys : List Pkt)
        → insert copy st.list ≡ x ∷ ys
        → x.seqnum ≢ st.waited_seqnum
        → n < i
        → i ≤ n + st.window_size
        → st.window_size ≤ 31
        → sys.node_memory ≡ true
        → sys.ack_memory 0 ≡ true
        → accept crc32 sys copy (record st { last_timestamp = pkt.timestamp })
          ≡ returns (okay, early pkt.timestamp x (record st { list = x ∷ ys }))
    unfolding accept check_in_window
    accept-waits x ys e other ahead inside narrow node memory =
        rw
          (
            (let whole : (copy.truncated == 1) ≡ false = rw d.tr refl in whole),
            (let near : check_in_window (record st { last_timestamp = pkt.timestamp }) pkt.seqnum
                    ≡ true =
                  ground (arith, d.seqnum, waited) in
                near),
            (let store : stock sys.node_memory copy (record st { last_timestamp = pkt.timestamp })
                    ≡ record st { last_timestamp = pkt.timestamp; list = insert copy st.list } =
                  rw node refl in
                store),
            e,
          )
          (writes_none x ys (record st { last_timestamp = pkt.timestamp }) other memory narrow
            (omega (arith, waited)))

    -- When the system works and recv() gives a datagram of the sender, in a buffer of at least 528
    -- bytes, for a packet `i` behind packet `n` that is waited for, within the window of at most
    -- 31, and packet `n` is not in the list: read_to_list_r returns; it has inserted the packet
    -- into the list, noted its timestamp and, if the first number of the list is greater than the
    -- one waited for, acknowledged that one again (it is smaller where the numbers pass 255, and
    -- then nothing is sent), and has changed nothing else.
    pub read_to_list_r-waits :
        (small : (bytes : List ℕ) → IsU32 (crc32 bytes)) (junk : List ℕ) (readed : ℕ)
        → n < i
        → i ≤ n + st.window_size
        → st.window_size ≤ 31
        → All (λ x. x.seqnum ≢ st.waited_seqnum) st.list
        → sys.pkt_memory ≡ true
        → sys.payload_memory ≡ true
        → sys.node_memory ≡ true
        → sys.ack_memory 0 ≡ true
        → sys.recv ≡ some (wire crc32 pkt (stream i) ++ junk, readed)
        → All IsByte junk
        → max_read_size ≤ length (wire crc32 pkt (stream i) ++ junk)
        → Waits
    unfolding dispatch
    read_to_list_r-waits small junk readed ahead inside narrow missing packets payloads nodes memory
          arrived is_junk room =
        let (x, ys, e) = insert-not_empty copy st.list in
        let others = subst (All (λ y. y.seqnum ≢ st.waited_seqnum)) e (
          insert-All (λ y. y.seqnum ≢ st.waited_seqnum) copy st.list
            (λ same. omega (arith, same, d.seqnum, waited)) missing) in
        (
          x,
          ys,
          e,
          read_to_list_r-decodes crc32 small sys (stream i) pkt junk readed st packets payloads
                arrived d.packet is_junk room
              ∙ rw (fits, is_data) (accept-waits x ys e others.0 ahead inside narrow nodes memory),
        )
      where
        fits : ltb 512 pkt.length ≡ false
        fits =
            le→not_ltb 512 pkt.length
              (omega (arith, Carries-length pkt (stream i) d.packet.carries, d.packet.size))

        is_data : (pkt.kind == ptype_data) ≡ true
        is_data = rw d.kind refl
