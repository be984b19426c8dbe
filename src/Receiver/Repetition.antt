-- ===== src/Receiver/Repetition.antt =====
-- src/receiver.c: read_to_list_r on a packet that has been written already.
use lingi1341_projet.Prelude.{
  ℕ, ◌+◌, ◌%◌, ◌≤◌, ◌<◌, ◌≡◌, refl, ◌∙◌, Bool, true, false, ◌&&◌, some, List, [], ◌∷◌, ◌++◌, arith,
  ltb, ◌==◌, le→not_ltb, length, All, returns,
}
use lingi1341_projet.Receiver.State.{check_in_window, Receiver, System}
use lingi1341_projet.Receiver.Handler.{out_of_window, accept, dispatch, read_to_list_r, okay}
use lingi1341_projet.Receiver.Acks.{ack, reply-sent}
use lingi1341_projet.Receiver.Advance.{received-pkt_del, read_to_list_r-decodes}
use lingi1341_projet.Packet.Fields.{ptype_data, ptype_ack, Pkt}
use lingi1341_projet.Packet.RoundTrip.{received, Carries-length}
use lingi1341_projet.Packet.Wire.{wire_header, wire}
use lingi1341_projet.Sender.Supply.{Carries-not_empty, IsData}
use lingi1341_projet.Bytes.{IsByte, IsU32}
use lingi1341_projet.Packet.Format.{max_read_size}

and_false : (b : Bool) → (b && false) ≡ false
and_false b = ground arith

-- The state after a packet with this timestamp was acknowledged.
abbrev pub answered : (List ℕ → ℕ) → ℕ → Receiver → Receiver
answered crc32 timestamp st = record st {
  last_timestamp = timestamp;
  sent =
      st.sent ++ (wire_header crc32 (ack st.window_size st.waited_seqnum ptype_ack timestamp) ∷ []);
}

module _ (crc32 : List ℕ → ℕ) (sys : System) (stream : ℕ → List ℕ) where
  module _ (n i : ℕ) (pkt : Pkt) (st : Receiver) (d : IsData stream i pkt)
      (waited : st.waited_seqnum ≡ n % 256) (positive : 0 < length (stream i)) where
    abbrev copy : Pkt
    copy = received crc32 pkt (stream i)

    abbrev noted : Receiver
    noted = record st { last_timestamp = pkt.timestamp }

    accept-answers :
        i < n
        → n ≤ i + 223
        → st.window_size ≤ 31
        → sys.ack_memory 0 ≡ true
        → accept crc32 sys copy noted ≡ returns (okay, answered crc32 pkt.timestamp st)
    unfolding accept out_of_window check_in_window
    accept-answers before recent narrow memory =
        rw
          (
            (let e : (copy.truncated == 1) ≡ false = rw d.tr refl in e),
            (let e : check_in_window noted pkt.seqnum ≡ false = ground (arith, d.seqnum, waited) in
                e),
            Carries-not_empty pkt (stream i) d.packet.carries positive,
            and_false (pkt.seqnum + 1 == st.waited_seqnum),
            received-pkt_del crc32 pkt (stream i) d.packet.carries,
            memory,
          )
          (reply-sent crc32 sys st.waited_seqnum ptype_ack okay noted memory narrow
            (omega (arith, waited)) (omega arith))

    -- When the system works and recv() gives a datagram of the sender, in a buffer of at least 528
    -- bytes, for a packet `i` with a payload that comes before packet `n` that is waited for, at
    -- most 223 behind it, and the window is at most 31: read_to_list_r answers with an
    -- acknowledgement of the number waited for, notes the timestamp of the packet, and changes
    -- nothing else.
    pub read_to_list_r-answers :
        (small : (bytes : List ℕ) → IsU32 (crc32 bytes)) (junk : List ℕ) (readed : ℕ)
        → i < n
        → n ≤ i + 223
        → st.window_size ≤ 31
        → sys.pkt_memory ≡ true
        → sys.payload_memory ≡ true
        → sys.ack_memory 0 ≡ true
        → sys.recv ≡ some (wire crc32 pkt (stream i) ++ junk, readed)
        → All IsByte junk
        → max_read_size ≤ length (wire crc32 pkt (stream i) ++ junk)
        → read_to_list_r crc32 sys st ≡ returns (okay, answered crc32 pkt.timestamp st)
    unfolding dispatch
    read_to_list_r-answers small junk readed before recent narrow packets payloads memory arrived
          is_junk room =
        read_to_list_r-decodes crc32 small sys (stream i) pkt junk readed st packets payloads
          arrived d.packet is_junk room
        ∙ rw (fits, is_data) (accept-answers before recent narrow memory)
      where
        fits : ltb 512 pkt.length ≡ false
        fits =
            le→not_ltb 512 pkt.length
              (omega (arith, Carries-length pkt (stream i) d.packet.carries, d.packet.size))

        is_data : (pkt.kind == ptype_data) ≡ true
        is_data = rw d.kind refl
