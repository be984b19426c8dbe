-- ===== src/Transfer.antt =====
-- src/sender.c and src/receiver.c: what the sender sends, the receiver takes for the right packet.
use mathlib.Core.Path.{subst}
use lingi1341_projet.Prelude.{
  ℕ, ◌+◌, ◌%◌, ◌≤◌, ◌<◌, ◌≡◌, refl, sym, ap, ◌∙◌, true, some, List, [], ◌∷◌, ◌++◌, append_assoc,
  arith, length, take, All, take-append, All-append, Yields,
}
use lingi1341_projet.Bytes.{IsByte, IsU32, u32_bytes}
use lingi1341_projet.Packet.Fields.{Pkt}
use lingi1341_projet.Packet.Format.{max_read_size}
use lingi1341_projet.Packet.Wire.{wire_payload, wire}
use lingi1341_projet.Packet.RoundTrip.{wire_payload-IsByte, sent, sent_bytes, sent_size}
use lingi1341_projet.Queue.Order.{offset, Near}
use lingi1341_projet.Receiver.Reception.{IsGenuine, read_to_list_r-Delivers}
use lingi1341_projet.Sender.Supply.{IsData}
use lingi1341_projet.Receiver.State.{Receiver, System}
use lingi1341_projet.Receiver.Handler.{read_to_list_r}
use lingi1341_projet.Receiver.Stream.{Keeps}
use lingi1341_projet.Receiver.Delivery.{Delivers, IsSound}

-- Between 223 behind and 255 ahead, the number of a packet that is near determines the packet.
number-packet :
    (n i : ℕ)
    → i ≤ n + 255
    → n ≤ i + 223
    → Near (n % 256) (i % 256)
    → n + offset (n % 256) (i % 256) ≡ i
number-packet n i ahead behind near =
    let close : offset (n % 256) (i % 256) ≤ 32 = ground arith in omega arith

take-wire :
    (crc32 : List ℕ → ℕ) (bytes junk : List ℕ)
    → take (length bytes) (wire_payload crc32 bytes ++ junk) ≡ bytes
take-wire crc32 [] junk = refl
take-wire crc32 (x ∷ xs) junk = rw (append_assoc xs _ junk, take-append xs _) refl

module _ (crc32 : List ℕ → ℕ) (small : (bytes : List ℕ) → IsU32 (crc32 bytes)) (top : ℕ)
    (stream : ℕ → List ℕ) where
  -- A datagram that the sender may send for packet `i` of the stream, at the start of a buffer of at
  -- least 528 bytes, is genuine for a receiver that has delivered `n` payloads, if the packet is at
  -- most 255 ahead and at most 223 behind.
  pub IsSent-IsGenuine :
      (n i : ℕ) (pkt : Pkt) (junk : List ℕ) (readed : ℕ)
      → IsData stream i pkt
      → i < top
      → i ≤ n + 255
      → n ≤ i + 223
      → All IsByte junk
      → max_read_size ≤ length (wire crc32 pkt (stream i) ++ junk)
      → IsGenuine crc32 top stream n (some (wire crc32 pkt (stream i) ++ junk, readed))
  unfolding u32_bytes
  IsSent-IsGenuine n i pkt junk readed d early ahead behind bytes room = (
    sent crc32 small d.packet,
    wire_payload crc32 (stream i) ++ junk,
    refl,
    sent_bytes crc32 small d.packet,
    All-append IsByte _ junk (wire_payload-IsByte crc32 small (stream i) d.packet.contents) bytes,
    omega (arith, room),
    λ accepted is_data whole near.
        let same : n + offset (n % 256) pkt.seqnum ≡ i =
          ap (λ s. n + offset (n % 256) s) d.seqnum
          ∙ number-packet n i ahead behind (subst (Near (n % 256)) d.seqnum near) in
        (
          omega (arith, same),
          rw (sent_size crc32 small d.packet, take-wire crc32 (stream i) junk)
              (ap stream (sym same)),
        ),
  )

  -- One call of read_to_list_r, when the system works and recv() gives a datagram of the sender
  -- for packet `i` of the stream in a buffer of at least 528 bytes: if the packet is one of the
  -- first `top`, at most 255 ahead of the `n` payloads that are delivered and at most 223 behind,
  -- the call returns, and what is written is still a number of first payloads of the stream, no
  -- fewer than before.
  pub read_to_list_r-IsSent :
      (sys : System) (sound : IsSound sys) (n i : ℕ) (pkt : Pkt) (junk : List ℕ) (readed : ℕ)
      (st : Receiver)
      → sys.node_memory ≡ true
      → sys.payload_memory ≡ true
      → sys.recv ≡ some (wire crc32 pkt (stream i) ++ junk, readed)
      → IsData stream i pkt
      → i < top
      → i ≤ n + 255
      → n ≤ i + 223
      → All IsByte junk
      → max_read_size ≤ length (wire crc32 pkt (stream i) ++ junk)
      → Delivers crc32 top stream n st
      → Yields (Keeps crc32 top stream n) (read_to_list_r crc32 sys st)
  read_to_list_r-IsSent sys sound n i pkt junk readed st node payload arrived d early ahead behind
        bytes room delivers =
      read_to_list_r-Delivers crc32 sys sound top stream small n st node payload
        (subst (IsGenuine crc32 top stream n) (sym arrived)
          (IsSent-IsGenuine n i pkt junk readed d early ahead behind bytes room))
        delivers
