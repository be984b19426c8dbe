-- ===== src/Network/Bounds.antt =====
-- src/sender.c and src/receiver.c: the sizes of lists, windows and datagrams.
use lingi1341_projet.Prelude.{ℕ, suc, ◌+◌, ◌%◌, ◌≤◌, ◌≡◌, ap, List, [], ◌∷◌, arith, length, All}
use lingi1341_projet.Bytes.{IsU32, u32_bytes}
use lingi1341_projet.Packet.Fields.{Pkt}
use lingi1341_projet.Packet.Format.{max_read_size}
use lingi1341_projet.Packet.RoundTrip.{Carries-length}
use lingi1341_projet.Queue.Order.{offset, InOrder}
use lingi1341_projet.Sender.Loop.{running}
use lingi1341_projet.Sender.Supply.{IsSent, length-wire}
use lingi1341_projet.Receiver.Acks.{IsAck}
use lingi1341_projet.Receiver.Delivery.{Holds}
use lingi1341_projet.Network.State.{Net, Reach}
use lingi1341_projet.Network.Preservation.{Reach-Joint}
use lingi1341_projet.Packet.Wire.{wire, Carries}

module _ (crc32 : List ℕ → ℕ) (stream : ℕ → List ℕ) where
  -- The packets behind `k` numbers and within 32.
  length-InOrder :
      (top n k : ℕ) (xs : List Pkt)
      → InOrder (n % 256) k xs
      → All (Holds top stream n) xs
      → top ≤ n + 32
      → k ≤ 32
      → k + length xs ≤ 32
  length-InOrder top n k [] s h near low = omega arith
  length-InOrder top n k (x ∷ xs) s ((below, _, _), h) near low = omega (
    arith,
    length-InOrder top n (suc (offset (n % 256) x.seqnum)) xs s.3 h near (omega (arith, below)),
    s.1,
  )

  acks-twelve :
      (n : ℕ) (log : List (List ℕ)) → All (IsAck crc32 n) log → All (λ bytes. length bytes ≡ 12) log
  unfolding u32_bytes
  acks-twelve n [] h = tt
  acks-twelve n (bytes ∷ log) (a, h) = (ap length a.contents, acks-twelve n log h)

  wire-size :
      (pkt : Pkt) (payload bytes : List ℕ)
      → Carries pkt payload
      → length payload ≤ 512
      → bytes ≡ wire crc32 pkt payload
      → length bytes ≤ max_read_size
  wire-size pkt payload bytes carries fits e = ground (
    arith,
    ap length e,
    length-wire crc32 pkt payload carries,
    Carries-length pkt payload carries,
  )

  sent-size :
      (top : ℕ) (log : List (List ℕ))
      → All (IsSent stream crc32 top) log
      → All (λ bytes. length bytes ≤ max_read_size) log
  sent-size top [] h = tt
  sent-size top (bytes ∷ log) ((i, pkt, made, d, e), h) =
      (wire-size pkt (stream i) bytes d.packet.carries d.packet.size e, sent-size top log h)

  -- In every state that is reached by rounds of the two programs under the conditions of Results, the
  -- window of the receiver is from 1 to 31, its list has at most 32 packets and all datagrams it has
  -- sent have 12 bytes; and as long as the sender runs, its window is at most 31, its list has at
  -- most 31 packets, and all datagrams it has sent have at most 528 bytes.
  pub Reach-bounds :
      (small : (bytes : List ℕ) → IsU32 (crc32 bytes)) (net : Net)
      → Reach crc32 stream net
      → (1 ≤ net.receiver.window_size)
        × (net.receiver.window_size ≤ 31)
        × (length net.receiver.list ≤ 32)
        × All (λ bytes. length bytes ≡ 12) net.receiver.sent
        × (net.loop ≡ running
            → (net.sender.window_size ≤ 31)
              × (length net.sender.list ≤ 31)
              × All (λ bytes. length bytes ≤ max_read_size) net.sender.sent)
  Reach-bounds small net r =
      let joint = Reach-Joint crc32 stream small r in
      let d = joint.delivers in
      (
        d.low,
        d.high,
        omega (
          arith,
          length-InOrder net.packets net.delivered 0 net.receiver.list d.order d.stocked joint.near,
        ),
        acks-twelve net.delivered net.receiver.sent d.acks,
        λ live.
            let (n, s, total, below) = joint.serves live in
            (s.window, s.few, sent-size net.packets net.sender.sent joint.sent),
      )
