-- ===== src/Network/Results.antt =====
-- src/sender.c and src/receiver.c: what the two programs achieve together.
use lingi1341_projet.Prelude.{
  ℕ, suc, ◌+◌, ◌≤◌, ◌≡◌, ap, ◌∙◌, inl, inr, List, [], ◌∷◌, ◌++◌, append-nil, arith, ◌==◌, ==→eq,
  not_==→ne, Bool-cases, All, Yields,
}
use lingi1341_projet.Bytes.{IsU32}
use lingi1341_projet.Receiver.Delivery.{up_to}
use lingi1341_projet.Receiver.Handler.{
  process_receiver, Selected as ReceiverSelected, running as receiver_running,
}
use lingi1341_projet.Network.State.{
  sends, receives, Allows, Expects, Net, send_round, receive_round, Reach, next,
}
use lingi1341_projet.Network.Invariant.{Ends, send_round-Joint}
use lingi1341_projet.Sender.Loop.{round, Selected, running, ended}
use lingi1341_projet.Sender.Supply.{IsSent}
use lingi1341_projet.Network.Preservation.{receive_round-Joint, Reach-Joint}

module _ (crc32 : List ℕ → ℕ) (stream : ℕ → List ℕ)
    (small : (bytes : List ℕ) → IsU32 (crc32 bytes)) where
  -- In every state that is reached by rounds of the two programs, in any order, the timeout and
  -- the errors of select() included, where malloc has memory, read() gives the payloads of the
  -- stream, write() takes all bytes it is given or fails, and the network loses, repeats, reorders
  -- and damages datagrams (damage that is detected), but delivers none that is more than 223
  -- numbers late, the bytes that write() has taken from the receiver are the first payloads of the
  -- stream, each once and in order, as many as it counts (what printf() puts on stdout when recv()
  -- fails is apart); they are payloads of packets that the sender has made, the sender is at most
  -- 32 packets ahead, and each datagram it has sent is of a packet made, in the packet format.
  pub Reach-up_to :
      (net : Net)
      → Reach crc32 stream net
      → (net.receiver.output ≡ up_to stream net.delivered)
        × (net.delivered ≤ net.packets)
        × (net.packets ≤ net.delivered + 32)
        × All (IsSent stream crc32 net.packets) net.sender.sent
  Reach-up_to net r =
      let joint = Reach-Joint crc32 stream small r in
      (joint.delivers.output, joint.delivers.bound, joint.near, joint.sent)

  -- If, in a state that is reached by rounds of the two programs, in any order, the timeout and
  -- the errors of select() included, where malloc has memory, read() gives the payloads of the
  -- stream, write() takes all bytes it is given or fails, and the network loses, repeats, reorders
  -- and damages datagrams (damage that is detected), but delivers none that is more than 223
  -- numbers late, the loop of the sender has ended by itself, the bytes that write() has taken
  -- from the receiver are all payloads before the first empty one: the whole input (what printf()
  -- puts on stdout when recv() fails is apart).
  pub Reach-complete :
      (net : Net)
      → Reach crc32 stream net
      → net.loop ≡ ended
      → (last : ℕ) × Ends stream last × (net.receiver.output ≡ up_to stream last)
  unfolding up_to
  Reach-complete net r over =
      let joint = Reach-Joint crc32 stream small r in
      let (last, total, ends, below, posted) = joint.closed over in
      (
        last,
        ends,
        elim (Bool-cases (net.delivered == last)) [
          | inl same ↦ joint.delivers.output ∙ ap (up_to stream) (==→eq net.delivered last same)
          | inr more ↦
              let above : net.delivered ≡ suc last =
                (let other = not_==→ne net.delivered last more in
                  omega (arith, joint.delivers.bound)) in
              joint.delivers.output
              ∙ ap (up_to stream) above
              ∙ ap (λ l. up_to stream last ++ l) ends.0
              ∙ append-nil (up_to stream last)
        ],
      )

  -- In a state that is reached by rounds under the conditions of Reach-up_to no round under
  -- these conditions (among them that write() takes all bytes or fails) leads to undefined
  -- behaviour: a round of the sender that runs returns, and so does a round of process_receiver
  -- while it runs, be it a datagram, a timeout or an error of select(), each with a state that
  -- is reached again.
  pub Reach-continues :
      (net : Net)
      → Reach crc32 stream net
      → ((event : Selected)
          → net.loop ≡ running
          → Allows crc32 stream net event
          → Yields
              (λ result. Reach crc32 stream (sends net result.0 result.1))
              (round crc32 event net.sender))
        × ((event : ReceiverSelected)
            → net.receiver_loop ≡ receiver_running
            → Expects crc32 stream net event
            → Yields
                (λ result. Reach crc32 stream (receives net result.0 result.1))
                (process_receiver crc32 (event ∷ []) net.receiver))
  Reach-continues net r = (
    λ event live allows.
        let (result, called, kept) =
          send_round-Joint crc32 stream net (Reach-Joint crc32 stream small r) small event live
            allows in
        (result, called, next r (send_round event result.0 result.1 live allows called)),
    λ event live works.
        let (result, called, kept) =
          receive_round-Joint crc32 stream small net event (Reach-Joint crc32 stream small r)
            works in
        (result, called, next r (receive_round event result.0 result.1 live works called)),
  )
