-- ===== src/Network/Closing.antt =====
-- src/sender.c and src/receiver.c: the end of the receiver, after that of the sender.
use mathlib.Core.Path.{subst}
use lingi1341_projet.Prelude.{
  ℕ, suc, ◌≡◌, refl, sym, ap, ◌∙◌, ◌⊎◌, inl, inr, List, [], ◌∷◌, arith, ◌==◌, ==→eq, not_==→ne,
  Bool-cases, Yields,
}
use lingi1341_projet.Bytes.{IsU32}
use lingi1341_projet.Packet.Wire.{wire}
use lingi1341_projet.Receiver.State.{System as ReceiverSystem}
use lingi1341_projet.Receiver.Handler.{process_receiver, readable, running as receiver_running}
use lingi1341_projet.Receiver.Session.{loop_after, process_receiver-once}
use lingi1341_projet.Receiver.Closing.{read_to_list_r-closes}
use lingi1341_projet.Receiver.Delivery.{Delivers}
use lingi1341_projet.Sender.Loop.{ended}
use lingi1341_projet.Sender.Supply.{IsPosted}
use lingi1341_projet.Network.State.{receives, Net, Works, receive_round, Reach, next}
use lingi1341_projet.Network.Invariant.{Joint}
use lingi1341_projet.Network.Preservation.{delivered-count, Reach-Joint}
use lingi1341_projet.Network.Calls.{receiver_calls-IsSound, blank, blank-IsByte, blank_room}
use lingi1341_projet.Network.Turns.{arriving}
use lingi1341_projet.Receiver.Last.{closing}

module _ (crc32 : List ℕ → ℕ) (stream : ℕ → List ℕ) where
  -- The empty packet arrives.
  last-Works :
      (net : Net)
      → Joint crc32 stream net
      → (posted : IsPosted stream crc32 net.delivered net.sender.sent)
      → net.packets ≡ suc net.delivered
      → Works crc32 stream net (arriving crc32 stream net.delivered (posted.0))
  last-Works net joint (pkt, d, there) total = record {
    sound = receiver_calls-IsSound _;
    nodes = refl;
    payloads = refl;
    arrives = inr (
      net.delivered,
      pkt,
      blank,
      528,
      d,
      there,
      omega (arith, total),
      omega arith,
      refl,
      blank-IsByte,
      blank_room (wire crc32 pkt (stream net.delivered)),
    );
  }

  -- In a round that the conditions allow, the receiver counts all packets and reports the end.
  abbrev pub Finishing : Net → Type 0
  Finishing net =
      (sys : ReceiverSystem) × Works crc32 stream net sys
      × Yields
          (λ (loop, st).
            (loop ≡ loop_after (closing net.delivered))
            × ((receives net loop st).delivered ≡ net.packets)
            × Reach crc32 stream (receives net loop st))
          (process_receiver crc32 (readable sys ∷ []) net.receiver)

  module _ (small : (bytes : List ℕ) → IsU32 (crc32 bytes)) where
    finishing :
        (net : Net)
        → Reach crc32 stream net
        → net.receiver_loop ≡ receiver_running
        → IsPosted stream crc32 net.delivered net.sender.sent
        → stream net.delivered ≡ []
        → net.packets ≡ suc net.delivered
        → Finishing net
    finishing net r listens posted empty total =
        let joint = Reach-Joint crc32 stream small r in
        let (pkt, d, there) = posted in
        let sys = arriving crc32 stream net.delivered pkt in
        let works = last-Works net joint posted total in
        let (result, called, (closes, kept)) =
          read_to_list_r-closes crc32 sys (receiver_calls-IsSound _) stream net.delivered empty refl
            small pkt blank 528 net.receiver refl refl refl refl d blank-IsByte
            (blank_room (wire crc32 pkt (stream net.delivered)))
            (subst (λ t. Delivers crc32 t stream net.delivered net.receiver) total
              joint.delivers) in
        let once = process_receiver-once crc32 sys (result.0) net.receiver (result.1) called in
        (
          sys,
          works,
          (
            (loop_after (result.0), result.1),
            once,
            (
              ap loop_after closes,
              delivered-count crc32 stream net.delivered (suc net.delivered) (suc net.delivered)
                    net.receiver (result.1)
                    (subst (λ t. Delivers crc32 t stream net.delivered net.receiver) total
                      joint.delivers)
                    kept (omega arith) (omega arith)
                  ∙ sym total,
              next r (
                  receive_round (readable sys) (loop_after (result.0)) (result.1) listens works
                    once),
            ),
          ),
        )

    -- In every state in which the loop of the sender has ended by itself while that of the
    -- receiver still runs, and that is reached by rounds under the conditions of Reach-complete,
    -- either the receiver has counted all packets, the empty last one too, or that one was sent,
    -- and there is a round of process_receiver under the same conditions in which it arrives: the
    -- round returns, all packets are counted, and the loop ends, except where the number of the
    -- last packet is 255: then it goes on.
    pub Reach-closes :
        (net : Net)
        → Reach crc32 stream net
        → net.loop ≡ ended
        → net.receiver_loop ≡ receiver_running
        → (net.delivered ≡ net.packets) ⊎ Finishing net
    Reach-closes net r over listens =
        let joint = Reach-Joint crc32 stream small r in
        let (last, total, ends, below, posted) = joint.closed over in
        elim (Bool-cases (net.delivered == last)) [
          | inl same ↦
              let e : last ≡ net.delivered = sym (==→eq net.delivered last same) in
              inr (
                finishing net r listens
                  (subst (λ i. IsPosted stream crc32 i net.sender.sent) e posted)
                  (sym (ap stream e) ∙ ends.0) (total ∙ ap suc e))
          | inr more ↦
              let other = not_==→ne net.delivered last more in
              inl (omega (arith, joint.delivers.bound, other))
        ]
