-- ===== src/Network/Exchange.antt =====
-- src/sender.c and src/receiver.c: a packet arrives, and its acknowledgement.
use mathlib.Core.Path.{subst}
use mathlib.Core.List.{Mem, mem-cons_self, mem-append_right}
use lingi1341_projet.Prelude.{
  ℕ, ◌+◌, ◌≤◌, ◌<◌, ◌≡◌, refl, sym, ap, ◌∙◌, inr, none, some, List, ◌++◌, arith, length, Yields,
}
use lingi1341_projet.Bytes.{IsU32}
use lingi1341_projet.Network.State.{Net}
use lingi1341_projet.Network.Runs.{Leading, send_step, receive_step, At}
use lingi1341_projet.Network.Calls.{
  sender_calls, receiver_calls-IsSound, blank, blank-IsByte, blank_room, acks-IsWorking,
}
use lingi1341_projet.Network.Turns.{Holding, Posted, arriving, refine, arriving-Works}
use lingi1341_projet.Network.Preservation.{delivered-count}
use lingi1341_projet.Sender.Loop.{on_socket, round, socket}
use lingi1341_projet.Sender.Events.{Proceeds, on_socket-Proceeds}
use lingi1341_projet.Sender.Recent.{check_ack-recent}
use lingi1341_projet.Receiver.Acks.{ack, IsAck}
use lingi1341_projet.Receiver.Delivery.{Delivers}
use lingi1341_projet.Receiver.Advance.{read_to_list_r-decodes, read_to_list_r-advances}
use lingi1341_projet.Receiver.Repetition.{read_to_list_r-answers}
use lingi1341_projet.Packet.Fields.{ptype_ack, pkt_ok}
use lingi1341_projet.Packet.Wire.{wire_header, wire}
use lingi1341_projet.Receiver.Handler.{okay}
use lingi1341_projet.Receiver.Unfinished.{dispatch-Unfinished, Holds-full}
use lingi1341_projet.Packet.RoundTrip.{received, Carries-length}

module _ (crc32 : List ℕ → ℕ) (stream : ℕ → List ℕ)
    (small : (bytes : List ℕ) → IsU32 (crc32 bytes)) where
  -- The packet that is waited for arrives and is written.
  pub delivers :
      (n : ℕ) (net : Net)
      → Holding crc32 stream n net
      → Posted crc32 stream n net
      → n ≡ net.delivered
      → Leading crc32 stream net (λ net'. Holding crc32 stream n net' × (n < net'.delivered))
  delivers n net (at, positive) posted waited =
      let (pkt, d, some_bytes, _) = posted in
      let sys = arriving crc32 stream n pkt in
      let works = arriving-Works crc32 stream small n net (at, positive) posted in
      let old =
        subst (λ k. Delivers crc32 net.packets stream k net.receiver) (sym waited)
          at.joint.delivers in
      let ((status, st), called, (m, above, kept)) =
        read_to_list_r-advances crc32 small sys (receiver_calls-IsSound _) net.packets stream n pkt
          blank 528 net.receiver refl refl refl refl refl d (omega (arith, at.total)) blank-IsByte
          (blank_room (wire crc32 pkt (stream n))) old in
      let on =
        dispatch-Unfinished crc32 sys pkt_ok (received crc32 pkt (stream n)) net.receiver
          (λ none. omega (arith, none, some_bytes, Carries-length pkt (stream n) d.packet.carries))
          (Holds-full net.packets stream net.delivered net.receiver.list (at.joint.early at.live)
            at.joint.delivers.stocked)
          (status, st)
          (sym (
              read_to_list_r-decodes crc32 small sys (stream n) pkt blank 528 net.receiver refl refl
                refl d.packet blank-IsByte (blank_room (wire crc32 pkt (stream n))))
            ∙ called) in
      let (leads, at') = receive_step crc32 stream small n net sys status st at works called on in
      let count =
        delivered-count crc32 stream n m net.packets net.receiver st old kept (omega (arith, above))
          (omega (arith, at.joint.near, waited)) in
      (_, leads, inr ((at', positive), omega (arith, waited, count, above)))

  -- An acknowledgement of all packets that are written.
  abbrev pub Answered : Net → Type 0
  Answered net =
      (bytes : List ℕ) × (a : IsAck crc32 net.delivered bytes) × (a.kind ≡ ptype_ack)
      × (a.count ≡ net.delivered)
      × Mem bytes net.receiver.sent

  -- A packet arrives that is written already.
  pub answers :
      (n : ℕ) (net : Net)
      → Holding crc32 stream n net
      → Posted crc32 stream n net
      → n < net.delivered
      → Leading crc32 stream net
          (λ net'. At crc32 stream n net' × Answered net' × (net.delivered ≤ net'.delivered))
  answers n net (at, positive) posted before =
      let (pkt, d, some_bytes, _) = posted in
      let sys = arriving crc32 stream n pkt in
      let works = arriving-Works crc32 stream small n net (at, positive) posted in
      let old = at.joint.delivers in
      let called =
        read_to_list_r-answers crc32 sys stream net.delivered n pkt net.receiver d old.waited
          some_bytes small blank 528 before (omega (arith, at.total, at.supplies.few, old.bound))
          old.high refl refl refl refl blank-IsByte (blank_room (wire crc32 pkt (stream n))) in
      let (leads, at') =
        receive_step crc32 stream small n net sys okay _ at works called (λ e. cc) in
      let now = at'.joint.delivers in
      (
        _,
        leads,
        inr (
          at',
          (
            _,
            record {
              window = net.receiver.window_size;
              count = _;
              kind = ptype_ack;
              timestamp = pkt.timestamp;
              wide = old.low;
              narrow = old.high;
              low = omega arith;
              high = omega arith;
              clock = d.packet.timestamp;
              written = λ is_ack. omega arith;
              contents =
                  ap
                    (λ s.
                      wire_header crc32 (ack net.receiver.window_size s ptype_ack pkt.timestamp))
                    now.waited;
            },
            refl,
            refl,
            mem-append_right net.receiver.sent mem-cons_self,
          ),
          omega arith,
        ),
      )

  -- The acknowledgement arrives: the packets that are written are deleted from the list of the sender.
  pub acked :
      (n : ℕ) (net : Net)
      → At crc32 stream n net
      → Answered net
      → Leading crc32 stream net (λ net'. (m : ℕ) × (net.delivered ≤ m) × At crc32 stream m net')
  unfolding round
  acked n net at (bytes, a, is_ack, all, there) =
      let sys = sender_calls net.clock (some (bytes ++ blank, 528)) none in
      let works = acks-IsWorking stream net.packets net.clock crc32 small net.delivered bytes a in
      let proceeds =
        on_socket-Proceeds stream crc32 1 sys net.delivered net.delivered
          (n + length net.sender.list) net.sender
          (check_ack-recent stream crc32 1 sys small n net.delivered net.delivered net.packets bytes
            blank 528 net.sender works refl a blank-IsByte (blank_room bytes)
            (omega (arith, at.below, all)) (omega arith) at.below at.below
            (omega (arith, at.total, at.joint.delivers.bound)) (λ other. absurd (other is_ack))
            (λ e. omega (arith, all)) at.supplies) in
      refine crc32 stream small
        (send_step crc32 stream small n net.delivered net.delivered net (socket sys) (λ _. Unit {0})
          at
          (
            refl,
            works,
            inr (
              bytes,
              blank,
              528,
              a,
              there,
              omega (arith, all, at.joint.near),
              refl,
              blank-IsByte,
              blank_room bytes,
            ),
          )
          (omega arith)
          (subst
            (λ t.
              Yields (Proceeds stream crc32 1 net.delivered net.delivered t)
                (on_socket crc32 sys net.sender))
            at.total proceeds)
          (let (result, called, _) = proceeds in (result, called, tt)))
        (λ net' (m, above, _, at', _, _, _, _). (m, above, at'))
