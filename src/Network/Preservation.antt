-- ===== src/Network/Preservation.antt =====
-- src/sender.c and src/receiver.c: the rounds of the two programs preserve the invariant.
use mathlib.Core.Path.{subst}
use lingi1341_projet.Sender.State.{Sender, start as sender_start}
use lingi1341_projet.Receiver.State.{Receiver, System as ReceiverSystem}
use lingi1341_projet.Prelude.{
  ℕ, ◌+◌, ◌≤◌, ◌≡◌, refl, sym, inl, inr, Option, none, some, List, [], ◌∷◌, arith, Yields,
}
use lingi1341_projet.Bytes.{IsU32}
use lingi1341_projet.Packet.Damage.{IsDamaged}
use lingi1341_projet.Queue.Order.{offset}
use lingi1341_projet.Receiver.Delivery.{up_to, Delivers}
use lingi1341_projet.Receiver.Reception.{IsGenuine, read_to_list_r-Delivers}
use lingi1341_projet.Receiver.Handler.{
  process_receiver, readable, timeout, Selected as ReceiverSelected, Loop as ReceiverLoop,
  error as receiver_error, ended as receiver_ended, aborted as aborted_receiver,
}
use lingi1341_projet.Receiver.Session.{loop_after, process_receiver-once, free_timeout-Delivers}
use lingi1341_projet.Transfer.{IsSent-IsGenuine}
use lingi1341_projet.Network.State.{
  start, sends, receives, DataArrives, Expects, Net, Step, send_round, receive_round, tick, Reach,
  here, next,
}
use lingi1341_projet.Network.Invariant.{send_round-Joint, Joint}
use lingi1341_projet.Sender.Loop.{Loop}
use lingi1341_projet.Sender.Invariant.{Supplies}

module _ (crc32 : List ℕ → ℕ) (stream : ℕ → List ℕ) where
  damaged-IsGenuine :
      (top n : ℕ) (r : Option (List ℕ × ℕ)) → IsDamaged crc32 r → IsGenuine crc32 top stream n r
  damaged-IsGenuine top n none damage = tt
  damaged-IsGenuine top n (some (bytes, readed)) (h, rest, e, is_header, is_rest, room, cut) = (
    h,
    rest,
    e,
    is_header,
    is_rest,
    room,
    λ accepted is_data whole near. absurd (whole (cut accepted)),
  )

  -- What the receiver's number says of the payloads written in a round.
  pub delivered-count :
      (n m top : ℕ) (old new : Receiver)
      → Delivers crc32 top stream n old
      → Delivers crc32 top stream m new
      → n ≤ m
      → top ≤ n + 32
      → n + offset old.waited_seqnum new.waited_seqnum ≡ m
  delivered-count n m top old new d kept above near =
      ground (arith, d.waited, kept.waited, kept.bound)

  start-Joint : Joint crc32 stream start
  unfolding up_to
  start-Joint = record {
    delivers = record {
      waited = refl;
      low = omega arith;
      high = omega arith;
      order = tt;
      stocked = tt;
      output = refl;
      bound = omega arith;
      clock = omega arith;
      acks = tt;
    };
    near = omega arith;
    serves = λ e. (0, start-Supplies, refl, omega arith);
    closed = λ e. cc;
    early = λ e last empty. omega arith;
    sent = tt;
  }
    where
      start-Supplies : Supplies stream crc32 1 0 sender_start
      start-Supplies = record {
        stocked = tt;
        few = omega arith;
        window = omega arith;
        wide = omega arith;
        ready = (refl, inl refl);
        sent = tt;
      }

  module _ (small : (bytes : List ℕ) → IsU32 (crc32 bytes)) where
    genuine :
        (net : Net) (sys : ReceiverSystem)
        → Joint crc32 stream net
        → DataArrives crc32 stream net sys.recv
        → IsGenuine crc32 net.packets stream net.delivered sys.recv
    genuine net sys joint (inl damage) = damaged-IsGenuine net.packets net.delivered sys.recv damage
    genuine net sys joint (inr (i, pkt, junk, readed, d, _, made, recent, arrived, is_junk, room)) =
        rw arrived (
          IsSent-IsGenuine crc32 small net.packets stream net.delivered i pkt junk readed d made
            (omega (arith, joint.near)) recent is_junk room)

    received :
        (net : Net) (loop : ReceiverLoop) (st : Receiver) (m : ℕ)
        → Joint crc32 stream net
        → net.delivered ≤ m
        → Delivers crc32 net.packets stream m st
        → Joint crc32 stream (receives net loop st)
    received net loop st m joint above kept = record {
      delivers = subst (λ k. Delivers crc32 net.packets stream k st) (sym count) kept;
      near = omega (arith, joint.near);
      serves = λ e. let (n, d, total, below) = joint.serves e in (n, d, total, omega arith);
      closed = λ e.
          let (last, total, empty, below, posted) = joint.closed e in
          (last, total, empty, omega arith, posted);
      early = joint.early;
      sent = joint.sent;
    }
      where
        count : net.delivered + offset net.receiver.waited_seqnum st.waited_seqnum ≡ m
        count =
            delivered-count net.delivered m net.packets net.receiver st joint.delivers kept above
              joint.near

    pub receive_round-Joint :
        (net : Net) (event : ReceiverSelected)
        → Joint crc32 stream net
        → Expects crc32 stream net event
        → Yields
            (λ result. Joint crc32 stream (receives net result.0 result.1))
            (process_receiver crc32 (event ∷ []) net.receiver)
    unfolding process_receiver
    receive_round-Joint net receiver_error joint works = (
      _,
      refl,
      received net aborted_receiver net.receiver net.delivered joint (omega arith) joint.delivers,
    )
    receive_round-Joint net timeout joint works =
        let (st, called, kept) =
          free_timeout-Delivers crc32 net.packets stream net.delivered net.receiver
            joint.delivers in
        rw called (_, refl, received net receiver_ended st net.delivered joint (omega arith) kept)
    receive_round-Joint net (readable sys) joint works =
        let ((status, st), called, (m, above, kept)) =
          read_to_list_r-Delivers crc32 sys works.sound net.packets stream small net.delivered
            net.receiver works.nodes works.payloads (genuine net sys joint works.arrives)
            joint.delivers in
        (
          _,
          process_receiver-once crc32 sys status net.receiver st called,
          received net (loop_after status) st m joint above kept,
        )

    pub Step-Joint :
        {net net' : Net}
        → Joint crc32 stream net
        → Step crc32 stream net net'
        → Joint crc32 stream net'
    Step-Joint {net} joint (send_round event loop st live allows called) =
        let (result, same, kept) =
          send_round-Joint crc32 stream net joint small event live allows in
        let e : result ≡ (loop, st) = cc in
        subst (λ (r : Loop × Sender). Joint crc32 stream (sends net r.0 r.1)) e kept
    Step-Joint {net} joint (receive_round event loop st live works called) =
        let (result, same, kept) = receive_round-Joint net event joint works in
        let e : result ≡ (loop, st) = cc in
        subst (λ (r : ReceiverLoop × Receiver). Joint crc32 stream (receives net r.0 r.1)) e kept
    Step-Joint joint (tick time) = record {
      delivers = joint.delivers;
      near = joint.near;
      serves = joint.serves;
      closed = joint.closed;
      early = joint.early;
      sent = joint.sent;
    }

    pub Reach-Joint : {net : Net} → Reach crc32 stream net → Joint crc32 stream net
    Reach-Joint here = start-Joint
    Reach-Joint (next r s) = Step-Joint (Reach-Joint r) s
