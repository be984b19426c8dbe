-- ===== src/Network/Invariant.antt =====
-- src/sender.c and src/receiver.c: the invariant of the two programs and its preservation by the
-- rounds of each.
use mathlib.Core.Path.{subst}
use lingi1341_projet.Sender.State.{Sender}
use lingi1341_projet.Receiver.State.{Receiver}
use lingi1341_projet.Prelude.{
  ℕ, suc, ◌+◌, ◌≤◌, ◌≡◌, refl, sym, ap, ◌∙◌, ◌≢◌, inl, inr, List, [], ◌∷◌, arith, length, All,
  Yields, Outcome,
}
use lingi1341_projet.Packet.Fields.{Pkt}
use lingi1341_projet.Queue.Order.{offset}
use lingi1341_projet.Sender.Loop.{
  round, Selected, error, socket, input, neither, Loop, running, ended, aborted,
}
use lingi1341_projet.Receiver.Delivery.{Holds, Delivers}
use lingi1341_projet.Network.State.{sends, Allows, Net}
use lingi1341_projet.Bytes.{IsU32}
use lingi1341_projet.Sender.Recent.{check_ack-recent}
use lingi1341_projet.Sender.Damaged.{check_ack-damaged}
use lingi1341_projet.Sender.Input.{IsWorking}
use lingi1341_projet.Sender.Invariant.{posted, Supplies}
use lingi1341_projet.Sender.Events.{
  Proceeds, on_socket-Proceeds, neither-Proceeds, on_input-Proceeds, widen, Runs, Proceeds-Runs,
}
use lingi1341_projet.Sender.Supply.{Stock, IsSent, IsPosted}

-- The stream ends with packet `last`, the first empty one.
abbrev pub Ends : (stream : ℕ → List ℕ) → (last : ℕ) → Type 0
Ends stream last = (stream last ≡ []) × ((i : ℕ) → stream i ≡ [] → last ≤ i)

module _ (crc32 : List ℕ → ℕ) (stream : ℕ → List ℕ) where
  -- While the sender runs, its list starts with packet `n`, all before it are written, and it ends
  -- before packet `top`.
  abbrev pub Serves : (top delivered : ℕ) → Sender → Type 0
  Serves top delivered st =
      (n : ℕ) × Supplies stream crc32 1 n st × (n + length st.list ≡ top) × (n ≤ delivered)

  -- The last of `top` packets is the first empty one, it was sent, and all packets before it are
  -- written.
  abbrev pub Closed : (top delivered : ℕ) → List (List ℕ) → Type 0
  Closed top delivered log =
      (last : ℕ) × (top ≡ suc last)
      × Ends stream last
      × (last ≤ delivered)
      × IsPosted stream crc32 last log

  -- The receiver has delivered `delivered` payloads of the packets made so far and is at most 32
  -- behind. While the sender runs, no packet made is an empty one. Only packets made were sent.
  pub record Joint (net : Net) : Type 0 where
    pub delivers : Delivers crc32 net.packets stream net.delivered net.receiver
    pub near : net.packets ≤ net.delivered + 32
    pub serves : net.loop ≡ running → Serves net.packets net.delivered net.sender
    pub closed : net.loop ≡ ended → Closed net.packets net.delivered net.sender.sent
    pub early : net.loop ≡ running → (last : ℕ) → stream last ≡ [] → net.packets ≤ last
    pub sent : All (IsSent stream crc32 net.packets) net.sender.sent

  Holds-top :
      (top top' n : ℕ) (xs : List Pkt)
      → top ≤ top'
      → All (Holds top stream n) xs
      → All (Holds top' stream n) xs
  Holds-top top top' n [] more h = tt
  Holds-top top top' n (x ∷ xs) more ((early, carries, deletable), h) =
      ((omega arith, carries, deletable), Holds-top top top' n xs more h)

  -- More packets were made.
  Delivers-top :
      (top top' n : ℕ) (st : Receiver)
      → top ≤ top'
      → Delivers crc32 top stream n st
      → Delivers crc32 top' stream n st
  Delivers-top top top' n st more d = record {
    waited = d.waited;
    low = d.low;
    high = d.high;
    order = d.order;
    stocked = Holds-top top top' n st.list more d.stocked;
    output = d.output;
    bound = omega (arith, d.bound);
    clock = d.clock;
    acks = d.acks;
  }

  -- A list of packets that are not empty ends before an empty one.
  Stock-not_last :
      (last n : ℕ) (xs : List Pkt)
      → stream last ≡ []
      → Stock stream n xs
      → n ≤ last
      → n + length xs ≤ last
  Stock-not_last last n [] empty s low = omega arith
  Stock-not_last last n (x ∷ xs) empty s low =
      let other : n ≢ last = (λ e.
        let none = ap (λ i. length (stream i)) e ∙ ap length empty in omega (arith, s.1, none)) in
      omega (arith, Stock-not_last last (suc n) xs empty s.2 (omega (arith, other)))

  -- What the sender's number says of the packets made in a round.
  pub packets-count :
      (n m packets : ℕ) (old new : Sender)
      → Supplies stream crc32 1 n old
      → n + length old.list ≡ packets
      → Supplies stream crc32 1 m new
      → packets ≤ m + length new.list
      → m + length new.list ≤ packets + 1
      → packets + offset old.seqnum new.seqnum ≡ m + length new.list
  packets-count n m packets old new d total kept early late =
      ground (arith, d.ready.0, kept.ready.0)

  module _ (net : Net) (joint : Joint net) where
    -- A round of process_sender that starts with packet `n`.
    abbrev Served : ℕ → Loop × Sender → Type 0
    Served n = Runs stream crc32 1 n net.delivered net.packets

    -- What a round leaves is again a state of the invariant.
    sends-Joint :
        (n : ℕ) (loop : Loop) (st : Sender)
        → net.loop ≡ running
        → Supplies stream crc32 1 n net.sender
        → n + length net.sender.list ≡ net.packets
        → Served n (loop, st)
        → Joint (sends net loop st)
    sends-Joint n running st live d total (m, above, below, early, late, kept) = record {
      delivers = Delivers-top net.packets _ net.delivered net.receiver (omega arith) joint.delivers;
      near = omega (arith, count, below, kept.few);
      serves = λ e. (m, kept, omega (arith, count), below);
      closed = λ e. cc;
      early = λ e last empty. omega (
        arith,
        count,
        joint.early live last empty,
        Stock-not_last last m st.list empty kept.stocked
            (omega (arith, joint.early live last empty)),
      );
      sent = rw count kept.sent;
    }
      where
        count : net.packets + offset net.sender.seqnum st.seqnum ≡ m + length st.list
        count = packets-count n m net.packets net.sender st d total kept early late
    sends-Joint n ended st live d total (m, early, below, empty, sent, posted) = record {
      delivers = Delivers-top net.packets _ net.delivered net.receiver (omega arith) joint.delivers;
      near = omega (arith, below, early);
      serves = λ e. cc;
      closed = λ e. (
        m,
        omega (arith, joint.delivers.bound),
        (empty, λ i none. omega (arith, joint.early live i none, joint.delivers.bound)),
        below,
        posted,
      );
      early = λ e. cc;
      sent =
          subst (λ t. All (IsSent stream crc32 t) st.sent)
            (omega (arith, joint.delivers.bound, below, early)) sent;
    }
    sends-Joint n aborted st live d total sent = record {
      delivers = joint.delivers;
      near = joint.near;
      serves = λ e. cc;
      closed = λ e. cc;
      early = λ e. cc;
      sent = sent;
    }

    pub send_round-Joint :
        (small : (bytes : List ℕ) → IsU32 (crc32 bytes))
        → (event : Selected) → net.loop ≡ running
        → Allows crc32 stream net event
        → Yields (λ result. Joint (sends net result.0 result.1)) (round crc32 event net.sender)
    unfolding round
    send_round-Joint small event live allows =
        let (n, d, total, below) = joint.serves live in
        let (result, called, served) = go n d total below event allows in
        (result, called, sends-Joint n result.0 result.1 live d total served)
      where
        up :
            (n : ℕ)
            → n + length net.sender.list ≡ net.packets
            → {outcome : Outcome (Loop × Sender)}
            → Yields (Proceeds stream crc32 1 n net.delivered (n + length net.sender.list)) outcome
            → Yields (Served n) outcome
        up n total {outcome} y =
            subst (λ t. Yields (Runs stream crc32 1 n net.delivered t) outcome) total
              (Proceeds-Runs stream crc32 1 n net.delivered (n + length net.sender.list) outcome y)

        go :
            (n : ℕ)
            → Supplies stream crc32 1 n net.sender
            → n + length net.sender.list ≡ net.packets
            → n ≤ net.delivered
            → (event : Selected) → Allows crc32 stream net event
            → Yields (Served n) (round crc32 event net.sender)
        go n d total below error allows =
            (_, refl, subst (λ t. All (IsSent stream crc32 t) net.sender.sent) total d.sent)
        go n d total below (neither sys) allows = up n total (
            widen stream crc32 1 n net.delivered (n + length net.sender.list) _ below
              (neither-Proceeds stream crc32 1 sys n net.sender d))
        go n d total below (input sys) (_, works) = up n total (
            widen stream crc32 1 n net.delivered (n + length net.sender.list) _ below (
              on_input-Proceeds stream crc32 1 sys n net.sender
                (subst (λ i. IsWorking stream i sys) (sym total) works) d))
        go n d total below (socket sys) (_, works, inl damage) = up n total (
            widen stream crc32 1 n net.delivered (n + length net.sender.list) _ below (
              on_socket-Proceeds stream crc32 1 sys n n (n + length net.sender.list) net.sender (
                check_ack-damaged stream crc32 1 sys small n net.packets net.sender works damage
                  d)))
        go n d total below (socket sys)
              (_, works, inr (bytes, junk, readed, a, _, recent, arrived, is_junk, room)) =
            up n total (
              on_socket-Proceeds stream crc32 1 sys n net.delivered (n + length net.sender.list)
                net.sender
                (check_ack-recent stream crc32 1 sys small n n net.delivered net.packets bytes junk
                  readed net.sender works arrived a is_junk room (omega (arith, total))
                  (omega arith) (omega arith) below (omega (arith, joint.delivers.bound))
                  (λ other. omega arith) (λ is_ack. omega arith) d))
