-- ===== src/Network/Turns.antt =====
-- src/sender.c and src/receiver.c: rounds by which the transfer goes on.
use mathlib.Core.List.{Mem}
use lingi1341_projet.Sender.State.{Sender, System as SenderSystem}
use lingi1341_projet.Receiver.State.{System as ReceiverSystem}
use mathlib.Core.Path.{subst}
use lingi1341_projet.Prelude.{
  ℕ, ◌+◌, ◌-◌, ◌%◌, ◌≤◌, ◌<◌, ◌≡◌, refl, sym, ap, ◌⊎◌, inl, inr, none, some, List, [], ◌∷◌, ◌++◌,
  arith, leb, leb→le, Bool-cases, not_leb→lt, length, Yields, Outcome,
}
use lingi1341_projet.Bytes.{IsU32}
use lingi1341_projet.Network.State.{Net, Works, Step, tick}
use lingi1341_projet.Network.Runs.{Leads-trans, Leading, and_then, send_step, stay, onward, At}
use lingi1341_projet.Network.Calls.{
  sender_calls, receiver_calls, receiver_calls-IsSound, blank, blank-IsByte, blank_room, IsInput,
  reads-IsWorking,
}
use lingi1341_projet.Sender.Loop.{after_events, round, input, neither, Loop, running, ended}
use lingi1341_projet.Sender.Events.{Proceeds, neither-Proceeds, on_input-Proceeds}
use lingi1341_projet.Sender.Progress.{after_events-ends, on_input-advances, after_events-Resends}
use lingi1341_projet.Sender.Input.{IsWorking}
use lingi1341_projet.Packet.Fields.{Pkt}
use lingi1341_projet.Packet.Wire.{wire}
use lingi1341_projet.Sender.Supply.{Stock, stamped, IsData-stamped, IsData}
use lingi1341_projet.Network.Preservation.{Step-Joint}

-- check_timeout sends the packet again.
abbrev IsDueAt : (time : ℕ) → Pkt → Type 0
IsDueAt time x = 2 ≤ (time % 4294967296 + 4294967296 - x.timestamp) % 4294967296

abbrev later : Net → (seconds : ℕ) → Net
later net seconds = record net { clock = net.clock + seconds }

module _ (crc32 : List ℕ → ℕ) (stream : ℕ → List ℕ) where
  -- The list is not empty.
  abbrev pub Holding : ℕ → Net → Type 0
  Holding n net = At crc32 stream n net × (0 < length net.sender.list)

  -- The first packet of the list was sent.
  abbrev pub Posted : ℕ → Net → Type 0
  Posted n net =
      (pkt : Pkt) × IsData stream n pkt
      × (0 < length (stream n))
      × Mem (wire crc32 pkt (stream n)) net.sender.sent

  abbrev pub Resent : (n delivered : ℕ) → Net → Type 0
  Resent n delivered net = Holding n net × Posted n net × (net.delivered ≡ delivered)

  -- What is sent arrives.
  abbrev pub arriving : (n : ℕ) → Pkt → ReceiverSystem
  arriving n pkt = receiver_calls (some (wire crc32 pkt (stream n) ++ blank, 528))

  module _ (small : (bytes : List ℕ) → IsU32 (crc32 bytes)) where
    pub refine :
        {net : Net} {P Q : Net → Type 0}
        → Leading crc32 stream net P
        → ((net' : Net) → P net' → Q net')
        → Leading crc32 stream net Q
    refine run f = and_then crc32 stream run (λ net' p. (net', stay, inr (f net' p)))

    up :
        (n : ℕ) (net : Net)
        → At crc32 stream n net
        → {outcome : Outcome (Loop × Sender)}
        → Yields (Proceeds stream crc32 1 n n (n + length net.sender.list)) outcome
        → Yields (Proceeds stream crc32 1 n n net.packets) outcome
    up n net at {outcome} y = subst (λ t. Yields (Proceeds stream crc32 1 n n t) outcome) at.total y

    -- With an empty list the input is read, or the empty packet is sent.
    pub fills :
        (n : ℕ) (net : Net)
        → IsInput stream
        → At crc32 stream n net
        → length net.sender.list ≡ 0
        → Leading crc32 stream net (Holding n)
    unfolding round
    fills n net is_input at none_left = elim at.supplies.ready.1 [
      | inl unread ↦
          let sys = sender_calls net.clock none (some (stream net.packets)) in
          let works = reads-IsWorking stream net.packets net.clock is_input in
          let here = subst (λ i. IsWorking stream i sys) (sym at.total) works in
          refine
            (send_step crc32 stream small n n n net (input sys)
              (λ (loop, st'). (loop ≡ ended) ⊎ (length net.sender.list < length st'.list)) at
              (refl, works) at.below
              (up n net at (on_input-Proceeds stream crc32 1 sys n net.sender here at.supplies))
              (on_input-advances stream crc32 1 sys n (stream net.packets) net.sender here refl
                none_left (omega arith) unread (λ bytes. refl) at.supplies))
            (λ net' (m, above, below, at', q, _, _, _). elim q [
              | inl over ↦ absurd (let live = at'.live in let e : running ≡ ended = cc in cc)
              | inr more ↦ (subst (λ k. At crc32 stream k net') (omega arith) at', omega arith)
            ])
      | inr (over, _, _) ↦
          let sys = sender_calls net.clock none none in
          refine
            (send_step crc32 stream small n n n net (neither sys) (λ (loop, st'). loop ≡ ended) at
              refl at.below
              (up n net at (neither-Proceeds stream crc32 1 sys n net.sender at.supplies))
              (after_events-ends stream crc32 1 sys n net.sender over none_left (λ bytes. refl)
                at.supplies))
            (λ net' (m, above, below, at', q, _, _, _).
              absurd (let live = at'.live in let e : running ≡ ended = cc in cc))
    ]

    -- The first packet was sent at least two seconds ago.
    abbrev IsDueNow : Net → List Pkt → Type 0
    IsDueNow net [] = Unit {0}
    IsDueNow net (x ∷ xs) = IsDueAt net.clock x

    resends_first :
        (n : ℕ) (net : Net) (xs : List Pkt)
        → At crc32 stream n net
        → net.sender.list ≡ xs
        → 0 < length xs
        → IsDueNow net xs
        → Leading crc32 stream net (Resent n net.delivered)
    unfolding round
    resends_first n net [] at e positive due = absurd (omega arith)
    resends_first n net (x ∷ xs) at e positive due =
        refine
          (send_step crc32 stream small n n n net (neither sys) (λ (_, st'). Mem bytes st'.sent) at
            refl at.below
            (up n net at (neither-Proceeds stream crc32 1 sys n net.sender at.supplies)) again)
          (λ net' (m, above, below, at', there, _, same, more). (
            (
              subst (λ k. At crc32 stream k net') (omega arith) at',
              omega (arith, at.total, at'.total, ap length e),
            ),
            (stamped sys x, IsData-stamped stream sys n x s.0, s.1, there),
            same,
          ))
      where
        s : Stock stream n (x ∷ xs)
        s = subst (Stock stream n) e at.supplies.stocked

        sys : SenderSystem
        sys = sender_calls net.clock none none

        bytes : List ℕ
        bytes = wire crc32 (stamped sys x) (stream n)

        again : Yields (λ (_, st'). Mem bytes st'.sent) (after_events crc32 sys net.sender)
        again =
            subst
              (λ l.
                Yields (λ (_, st'). Mem bytes st'.sent)
                  (after_events crc32 sys (record net.sender { list = l })))
              (sym e)
              (after_events-Resends stream crc32 sys n x xs net.sender s at.supplies.wide due refl)

    -- After at most four seconds any packet is due.
    wait_for :
        (clock : ℕ) (x : Pkt) → x.timestamp < 4294967296 → (k : ℕ) × (k ≤ 4) × IsDueAt (clock + k) x
    wait_for clock x small_time =
        elim (Bool-cases
          (leb 2 (((clock + 2) % 4294967296 + 4294967296 - x.timestamp) % 4294967296))) [
            | inl due ↦ (2, omega arith, leb→le _ _ due)
            | inr early ↦ (4, omega arith, omega (arith, not_leb→lt _ _ early))
          ]

    wait_for_list :
        (n : ℕ) (net : Net) (xs : List Pkt)
        → Stock stream n xs
        → (k : ℕ) × (k ≤ 4) × IsDueNow (later net k) xs
    wait_for_list n net [] s = (0, omega arith, tt)
    wait_for_list n net (x ∷ xs) s = wait_for net.clock x s.0.packet.timestamp

    -- At most four seconds later the first packet of the list is due, and it is sent again.
    pub resends :
        (n : ℕ) (net : Net) → Holding n net → Leading crc32 stream net (Resent n net.delivered)
    resends n net (at, positive) =
        let (k, soon, due) = wait_for_list n net net.sender.list at.supplies.stocked in
        let step : Step crc32 stream net (later net k) = tick (net.clock + k) in
        let at' : At crc32 stream n (later net k) = record {
          live = at.live;
          supplies = at.supplies;
          total = at.total;
          below = at.below;
          joint = Step-Joint crc32 stream small at.joint step;
          listens = at.listens;
        } in
        let (net', leads, q) =
          resends_first n (later net k) net.sender.list at' refl positive due in
        (net', Leads-trans crc32 stream (onward stay step (omega arith) (omega arith)) leads, q)

    pub arriving-Works :
        (n : ℕ) (net : Net)
        → Holding n net
        → (posted : Posted n net) → Works crc32 stream net (arriving n (posted.0))
    arriving-Works n net (at, positive) (pkt, d, _, there) = record {
      sound = receiver_calls-IsSound _;
      nodes = refl;
      payloads = refl;
      arrives = inr (
        n,
        pkt,
        blank,
        528,
        d,
        there,
        omega (arith, at.total),
        omega (arith, at.total, at.supplies.few, at.joint.delivers.bound),
        refl,
        blank-IsByte,
        blank_room (wire crc32 pkt (stream n)),
      );
    }
