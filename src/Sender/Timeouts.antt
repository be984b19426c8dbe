-- ===== src/Sender/Timeouts.antt =====
-- src/sender.c: check_timeout on consecutive packets of a stream.
use mathlib.Core.Path.{subst}
use lingi1341_projet.Prelude.{
  ℕ, suc, ◌+◌, ◌≤◌, ◌≡◌, refl, sym, ap, ◌∙◌, inl, inr, Bool, false, List, [], ◌∷◌, arith,
  Bool-cases, length, All, is_empty, ◌>>=◌, Yields, returns,
}
use lingi1341_projet.Packet.Fields.{Pkt}
use lingi1341_projet.Packet.Wire.{wire}
use lingi1341_projet.Sender.State.{a_lo, Sender, System}
use lingi1341_projet.Sender.Timer.{check_in_window, is_due, Scanned, timeout_loop, check_timeout}
use lingi1341_projet.Sender.Supply.{
  Stock, IsSent, stamped, IsData-stamped, send_packet-wire, Carries-not_empty,
}
use lingi1341_projet.Sender.Invariant.{posted, IsSent-posted, Supplies}

module _ (stream : ℕ → List ℕ) (crc32 : List ℕ → ℕ) (least : ℕ) (sys : System) where
  abbrev Rescans : (top n : ℕ) → List Pkt → Sender → Scanned → Type 0
  Rescans top n xs st (stop, ys, st') =
      (stop ≡ false)
      × Stock stream n ys
      × (length ys ≡ length xs)
      × ((log : List (List ℕ)) × (st' ≡ record st { sent = log })
          × All (IsSent stream crc32 top) log)

  timeout_loop-Stock :
      (first : ℕ) (single : Bool) (top n : ℕ) (xs : List Pkt) (st : Sender)
      → Stock stream n xs
      → n + length xs ≤ top
      → All (IsSent stream crc32 top) st.sent
      → Yields (Rescans top n xs st) (timeout_loop crc32 sys first single xs st)
  unfolding timeout_loop
  timeout_loop-Stock first single top n [] st s room h =
      (_, refl, (refl, tt, refl, (st.sent, refl, h)))
  timeout_loop-Stock first single top n (x ∷ xs) st s room h =
      elim (Bool-cases (check_in_window st.window_size x.seqnum first)) [
        | inr outside ↦ rw outside (_, refl, (refl, s, refl, (st.sent, refl, h)))
        | inl inside ↦ rw inside (elim (Bool-cases (is_due (a_lo sys.time) x.timestamp)) [
          | inr early ↦
              let (result, called, (stop, stock, size, rest)) =
                timeout_loop-Stock first single top (suc n) xs st s.2 (omega arith) h in
              rw (early, called) (_, refl, (stop, (s.0, s.1, stock), ap suc size, rest))
          | inl due ↦
              let (result, called, (stop, stock, size, rest)) =
                timeout_loop-Stock first single top (suc n) xs
                  (record st { sent = posted sys st (wire crc32 (stamped sys x) (stream n)) }) s.2
                  (omega arith) (IsSent-posted stream crc32 sys n top x st s.0 (omega arith) h) in
              rw
                (
                  due,
                  Carries-not_empty x (stream n) s.0.packet.carries s.1,
                  send_packet-wire crc32 sys stream n x st s.0,
                  called,
                )
                (
                  _,
                  refl,
                  (stop, (IsData-stamped stream sys n x s.0, s.1, stock), ap suc size, rest),
                )
        ])
      ]

  -- The end is not reported, and the list has `k` packets, from packet `n` on.
  abbrev pub Settles : (n k : ℕ) → Bool × Sender → Type 0
  Settles n k (stop, st) = (stop ≡ false) × (length st.list ≡ k) × Supplies stream crc32 least n st

  scanned :
      (n : ℕ) (xs : List Pkt) (st : Sender)
      → Supplies stream crc32 least n st
      → xs ≡ st.list
      → Yields (Settles n (length st.list)) (elim xs [
        | [] ↦ returns (false, st)
        | packet ∷ rest ↦
            timeout_loop crc32 sys packet.seqnum (is_empty rest) (packet ∷ rest) st
            >>= (λ (result, list', st'). returns (result, record st' { list = list' }))
      ])
  scanned n [] st d e = (_, refl, (refl, refl, d))
  scanned n (x ∷ xs) st d e =
      let (result, called, (stop, stock, size, (log, same, logged))) =
        timeout_loop-Stock x.seqnum (is_empty xs) (n + length st.list) n (x ∷ xs) st
          (subst (Stock stream n) (sym e) d.stocked) (omega (arith, ap length e)) d.sent in
      let total : length (result.1) ≡ length st.list = size ∙ ap length e in
      rw (called, same)
        (
          _,
          refl,
          (
            stop,
            total,
            record {
              stocked = stock;
              few = omega (arith, total, d.few);
              window = d.window;
              wide = d.wide;
              ready = rw total d.ready;
              sent = rw total logged;
            },
          ),
        )

  -- check_timeout of a state that supplies the stream, with a window of at least `least`, returns
  -- and does not report the end, and the state still supplies the stream from the same packet on,
  -- with the same bound of the window, as many packets in the list and only packets of the stream
  -- sent.
  pub check_timeout-Supplies :
      (n : ℕ) (st : Sender)
      → Supplies stream crc32 least n st
      → Yields (Settles n (length st.list)) (check_timeout crc32 sys st)
  unfolding check_timeout
  check_timeout-Supplies n st d = scanned n st.list st d refl
