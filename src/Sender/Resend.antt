-- ===== src/Sender/Resend.antt =====
-- src/sender.c: check_timeout sends the first packet of the list again.
use lingi1341_projet.Prelude.{
  ℕ, suc, ◌+◌, ◌-◌, ◌%◌, ◌≤◌, ◌≡◌, refl, sym, ◌∙◌, inl, inr, Bool, true, false, List, [], ◌∷◌, ◌++◌,
  append_assoc, append-nil, arith, if◌then◌else◌, le→leb, Bool-cases, is_empty, Yields,
}
use lingi1341_projet.Packet.Fields.{Pkt}
use lingi1341_projet.Packet.Wire.{wire}
use lingi1341_projet.Sender.State.{a_lo, Sender, System}
use lingi1341_projet.Sender.Timer.{check_in_window, is_due, timeout_loop, check_timeout}
use lingi1341_projet.Sender.Supply.{Stock, stamped, send_packet-wire, Carries-not_empty}

posted-Extends :
    (taken : Bool) (log : List (List ℕ)) (bytes : List ℕ) (more later : List (List ℕ))
    → later ≡ (if taken then log ++ (bytes ∷ []) else log) ++ more
    → (rest : List (List ℕ)) × (later ≡ log ++ rest)
posted-Extends true log bytes more later e = (bytes ∷ more, e ∙ append_assoc log (bytes ∷ []) more)
posted-Extends false log bytes more later e = (more, e)

module _ (stream : ℕ → List ℕ) (crc32 : List ℕ → ℕ) (sys : System) where
  -- Datagrams were sent, `bytes` the first of them.
  abbrev Extends : List (List ℕ) → Bool × List Pkt × Sender → Type 0
  Extends log (_, _, st) = (more : List (List ℕ)) × (st.sent ≡ log ++ more)

  abbrev pub Resends : List (List ℕ) → List ℕ → Bool × Sender → Type 0
  Resends log bytes (_, st) = (more : List (List ℕ)) × (st.sent ≡ log ++ (bytes ∷ more))

  timeout_loop-Extends :
      (first : ℕ) (single : Bool) (n : ℕ) (xs : List Pkt) (st : Sender)
      → Stock stream n xs
      → Yields (Extends st.sent) (timeout_loop crc32 sys first single xs st)
  unfolding timeout_loop
  timeout_loop-Extends first single n [] st s = (_, refl, ([], sym (append-nil st.sent)))
  timeout_loop-Extends first single n (x ∷ xs) st s =
      elim (Bool-cases (check_in_window st.window_size x.seqnum first)) [
        | inr outside ↦ rw outside (_, refl, ([], sym (append-nil st.sent)))
        | inl inside ↦ rw inside (elim (Bool-cases (is_due (a_lo sys.time) x.timestamp)) [
          | inr early ↦
              let (result, called, extends) = timeout_loop-Extends first single (suc n) xs st s.2 in
              rw (early, called) (_, refl, extends)
          | inl due ↦
              let bytes = wire crc32 (stamped sys x) (stream n) in
              let log = if sys.send bytes then st.sent ++ (bytes ∷ []) else st.sent in
              let (result, called, (more, e)) =
                timeout_loop-Extends first single (suc n) xs (record st { sent = log }) s.2 in
              rw
                (
                  due,
                  Carries-not_empty x (stream n) s.0.packet.carries s.1,
                  send_packet-wire crc32 sys stream n x st s.0,
                  called,
                )
                (_, refl, posted-Extends (sys.send bytes) st.sent bytes more result.2.sent e)
        ])
      ]

  -- Where the list holds consecutive packets of the stream from packet `n` on, the window is not 0 and
  -- the first of them was sent at least two seconds ago: if send() takes it, check_timeout returns
  -- and has sent it again before anything else, in the packet format with the time of the call.
  pub check_timeout-Resends :
      (n : ℕ) (x : Pkt) (xs : List Pkt) (st : Sender)
      → Stock stream n (x ∷ xs)
      → 1 ≤ st.window_size
      → 2 ≤ (a_lo sys.time + 4294967296 - x.timestamp) % 4294967296
      → sys.send (wire crc32 (stamped sys x) (stream n)) ≡ true
      → Yields
          (Resends st.sent (wire crc32 (stamped sys x) (stream n)))
          (check_timeout crc32 sys (record st { list = x ∷ xs }))
  unfolding check_timeout timeout_loop
  check_timeout-Resends n x xs st s window late taken =
      let bytes = wire crc32 (stamped sys x) (stream n) in
      let (result, called, (more, e)) =
        timeout_loop-Extends x.seqnum (is_empty xs) (suc n) xs
          (record st { list = x ∷ xs; sent = st.sent ++ (bytes ∷ []) }) s.2 in
      rw
        (
          inside,
          due,
          Carries-not_empty x (stream n) s.0.packet.carries s.1,
          send_packet-wire crc32 sys stream n x (record st { list = x ∷ xs }) s.0,
          taken,
          called,
        )
        (_, refl, (more, e ∙ append_assoc st.sent (bytes ∷ []) more))
    where
      inside : check_in_window st.window_size x.seqnum x.seqnum ≡ true
      inside = unfold check_in_window in ground arith

      due : is_due (a_lo sys.time) x.timestamp ≡ true
      due = unfold is_due in le→leb 2 _ late
