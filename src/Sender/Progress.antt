-- ===== src/Sender/Progress.antt =====
-- src/sender.c: final_send and check_timeout at the end of a round, when the packets are due.
use mathlib.Core.Path.{subst}
use mathlib.Core.List.{Mem, mem-cons_self, mem-append_right}
use lingi1341_projet.Prelude.{
  ℕ, ◌+◌, ◌-◌, ◌%◌, ◌≤◌, ◌<◌, ◌≡◌, refl, sym, ◌∙◌, ◌⊎◌, inl, inr, true, some, List, ◌∷◌, arith,
  ◌==◌, Bool-cases, length, Yields,
}
use lingi1341_projet.Sender.Ending.{final_send-ends}
use lingi1341_projet.Sender.Resend.{check_timeout-Resends}
use lingi1341_projet.Sender.Supply.{Stock, stamped}
use lingi1341_projet.Sender.Loop.{after_events, on_input, Loop, running, ended, aborted}
use lingi1341_projet.Sender.Invariant.{Supplies}
use lingi1341_projet.Sender.State.{a_lo, Sender, System}
use lingi1341_projet.Packet.Fields.{Pkt}
use lingi1341_projet.Packet.Wire.{wire}
use lingi1341_projet.Sender.Timer.{final_send}
use lingi1341_projet.Sender.Events.{Proceeds, after_events-Proceeds}
use lingi1341_projet.Sender.Input.{Reads, read_to_list-Reads, IsWorking}

module _ (stream : ℕ → List ℕ) (crc32 : List ℕ → ℕ) (least : ℕ) (sys : System) where
  -- After the end of the input and the last packet of the list, the loop ends if send() takes the empty
  -- packet.
  pub after_events-ends :
      (n : ℕ) (st : Sender)
      → st.seqnum_eof ≡ 1
      → length st.list ≡ 0
      → ((bytes : List ℕ) → sys.send bytes ≡ true)
      → Supplies stream crc32 least n st
      → Yields (λ (loop, _). loop ≡ ended) (after_events crc32 sys st)
  unfolding after_events
  after_events-ends n st read_all none_left all d =
      let (result, called, ends) =
        final_send-ends stream crc32 least sys n st read_all none_left all d in
      rw ((let e : (st.seqnum_eof == 1) ≡ true = ground arith in e), called, ends) (_, refl, refl)

  busy :
      (n k : ℕ) (result : Loop × Sender)
      → Proceeds stream crc32 least n n (n + k + 1) result
      → (result.0 ≡ ended) ⊎ (k < length (result.1).list)
  busy n k (running, st) (m, above, below, early, late, d) = inr (omega arith)
  busy n k (ended, st) proceeds = inl refl
  busy n k (aborted, st) never = absurd never

  read-advances :
      (n k : ℕ) (st : Sender)
      → k ≡ 0
      → ((bytes : List ℕ) → sys.send bytes ≡ true)
      → Reads stream crc32 least sys n k st
      → Yields (λ (loop, st'). (loop ≡ ended) ⊎ (k < length st'.list)) (after_events crc32 sys st)
  read-advances n k st none_left all (d, inl more) =
      let (result, called, proceeds) =
        after_events-Proceeds stream crc32 least sys n n (n + k + 1) st
          (n, omega arith, omega arith, omega (arith, more), omega (arith, more), d) in
      (result, called, busy n k result proceeds)
  read-advances n k st none_left all (d, inr (over, same)) =
      let (result, called, ends) = after_events-ends n st over (same ∙ none_left) all d in
      (result, called, inl ends)

  -- With an empty list, when read() succeeds and send() takes every datagram: the input gives a packet,
  -- or the loop ends.
  pub on_input-advances :
      (n : ℕ) (bytes : List ℕ) (st : Sender)
      → IsWorking stream (n + length st.list) sys
      → sys.read ≡ some bytes
      → length st.list ≡ 0
      → 1 ≤ least
      → st.seqnum_eof ≡ 0
      → ((bytes : List ℕ) → sys.send bytes ≡ true)
      → Supplies stream crc32 least n st
      → Yields
          (λ (loop, st'). (loop ≡ ended) ⊎ (length st.list < length st'.list))
          (on_input crc32 sys st)
  unfolding on_input
  on_input-advances n bytes st works given none_left positive unread all d =
      let (next, called, reads) =
        read_to_list-Reads stream crc32 least sys n bytes st works given
          (omega (arith, d.wide, none_left)) unread d in
      rw ((let e : (st.seqnum_eof == 0) ≡ true = ground arith in e), called)
        (read-advances n (length st.list) next none_left all reads)

module _ (stream : ℕ → List ℕ) (crc32 : List ℕ → ℕ) (sys : System) where
  -- If the first packet of the list was sent at least two seconds ago, it is sent again.
  pub after_events-Resends :
      (n : ℕ) (x : Pkt) (xs : List Pkt) (st : Sender)
      → Stock stream n (x ∷ xs)
      → 1 ≤ st.window_size
      → 2 ≤ (a_lo sys.time + 4294967296 - x.timestamp) % 4294967296
      → sys.send (wire crc32 (stamped sys x) (stream n)) ≡ true
      → Yields
          (λ (_, st'). Mem (wire crc32 (stamped sys x) (stream n)) st'.sent)
          (after_events crc32 sys (record st { list = x ∷ xs }))
  unfolding after_events final_send
  after_events-Resends n x xs st s window late taken =
      let ((stop, next), called, (more, e)) =
        check_timeout-Resends stream crc32 sys n x xs st s window late taken in
      let there =
        subst (Mem (wire crc32 (stamped sys x) (stream n))) (sym e)
          (mem-append_right st.sent mem-cons_self) in
      elim (Bool-cases (st.seqnum_eof == 1)) [
        | inl read_all ↦ rw (read_all, called) (_, refl, there)
        | inr unread ↦ rw (unread, called) (_, refl, there)
      ]
