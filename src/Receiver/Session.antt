-- ===== src/Receiver/Session.antt =====
-- src/receiver.c: process_receiver over any number of rounds.
use lingi1341_projet.Prelude.{ℕ, ◌≤◌, ◌≡◌, refl, true, List, [], ◌∷◌, arith, All, Yields, returns}
use lingi1341_projet.Bytes.{IsU32}
use lingi1341_projet.Packet.Fields.{Pkt}
use lingi1341_projet.Receiver.State.{Receiver, System}
use lingi1341_projet.Receiver.Handler.{
  read_to_list_r, free_list, free_timeout, process_receiver, Status, okay, failed, finished,
  Selected, timeout, error, readable, Loop, running, ended,
}
use lingi1341_projet.Receiver.Delivery.{Holds, Delivers, IsSound}
use lingi1341_projet.Receiver.Reception.{IsGenuine, read_to_list_r-Delivers}

-- How process_receiver stands after a round.
abbrev pub loop_after : Status → Loop
loop_after finished = ended
loop_after _ = running

pub process_receiver-once :
    (crc32 : List ℕ → ℕ) (sys : System) (status : Status) (st st' : Receiver)
    → read_to_list_r crc32 sys st ≡ returns (status, st')
    → process_receiver crc32 (readable sys ∷ []) st ≡ returns (loop_after status, st')
unfolding process_receiver
process_receiver-once crc32 sys okay st st' called = rw called refl
process_receiver-once crc32 sys failed st st' called = rw called refl
process_receiver-once crc32 sys finished st st' called = rw called refl

module _ (crc32 : List ℕ → ℕ) (top : ℕ) (stream : ℕ → List ℕ) where
  -- In every round the system works, malloc has memory, and what recv() gives is
  -- genuine for every number of payloads that may have been delivered.
  abbrev pub IsFaithful : List Selected → Receiver → Type 0
  IsFaithful [] st = Unit {0}
  IsFaithful (readable sys ∷ events) st =
      IsSound sys
      × (sys.node_memory ≡ true)
      × (sys.payload_memory ≡ true)
      × ((n : ℕ) → Delivers crc32 top stream n st → IsGenuine crc32 top stream n sys.recv)
      × ((status : Status) (next : Receiver)
          → read_to_list_r crc32 sys st ≡ returns (status, next)
          → IsFaithful events next)
  IsFaithful (_ ∷ events) st = Unit {0}

  free_list-returns :
      (n : ℕ) (xs : List Pkt) → All (Holds top stream n) xs → free_list xs ≡ returns tt
  unfolding free_list
  free_list-returns n [] a = refl
  free_list-returns n (x ∷ xs) ((_, _, deletable), a) =
      rw (deletable, free_list-returns n xs a) refl

  pub free_timeout-Delivers :
      (n : ℕ) (st : Receiver)
      → Delivers crc32 top stream n st
      → Yields (Delivers crc32 top stream n) (free_timeout st)
  unfolding free_timeout
  free_timeout-Delivers n st d = rw (free_list-returns n st.list d.stocked) (
    _,
    refl,
    record {
      waited = d.waited;
      low = d.low;
      high = d.high;
      order = tt;
      stocked = tt;
      output = d.output;
      bound = d.bound;
      clock = d.clock;
      acks = d.acks;
    },
  )

  abbrev pub Ends : ℕ → Loop × Receiver → Type 0
  Ends n (_, st) = (m : ℕ) × (n ≤ m) × Delivers crc32 top stream m st

  module _ (small : (bytes : List ℕ) → IsU32 (crc32 bytes)) where
    -- The rounds of process_receiver, as long as in each of them malloc has memory, write() takes
    -- all bytes or fails, and the intact data packets near the number waited for are of the first
    -- `top` packets of the stream: whatever is lost, repeated, reordered or damaged, the loop
    -- returns and the bytes that write() has taken are a number of first payloads of the stream,
    -- no fewer than at the start (what printf() puts on stdout when recv() fails is apart).
    pub process_receiver-Delivers :
        (events : List Selected) (n : ℕ) (st : Receiver)
        → IsFaithful events st
        → Delivers crc32 top stream n st
        → Yields (Ends n) (process_receiver crc32 events st)
    unfolding process_receiver
    process_receiver-Delivers [] n st faithful d = (_, refl, (n, omega arith, d))
    process_receiver-Delivers (timeout ∷ events) n st faithful d =
        let (next, returned, kept) = free_timeout-Delivers n st d in
        rw returned (_, refl, (n, omega arith, kept))
    process_receiver-Delivers (error ∷ events) n st faithful d = (_, refl, (n, omega arith, d))
    process_receiver-Delivers (readable sys ∷ events) n st (sound, node, payload, genuine, later)
          d =
        let ((status, next), returned, (m, above, kept)) =
          read_to_list_r-Delivers crc32 sys sound top stream small n st node payload (genuine n d)
            d in
        let (result, finally, (k, higher, last)) =
          process_receiver-Delivers events m next (later status next returned) kept in
        rw returned (go status next (result, finally, (k, omega arith, last)) (m, above, kept))
      where
        go :
            (status : Status) (next : Receiver)
            → Yields (Ends n) (process_receiver crc32 events next)
            → Ends n (ended, next)
            → Yields (Ends n) (elim status [
              | finished ↦ returns (ended, next)
              | _ ↦ process_receiver crc32 events next
            ])
        go finished next on stop = (_, refl, stop)
        go okay next on stop = on
        go failed next on stop = on
