-- ===== src/Receiver/Stream.antt =====
-- src/receiver.c: read_to_list_r on datagrams of the sender, lost ones, repeated ones and damaged ones.
use lingi1341_projet.Prelude.{
  ℕ, ◌+◌, ◌%◌, ◌≤◌, ◌<◌, ◌≡◌, refl, ap, ◌≢◌, inl, inr, true, ◌&&◌, some, List, [], ◌∷◌, arith, ltb,
  ◌==◌, ltb→lt, ne→not_==, not_==→ne, Bool-cases, length, All-append, ◌>>=◌, Yields, returns,
}
use lingi1341_projet.Packet.Fields.{ptype_data, ptype_ack, ptype_nack, pkt_del, block, Pkt}
use lingi1341_projet.Packet.Wire.{wire_header, Carries}
use lingi1341_projet.Queue.Order.{insert, offset, Near}
use lingi1341_projet.Receiver.State.{window_divide, check_in_window, Receiver, System}
use lingi1341_projet.Receiver.Sequence.{
  write_in_sequence, Progress, waits, written, write_error, eof,
}
use lingi1341_projet.Receiver.Handler.{
  stock, seqnum_before, reply, after_write, out_of_window, accept, Status, okay, finished,
}
use lingi1341_projet.Receiver.Acks.{ack, reply-sent, IsAck}
use lingi1341_projet.Receiver.Delivery.{Holds, Delivers, IsSound}
use mathlib.Core.Path.{subst}
use lingi1341_projet.Queue.Sorting.{insert-InOrder}
use lingi1341_projet.Receiver.Writing.{write_in_sequence-Delivers}
use lingi1341_projet.Receiver.Insertion.{check_in_window-Near, insert-All, insert-not_empty}

pub Carries-block :
    (pkt : Pkt) (bytes : List ℕ)
    → pkt.length ≡ length bytes
    → (length bytes ≢ 0 → pkt.payload ≡ block bytes)
    → Carries pkt bytes
Carries-block pkt [] size there = size
Carries-block pkt (x ∷ xs) size there = (size, there (omega arith))

before-mod : (w : ℕ) → w < 256 → seqnum_before w ≡ seqnum_before w % 256
before-mod w hw = ground arith

-- The state delivers at least `n` payloads of the stream, whatever the status.
abbrev pub Keeps : (List ℕ → ℕ) → ℕ → (ℕ → List ℕ) → ℕ → Status × Receiver → Type 0
Keeps crc32 top stream n (_, st) = (m : ℕ) × (n ≤ m) × Delivers crc32 top stream m st

module _ (crc32 : List ℕ → ℕ) (sys : System) (sound : IsSound sys) (top : ℕ)
    (stream : ℕ → List ℕ) where
  reply-Delivers :
      (n m seqnum kind count : ℕ) (status : Status) (st : Receiver)
      → n ≤ m
      → seqnum ≡ count % 256
      → 0 < kind
      → kind ≤ 3
      → (kind ≡ ptype_ack → count ≤ m)
      → Delivers crc32 top stream m st
      → Yields (Keeps crc32 top stream n) (reply crc32 sys seqnum kind status st)
  reply-Delivers n m seqnum kind count status st above hs hl hk before d = (
    _,
    reply-sent crc32 sys seqnum kind status st (sound.acks 0) d.high (omega (arith, hs)) hk,
    (
      m,
      above,
      record {
        waited = d.waited;
        low = d.low;
        high = d.high;
        order = d.order;
        stocked = d.stocked;
        output = d.output;
        bound = d.bound;
        clock = d.clock;
        acks = All-append (IsAck crc32 m) st.sent _ d.acks (
          record {
            window = st.window_size;
            count = count;
            kind = kind;
            timestamp = st.last_timestamp;
            wide = d.low;
            narrow = d.high;
            low = hl;
            high = hk;
            clock = d.clock;
            written = before;
            contents = ap (λ s. wire_header crc32 (ack st.window_size s kind st.last_timestamp)) hs;
          },
          tt,
        );
      },
    ),
  )

  pub after_write-Delivers :
      (n : ℕ) (result : Progress × Receiver)
      → Keeps crc32 top stream n (okay, result.1)
      → Yields (Keeps crc32 top stream n) (after_write crc32 sys result)
  unfolding after_write
  after_write-Delivers n (waits, st) (m, above, d) =
      reply-Delivers n m st.waited_seqnum ptype_ack m okay st above d.waited (omega arith)
        (omega arith) (λ is_ack. omega arith) d
  after_write-Delivers n (written, st) k = (_, refl, k)
  after_write-Delivers n (write_error, st) k = (_, refl, k)
  after_write-Delivers n (eof, st) k = (_, refl, k)

  -- The window_size ≤ 31 numbers that are accepted lead to a list in order.
  pub stock-Delivers :
      (n : ℕ) (pkt : Pkt) (st : Receiver)
      → pkt.seqnum < 256
      → Near (n % 256) pkt.seqnum
      → Holds top stream n pkt
      → Delivers crc32 top stream n st
      → Delivers crc32 top stream n (record st { list = insert pkt st.list })
  stock-Delivers n pkt st hs near holds d = record {
    waited = d.waited;
    low = d.low;
    high = d.high;
    order = insert-InOrder (n % 256) 0 pkt st.list (omega arith) hs (omega arith) near d.order;
    stocked = insert-All (Holds top stream n) pkt st.list holds d.stocked;
    output = d.output;
    bound = d.bound;
    clock = d.clock;
    acks = d.acks;
  }

  in_window-Delivers :
      (n : ℕ) (pkt : Pkt) (st : Receiver)
      → Delivers crc32 top stream n (record st { list = insert pkt st.list })
      → Yields (Keeps crc32 top stream n) (
          write_in_sequence crc32 sys (record st { list = insert pkt st.list })
          >>= after_write crc32 sys)
  in_window-Delivers n pkt st d =
      let (x, ys, e) = insert-not_empty pkt st.list in
      let (result, returned, kept) =
        write_in_sequence-Delivers crc32 sys sound top stream n x ys st
          (subst (λ l. Delivers crc32 top stream n (record st { list = l })) e d) in
      rw (e, returned) (after_write-Delivers n result kept)

  -- Any packet that is not truncated, and is one of the stream when it is near.
  whole-Delivers :
      (n : ℕ) (pkt : Pkt) (st : Receiver)
      → sys.node_memory ≡ true
      → pkt.truncated ≢ 1
      → pkt.seqnum < 256
      → pkt_del (some pkt) ≡ returns tt
      → (Near (n % 256) pkt.seqnum
          → (n + offset (n % 256) pkt.seqnum < top)
            × Carries pkt (stream (n + offset (n % 256) pkt.seqnum)))
      → Delivers crc32 top stream n st
      → Yields (Keeps crc32 top stream n) (accept crc32 sys pkt st)
  unfolding accept out_of_window
  whole-Delivers n pkt st memory whole hs deletable genuine d =
      rw (ne→not_== pkt.truncated 1 whole) (elim (Bool-cases (check_in_window st pkt.seqnum)) [
        | inl inside ↦
            let near : Near (n % 256) pkt.seqnum =
              subst (λ w. Near w pkt.seqnum) d.waited
                (check_in_window-Near st pkt.seqnum (omega (arith, d.waited)) hs d.high inside) in
            rw (inside, stocked)
              (in_window-Delivers n pkt st
                (stock-Delivers n pkt st hs near ((genuine near).0, (genuine near).1, deletable) d))
        | inr outside ↦
            rw outside
              (elim (Bool-cases (
                (pkt.seqnum + 1 == st.waited_seqnum)
                && (pkt.length == 0)
                && (pkt.kind == ptype_data))) [
                  | inl again ↦
                      let (result, returned, kept) =
                        reply-Delivers n n (seqnum_before st.waited_seqnum) ptype_data
                          (seqnum_before st.waited_seqnum) finished st (omega arith)
                          (before-mod st.waited_seqnum (omega (arith, d.waited))) (omega arith)
                          (omega arith) (λ is_ack. omega (arith, is_ack)) d in
                      rw (again, returned, deletable) (result, refl, kept)
                  | inr late ↦
                      rw (late, deletable, sound.acks 0)
                        (reply-Delivers n n st.waited_seqnum ptype_ack n okay st (omega arith)
                          d.waited (omega arith) (omega arith) (λ is_ack. omega arith) d)
                ])
      ])
    where
      stocked : stock sys.node_memory pkt st ≡ record st { list = insert pkt st.list }
      stocked = rw memory refl

  narrow-Delivers :
      (n : ℕ) (st : Receiver)
      → Delivers crc32 top stream n st
      → Delivers crc32 top stream n (window_divide st)
  unfolding window_divide
  narrow-Delivers n st d = elim (Bool-cases (ltb 1 st.window_size)) [
    | inl wide ↦
        let lower = ltb→lt 1 st.window_size wide in
        rw wide (record {
          waited = d.waited;
          low = omega arith;
          high = omega (arith, d.high);
          order = d.order;
          stocked = d.stocked;
          output = d.output;
          bound = d.bound;
          clock = d.clock;
          acks = d.acks;
        })
    | inr least ↦ rw least d
  ]

  -- Any packet that, when it is whole and near, is one of the stream.
  pub accept-Delivers :
      (n : ℕ) (pkt : Pkt) (st : Receiver)
      → sys.node_memory ≡ true
      → pkt.seqnum < 256
      → pkt_del (some pkt) ≡ returns tt
      → (pkt.truncated ≢ 1
          → Near (n % 256) pkt.seqnum
          → (n + offset (n % 256) pkt.seqnum < top)
            × Carries pkt (stream (n + offset (n % 256) pkt.seqnum)))
      → Delivers crc32 top stream n st
      → Yields (Keeps crc32 top stream n) (accept crc32 sys pkt st)
  unfolding accept
  accept-Delivers n pkt st memory hs deletable genuine d = elim (Bool-cases (pkt.truncated == 1)) [
    | inr whole ↦
        let intact = not_==→ne pkt.truncated 1 whole in
        whole-Delivers n pkt st memory intact hs deletable (genuine intact) d
    | inl cut ↦
        let (result, returned, kept) =
          reply-Delivers n n pkt.seqnum ptype_nack pkt.seqnum okay (window_divide st) (omega arith)
            (omega (arith, hs)) (omega arith) (omega arith) (λ is_ack. omega (arith, is_ack))
            (narrow-Delivers n st d) in
        rw (cut, returned, deletable) (result, refl, kept)
  ]
