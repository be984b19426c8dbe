-- ===== src/Receiver/Writing.antt =====
-- src/receiver.c: write_in_sequence on a state that has written a prefix of the stream.
use mathlib.Core.Path.{subst}
use lingi1341_projet.Prelude.{
  ℕ, suc, ◌+◌, ◌%◌, ◌≤◌, ◌≡◌, refl, ap, inl, inr, true, some, List, [], ◌∷◌, ◌++◌, arith, ltb, ◌==◌,
  le→not_ltb, ==→eq, Bool-cases, length, take-length, All-append, Yields,
}
use lingi1341_projet.Packet.Fields.{ptype_ack, Pkt}
use lingi1341_projet.Packet.Wire.{wire_header, Carries}
use lingi1341_projet.Receiver.State.{Receiver, System}
use lingi1341_projet.Receiver.Sequence.{is_eof, write_loop, write_in_sequence, Progress}
use lingi1341_projet.Receiver.Acks.{ack, wider, acknowledged, acknowledge-sent, IsAck}
use lingi1341_projet.Receiver.Delivery.{written_bytes-Carries, Delivers-next, Delivers, IsSound}

module _ (crc32 : List ℕ → ℕ) (sys : System) (sound : IsSound sys) (top : ℕ)
    (stream : ℕ → List ℕ) where
  abbrev Progresses : ℕ → Progress × Receiver → Type 0
  Progresses n (_, st) = (m : ℕ) × (n ≤ m) × Delivers crc32 top stream m st

  Delivers-acknowledged :
      (n : ℕ) (st : Receiver)
      → Delivers crc32 top stream n st
      → Delivers crc32 top stream n (acknowledged crc32 st)
  Delivers-acknowledged n st d = record {
    waited = d.waited;
    low = ground arith;
    high = ground arith;
    order = d.order;
    stocked = d.stocked;
    output = d.output;
    bound = d.bound;
    clock = d.clock;
    acks = All-append (IsAck crc32 n) st.sent _ d.acks (
      record {
        window = wider st.window_size;
        count = n;
        kind = ptype_ack;
        timestamp = st.last_timestamp;
        wide = ground arith;
        narrow = ground arith;
        low = omega arith;
        high = omega arith;
        clock = d.clock;
        written = λ is_ack. omega arith;
        contents =
            ap (λ s. wire_header crc32 (ack (wider st.window_size) s ptype_ack st.last_timestamp))
              d.waited;
      },
      tt,
    );
  }

  head-Carries :
      (n : ℕ) (x : Pkt) (xs : List Pkt) (st : Receiver)
      → x.seqnum ≡ st.waited_seqnum
      → Delivers crc32 top stream n (record st { list = x ∷ xs })
      → Carries x (stream n)
  head-Carries n x xs st here d =
      subst (λ i. Carries x (stream i)) (omega (arith, here, d.waited)) d.stocked.0.1

  -- The state after a packet was written.
  abbrev advanced : ℕ → List Pkt → Receiver → Receiver
  advanced n xs st = record st {
    waited_seqnum = (st.waited_seqnum + 1) % 256;
    list = xs;
    output = st.output ++ stream n;
  }

  -- One round that writes the waited packet, before the rounds that follow it.
  round-Delivers :
      (k n : ℕ) (x : Pkt) (xs : List Pkt) (st : Receiver)
      → x.seqnum ≡ st.waited_seqnum
      → sys.write k (stream n) ≡ some (length (stream n))
      → Delivers crc32 top stream n (record st { list = x ∷ xs })
      → Yields
          (Progresses (suc n))
          (write_loop crc32 sys (suc k) xs (acknowledged crc32 (advanced n xs st)))
      → Yields (Progresses (suc n)) (write_loop crc32 sys k (x ∷ xs) st)
  unfolding write_loop
  round-Delivers k n x xs st here all d (result, returned, kept) =
      rw
        (
          now,
          written_bytes-Carries x (stream n) (head-Carries n x xs st here d),
          all,
          take-length (stream n),
        )
        (elim (Bool-cases (is_eof xs x ((st.waited_seqnum + 1) % 256))) [
          | inl last ↦
              rw (last, d.stocked.0.2)
                (_, refl, (suc n, omega arith, Delivers-next crc32 top stream n x xs st here d))
          | inr more ↦
              rw
                (
                  more,
                  acknowledge-sent crc32 sys k (advanced n xs st) (sound.acks k) d.high
                      (omega arith),
                  d.stocked.0.2,
                )
                (result, returned, kept)
        ])
    where
      now : (x.seqnum == st.waited_seqnum) ≡ true
      now = ground arith

  -- The loop of write_in_sequence writes further payloads of the stream, none twice and none left
  -- out, whatever write() answers.
  write_loop-Delivers :
      (k n : ℕ) (xs : List Pkt) (st : Receiver)
      → Delivers crc32 top stream n (record st { list = xs })
      → Yields (Progresses n) (write_loop crc32 sys k xs st)
  unfolding write_loop
  write_loop-Delivers k n [] st d = (_, refl, (n, omega arith, d))
  write_loop-Delivers k n (x ∷ xs) st d = elim (Bool-cases (x.seqnum == st.waited_seqnum)) [
    | inr later ↦ rw later (_, refl, (n, omega arith, d))
    | inl now ↦
        let here = ==→eq x.seqnum st.waited_seqnum now in
        elim (sound.writes k (stream n)) [
          | inl fails ↦
              rw (now, written_bytes-Carries x (stream n) (head-Carries n x xs st here d), fails)
                (_, refl, (n, omega arith, d))
          | inr all ↦
              let (result, returned, (m, above, kept)) = round-Delivers k n x xs st here all d (
                write_loop-Delivers (suc k) (suc n) xs (acknowledged crc32 (advanced n xs st)) (
                  Delivers-acknowledged (suc n) (advanced n xs st)
                    (Delivers-next crc32 top stream n x xs st here d))) in
              (result, returned, (m, omega arith, kept))
        ]
  ]

  -- write_in_sequence writes further payloads of the stream, in order, none twice and none left
  -- out, whatever write() answers.
  pub write_in_sequence-Delivers :
      (n : ℕ) (x : Pkt) (xs : List Pkt) (st : Receiver)
      → Delivers crc32 top stream n (record st { list = x ∷ xs })
      → Yields (Progresses n) (write_in_sequence crc32 sys (record st { list = x ∷ xs }))
  unfolding write_in_sequence write_loop
  write_in_sequence-Delivers n x xs st d = elim (Bool-cases (ltb st.waited_seqnum x.seqnum)) [
    | inl waiting ↦ rw waiting (_, refl, (n, omega arith, d))
    | inr writing ↦ rw writing (write_loop-Delivers 0 n (x ∷ xs) st d)
  ]

  -- With the waited packet at the head of the list and a first write() that takes its payload,
  -- write_in_sequence writes at least that packet, and then further payloads of the stream.
  pub write_in_sequence-advances :
      (n : ℕ) (x : Pkt) (xs : List Pkt) (st : Receiver)
      → x.seqnum ≡ st.waited_seqnum
      → sys.write 0 (stream n) ≡ some (length (stream n))
      → Delivers crc32 top stream n (record st { list = x ∷ xs })
      → Yields (Progresses (suc n)) (write_in_sequence crc32 sys (record st { list = x ∷ xs }))
  unfolding write_in_sequence
  write_in_sequence-advances n x xs st here all d =
      rw (le→not_ltb st.waited_seqnum x.seqnum (omega arith)) (
        round-Delivers 0 n x xs (record st { list = x ∷ xs }) here all d
          (write_loop-Delivers 1 (suc n) xs (acknowledged crc32 (advanced n xs st)) (
            Delivers-acknowledged (suc n) (advanced n xs st)
              (Delivers-next crc32 top stream n x xs st here d))))
