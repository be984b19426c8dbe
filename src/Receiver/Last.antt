-- ===== src/Receiver/Last.antt =====
-- src/receiver.c: accept on the empty packet, with which the transfer ends.
use mathlib.Core.Path.{subst}
use lingi1341_projet.Prelude.{
  ℕ, suc, ◌+◌, ◌%◌, ◌≡◌, refl, sym, ap, ◌∙◌, inl, inr, true, false, some, List, [], ◌∷◌, ◌++◌,
  arith, ◌==◌, if◌then◌else◌, le→not_ltb, Bool-cases, length, take, All, Yields, returns,
}
use lingi1341_projet.Packet.Fields.{pkt_del, Pkt}
use lingi1341_projet.Queue.Order.{comes_before, insert, offset, InOrder}
use lingi1341_projet.Packet.Wire.{Carries}
use lingi1341_projet.Packet.RoundTrip.{Carries-length}
use lingi1341_projet.Receiver.State.{check_in_window, Receiver, System}
use lingi1341_projet.Receiver.Sequence.{
  is_eof, write_loop, write_in_sequence, Progress, written, eof,
}
use lingi1341_projet.Receiver.Handler.{stock, after_write, accept, Status, okay, finished}
use lingi1341_projet.Receiver.Acks.{acknowledge-sent}
use lingi1341_projet.Receiver.Delivery.{Holds, written_bytes-Carries, Delivers, IsSound}
use lingi1341_projet.Receiver.Stream.{stock-Delivers}

-- Into a list that has no other number.
insert-alone :
    (base : ℕ) (p : Pkt) (xs : List Pkt)
    → p.seqnum ≡ base
    → All (λ x. x.seqnum ≡ base) xs
    → InOrder base 0 xs
    → (y : Pkt) × (insert p xs ≡ y ∷ [])
unfolding insert
insert-alone base p [] e h s = (p, refl)
insert-alone base p (x ∷ []) e h s =
    rw
      (let first : comes_before x.seqnum p.seqnum ≡ false =
          unfold comes_before in ground (arith, h.0, e) in
        first)
      (rw (let same : (x.seqnum == p.seqnum) ≡ true = ground (arith, h.0, e) in same) (x, refl))
insert-alone base p (x ∷ y ∷ xs) e h s = absurd (ground (arith, h.0, h.1.0, s))

-- What is reported for the empty packet `n`: the number 255 is followed by 0, which no number comes
-- before, so that the end is not noticed.
abbrev pub closing : ℕ → Status
closing n = if n % 256 == 255 then okay else finished

abbrev progress : ℕ → Progress
progress n = if n % 256 == 255 then written else eof

module _ (crc32 : List ℕ → ℕ) (sys : System) (sound : IsSound sys) (stream : ℕ → List ℕ) (n : ℕ)
    (empty : stream n ≡ []) (all : sys.write 0 (stream n) ≡ some (length (stream n))) where
  -- Only packet `n` can be in the list, if it is the last one made.
  alone :
      (k : ℕ) (xs : List Pkt)
      → InOrder (n % 256) k xs
      → All (Holds (suc n) stream n) xs
      → All (λ x. x.seqnum ≡ n % 256) xs
  alone k [] s h = tt
  alone k (x ∷ xs) (byte, _, _, s) ((below, _, _), h) =
      (ground (arith, below, byte), alone (suc (offset (n % 256) x.seqnum)) xs s h)

  writes_last :
      (y : Pkt) (st : Receiver)
      → Delivers crc32 (suc n) stream n (record st { list = y ∷ [] })
      → y.seqnum ≡ n % 256
      → Yields
          (λ (result, _). result ≡ progress n)
          (write_in_sequence crc32 sys (record st { list = y ∷ [] }))
  unfolding write_in_sequence write_loop is_eof
  writes_last y st d number =
      rw
        (
          le→not_ltb st.waited_seqnum y.seqnum (omega (arith, number, d.waited)),
          (let now : (y.seqnum == st.waited_seqnum) ≡ true = ground (arith, number, d.waited) in
              now),
          written_bytes-Carries y (stream n) carries,
          all,
          (let none_left : (y.length == 0) ≡ true = ground (arith, none) in none_left),
        )
        (elim (Bool-cases (n % 256 == 255)) [
          | inr last ↦
              rw
                (
                  last,
                  (let before : (y.seqnum + 1 == (st.waited_seqnum + 1) % 256) ≡ true =
                        ground (arith, number, d.waited, last) in
                      before),
                  d.stocked.0.2,
                )
                (_, refl, refl)
          | inl wraps ↦
              rw
                (
                  wraps,
                  (let after : (y.seqnum + 1 == (st.waited_seqnum + 1) % 256) ≡ false =
                        ground (arith, number, d.waited, wraps) in
                      after),
                  acknowledge-sent crc32 sys 0 emptied (sound.acks 0) d.high (omega arith),
                  d.stocked.0.2,
                )
                (_, refl, refl)
        ])
    where
      emptied : Receiver
      emptied = record st {
        waited_seqnum = (st.waited_seqnum + 1) % 256;
        list = [];
        output = st.output ++ take (length (stream n)) (stream n);
      }

      carries : Carries y (stream n)
      carries = subst (λ i. Carries y (stream i)) (omega (arith, number)) d.stocked.0.1

      none : y.length ≡ 0
      none = Carries-length y (stream n) carries ∙ ap length empty

  after_last :
      (result : Progress) (st : Receiver)
      → result ≡ progress n
      → Yields (λ (status, _). status ≡ closing n) (after_write crc32 sys (result, st))
  unfolding after_write
  after_last result st e =
      subst (λ p. Yields (λ (status, _). status ≡ closing n) (after_write crc32 sys (p, st)))
        (sym e)
        (elim (Bool-cases (n % 256 == 255)) [
          | inl wraps ↦ rw wraps (_, refl, refl)
          | inr last ↦ rw last (_, refl, refl)
        ])

  pub accept-closes :
      (pkt : Pkt) (st : Receiver)
      → sys.node_memory ≡ true
      → pkt.truncated ≡ 0
      → pkt.seqnum ≡ n % 256
      → Carries pkt (stream n)
      → pkt_del (some pkt) ≡ returns tt
      → Delivers crc32 (suc n) stream n st
      → Yields (λ (status, _). status ≡ closing n) (accept crc32 sys pkt st)
  unfolding accept check_in_window
  accept-closes pkt st node whole number carries deletable d =
      let (y, e) =
        insert-alone (n % 256) pkt st.list number (alone 0 st.list d.order d.stocked) d.order in
      let stocked =
        subst (λ l. Delivers crc32 (suc n) stream n (record st { list = l })) e
          (stock-Delivers crc32 sys sound (suc n) stream n pkt st (omega (arith, number))
            (ground (arith, number))
            (omega (arith, same), subst (λ i. Carries pkt (stream i)) same carries, deletable) d) in
      let (result, returned, ends) =
        writes_last y st stocked (alone 0 (y ∷ []) stocked.order stocked.stocked).0 in
      rw
        (
          (let cut : (pkt.truncated == 1) ≡ false = rw whole refl in cut),
          (let inside : check_in_window st pkt.seqnum ≡ true = ground (arith, number, d.waited) in
              inside),
          (let store : stock sys.node_memory pkt st ≡ record st { list = insert pkt st.list } =
                rw node refl in
              store),
          e,
          returned,
        )
        (after_last result.0 (result.1) ends)
    where
      same : n ≡ n + offset (n % 256) pkt.seqnum
      same = omega (arith, number)
