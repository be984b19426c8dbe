-- ===== src/Sender/Cumulative.antt =====
-- src/sender.c: which packets packet_checked deletes.
use lingi1341_projet.Prelude.{
  ℕ, suc, ◌%◌, ◌≤◌, ◌<◌, ◌≡◌, refl, inl, inr, false, List, [], ◌∷◌, arith, ltb, ltb→lt, not_ltb→le,
  Bool-cases, length, drop, returns,
}
use lingi1341_projet.Packet.Fields.{Pkt}
use lingi1341_projet.Queue.Order.{offset}
use lingi1341_projet.Sender.Acks.{is_covered, packet_checked, okay}
use lingi1341_projet.Sender.Supply.{Stock, not_last}
use lingi1341_projet.Queue.Sorting.{offset-next}

-- A number is covered when it is one of the 31 before the acknowledged one, modulo 256.
is_covered-near :
    (ack seqn : ℕ)
    → ack < 256
    → seqn < 256
    → offset seqn ack ≤ 31
    → is_covered ack seqn ≡ ltb 0 (offset seqn ack)
unfolding is_covered
is_covered-near ack seqn ha hs near = ground arith

is_covered-far :
    (ack seqn : ℕ) → ack < 256 → seqn < 256 → 33 ≤ offset seqn ack → is_covered ack seqn ≡ false
unfolding is_covered
is_covered-far ack seqn ha hs far = ground arith

module _ (stream : ℕ → List ℕ) (ack eof : ℕ) (byte : ack < 256) where
  -- On at most 31 consecutive packets of the stream from packet `n` on, an acknowledgement of one of
  -- their numbers or of the next one deletes exactly the packets before it.
  pub packet_checked-drop :
      (n : ℕ) (xs : List Pkt)
      → Stock stream n xs
      → length xs ≤ 31
      → offset (n % 256) ack ≤ length xs
      → packet_checked ack eof xs ≡ returns (okay, drop (offset (n % 256) ack) xs)
  unfolding packet_checked
  packet_checked-drop n [] s few near =
      rw (let e : offset (n % 256) ack ≡ 0 = omega arith in e) refl
  packet_checked-drop n (x ∷ xs) s few near = elim (Bool-cases (ltb 0 (offset (n % 256) ack))) [
    | inr first ↦
        rw
          (
            covered,
            first,
            let e : offset (n % 256) ack ≡ 0 =
                  (let l = not_ltb→le 0 (offset (n % 256) ack) first in omega arith) in
                e,
          )
          refl
    | inl later ↦
        let next = offset-next n ack byte (ltb→lt 0 (offset (n % 256) ack) later) in
        rw (covered, later, not_last stream eof n x xs s, s.0.deletable, ← next)
          (packet_checked-drop (suc n) xs s.2 (omega arith) (omega arith))
  ]
    where
      covered : is_covered ack x.seqnum ≡ ltb 0 (offset (n % 256) ack)
      covered = rw (s.0.seqnum) (is_covered-near ack (n % 256) byte (omega arith) (omega arith))

  -- An old acknowledgement, of a number that is more than 32 ahead of the first packet modulo 256,
  -- deletes nothing.
  pub packet_checked-old :
      (n : ℕ) (xs : List Pkt)
      → Stock stream n xs
      → 33 ≤ offset (n % 256) ack
      → packet_checked ack eof xs ≡ returns (okay, xs)
  unfolding packet_checked
  packet_checked-old n [] s far = refl
  packet_checked-old n (x ∷ xs) s far =
      rw (s.0.seqnum, is_covered-far ack (n % 256) byte (omega arith) far) refl
