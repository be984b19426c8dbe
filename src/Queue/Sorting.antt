-- ===== src/Queue/Sorting.antt =====
-- src/nyancat.c: the ordered insertion keeps the list in the order of the sequence numbers modulo
-- 256, and changes nothing but the packet that it adds.
use lingi1341_projet.Prelude.{
  ℕ, suc, ◌%◌, ◌≤◌, ◌<◌, ◌≡◌, refl, Option, none, some, List, [], ◌∷◌, arith, ltb, ◌==◌,
  if◌then◌else◌,
}
use lingi1341_projet.Packet.Fields.{Pkt}
use lingi1341_projet.Queue.Order.{comes_before, insert, offset, Near, InOrder}

-- Near a common base the comparison is that of the offsets, across 255 to 0.
pub comes_before-offset :
    (base a b : ℕ)
    → base < 256
    → a < 256
    → b < 256
    → Near base a
    → Near base b
    → comes_before a b ≡ ltb (offset base a) (offset base b)
unfolding comes_before
comes_before-offset base a b hb ha hb' near_a near_b = ground arith

offset-injective :
    (base a b : ℕ) → base < 256 → a < 256 → b < 256 → offset base a ≡ offset base b → a ≡ b
offset-injective base a b hb ha hb' e = omega arith

-- From one base to the next every other number comes one nearer.
pub offset-next :
    (n s : ℕ) → s < 256 → 1 ≤ offset (n % 256) s → suc (offset (suc n % 256) s) ≡ offset (n % 256) s
offset-next n s h lo = omega arith

-- Into a list in order from `low` on, a packet near `base` and not before `low` is inserted so that the list stays in order, with no number twice.
pub insert-InOrder :
    (base low : ℕ) (p : Pkt) (xs : List Pkt)
    → base < 256
    → p.seqnum < 256
    → low ≤ offset base p.seqnum
    → Near base p.seqnum
    → InOrder base low xs
    → InOrder base low (insert p xs)
unfolding insert
insert-InOrder base low p [] hb hp lo hi s = (hp, lo, hi, tt)
insert-InOrder base low p (x ∷ xs) hb hp lo hi s =
    rw (comes_before-offset base x.seqnum p.seqnum hb s.0 hp s.2 hi) (
      ground (
        arith,
        offset-injective base x.seqnum p.seqnum,
        insert-InOrder base (suc (offset base x.seqnum)) p xs,
      ))

-- The packet with a number, if there is one.
unfoldable pub find : ℕ → List Pkt → Option Pkt
find j [] = none
find j (x ∷ xs) = if x.seqnum == j then some x else find j xs

abbrev pub or_else : Option Pkt → Option Pkt → Option Pkt
or_else none o = o
or_else (some x) o = some x

find_above :
    (base low j : ℕ) (xs : List Pkt) → InOrder base low xs → offset base j < low → find j xs ≡ none
unfolding find
find_above base low j [] s h = refl
find_above base low j (x ∷ xs) s h =
    ground (arith, find_above base (suc (offset base x.seqnum)) j xs s.3)

-- After the insertion the packet is found under its number unless another one had it, and under
-- every other number there is what there was.
pub find-insert :
    (base low j : ℕ) (p : Pkt) (xs : List Pkt)
    → base < 256
    → p.seqnum < 256
    → Near base p.seqnum
    → InOrder base low xs
    → find j (insert p xs) ≡ or_else (find j xs) (if p.seqnum == j then some p else none)
unfolding insert find
find-insert base low j p [] hb hp hi s = ground arith
find-insert base low j p (x ∷ xs) hb hp hi s =
    rw (comes_before-offset base x.seqnum p.seqnum hb s.0 hp s.2 hi) (
      ground (
        arith,
        find_above base (suc (offset base x.seqnum)) p.seqnum xs s.3,
        find-insert base (suc (offset base x.seqnum)) j p xs,
      ))
