-- ===== src/Queue/Order.antt =====
-- src/nyancat.c: the comparison of sequence numbers in add_specific_queue, and the list operations
-- that the queue stands for.
use lingi1341_projet.Prelude.{
  ℕ, suc, ◌+◌, ◌-◌, ◌%◌, ◌≤◌, ◌<◌, Bool, true, false, List, [], ◌∷◌, ltb, ◌==◌, if◌then◌else◌,
}
use lingi1341_projet.Packet.Fields.{Pkt}

-- `cmp`: a packet with sequence number `seqnum` comes behind one with number `runner`. In C the
-- differences are of type int; here each comparison has the subtrahend on the other side.
unfoldable pub comes_before : ℕ → ℕ → Bool
comes_before runner seqnum =
    if ltb (seqnum + 31) runner
    then true
    else if ltb (runner + 31) seqnum
    then false
    else ltb runner seqnum

-- What add_specific_queue does to the list of packets: a number that is there already is kept, and
-- the new packet is dropped.
unfoldable pub insert : Pkt → List Pkt → List Pkt
insert packet [] = packet ∷ []
insert packet (x ∷ xs) =
    if comes_before x.seqnum packet.seqnum
    then x ∷ insert packet xs
    else if x.seqnum == packet.seqnum
    then x ∷ xs
    else packet ∷ x ∷ xs

-- How far a number lies ahead of `base`, modulo 256.
abbrev pub offset : ℕ → ℕ → ℕ
offset base seqnum = (seqnum + 256 - base) % 256

-- At most 31 numbers ahead, or 32 where the numbers pass 255 in between.
abbrev pub Near : ℕ → ℕ → Type 0
Near base seqnum = offset base seqnum + (if ltb seqnum base then 0 else 1) ≤ 32

-- The numbers are bytes near `base`, and their offsets from it grow along the list, from `low` on.
abbrev pub InOrder : ℕ → ℕ → List Pkt → Type 0
InOrder base low [] = Unit {0}
InOrder base low (x ∷ xs) =
    (x.seqnum < 256)
    × (low ≤ offset base x.seqnum)
    × Near base x.seqnum
    × InOrder base (suc (offset base x.seqnum)) xs
