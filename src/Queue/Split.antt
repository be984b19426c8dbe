-- ===== src/Queue/Split.antt =====
-- src/nyancat.c: where the loop of add_specific_queue divides the list.
use lingi1341_projet.Prelude.{
  ℕ, zero, suc, ◌<◌, ◌≡◌, refl, sym, ◌≢◌, ◌⊎◌, inl, inr, Bool, true, false, some, [], ◌∷◌, ◌++◌,
  arith, ◌==◌, if◌then◌else◌, ne→not_==, Bool-cases, length, ◌>>=◌, returns,
}
use lingi1341_projet.Packet.Fields.{Pkt}
use lingi1341_projet.Queue.Order.{comes_before, insert}
use lingi1341_projet.Queue.Nodes.{Ptr, null_ptr, Heap, load, find_place, Node}
use lingi1341_projet.Queue.Chain.{Cells, packets, has, first, last, Chain, load-node, last-append}

-- The nodes that the loop passes, those behind, and the packet looked at last.
module _ (seqnum : ℕ) where
  pub front : Cells → Cells
  front [] = []
  front ((a, v) ∷ xs) = if comes_before v.seqnum seqnum then (a, v) ∷ front xs else []

  pub back : Cells → Cells
  back [] = []
  back ((a, v) ∷ xs) = if comes_before v.seqnum seqnum then back xs else (a, v) ∷ xs

  pub examined : Pkt → Cells → Pkt
  examined v [] = v
  examined v ((b, w) ∷ xs) = if comes_before w.seqnum seqnum then examined w xs else w

  pub front-append-back : (xs : Cells) → front xs ++ back xs ≡ xs
  unfolding front back
  front-append-back [] = refl
  front-append-back ((a, v) ∷ xs) = ground (arith, front-append-back xs)

-- A number that comes before another differs from it.
pub comes_before-ne : (a b : ℕ) → comes_before a b ≡ true → (a == b) ≡ false
unfolding comes_before
comes_before-ne a b h = ground arith

pub insert-place :
    (fresh : Ptr) (p : Pkt) (a : Ptr) (v : Pkt) (xs : Cells)
    → let cells : Cells = (a, v) ∷ xs in
      insert p (packets cells) ≡ (
        if (examined p.seqnum v cells).seqnum == p.seqnum
        then packets cells
        else packets (front p.seqnum cells ++ ((fresh, p) ∷ back p.seqnum cells)))
unfolding insert front back examined
insert-place fresh p a v [] = ground (arith, comes_before-ne v.seqnum p.seqnum)
insert-place fresh p a v ((b, w) ∷ xs) =
    ground (arith, comes_before-ne v.seqnum p.seqnum, insert-place fresh p b w xs)

pub find_place_end :
    (k : ℕ) (h : Heap) (seqnum : ℕ) (previous runner : Ptr) (v : Pkt) (cmp : Bool)
    → (runner ≡ null_ptr) ⊎ (cmp ≡ false)
    → find_place (suc k) h seqnum previous runner v cmp ≡ returns (previous, runner, v)
unfolding find_place
find_place_end k h seqnum previous runner v cmp stop = ground arith

pub find_place_step :
    (k : ℕ) (h : Heap) (seqnum : ℕ) (previous a : Ptr) (v : Pkt) (n : Node)
    → a ≢ null_ptr
    → h a ≡ some n
    → find_place (suc k) h seqnum previous a v true ≡ (
        if n.next == null_ptr
        then find_place k h seqnum a n.next v true
        else load h n.next
          >>= (λ m. find_place k h seqnum a n.next m.packet (comes_before m.packet.seqnum seqnum)))
unfolding find_place
find_place_step k h seqnum previous a v n live e =
    rw (ne→not_== a null_ptr live, load-node h a live e)

-- On the nodes of a list, with any fuel above its length, the loop of add_specific_queue ends,
-- between the nodes whose packets come before the number and the others, and with the packet that
-- it has looked at last.
pub find_place_lem :
    (k : ℕ) (h : Heap) (seqnum : ℕ) (previous a : Ptr) (v : Pkt) (xs : Cells)
    → Chain h null_ptr ((a, v) ∷ xs)
    → length ((a, v) ∷ xs) < k
    → let cells : Cells = (a, v) ∷ xs in
      find_place k h seqnum previous a v (comes_before v.seqnum seqnum)
      ≡ returns (
        last previous (front seqnum cells),
        first null_ptr (back seqnum cells),
        examined seqnum v cells,
      )
unfolding front back examined
find_place_lem zero h seqnum previous a v xs s fuel = absurd (omega arith)
find_place_lem (suc zero) h seqnum previous a v xs s fuel = absurd (omega arith)
find_place_lem (suc (suc k)) h seqnum previous a v [] s fuel =
    elim (Bool-cases (comes_before v.seqnum seqnum)) [
      | inr stop ↦ rw stop (find_place_end (suc k) h seqnum previous a v false (inr refl))
      | inl pass ↦
          rw (pass, find_place_step (suc k) h seqnum previous a v _ s.0 s.2)
            (find_place_end k h seqnum a null_ptr v true (inl refl))
    ]
find_place_lem (suc (suc k)) h seqnum previous a v ((b, w) ∷ xs) s fuel =
    elim (Bool-cases (comes_before v.seqnum seqnum)) [
      | inr stop ↦ rw stop (find_place_end (suc k) h seqnum previous a v false (inr refl))
      | inl pass ↦
          rw
            (
              pass,
              find_place_step (suc k) h seqnum previous a v _ s.0 s.2,
              ne→not_== b null_ptr s.3.0,
              load-node h b s.3.0 s.3.2,
            )
            (find_place_lem (suc k) h seqnum a b w xs s.3 (omega arith))
    ]

pub last-insert :
    (c fresh : Ptr) (p : Pkt) (xs : Cells) (b : Ptr) (w : Pkt) (ys : Cells)
    → last c (xs ++ ((fresh, p) ∷ (b, w) ∷ ys)) ≡ last c (xs ++ ((b, w) ∷ ys))
last-insert c fresh p [] b w ys = refl
last-insert c fresh p ((a, v) ∷ xs) b w ys = last-insert a fresh p xs b w ys

-- The tail after the insertion.
pub tail-insert :
    (h : Heap) (c fresh : Ptr) (p : Pkt) (xs ys : Cells)
    → Chain h null_ptr ys
    → (if first null_ptr ys == null_ptr then fresh else last c (xs ++ ys))
      ≡ last c (xs ++ ((fresh, p) ∷ ys))
tail-insert h c fresh p xs [] s = sym (last-append c fresh p xs)
tail-insert h c fresh p xs ((b, w) ∷ ys) s =
    rw (ne→not_== b null_ptr s.0) (sym (last-insert c fresh p xs b w ys))

pub not_fresh :
    (b fresh : Ptr) (ys : Cells) → has fresh ys ≡ false → has b ys ≡ true → (b == fresh) ≡ false
not_fresh b fresh ys out held = ground arith
