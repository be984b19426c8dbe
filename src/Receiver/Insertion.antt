-- ===== src/Receiver/Insertion.antt =====
-- src/receiver.c: check_in_window, and the ordered insertion into the list.
use lingi1341_projet.Prelude.{
  ℕ, ◌≤◌, ◌<◌, ◌≡◌, refl, inl, inr, true, List, [], ◌∷◌, arith, ◌==◌, Bool-cases, All,
}
use lingi1341_projet.Packet.Fields.{Pkt}
use lingi1341_projet.Queue.Order.{comes_before, insert, Near}
use lingi1341_projet.Receiver.State.{check_in_window, Receiver}

-- Numbers in the window are near the number that is waited for.
pub check_in_window-Near :
    (st : Receiver) (s : ℕ)
    → st.waited_seqnum < 256
    → s < 256
    → st.window_size ≤ 31
    → check_in_window st s ≡ true
    → Near st.waited_seqnum s
unfolding check_in_window
check_in_window-Near st s hw hs high inside = ground arith

pub insert-All {ℓ} :
    (P : Pkt → Type ℓ) (p : Pkt) (xs : List Pkt) → P p → All P xs → All P (insert p xs)
unfolding insert
insert-All P p [] hp h = (hp, tt)
insert-All P p (x ∷ xs) hp (hx, h) = elim (Bool-cases (comes_before x.seqnum p.seqnum)) [
  | inl behind ↦ rw behind (hx, insert-All P p xs hp h)
  | inr here ↦ rw here (elim (Bool-cases (x.seqnum == p.seqnum)) [
    | inl same ↦ rw same (hx, h)
    | inr other ↦ rw other (hp, (hx, h))
  ])
]

pub insert-not_empty :
    (p : Pkt) (xs : List Pkt) → (x : Pkt) × (ys : List Pkt) × (insert p xs ≡ x ∷ ys)
unfolding insert
insert-not_empty p [] = (_, _, refl)
insert-not_empty p (x ∷ xs) = elim (Bool-cases (comes_before x.seqnum p.seqnum)) [
  | inl behind ↦ rw behind (_, _, refl)
  | inr here ↦ rw here (elim (Bool-cases (x.seqnum == p.seqnum)) [
    | inl same ↦ rw same (_, _, refl)
    | inr other ↦ rw other (_, _, refl)
  ])
]
