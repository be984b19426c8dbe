-- ===== src/Sender/Ending.antt =====
-- src/sender.c: final_send on consecutive packets of a stream.
use mathlib.Core.List.{mem-append_right, mem-cons_self}
use mathlib.Core.Path.{subst}
use lingi1341_projet.Prelude.{
  ℕ, suc, ◌+◌, ◌≡◌, refl, inl, inr, Bool, true, false, List, [], ◌∷◌, ◌++◌, arith, if◌then◌else◌,
  Bool-cases, length, All, is_empty, ◌>>=◌, Yields, returns, undefined,
}
use lingi1341_projet.Packet.Fields.{Pkt}
use lingi1341_projet.Packet.Wire.{wire}
use lingi1341_projet.Sender.State.{send_packet, Fin, null_pkt, deleted, fin, Sender, System}
use lingi1341_projet.Sender.Timer.{delete_fin, final_send}
use lingi1341_projet.Sender.Supply.{
  IsSent, IsPosted, All-IsSent, stamped, IsData-stamped, send_packet-wire, IsData,
}
use lingi1341_projet.Sender.Invariant.{IsSent-posted, Supplies}

is_empty→ : (xs : List Pkt) → is_empty xs ≡ true → length xs ≡ 0
is_empty→ [] e = refl
is_empty→ (x ∷ xs) e = cc

→is_empty : (xs : List Pkt) → length xs ≡ 0 → is_empty xs ≡ true
→is_empty [] e = refl
→is_empty (x ∷ xs) e = absurd (omega arith)

module _ (stream : ℕ → List ℕ) (crc32 : List ℕ → ℕ) (least : ℕ) (sys : System) where
  -- What final_send leaves of a state with `k` packets from packet `n` on: the end is reported if
  -- none of them is left and packet `n` is the empty one.
  abbrev pub Closes : (n k : ℕ) → Bool × Sender → Type 0
  Closes n k (true, st) =
      (k ≡ 0)
      × (stream n ≡ [])
      × All (IsSent stream crc32 (suc n)) st.sent
      × IsPosted stream crc32 n st.sent
  Closes n k (false, st) = (length st.list ≡ k) × Supplies stream crc32 least n st

  -- And if send() takes every datagram, the end is reported.
  abbrev Finishes : (n k : ℕ) → Bool × Sender → Type 0
  Finishes n k result =
      Closes n k result × (((bytes : List ℕ) → sys.send bytes ≡ true) → result.0 ≡ true)

  sent_last :
      (n : ℕ) (st : Sender) (f : Fin)
      → Supplies stream crc32 least n st
      → st.seqnum_eof ≡ 1
      → (pkt : Pkt) → f ≡ fin pkt
      → IsData stream (n + length st.list) pkt
      → stream (n + length st.list) ≡ []
      → length st.list ≡ 0
      → Yields (Finishes n (length st.list)) (elim f [
        | null_pkt ↦ undefined
        | deleted ↦ undefined
        | fin pkt ↦ send_packet crc32 sys pkt st >>= (λ (sent, pkt', st').
            if sent
            then delete_fin (record st' { pkt_fin = fin pkt' }) >>= (λ st''. returns (true, st''))
            else returns (false, record st' { pkt_fin = fin pkt' }))
      ])
  unfolding delete_fin
  sent_last n st f d read_all pkt e final empty none_left =
      rw (e, send_packet-wire crc32 sys stream (n + length st.list) pkt st final)
        (elim (Bool-cases (sys.send bytes)) [
          | inl taken ↦
              rw (taken, later.deletable)
                (
                  _,
                  refl,
                  (
                    (
                      none_left,
                      subst (λ i. stream i ≡ []) (omega (arith, none_left)) empty,
                      posted_all taken,
                      posted_last,
                    ),
                    λ all. refl,
                  ),
                )
          | inr refused ↦ rw refused (
            _,
            refl,
            (
              (
                refl,
                record {
                  stocked = d.stocked;
                  few = d.few;
                  window = d.window;
                  wide = d.wide;
                  ready = (d.ready.0, inr (read_all, empty, (stamped sys pkt, refl, later)));
                  sent = d.sent;
                },
              ),
              λ all. let e = all bytes in cc,
            ),
          )
        ])
    where
      later : IsData stream (n + length st.list) (stamped sys pkt)
      later = IsData-stamped stream sys (n + length st.list) pkt final

      bytes : List ℕ
      bytes = wire crc32 (stamped sys pkt) (stream (n + length st.list))

      posted_last : IsPosted stream crc32 n (st.sent ++ (bytes ∷ []))
      posted_last =
          subst (λ i. IsPosted stream crc32 i (st.sent ++ (bytes ∷ []))) (omega (arith, none_left))
            (stamped sys pkt, later, mem-append_right st.sent mem-cons_self)

      posted_all :
          sys.send bytes ≡ true → All (IsSent stream crc32 (suc n)) (st.sent ++ (bytes ∷ []))
      posted_all taken =
          let h =
            IsSent-posted stream crc32 sys (n + length st.list) (suc n) pkt st final
              (omega (arith, none_left))
              (All-IsSent stream crc32 (n + length st.list) (suc n) st.sent
                (omega (arith, none_left)) d.sent) in
          rw taken at h

  final_send-Finishes :
      (n : ℕ) (st : Sender)
      → st.seqnum_eof ≡ 1
      → is_empty st.list ≡ true
      → Supplies stream crc32 least n st
      → Yields (Finishes n (length st.list)) (final_send crc32 sys st)
  unfolding final_send
  final_send-Finishes n st read_all none_left d = rw none_left (elim d.ready.1 [
    | inl unread ↦ absurd (omega arith)
    | inr (_, empty, (pkt, e, final)) ↦
        sent_last n st st.pkt_fin d read_all pkt e final empty (is_empty→ st.list none_left)
  ])

  pub final_send-Closes :
      (n : ℕ) (st : Sender)
      → st.seqnum_eof ≡ 1
      → Supplies stream crc32 least n st
      → Yields (Closes n (length st.list)) (final_send crc32 sys st)
  unfolding final_send
  final_send-Closes n st read_all d = elim (Bool-cases (is_empty st.list)) [
    | inr some_left ↦ rw some_left (_, refl, (refl, d))
    | inl none_left ↦
        let (result, called, (closes, _)) = final_send-Finishes n st read_all none_left d in
        (result, called, closes)
  ]

  -- After the last packet of the list, final_send ends the transfer if send() takes the empty packet.
  pub final_send-ends :
      (n : ℕ) (st : Sender)
      → st.seqnum_eof ≡ 1
      → length st.list ≡ 0
      → ((bytes : List ℕ) → sys.send bytes ≡ true)
      → Supplies stream crc32 least n st
      → Yields (λ (done, _). done ≡ true) (final_send crc32 sys st)
  final_send-ends n st read_all none_left all d =
      let ((done, next), called, (_, ends)) =
        final_send-Finishes n st read_all (→is_empty st.list none_left) d in
      ((done, next), called, ends all)
