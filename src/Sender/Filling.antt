-- ===== src/Sender/Filling.antt =====
-- src/sender.c: the packet that read_to_list makes of a payload.
use mathlib.Core.Path.{subst}
use native.Mathlib.Nat.{mod-eq_of_lt}
use lingi1341_projet.Prelude.{
  ℕ, suc, ◌+◌, ◌%◌, ◌≤◌, ◌<◌, ◌≡◌, refl, inl, true, some, List, [], ◌∷◌, ◌++◌, arith, le→not_ltb,
  length, All, returns,
}
use lingi1341_projet.Bytes.{IsByte}
use lingi1341_projet.Bytes.Memory.{read_at-whole}
use lingi1341_projet.Packet.Fields.{
  zero_pkt, free_payload, pkt_del, pkt_set_type, pkt_set_tr, pkt_set_window, pkt_set_seqnum,
  drop_payload, copy_payload, pkt_set_payload, pkt_ok, block, Pkt,
}
use lingi1341_projet.Packet.Wire.{Carries}
use lingi1341_projet.Sender.State.{data_pkt}
use lingi1341_projet.Sender.Supply.{Stock, IsData}
use lingi1341_projet.Packet.RoundTrip.{IsPacket}

-- The packet of read_to_list with its payload.
abbrev pub filled : ℕ → List ℕ → Pkt
filled seqnum bytes = record zero_pkt {
  kind = 1;
  seqnum = seqnum;
  length = length bytes;
  payload = block bytes;
}

module _ (stream : ℕ → List ℕ) where
  pub Stock-append :
      (n i : ℕ) (xs : List Pkt) (p : Pkt)
      → Stock stream n xs
      → i ≡ n + length xs
      → IsData stream i p
      → 0 < length (stream i)
      → Stock stream n (xs ++ (p ∷ []))
  Stock-append n i [] p s e d positive =
      let same : i ≡ n = omega arith in
      (subst (λ j. IsData stream j p) same d, subst (λ j. 0 < length (stream j)) same positive, tt)
  Stock-append n i (x ∷ xs) p s e d positive =
      (s.0, s.1, Stock-append (suc n) i xs p s.2 (omega arith) d positive)

  pub filled-IsData :
      (i seqnum : ℕ) (bytes : List ℕ)
      → seqnum ≡ i % 256
      → bytes ≡ stream i
      → length bytes ≤ 512
      → All IsByte bytes
      → IsData stream i (filled seqnum bytes)
  unfolding pkt_del free_payload
  filled-IsData i seqnum bytes number e fits contents = record {
    seqnum = number;
    packet = subst (IsPacket (filled seqnum bytes)) e (record {
      window = omega arith;
      tr = omega arith;
      low_kind = omega arith;
      high_kind = omega arith;
      cut = inl refl;
      seqnum = omega (arith, number);
      timestamp = omega arith;
      size = fits;
      carries = itself bytes;
      contents = contents;
    });
    kind = refl;
    tr = refl;
    crc2 = refl;
    deletable = ground arith;
  }
    where
      itself : (bytes : List ℕ) → Carries (filled seqnum bytes) bytes
      itself [] = refl
      itself (x ∷ xs) = (refl, refl)

pub pkt_set_payload-filled :
    (seqnum : ℕ) (bytes : List ℕ)
    → seqnum < 256
    → length bytes ≤ 512
    → pkt_set_payload (data_pkt seqnum zero_pkt) (some bytes) (length bytes) true
      ≡ returns (pkt_ok, filled seqnum bytes)
unfolding pkt_set_payload drop_payload copy_payload pkt_set_type pkt_set_tr pkt_set_window
    pkt_set_seqnum
pkt_set_payload-filled seqnum bytes byte fits =
    rw (mod-eq_of_lt byte, le→not_ltb 512 (length bytes) fits, read_at-whole bytes) refl
