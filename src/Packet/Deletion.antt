-- ===== src/Packet/Deletion.antt =====
-- src/packet_implement.c: pkt_del of the structure that pkt_decode leaves.
use mathlib.Core.Path.{subst}
use lingi1341_projet.Prelude.{
  ℕ, ◌≤◌, ◌<◌, ◌≡◌, refl, sym, ◌⊎◌, inl, inr, true, false, some, List, arith, ltb, le→not_ltb,
  returns, undefined,
}
use lingi1341_projet.Packet.Fields.{
  zero_pkt, free_payload, pkt_del, drop_payload, copy_payload, pkt_set_payload, pkt_ok, e_nomem,
  null, block, Pkt,
}
use lingi1341_projet.Packet.Format.{verdict, decoded, Header}

pkt_del-null : (pkt : Pkt) → pkt.payload ≡ null → pkt_del (some pkt) ≡ returns tt
unfolding pkt_del free_payload
pkt_del-null pkt e = ground (arith, e)

module _ (crc32 : List ℕ → ℕ) (h : Header) (rest : List ℕ) where
  pkt_del-decoded : pkt_del (some (decoded crc32 h rest zero_pkt)) ≡ returns tt
  unfolding pkt_del free_payload
  pkt_del-decoded = ground arith

  -- By the two facts that are known of it, whatever the status.
  pub pkt_del-out :
      (out : Pkt)
      → (verdict crc32 h rest ≡ pkt_ok → out ≡ decoded crc32 h rest zero_pkt)
      → (out.payload ≡ null) ⊎ (verdict crc32 h rest ≡ pkt_ok)
      → pkt_del (some out) ≡ returns tt
  pkt_del-out out good (inl old) = pkt_del-null out old
  pkt_del-out out good (inr accepted) =
      subst (λ p. pkt_del (some p) ≡ returns tt) (sym (good accepted)) pkt_del-decoded

-- Where the packet has a payload and malloc fails, pkt_set_payload answers E_NOMEM after it has freed
-- the old payload, and leaves its address in the packet: pkt_del then frees it a second time.
pub pkt_set_payload-freed :
    (pkt : Pkt) (old bytes : List ℕ) (n : ℕ)
    → pkt.payload ≡ block old
    → 0 < pkt.length
    → n ≤ 512
    → (out : Pkt) × (pkt_set_payload pkt (some bytes) n false ≡ returns (e_nomem, out))
      × (pkt_del (some out) ≡ undefined)
unfolding pkt_set_payload drop_payload copy_payload pkt_del free_payload
pkt_set_payload-freed pkt old bytes n carried positive fits =
    rw (le→not_ltb 512 n fits, (let e : ltb 0 pkt.length ≡ true = ground arith in e), carried)
      (_, refl, refl)
