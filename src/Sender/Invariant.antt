-- ===== src/Sender/Invariant.antt =====
-- src/sender.c: what holds of the sender between two calls.
use lingi1341_projet.Prelude.{
  ℕ, ◌+◌, ◌%◌, ◌≤◌, ◌<◌, ◌≡◌, refl, ◌⊎◌, inl, inr, List, [], ◌∷◌, ◌++◌, if◌then◌else◌, Bool-cases,
  length, All, All-append,
}
use lingi1341_projet.Packet.Fields.{Pkt}
use lingi1341_projet.Packet.Wire.{wire}
use lingi1341_projet.Sender.State.{fin, Sender, System}
use lingi1341_projet.Sender.Supply.{Stock, IsSent, stamped, IsData-stamped, IsData}

-- The datagrams sent after one call of send().
abbrev pub posted : System → Sender → List ℕ → List (List ℕ)
posted sys st bytes = if sys.send bytes then st.sent ++ (bytes ∷ []) else st.sent

module _ (stream : ℕ → List ℕ) (crc32 : List ℕ → ℕ) where
  -- The next number is that of a packet `i` of the stream, and at the end of the input `pkt_fin` is
  -- that packet, an empty one.
  abbrev pub Ready : ℕ → Sender → Type 0
  Ready i st =
      (st.seqnum ≡ i % 256)
      × ((st.seqnum_eof ≡ 0)
          ⊎ ((st.seqnum_eof ≡ 1)
              × (stream i ≡ [])
              × ((pkt : Pkt) × (st.pkt_fin ≡ fin pkt) × IsData stream i pkt)))

  -- The list holds consecutive packets of the stream, from packet `n` on, up to the next number; it
  -- has at most 31, the window is from `least` to 31, and all datagrams sent so far are of
  -- packets before the next one.
  pub record Supplies (least n : ℕ) (st : Sender) : Type 0 where
    pub stocked : Stock stream n st.list
    pub few : length st.list ≤ 31
    pub wide : least ≤ st.window_size
    pub window : st.window_size ≤ 31
    pub ready : Ready (n + length st.list) st
    pub sent : All (IsSent stream crc32 (n + length st.list)) st.sent

  module _ (sys : System) where
    pub IsSent-posted :
        (i top : ℕ) (pkt : Pkt) (st : Sender)
        → IsData stream i pkt
        → i < top
        → All (IsSent stream crc32 top) st.sent
        → All (IsSent stream crc32 top) (posted sys st (wire crc32 (stamped sys pkt) (stream i)))
    IsSent-posted i top pkt st d made h =
        elim (Bool-cases (sys.send (wire crc32 (stamped sys pkt) (stream i)))) [
          | inl taken ↦ rw taken (
              All-append (IsSent stream crc32 top) st.sent _ h
                ((i, stamped sys pkt, made, IsData-stamped stream sys i pkt d, refl), tt))
          | inr refused ↦ rw refused h
        ]
