-- ===== src/Correction/Payload.antt =====
-- src/inginious/format_segment/correction.c: the payload of a packet through pkt_set_payload.
use lingi1341_projet.Prelude.{
  ℕ, ◌≤◌, ◌<◌, ◌≡◌, refl, ◌≢◌, ◌⊎◌, inl, inr, Bool, true, false, some, List, arith, leb, ◌==◌,
  if◌then◌else◌, le→not_ltb, leb→le, ne→not_==, not_==→ne, Bool-cases, length, take, length-take,
  ◌>>=◌, Yields, returns,
}
use lingi1341_projet.Packet.Fields.{
  free_payload, is_null, StatusCode, pkt_ok, e_nomem, null, block, Pkt,
}
use lingi1341_projet.Correction.Fields.{
  pkt_get_payload, pkt_set_length, drop_payload, copy_payload, pkt_set_payload,
}
use lingi1341_projet.Bytes.Memory.{read_at-in_range}
use lingi1341_projet.Bytes.{read_at}

-- No payload and the length 0, or a block of as many bytes as the length says, from 1 to 512.
abbrev pub IsLoaded : Pkt → Type 0
IsLoaded pkt =
    ((pkt.payload ≡ null) × (pkt.length ≡ 0))
    ⊎ ((bytes : List ℕ) × (pkt.payload ≡ block bytes)
        × (pkt.length ≡ length bytes)
        × (0 < pkt.length)
        × (pkt.length ≤ 512))

-- With success the packet has the `n` bytes, and otherwise none.
abbrev pub Loads : List ℕ → ℕ → StatusCode × Pkt → Type 0
Loads bytes n (status, out) =
    IsLoaded out
    × (status ≡ pkt_ok → (out.length ≡ n) × (pkt_get_payload out ≡ block (take n bytes)))
    × (status ≢ pkt_ok → pkt_get_payload out ≡ null)

drop_payload-null :
    (pkt : Pkt)
    → IsLoaded pkt
    → drop_payload pkt ≡ returns (record pkt { payload = null; length = 0 })
unfolding drop_payload free_payload pkt_set_length
drop_payload-null pkt (inl (none_there, empty)) =
    rw (let e : is_null pkt.payload ≡ true = rw none_there refl in e)
      (λ i. returns (record pkt { payload = none_there i; length = empty i }))
drop_payload-null pkt (inr (bytes, there, size, positive, fits)) = rw there refl

-- On a packet without payload and with the length 0, or with a block of as many bytes as its
-- length says, at most 512: whatever malloc answers, pkt_set_payload of a buffer of at least `n`
-- bytes leaves such a packet again; with success its length is `n` and its payload a copy of the
-- `n` bytes, and otherwise it has no payload.
pub pkt_set_payload-Loads :
    (pkt : Pkt) (bytes : List ℕ) (n : ℕ) (memory : Bool)
    → IsLoaded pkt
    → n ≤ length bytes
    → Yields (Loads bytes n) (pkt_set_payload pkt (some bytes) n memory)
unfolding pkt_set_payload copy_payload pkt_set_length pkt_get_payload
pkt_set_payload-Loads pkt bytes n memory loaded inside =
    rw (drop_payload-null pkt loaded) (elim (Bool-cases (n == 0)) [
      | inl none_left ↦ rw none_left (_, refl, (inl (refl, refl), (λ e. cc), (λ e. refl)))
      | inr positive ↦ rw positive (elim (Bool-cases (leb n 512)) [
        | inr large ↦ rw large (_, refl, (inl (refl, refl), (λ e. cc), (λ e. refl)))
        | inl fits ↦ rw fits (allocated memory (not_==→ne n 0 positive) (leb→le n 512 fits))
      ])
    ])
  where
    allocated :
        (memory : Bool)
        → n ≢ 0
        → n ≤ 512
        → Yields (Loads bytes n) (
            if memory
            then read_at bytes 0 n >>= (λ copy.
              returns (pkt_set_length (record pkt { payload = block copy; length = 0 }) n))
            else returns (e_nomem, record pkt { payload = null; length = 0 }))
    allocated false positive fits = (_, refl, (inl (refl, refl), (λ e. cc), (λ e. refl)))
    allocated true positive fits =
        rw (read_at-in_range bytes 0 n (omega arith), le→not_ltb 512 n fits)
          (
            _,
            refl,
            (
              inr (take n bytes, refl, omega (arith, length-take n bytes), omega arith, fits),
              (λ e. (refl, rw (ne→not_== n 0 positive) refl)),
              (λ e. absurd (e refl)),
            ),
          )
