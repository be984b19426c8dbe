-- ===== src/Correction/Wire.antt =====
-- src/inginious/format_segment/correction.c: pkt_encode against the packet format and against the
-- pkt_encode of src/packet_implement.c.
use lingi1341_projet.Correction.Fields.{pkt_get_payload}
use lingi1341_projet.Correction.Encode.{clear_tr, write_payload, write_packet, pkt_encode}
use lingi1341_projet.Packet.Encode.{
  encode_payload, encode_crc1, required_size, pkt_encode as pkt_encode_sent,
}
use lingi1341_projet.Prelude.{
  ℕ, ◌+◌, ◌/◌, ◌%◌, ◌≤◌, ◌<◌, ◌≡◌, refl, sym, ap, ◌∙◌, inl, inr, false, ◌&&◌, not, some, List, [],
  ◌∷◌, ◌++◌, arith, ltb, leb, ◌==◌, if◌then◌else◌, leb→le, le→leb, Bool-cases, suc-not_zero, length,
  drop, length-append, ◌>>=◌, Outcome, returns, undefined,
}
use lingi1341_projet.Bytes.{u32_bytes}
use lingi1341_projet.Packet.Fields.{first_bytes, pkt_ok, e_nomem, Pkt}
use lingi1341_projet.Packet.Wire.{
  be16, be32, wire_front, wire, Carries, u16_bytes-swap16, write_step, temp, temp_bytes, front,
  encode_empty, encode_full, pkt_encode-wire,
}
use lingi1341_projet.Bytes.Memory.{read_at-append}

same_next {ℓ κ} :
    {A : Type ℓ} {B : Type κ} (outcome : Outcome A) (f g : A → Outcome B)
    → ((a : A) → f a ≡ g a)
    → (outcome >>= f) ≡ (outcome >>= g)
same_next undefined f g same = refl
same_next (returns a) f g same = same a

-- The three tests of `*len` are one.
checks {ℓ} :
    {A : Type ℓ} (len size : ℕ) (small fits : A)
    → (if len == 0
        then small
        else if ltb len 12
        then small
        else if not (size == 0) && ltb len (size + 4 + 12)
        then small
        else fits)
      ≡ (if leb (if size == 0 then 12 else size + 4 + 12) len then fits else small)
checks len size small fits = ground arith

module _ (crc32 : List ℕ → ℕ) (pkt : Pkt) (old : List ℕ) where
  write_payload-encode_payload :
      (buf : List ℕ)
      → (pkt.length == 0) ≡ false
      → write_payload crc32 pkt buf ≡ encode_payload crc32 pkt buf
  unfolding write_payload encode_payload pkt_get_payload
  write_payload-encode_payload buf some_bytes = rw some_bytes refl

  after_crc1 :
      (buf : List ℕ)
      → (if pkt.length == 0 then returns (pkt_ok, some buf, 12) else write_payload crc32 pkt buf)
        ≡ (if pkt.length == 0 then returns (pkt_ok, some buf, 12) else encode_payload crc32 pkt buf)
  after_crc1 buf = elim (Bool-cases (pkt.length == 0)) [
    | inl empty ↦ rw empty refl
    | inr some_bytes ↦ rw some_bytes (write_payload-encode_payload buf some_bytes)
  ]

  clear_tr-wire_front :
      pkt.window < 32
      → pkt.truncated < 2
      → clear_tr (wire_front pkt.truncated pkt) ≡ wire_front 0 pkt
  unfolding clear_tr
  clear_tr-wire_front narrow bit =
      ap (λ b. b ∷ pkt.seqnum ∷ pkt.length / 256 % 256 ∷ pkt.length % 256 ∷ u32_bytes pkt.timestamp)
        (omega arith)

  write_packet-encode_crc1 :
      pkt.window < 32
      → pkt.truncated < 2
      → 8 ≤ length old
      → write_packet crc32 pkt old
        ≡ encode_crc1 crc32 pkt (temp crc32 pkt old) (front crc32 pkt old ++ drop 8 old)
  unfolding write_packet encode_crc1 first_bytes u32_bytes
  write_packet-encode_crc1 narrow bit room = rw (u16_bytes-swap16 pkt.length) (
      write_step old [] (first_bytes pkt) _ (omega arith)
      ∙ write_step old (first_bytes pkt) (be16 pkt.length) _ (omega arith)
      ∙ write_step old (first_bytes pkt ++ be16 pkt.length) (u32_bytes pkt.timestamp) _
          (omega arith)
      ∙ rw
          (
            read_at-append [] (front crc32 pkt old) (drop 8 old),
            clear_tr-wire_front narrow bit,
            temp_bytes crc32 pkt old,
          )
          (same_next _ _ _ after_crc1))

  write_packet-wire :
      (bytes : List ℕ)
      → pkt.window < 32
      → pkt.truncated < 2
      → Carries pkt bytes
      → length (wire crc32 pkt bytes) ≤ length old
      → let done = wire crc32 pkt bytes in
        write_packet crc32 pkt old
        ≡ returns (pkt_ok, some (done ++ drop (length done) old), length done)
  unfolding u32_bytes
  write_packet-wire [] narrow bit empty room =
      write_packet-encode_crc1 narrow bit (omega arith)
      ∙ encode_empty crc32 pkt old empty (omega arith)
  write_packet-wire (x ∷ xs) narrow bit (size, carried) room =
      write_packet-encode_crc1 narrow bit (omega arith)
      ∙ encode_full crc32 pkt old (x ∷ xs) (omega arith) size carried
          (omega (arith, length-append xs (be32 (crc32 (x ∷ xs)))))

  pub size-wire :
      (bytes : List ℕ)
      → Carries pkt bytes
      → length (wire crc32 pkt bytes) ≡ (if pkt.length == 0 then 12 else pkt.length + 4 + 12)
  unfolding u32_bytes
  size-wire [] empty = rw empty refl
  size-wire (x ∷ xs) (size, carried) =
      rw (size, suc-not_zero (length xs)) (omega (arith, length-append xs (be32 (crc32 (x ∷ xs)))))

  -- For a packet that carries `bytes` and a buffer of at least `*len` bytes, pkt_encode writes no byte
  -- outside the buffer: if the packet format has at most `*len` bytes it succeeds, writes exactly
  -- that format at the start of the buffer and sets `*len` to the number of bytes written, and
  -- otherwise it answers E_NOMEM and leaves the buffer and `*len`.
  pub pkt_encode-fits :
      (bytes : List ℕ) (len : ℕ)
      → pkt.window < 32
      → pkt.truncated < 2
      → Carries pkt bytes
      → len ≤ length old
      → let done = wire crc32 pkt bytes in
        pkt_encode crc32 (some pkt) (some old) len
        ≡ returns (
            if leb (length done) len
            then (pkt_ok, some (done ++ drop (length done) old), length done)
            else (e_nomem, some old, len))
  unfolding pkt_encode
  pkt_encode-fits bytes len narrow bit carries room =
      checks len pkt.length (returns (e_nomem, some old, len)) (write_packet crc32 pkt old)
      ∙ ap (λ k. if leb k len then write_packet crc32 pkt old else returns (e_nomem, some old, len))
          (sym (size-wire bytes carries))
      ∙ elim (Bool-cases (leb (length (wire crc32 pkt bytes)) len)) [
        | inl fits ↦
            let enough = leb→le (length (wire crc32 pkt bytes)) len fits in
            rw fits (write_packet-wire bytes narrow bit carries (omega (arith, enough)))
        | inr small ↦ rw small refl
      ]

  -- Where the packet format fits, and `*len` passes the size check of the program's pkt_encode, the two
  -- versions of pkt_encode write the same bytes and answer the same.
  pub pkt_encode-same :
      (bytes : List ℕ) (len : ℕ)
      → pkt.window < 32
      → pkt.truncated < 2
      → Carries pkt bytes
      → len ≤ length old
      → length (wire crc32 pkt bytes) ≤ len
      → required_size pkt ≤ len
      → pkt_encode crc32 (some pkt) (some old) len ≡ pkt_encode_sent crc32 (some pkt) (some old) len
  pkt_encode-same bytes len narrow bit carries room fits enough =
      pkt_encode-fits bytes len narrow bit carries room
      ∙ rw (le→leb (length (wire crc32 pkt bytes)) len fits)
          (sym (pkt_encode-wire crc32 pkt old bytes len carries (omega (arith, fits)) enough))
