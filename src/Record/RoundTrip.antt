-- ===== src/Record/RoundTrip.antt =====
-- src/inginious/decoder_encore_structures/record.c: what record_write writes, record_read reads back.
use lingi1341_projet.Prelude.{
  ℕ, zero, suc, ◌+◌, ◌*◌, ◌/◌, ◌%◌, ◌≤◌, ◌<◌, ◌≡◌, refl, ap, inl, inr, true, some, List, [], ◌∷◌,
  ◌++◌, append_assoc, arith, ◌==◌, if◌then◌else◌, lt→ltb, le→leb, ==→eq, Bool-cases, suc-not_zero,
  length, take, length-append, take-append, drop-append, returns,
}
use lingi1341_projet.Bytes.{IsU32, u16_bytes, u32_bytes, swap16}
use lingi1341_projet.Bytes.Memory.{swap16-swap16, swap16-IsU16, bytes_u32-u32_bytes, read_at-whole}
use lingi1341_projet.Record.{
  payload_bytes, fwrite, record_write, fread, bytes_u16, read_footer, record_read, FileRecord,
}
use lingi1341_projet.Packet.RoundTrip.{payload_of}
use lingi1341_projet.Packet.Fields.{null, block}

-- The record with the given fields, whose payload is NULL when it is empty.
abbrev pub made : (kind has_footer uuid : ℕ) → (bytes : List ℕ) → FileRecord
made kind has_footer uuid bytes = record {
  kind = kind;
  has_footer = has_footer;
  length = length bytes;
  payload = payload_of bytes;
  uuid = uuid;
}

abbrev footer : (has_footer uuid : ℕ) → List ℕ
footer has_footer uuid = if has_footer == 0 then [] else u32_bytes uuid

-- The record in the file.
abbrev pub layout : (kind has_footer uuid : ℕ) → List ℕ → List ℕ
layout kind has_footer uuid bytes =
    u16_bytes (kind + 32768 * has_footer)
    ++ (u16_bytes (swap16 (length bytes)) ++ (bytes ++ footer has_footer uuid))

fread-u16_bytes :
    (n : ℕ) (back : List ℕ) → fread 2 (u16_bytes n ++ back) ≡ returns (u16_bytes n, back)
unfolding fread u16_bytes
fread-u16_bytes n back = rw (le→leb 2 (suc (suc (length back))) (omega arith)) refl

fread-u32_bytes :
    (n : ℕ) (back : List ℕ) → fread 4 (u32_bytes n ++ back) ≡ returns (u32_bytes n, back)
unfolding fread u32_bytes
fread-u32_bytes n back = rw (le→leb 4 (suc (suc (suc (suc (length back))))) (omega arith)) refl

fread-append : (part back : List ℕ) → fread (length part) (part ++ back) ≡ returns (part, back)
unfolding fread
fread-append part back =
    rw
      (
        le→leb (length part) (length (part ++ back)) (omega (arith, length-append part back)),
        take-append part back,
        drop-append part back,
      )
      refl

bytes_u16-u16_bytes : (n : ℕ) → n < 65536 → bytes_u16 (u16_bytes n) ≡ n
unfolding u16_bytes
bytes_u16-u16_bytes n h = omega arith

length-u16_bytes : (n : ℕ) → length (u16_bytes n) ≡ 2
unfolding u16_bytes
length-u16_bytes n = refl

length-u32_bytes : (n : ℕ) → length (u32_bytes n) ≡ 4
unfolding u32_bytes
length-u32_bytes n = refl

-- The file takes the whole item.
fwrite-all : (room : ℕ) (item : List ℕ) → length item ≤ room → fwrite room item ≡ length item
unfolding fwrite
fwrite-all room item fits = rw (le→leb (length item) room fits) refl

take-all : (room : ℕ) (item : List ℕ) → length item ≤ room → take room item ≡ item
take-all zero [] fits = refl
take-all (suc room) [] fits = refl
take-all zero (x ∷ xs) fits = absurd (omega arith)
take-all (suc room) (x ∷ xs) fits = ap (λ t. x ∷ t) (take-all room xs (omega arith))

length-footer : (has_footer uuid : ℕ) → length (footer has_footer uuid) ≤ 4
length-footer has_footer uuid = elim (Bool-cases (has_footer == 0)) [
  | inl none_there ↦ rw none_there (omega arith)
  | inr there ↦ rw there (omega (arith, length-u32_bytes uuid))
]

payload_bytes-made :
    (kind has_footer uuid : ℕ) (bytes : List ℕ)
    → payload_bytes (made kind has_footer uuid bytes) ≡ returns bytes
unfolding payload_bytes
payload_bytes-made kind has_footer uuid [] = refl
payload_bytes-made kind has_footer uuid (x ∷ xs) =
    rw (lt→ltb 0 (suc (length xs)) (omega arith)) (read_at-whole (x ∷ xs))

read_footer-footer :
    (sum : ℕ) (r : FileRecord) (uuid : ℕ) (rest : List ℕ)
    → IsU32 uuid
    → (r.has_footer ≡ 0 → uuid ≡ 0)
    → read_footer sum r (footer r.has_footer uuid ++ rest)
      ≡ returns (sum + length (footer r.has_footer uuid), record r { uuid = uuid }, rest)
unfolding read_footer
read_footer-footer sum r uuid rest small absent = elim (Bool-cases (r.has_footer == 0)) [
  | inl none_there ↦
      rw (none_there, absent (==→eq r.has_footer 0 none_there))
        (ap (λ k. returns (k, record r { uuid = 0 }, rest)) (omega arith))
  | inr there ↦
      rw (there, fread-u32_bytes uuid rest, bytes_u32-u32_bytes uuid small, length-u32_bytes uuid)
        refl
]

module _ (kind has_footer uuid : ℕ) (low : kind < 32768) (flag : has_footer < 2)
    (small : IsU32 uuid) (absent : has_footer ≡ 0 → uuid ≡ 0) where
  abbrev word : ℕ
  word = kind + 32768 * has_footer

  length-layout :
      (bytes : List ℕ)
      → length (layout kind has_footer uuid bytes)
        ≡ (4 + length bytes) + length (footer has_footer uuid)
  length-layout bytes = omega (
    arith,
    length-append (u16_bytes word)
        (u16_bytes (swap16 (length bytes)) ++ (bytes ++ footer has_footer uuid)),
    length-append (u16_bytes (swap16 (length bytes))) (bytes ++ footer has_footer uuid),
    length-append bytes (footer has_footer uuid),
    length-u16_bytes word,
    length-u16_bytes (swap16 (length bytes)),
  )

  read_back :
      (old : FileRecord) (rest bytes : List ℕ)
      → length bytes < 65536
      → record_read old (layout kind has_footer uuid bytes ++ rest) true
        ≡ returns (
            some
              (length (layout kind has_footer uuid bytes), made kind has_footer uuid bytes, rest))
  unfolding record_read
  read_back old rest [] short =
      rw
        (
          length-layout [],
          append_assoc (u16_bytes word) (u16_bytes (swap16 0) ++ footer has_footer uuid) rest,
          append_assoc (u16_bytes (swap16 0)) (footer has_footer uuid) rest,
          fread-u16_bytes word (u16_bytes (swap16 0) ++ (footer has_footer uuid ++ rest)),
          fread-u16_bytes (swap16 0) (footer has_footer uuid ++ rest),
          bytes_u16-u16_bytes word (omega arith),
          bytes_u16-u16_bytes (swap16 0) (swap16-IsU16 0),
          swap16-swap16 0 (omega arith),
          let e : word % 32768 ≡ kind = omega arith in e,
          let e : word / 32768 % 2 ≡ has_footer = omega arith in e,
          read_footer-footer 4
              (record {
                kind = kind;
                has_footer = has_footer;
                length = 0;
                payload = null;
                uuid = old.uuid;
              })
              uuid rest small absent,
        )
        refl
  read_back old rest (x ∷ xs) short =
      let n = length (x ∷ xs) in
      let tail = footer has_footer uuid in
      rw
        (
          length-layout (x ∷ xs),
          append_assoc (u16_bytes word) (u16_bytes (swap16 n) ++ ((x ∷ xs) ++ tail)) rest,
          append_assoc (u16_bytes (swap16 n)) ((x ∷ xs) ++ tail) rest,
          append_assoc xs tail rest,
          fread-u16_bytes word (u16_bytes (swap16 n) ++ ((x ∷ xs) ++ (tail ++ rest))),
          fread-u16_bytes (swap16 n) ((x ∷ xs) ++ (tail ++ rest)),
          bytes_u16-u16_bytes word (omega arith),
          bytes_u16-u16_bytes (swap16 n) (swap16-IsU16 n),
          swap16-swap16 n short,
          suc-not_zero (length xs),
          let e : word % 32768 ≡ kind = omega arith in e,
          let e : word / 32768 % 2 ≡ has_footer = omega arith in e,
          fread-append (x ∷ xs) (tail ++ rest),
          read_footer-footer (4 + n)
              (record {
                kind = kind;
                has_footer = has_footer;
                length = n;
                payload = block (x ∷ xs);
                uuid = old.uuid;
              })
              uuid rest small absent,
        )
        refl

  -- A record with a type of 15 bits, a payload of less than 65536 bytes (NULL when it is empty)
  -- and a UUID that is 0 without a footer, where the file takes all that fwrite() is given:
  -- record_write succeeds and returns the number of bytes written, and record_read of what it
  -- wrote, into any structure and whatever follows in the file, when malloc succeeds, gives the
  -- record back, reads as many bytes as were written and leaves what follows.
  pub record_read-record_write :
      (bytes : List ℕ)
      → length bytes < 65536
      → (room : ℕ → ℕ) → ((k : ℕ) → 65536 ≤ room k)
      → let r = made kind has_footer uuid bytes in
        (file : List ℕ) × (record_write r room ≡ returns (length file, file))
        × ((old : FileRecord) (rest : List ℕ)
            → record_read old (file ++ rest) true ≡ returns (some (length file, r, rest)))
  unfolding record_write
  record_read-record_write bytes short room enough = (
    layout kind has_footer uuid bytes,
    rw
        (
          payload_bytes-made kind has_footer uuid bytes,
          fwrite-all (room 0) (u16_bytes word) (omega (arith, enough 0, length-u16_bytes word)),
          take-all (room 0) (u16_bytes word) (omega (arith, enough 0, length-u16_bytes word)),
          fwrite-all (room 1) size (omega (arith, enough 1, size_two)),
          take-all (room 1) size (omega (arith, enough 1, size_two)),
          fwrite-all (room 2) bytes (omega (arith, enough 2)),
          take-all (room 2) bytes (omega (arith, enough 2)),
          fwrite-all (room 3) (footer has_footer uuid) (omega (arith, enough 3, footer_four)),
          take-all (room 3) (footer has_footer uuid) (omega (arith, enough 3, footer_four)),
        )
        (ap (λ n. returns (n, layout kind has_footer uuid bytes))
          (omega (arith, length-layout bytes, length-u16_bytes word, size_two))),
    λ old rest. read_back old rest bytes short,
  )
    where
      size : List ℕ
      size = u16_bytes (swap16 (length bytes))

      size_two : length size ≡ 2
      size_two = length-u16_bytes (swap16 (length bytes))

      footer_four : length (footer has_footer uuid) ≤ 4
      footer_four = length-footer has_footer uuid
