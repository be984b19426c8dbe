-- ===== src/Record.antt =====
-- src/inginious/decoder_encore_structures/record.h and record.c: records in a file. Where the file is
-- too short for a fread() the value read is indeterminate; the model says `undefined`.
use lingi1341_projet.Prelude.{
  ℕ, ◌+◌, ◌*◌, ◌/◌, ◌%◌, Bool, true, false, Option, none, some, List, [], ◌∷◌, ◌++◌, ltb, leb, ◌==◌,
  if◌then◌else◌, length, take, drop, ◌>>=◌, Outcome, returns, undefined,
}
use lingi1341_projet.Bytes.{u16_bytes, u32_bytes, bytes_u32, swap16, read_at}
use lingi1341_projet.Packet.Fields.{free_payload, is_null, Payload, null, block}
pub mod RoundTrip

pub record FileRecord : Type 0 where
  pub kind : ℕ
  pub has_footer : ℕ
  pub length : ℕ
  pub payload : Payload
  pub uuid : ℕ

unfoldable pub record_init : FileRecord → FileRecord
record_init r = record r { kind = 0; has_footer = 0; length = 0; payload = null }

unfoldable pub record_free : FileRecord → Outcome (Unit {0})
record_free r = if is_null r.payload then returns tt else free_payload r.payload

unfoldable pub record_get_type : FileRecord → ℕ
record_get_type r = r.kind

unfoldable pub record_get_length : FileRecord → ℕ
record_get_length r = r.length

unfoldable pub record_has_footer : FileRecord → ℕ
record_has_footer r = r.has_footer

unfoldable pub record_get_uuid : FileRecord → ℕ
record_get_uuid r = r.uuid

-- A bit-field of 15 bits.
unfoldable pub record_set_type : FileRecord → (kind : ℕ) → FileRecord
record_set_type r kind = record r { kind = kind % 32768 }

-- Whether it succeeded (false is -1). The length is converted to uint16_t; the old payload is freed.
unfoldable pub record_set_payload :
    FileRecord → (buf : List ℕ) (n : ℕ) (memory : Bool) → Outcome (Bool × FileRecord)
record_set_payload r buf n memory =
    if memory
    then read_at buf 0 n >>= (λ copy.
      record_free r
      >>= (λ _. returns (true, record r { length = n % 65536; payload = block copy })))
    else returns (false, r)

-- The bytes copied, of which the result is the number.
unfoldable pub record_get_payload : FileRecord → (n : ℕ) → Outcome (List ℕ)
record_get_payload r n =
    let value = if ltb r.length n then r.length else n in
    elim r.payload [
      | block bytes ↦ read_at bytes 0 value
      | _ ↦ if value == 0 then returns [] else undefined
    ]

unfoldable pub record_delete_footer : FileRecord → FileRecord
record_delete_footer r = record r { has_footer = 0; uuid = 0 }

unfoldable pub record_set_uuid : FileRecord → (uuid : ℕ) → FileRecord
record_set_uuid r uuid = record r { has_footer = 1; uuid = uuid }

-- The bytes of the payload, as fwrite() reads them.
unfoldable pub payload_bytes : FileRecord → Outcome (List ℕ)
payload_bytes r =
    if ltb 0 r.length
    then elim r.payload [ block bytes ↦ read_at bytes 0 r.length | _ ↦ undefined ]
    else returns []

-- The count that fwrite() of one item gives, times its size, where the file takes `room` bytes of it.
unfoldable pub fwrite : (room : ℕ) → List ℕ → ℕ
fwrite room item = if leb (length item) room then length item else 0

-- The sum that is the result, and the bytes that get into the file, where it takes `room k` bytes in
-- the k-th call of fwrite(). gcc puts the type in the low bits.
unfoldable pub record_write : FileRecord → (room : ℕ → ℕ) → Outcome (ℕ × List ℕ)
record_write r room = payload_bytes r >>= (λ payload.
    let front = u16_bytes (r.kind + 32768 * r.has_footer) in
    let size = u16_bytes (swap16 r.length) in
    let footer = if r.has_footer == 0 then [] else u32_bytes r.uuid in
    returns (
      fwrite (room 0) front
          + fwrite (room 1) size
          + fwrite (room 2) payload
          + fwrite (room 3) footer,
      take (room 0) front
          ++ (take (room 1) size ++ (take (room 2) payload ++ take (room 3) footer)),
    ))

-- What is read and what is left of the file.
unfoldable pub fread : (n : ℕ) → List ℕ → Outcome (List ℕ × List ℕ)
fread n file = if leb n (length file) then returns (take n file, drop n file) else undefined

abbrev pub bytes_u16 : List ℕ → ℕ
bytes_u16 (a ∷ b ∷ _) = a + 256 * b
bytes_u16 _ = 0

-- The number of bytes read, the record, and what is left of the file.
abbrev pub Reading : Type 0
Reading = ℕ × FileRecord × List ℕ

unfoldable pub read_footer : (sum : ℕ) → FileRecord → List ℕ → Outcome Reading
read_footer sum r file =
    if r.has_footer == 0
    then returns (sum, record r { uuid = 0 }, file)
    else fread 4 file
      >>= (λ (bytes, left). returns (sum + 4, record r { uuid = bytes_u32 bytes }, left))

-- `none` is -1, when malloc has no memory.
unfoldable pub record_read : FileRecord → List ℕ → (memory : Bool) → Outcome (Option Reading)
record_read r file memory = fread 2 file >>= (λ (front, file'). fread 2 file' >>= (λ (size, file'').
    let word = bytes_u16 front in
    let n = swap16 (bytes_u16 size) in
    let r' = record r { kind = word % 32768; has_footer = word / 32768 % 2; length = n } in
    if n == 0
    then read_footer 4 (record r' { payload = null }) file'' >>= (λ result. returns (some result))
    else if memory
    then fread n file'' >>= (λ (bytes, left).
      read_footer (4 + n) (record r' { payload = block bytes }) left
      >>= (λ result. returns (some result)))
    else returns none))
