-- ===== src/Draft/Fields.antt =====
-- src/inginious/format_segment/packet_implement.c: the destructor and the setters, which check nothing
-- and store what the field has room for. The structure and the reading accessors are those of
-- src/packet_implement.c.
use lingi1341_projet.Prelude.{
  ℕ, ◌%◌, Bool, Option, none, some, List, ltb, ◌==◌, if◌then◌else◌, length, ◌>>=◌, Outcome, returns,
  undefined,
}
use lingi1341_projet.Bytes.{read_at}
use lingi1341_projet.Packet.Fields.{
  zero_pkt, free_payload, is_null, StatusCode, pkt_ok, e_length, e_nomem, Payload, null, freed,
  block, Pkt,
}

unfoldable pub pkt_new : (memory : Bool) → Option Pkt
pkt_new memory = if memory then some zero_pkt else none

-- `none` is NULL. Afterwards the packet must not be used.
unfoldable pub pkt_del : Option Pkt → Outcome (Unit {0})
pkt_del none = returns tt
pkt_del (some pkt) = if is_null pkt.payload then returns tt else free_payload pkt.payload

unfoldable pub pkt_get_payload : Pkt → Payload
pkt_get_payload pkt = if pkt.length == 0 then null else pkt.payload

unfoldable pub pkt_set_type : Pkt → ℕ → StatusCode × Pkt
pkt_set_type pkt kind = (pkt_ok, record pkt { kind = kind % 4 })

unfoldable pub pkt_set_tr : Pkt → ℕ → StatusCode × Pkt
pkt_set_tr pkt tr = (pkt_ok, record pkt { truncated = tr % 2 })

unfoldable pub pkt_set_window : Pkt → ℕ → StatusCode × Pkt
pkt_set_window pkt window = (pkt_ok, record pkt { window = window % 32 })

unfoldable pub pkt_set_seqnum : Pkt → ℕ → StatusCode × Pkt
pkt_set_seqnum pkt seqnum = (pkt_ok, record pkt { seqnum = seqnum })

unfoldable pub pkt_set_length : Pkt → ℕ → StatusCode × Pkt
pkt_set_length pkt length = (pkt_ok, record pkt { length = length })

unfoldable pub pkt_set_timestamp : Pkt → ℕ → StatusCode × Pkt
pkt_set_timestamp pkt timestamp = (pkt_ok, record pkt { timestamp = timestamp })

unfoldable pub pkt_set_crc1 : Pkt → ℕ → StatusCode × Pkt
pkt_set_crc1 pkt crc1 = (pkt_ok, record pkt { crc1 = crc1 })

unfoldable pub pkt_set_crc2 : Pkt → ℕ → StatusCode × Pkt
pkt_set_crc2 pkt crc2 = (pkt_ok, record pkt { crc2 = crc2 })

-- The old payload is freed, and `payload` still holds its address, when `length` is not 0.
unfoldable pub drop_payload : Pkt → Outcome Pkt
drop_payload pkt =
    if pkt.length == 0
    then returns pkt
    else free_payload pkt.payload >>= (λ _. returns (record pkt { length = 0; payload = freed }))

-- The new block, when malloc succeeds, is a copy of the first `length` bytes at `bytes`; NULL is not
-- expected there.
unfoldable pub copy_payload : Pkt → Option (List ℕ) → ℕ → Bool → Outcome (StatusCode × Pkt)
copy_payload pkt bytes length memory =
    if memory
    then elim bytes [
      | none ↦ undefined
      | some source ↦
          read_at source 0 length
          >>= (λ copy. returns (pkt_ok, record pkt { payload = block copy; length = length }))
    ]
    else returns (e_nomem, pkt)

unfoldable pub pkt_set_payload :
    Pkt → Option (List ℕ) → ℕ → (memory : Bool) → Outcome (StatusCode × Pkt)
pkt_set_payload pkt bytes length memory =
    if ltb 512 length
    then returns (e_length, pkt)
    else drop_payload pkt >>= (λ pkt'. copy_payload pkt' bytes length memory)
