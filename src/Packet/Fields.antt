-- ===== src/Packet/Fields.antt =====
-- src/packet_implement.h and src/packet_implement.c: the packet structure, its allocation and its
-- accessors.
use lingi1341_projet.Prelude.{
  ℕ, ◌+◌, ◌*◌, Outcome, returns, undefined, ◌>>=◌, Bool, Option, none, some, List, ◌∷◌, [], ◌++◌,
  ltb, ◌==◌, if◌then◌else◌,
}
use lingi1341_projet.Bytes.{u16_bytes, u32_bytes, read_at}

abbrev pub ptype_data : ℕ
ptype_data = 1

abbrev pub ptype_ack : ℕ
ptype_ack = 2

abbrev pub ptype_nack : ℕ
ptype_nack = 3

abbrev pub max_payload_size : ℕ
max_payload_size = 512

abbrev pub max_window_size : ℕ
max_window_size = 31

pub data StatusCode : Type 0 where
  pkt_ok e_type e_tr e_length e_crc e_window e_seqnum e_nomem e_noheader e_unconsistent : StatusCode

-- What the pointer `payload` holds: NULL, the address of a freed block, or a live block.
pub data Payload : Type 0 where
  null freed : Payload
  block : List ℕ → Payload

-- `struct pkt`. The bit-fields are numbers below 2^5, 2 and 4.
pub record Pkt : Type 0 where
  pub window : ℕ
  pub truncated : ℕ
  pub kind : ℕ
  pub seqnum : ℕ
  pub length : ℕ
  pub timestamp : ℕ
  pub crc1 : ℕ
  pub payload : Payload
  pub crc2 : ℕ

abbrev pub zero_pkt : Pkt
zero_pkt = record {
  window = 0;
  truncated = 0;
  kind = 0;
  seqnum = 0;
  length = 0;
  timestamp = 0;
  crc1 = 0;
  payload = null;
  crc2 = 0;
}

-- `memory` says whether calloc succeeds; `none` is NULL.
unfoldable pub pkt_new : (memory : Bool) → Option Pkt
pkt_new memory = if memory then some zero_pkt else none

-- free(p)
unfoldable pub free_payload : Payload → Outcome (Unit {0})
free_payload null = returns tt
free_payload freed = undefined
free_payload (block _) = returns tt

abbrev pub is_null : Payload → Bool
is_null null = Bool.true
is_null freed = Bool.false
is_null (block _) = Bool.false

-- `none` is NULL. Afterwards the packet must not be used.
unfoldable pub pkt_del : Option Pkt → Outcome (Unit {0})
pkt_del none = returns tt
pkt_del (some pkt) =
    if ltb 0 pkt.length
    then free_payload pkt.payload
    else if is_null pkt.payload
    then returns tt
    else free_payload pkt.payload

-- The accessors. The callers' models read the fields of the same names directly.
unfoldable pub pkt_get_type : Pkt → ℕ
pkt_get_type pkt = pkt.kind

unfoldable pub pkt_get_tr : Pkt → ℕ
pkt_get_tr pkt = pkt.truncated

unfoldable pub pkt_get_window : Pkt → ℕ
pkt_get_window pkt = pkt.window

unfoldable pub pkt_get_seqnum : Pkt → ℕ
pkt_get_seqnum pkt = pkt.seqnum

unfoldable pub pkt_get_length : Pkt → ℕ
pkt_get_length pkt = pkt.length

unfoldable pub pkt_get_timestamp : Pkt → ℕ
pkt_get_timestamp pkt = pkt.timestamp

unfoldable pub pkt_get_crc1 : Pkt → ℕ
pkt_get_crc1 pkt = pkt.crc1

-- This one answers NULL for an empty payload.
unfoldable pub pkt_get_payload : Pkt → Payload
pkt_get_payload pkt = if pkt.length == 0 then null else pkt.payload

unfoldable pub pkt_get_crc2 : Pkt → ℕ
pkt_get_crc2 pkt = pkt.crc2

unfoldable pub pkt_set_type : Pkt → ℕ → StatusCode × Pkt
pkt_set_type pkt kind = if ltb 3 kind then (e_type, pkt) else (pkt_ok, record pkt { kind = kind })

unfoldable pub pkt_set_tr : Pkt → ℕ → StatusCode × Pkt
pkt_set_tr pkt tr = if ltb 1 tr then (e_tr, pkt) else (pkt_ok, record pkt { truncated = tr })

unfoldable pub pkt_set_window : Pkt → ℕ → StatusCode × Pkt
pkt_set_window pkt window =
    if ltb max_window_size window then (e_window, pkt) else (pkt_ok, record pkt { window = window })

unfoldable pub pkt_set_seqnum : Pkt → ℕ → StatusCode × Pkt
pkt_set_seqnum pkt seqnum = (pkt_ok, record pkt { seqnum = seqnum })

unfoldable pub pkt_set_length : Pkt → ℕ → StatusCode × Pkt
pkt_set_length pkt length =
    if ltb max_payload_size length
    then (e_length, pkt)
    else (pkt_ok, record pkt { length = length })

unfoldable pub pkt_set_timestamp : Pkt → ℕ → StatusCode × Pkt
pkt_set_timestamp pkt timestamp = (pkt_ok, record pkt { timestamp = timestamp })

unfoldable pub pkt_set_crc1 : Pkt → ℕ → StatusCode × Pkt
pkt_set_crc1 pkt crc1 = (pkt_ok, record pkt { crc1 = crc1 })

unfoldable pub pkt_set_crc2 : Pkt → ℕ → StatusCode × Pkt
pkt_set_crc2 pkt crc2 = (pkt_ok, record pkt { crc2 = crc2 })

-- The old payload is freed, and `payload` still holds its address, when `length` is positive.
unfoldable pub drop_payload : Pkt → Outcome Pkt
drop_payload pkt =
    if ltb 0 pkt.length
    then free_payload pkt.payload >>= (λ _. returns (record pkt { length = 0; payload = freed }))
    else returns pkt

-- The new block, when malloc succeeds, is a copy of the first `length` bytes at `bytes`.
unfoldable pub copy_payload : Pkt → Option (List ℕ) → ℕ → Bool → Outcome (StatusCode × Pkt)
copy_payload pkt none length memory = returns (pkt_ok, record pkt { length = 0; payload = null })
copy_payload pkt (some bytes) length memory =
    if memory
    then read_at bytes 0 length
      >>= (λ copy. returns (pkt_ok, record pkt { payload = block copy; length = length }))
    else returns (e_nomem, pkt)

unfoldable pub pkt_set_payload :
    Pkt → Option (List ℕ) → ℕ → (memory : Bool) → Outcome (StatusCode × Pkt)
pkt_set_payload pkt bytes length memory =
    if ltb max_payload_size length
    then returns (e_length, pkt)
    else drop_payload pkt >>= (λ pkt'. copy_payload pkt' bytes length memory)

-- The first two and the first eight bytes of the structure in memory. gcc puts the first bit-field
-- in the low bits.
unfoldable pub first_bytes : Pkt → List ℕ
first_bytes pkt = (pkt.window + 32 * pkt.truncated + 64 * pkt.kind) ∷ pkt.seqnum ∷ []

unfoldable pub header_bytes : Pkt → List ℕ
header_bytes pkt = first_bytes pkt ++ (u16_bytes pkt.length ++ u32_bytes pkt.timestamp)
