-- ===== src/Correction/Fields.antt =====
-- src/inginious/format_segment/correction.c: the accessors and setters. `struct pkt` is that of
-- src/packet_implement.c, and `memory` says whether malloc succeeds.
use lingi1341_projet.Prelude.{
  ℕ, Bool, ◌&&◌, ◌||◌, not, Option, none, some, List, ltb, leb, ◌==◌, if◌then◌else◌, length, ◌>>=◌,
  Outcome, returns, undefined,
}
use lingi1341_projet.Bytes.{read_at}
use lingi1341_projet.Packet.Fields.{
  ptype_data, ptype_ack, ptype_nack, zero_pkt, free_payload, is_null, StatusCode, pkt_ok, e_type,
  e_tr, e_length, e_window, e_nomem, e_unconsistent, Payload, null, block, Pkt,
}

unfoldable pub pkt_new : (memory : Bool) → Option Pkt
pkt_new memory = if memory then some zero_pkt else none

-- `none` is NULL, of which the code reads the payload.
unfoldable pub pkt_del : Option Pkt → Outcome (Unit {0})
pkt_del none = undefined
pkt_del (some pkt) = if is_null pkt.payload then returns tt else free_payload pkt.payload

-- 0 when the field is not there.
unfoldable pub pkt_get_crc2 : Pkt → ℕ
pkt_get_crc2 pkt = if not (pkt.truncated == 0) || pkt.length == 0 then 0 else pkt.crc2

unfoldable pub pkt_get_payload : Pkt → Payload
pkt_get_payload pkt = if pkt.length == 0 then null else pkt.payload

unfoldable pub is_type : ℕ → Bool
is_type kind = kind == ptype_data || kind == ptype_ack || kind == ptype_nack

unfoldable pub pkt_set_type : Pkt → ℕ → StatusCode × Pkt
pkt_set_type pkt kind = if is_type kind then (pkt_ok, record pkt { kind = kind }) else (e_type, pkt)

unfoldable pub pkt_set_tr : Pkt → ℕ → StatusCode × Pkt
pkt_set_tr pkt tr =
    if not (tr == 0) && not (tr == 1) then (e_tr, pkt) else (pkt_ok, record pkt { truncated = tr })

unfoldable pub pkt_set_window : Pkt → ℕ → StatusCode × Pkt
pkt_set_window pkt window =
    if leb 32 window
    then (e_window, record pkt { window = 0 })
    else (pkt_ok, record pkt { window = window })

-- The parameter is a uint8_t, so that the test for more than 255 is never true.
unfoldable pub pkt_set_seqnum : Pkt → ℕ → StatusCode × Pkt
pkt_set_seqnum pkt seqnum =
    if is_type pkt.kind then (pkt_ok, record pkt { seqnum = seqnum }) else (e_unconsistent, pkt)

unfoldable pub pkt_set_length : Pkt → ℕ → StatusCode × Pkt
pkt_set_length pkt length =
    if ltb 512 length then (e_length, pkt) else (pkt_ok, record pkt { length = length })

unfoldable pub pkt_set_timestamp : Pkt → ℕ → StatusCode × Pkt
pkt_set_timestamp pkt timestamp = (pkt_ok, record pkt { timestamp = timestamp })

unfoldable pub pkt_set_crc1 : Pkt → ℕ → StatusCode × Pkt
pkt_set_crc1 pkt crc1 = (pkt_ok, record pkt { crc1 = crc1 })

unfoldable pub pkt_set_crc2 : Pkt → ℕ → StatusCode × Pkt
pkt_set_crc2 pkt crc2 =
    if not (is_null pkt.payload) && (pkt.truncated == 0)
    then (pkt_ok, record pkt { crc2 = crc2 })
    else (e_unconsistent, pkt)

-- The old payload is freed, and the length set to 0.
unfoldable pub drop_payload : Pkt → Outcome Pkt
drop_payload pkt =
    if is_null pkt.payload
    then returns pkt
    else free_payload pkt.payload
      >>= (λ _. returns (pkt_set_length (record pkt { payload = null }) 0).1)

-- The new block is a copy of the first `length` bytes at `bytes`.
unfoldable pub copy_payload : Pkt → Option (List ℕ) → ℕ → Bool → Outcome (StatusCode × Pkt)
copy_payload pkt none length memory = returns (
    if length == 0 then pkt_set_length (record pkt { payload = null }) 0 else (e_unconsistent, pkt))
copy_payload pkt (some bytes) length memory =
    if length == 0
    then returns (e_unconsistent, pkt)
    else if leb length 512
    then (if memory
        then read_at bytes 0 length
          >>= (λ copy. returns (pkt_set_length (record pkt { payload = block copy }) length))
        else returns (e_nomem, record pkt { payload = null }))
    else returns (e_unconsistent, pkt)

unfoldable pub pkt_set_payload :
    Pkt → Option (List ℕ) → ℕ → (memory : Bool) → Outcome (StatusCode × Pkt)
pkt_set_payload pkt bytes length memory =
    drop_payload pkt >>= (λ pkt'. copy_payload pkt' bytes length memory)
