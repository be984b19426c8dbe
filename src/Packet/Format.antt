-- ===== src/Packet/Format.antt =====
-- The packet format as a receiver of bytes reads it: the fields of the header, and the status that
-- the checks of src/packet_implement.c's pkt_decode give.
use lingi1341_projet.Prelude.{
  ℕ, ◌+◌, ◌*◌, ◌/◌, ◌%◌, ◌≤◌, ◌<◌, ◌≡◌, refl, ◌⊎◌, true, List, [], ◌∷◌, arith, ltb, ◌==◌,
  if◌then◌else◌, take, drop,
}
use lingi1341_projet.Bytes.{bytes_u32}
use lingi1341_projet.Packet.Fields.{
  ptype_data, max_payload_size, StatusCode, pkt_ok, e_type, e_length, e_crc, block, Pkt,
}
use lingi1341_projet.Packet.Encode.{is_ok}

-- MAX_READ_SIZE of sender.c and receiver.c: the size of the buffers that are decoded.
abbrev pub max_read_size : ℕ
max_read_size = 528

-- The number that four bytes stand for in network byte order.
abbrev pub be_number : List ℕ → ℕ
be_number (a ∷ b ∷ c ∷ d ∷ _) = a * 16777216 + b * 65536 + c * 256 + d
be_number _ = 0

-- The twelve bytes of a header.
pub record Header : Type 0 where
  pub b0 : ℕ
  pub b1 : ℕ
  pub b2 : ℕ
  pub b3 : ℕ
  pub b4 : ℕ
  pub b5 : ℕ
  pub b6 : ℕ
  pub b7 : ℕ
  pub b8 : ℕ
  pub b9 : ℕ
  pub b10 : ℕ
  pub b11 : ℕ

abbrev pub header_list : Header → List ℕ
header_list h =
    h.b0 ∷ h.b1 ∷ h.b2 ∷ h.b3 ∷ h.b4 ∷ h.b5 ∷ h.b6 ∷ h.b7 ∷ h.b8 ∷ h.b9 ∷ h.b10 ∷ h.b11 ∷ []

module _ (h : Header) where
  abbrev pub wire_kind : ℕ
  wire_kind = h.b0 / 64

  abbrev pub wire_tr : ℕ
  wire_tr = h.b0 / 32 % 2

  abbrev pub wire_size : ℕ
  wire_size = h.b2 * 256 + h.b3

  abbrev pub wire_crc1 : ℕ
  wire_crc1 = be_number (h.b8 ∷ h.b9 ∷ h.b10 ∷ h.b11 ∷ [])

  -- The bytes under the first checksum: TR counts as 0.
  abbrev pub covered : List ℕ
  covered = (h.b0 % 32 + 64 * wire_kind) ∷ h.b1 ∷ h.b2 ∷ h.b3 ∷ h.b4 ∷ h.b5 ∷ h.b6 ∷ h.b7 ∷ []

module _ (crc32 : List ℕ → ℕ) (h : Header) (rest : List ℕ) where
  abbrev pub payload_verdict : StatusCode
  payload_verdict =
      if wire_size h == 0
      then pkt_ok
      else if crc32 (take (wire_size h) rest) == be_number (take 4 (drop (wire_size h) rest))
      then pkt_ok
      else e_crc

  abbrev pub crc_verdict : StatusCode
  crc_verdict = if crc32 (covered h) == wire_crc1 h then payload_verdict else e_crc

  abbrev pub length_verdict : StatusCode
  length_verdict = if ltb max_payload_size (wire_size h) then e_length else crc_verdict

  abbrev pub verdict : StatusCode
  verdict =
      if wire_kind h == 0
      then e_type
      else if wire_tr h == 0
      then length_verdict
      else if wire_kind h == ptype_data
      then length_verdict
      else e_type

  -- The packet that an accepted buffer stands for; the structure had the fields of `pkt`.
  abbrev pub decoded : Pkt → Pkt
  decoded pkt = record pkt {
    window = h.b0 % 32;
    truncated = wire_tr h;
    kind = wire_kind h;
    seqnum = h.b1;
    length = wire_size h;
    timestamp = bytes_u32 (h.b4 ∷ h.b5 ∷ h.b6 ∷ h.b7 ∷ []);
    crc1 = wire_crc1 h;
    payload = if wire_size h == 0 then pkt.payload else block (take (wire_size h) rest);
    crc2 = if wire_size h == 0 then pkt.crc2 else be_number (take 4 (drop (wire_size h) rest));
  }

module _ (crc32 : List ℕ → ℕ) (h : Header) (rest : List ℕ) where
  -- Sufficient conditions for acceptance.
  pub verdict-ok :
      0 < wire_kind h
      → (wire_tr h ≡ 0) ⊎ (wire_kind h ≡ 1)
      → wire_size h ≤ 512
      → crc32 (covered h) ≡ wire_crc1 h
      → payload_verdict crc32 h rest ≡ pkt_ok
      → verdict crc32 h rest ≡ pkt_ok
  verdict-ok typed cut fits crc payload = ground arith

pub is_ok→ : (status : StatusCode) → is_ok status ≡ true → status ≡ pkt_ok
is_ok→ pkt_ok e = refl
is_ok→ _ e = cc
