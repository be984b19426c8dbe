-- ===== src/Draft/Agreement.antt =====
-- src/inginious/format_segment/packet_implement.c against src/packet_implement.c.
use mathlib.Core.Path.{subst}
use lingi1341_projet.Prelude.{
  ℕ, ◌+◌, ◌%◌, ◌≡◌, refl, ◌≢◌, Bool, true, false, ◌||◌, Option, none, some, List, [], ◌∷◌, arith,
  ltb, ◌==◌, if◌then◌else◌, ◌>>=◌, returns-injective, Yields, Outcome, returns, undefined,
}
use lingi1341_projet.Draft.Decode as Draft
use lingi1341_projet.Packet.Decode as Packet
use lingi1341_projet.Bytes.{bytes_u32, swap16, swap32, read_at}
use lingi1341_projet.Packet.Fields.{
  ptype_data, max_payload_size, header_bytes, StatusCode, pkt_ok, e_type, e_length, e_crc, e_nomem,
  e_unconsistent, null, Pkt,
}
use lingi1341_projet.Draft.Fields.{pkt_del, pkt_set_tr}

-- The same status; with success the same packet, and where the type is refused the structure is freed.
abbrev pub Agree : StatusCode × Pkt → StatusCode × Option Pkt → Type 0
Agree (status, pkt) (status', held) =
    (status' ≡ status)
    × (status ≡ pkt_ok → held ≡ some pkt)
    × (status ≡ e_type → held ≡ none)
    × (status ≢ e_type → held ≢ none)

-- Both calls are undefined, or both return and agree.
abbrev pub Follows : Outcome (StatusCode × Pkt) → Outcome (StatusCode × Option Pkt) → Type 0
Follows (returns result) (returns result') = Agree result result'
Follows undefined undefined = Unit {0}
Follows (returns _) undefined = ⊥
Follows undefined (returns _) = ⊥

Follows-bind :
    {A : Type 0} (m : Outcome A) (f : A → Outcome (StatusCode × Pkt))
    (g : A → Outcome (StatusCode × Option Pkt))
    → ((a : A) → Follows (f a) (g a))
    → Follows (m >>= f) (m >>= g)
Follows-bind (returns a) f g h = h a
Follows-bind undefined f g h = tt

Follows-if :
    (b : Bool) (x y : Outcome (StatusCode × Pkt)) (x' y' : Outcome (StatusCode × Option Pkt))
    → Follows x x'
    → Follows y y'
    → Follows (if b then x else y) (if b then x' else y')
Follows-if true x y x' y' h k = h
Follows-if false x y x' y' h k = k

-- What is kept in both, and is no success.
refused :
    (status : StatusCode) (pkt pkt' : Pkt)
    → status ≢ pkt_ok
    → status ≢ e_type
    → Follows (returns (status, pkt)) (returns (status, some pkt'))
refused status pkt pkt' bad typed =
    (refl, (λ e. absurd (bad e)), (λ e. absurd (typed e)), λ _ e. cc)

accepted : (pkt : Pkt) → Follows (returns (pkt_ok, pkt)) (returns (pkt_ok, some pkt))
accepted pkt = (refl, (λ e. refl), (λ e. cc), λ _ e. cc)

pkt_del-fresh : (pkt : Pkt) → pkt.payload ≡ null → pkt_del (some pkt) ≡ returns tt
unfolding pkt_del
pkt_del-fresh pkt fresh = ground (arith, fresh)

module _ (crc32 : List ℕ → ℕ) where
  decode_payload-Follows :
      (bytes : List ℕ) (memory : Bool) (pkt : Pkt)
      → Follows
          (Packet.decode_payload crc32 bytes memory pkt)
          (Draft.decode_payload crc32 bytes memory pkt)
  unfolding Packet.decode_payload Draft.decode_payload
  decode_payload-Follows bytes memory pkt =
      Follows-if memory _ _ _ _
        (Follows-bind (read_at bytes 12 pkt.length) _ _ (λ payload.
          Follows-bind (read_at bytes (12 + pkt.length) 4) _ _ (λ crc.
            Follows-if (crc32 payload == swap32 (bytes_u32 crc)) _ _ _ _ (accepted _)
              (refused e_crc _ _ (λ e. cc) (λ e. cc)))))
        (refused e_nomem _ _ (λ e. cc) (λ e. cc))

  decode_crc1-Follows :
      (bytes : List ℕ) (memory : Bool) (flag crc_load : ℕ) (pkt : Pkt)
      → Follows
          (Packet.decode_crc1 crc32 bytes memory flag crc_load pkt)
          (Draft.decode_crc1 crc32 bytes memory flag crc_load pkt)
  unfolding Packet.decode_crc1 Draft.decode_crc1
  decode_crc1-Follows bytes memory flag crc_load pkt =
      let network = record pkt { length = swap16 pkt.length } in
      let host = record network { truncated = flag; length = swap16 network.length } in
      Follows-if (crc32 (header_bytes network) % 4294967296 == crc_load) _ _ _ _
        (Follows-if (host.length == 0) _ _ _ _ (accepted host)
          (decode_payload-Follows bytes memory host))
        (refused e_crc _ _ (λ e. cc) (λ e. cc))

  decode_header-Follows :
      (bytes : List ℕ) (memory : Bool) (pkt : Pkt)
      → Follows
          (Packet.decode_header crc32 bytes memory pkt)
          (Draft.decode_header crc32 bytes memory pkt)
  unfolding Packet.decode_header Draft.decode_header lingi1341_projet.Packet.Fields.pkt_set_tr
      lingi1341_projet.Draft.Fields.pkt_set_tr
  decode_header-Follows bytes memory pkt = Follows-bind (read_at bytes 4 4) _ _ (λ time.
      Follows-bind (read_at bytes 8 4) _ _ (λ crc.
        decode_crc1-Follows bytes memory pkt.truncated (swap32 (bytes_u32 crc)) (record pkt {
          timestamp = bytes_u32 time;
          crc1 = swap32 (bytes_u32 crc);
          truncated = 0;
        })))

  decode_length-Follows :
      (bytes : List ℕ) (memory : Bool) (pkt : Pkt)
      → Follows
          (Packet.decode_length crc32 bytes memory pkt)
          (Draft.decode_length crc32 bytes memory pkt)
  unfolding Packet.decode_length Draft.decode_length
  decode_length-Follows bytes memory pkt =
      Follows-if (ltb max_payload_size (swap16 pkt.length)) _ _ _ _
        (refused e_length _ _ (λ e. cc) (λ e. cc)) (decode_header-Follows bytes memory _)

  decode_type-Follows :
      (bytes : List ℕ) (memory : Bool) (pkt : Pkt)
      → pkt.payload ≡ null
      → Follows
          (Packet.decode_type crc32 bytes memory pkt)
          (Draft.decode_type crc32 bytes memory pkt)
  unfolding Packet.decode_type Draft.decode_type
  decode_type-Follows bytes memory pkt fresh =
      Follows-if (ltb pkt.kind 1 || ltb 3 pkt.kind) _ _ _ _ freed_both (
        Follows-if (pkt.truncated == 0) _ _ _ _ (decode_length-Follows bytes memory pkt) (
          Follows-if (pkt.kind == ptype_data) _ _ _ _ (decode_length-Follows bytes memory pkt)
            freed_both))
    where
      freed_both :
          Follows (returns (e_type, pkt)) (pkt_del (some pkt) >>= (λ _. returns (e_type, none)))
      freed_both =
          rw (pkt_del-fresh pkt fresh) (refl, (λ e. cc), (λ e. refl), λ other. absurd (other refl))

  -- The earlier pkt_decode and that of the program, on whatever buffer, into a structure without
  -- payload, whether malloc succeeds or not: both read outside the buffer, or both return the same
  -- status; with success the structures are the same, and the earlier version has freed the
  -- structure of the caller exactly where the answer is E_TYPE.
  pub pkt_decode-Follows :
      (buffer : Option (List ℕ)) (len : ℕ) (memory : Bool) (pkt : Pkt)
      → pkt.payload ≡ null
      → Follows
          (Packet.pkt_decode crc32 buffer len memory pkt)
          (Draft.pkt_decode crc32 buffer len memory pkt)
  unfolding Packet.pkt_decode Draft.pkt_decode Packet.store_front
  pkt_decode-Follows none len memory pkt fresh = refused e_unconsistent pkt pkt (λ e. cc) (λ e. cc)
  pkt_decode-Follows (some bytes) len memory pkt fresh =
      Follows-bind (read_at bytes 0 4) _ _
        (λ front. decode_type-Follows bytes memory (Packet.store_front front pkt) (stored front))
    where
      stored : (front : List ℕ) → (Packet.store_front front pkt).payload ≡ null
      stored [] = fresh
      stored (a ∷ []) = fresh
      stored (a ∷ b ∷ []) = fresh
      stored (a ∷ b ∷ c ∷ []) = fresh
      stored (a ∷ b ∷ c ∷ d ∷ _) = fresh

-- Where the program's version returns.
pub Follows-returns :
    (call : Outcome (StatusCode × Pkt)) (call' : Outcome (StatusCode × Option Pkt))
    (result : StatusCode × Pkt)
    → Follows call call'
    → call ≡ returns result
    → Yields (Agree result) call'
Follows-returns (returns r) (returns r') result h e =
    (r', refl, subst (λ x. Agree x r') (returns-injective e) h)
Follows-returns (returns r) undefined result h e = absurd h
Follows-returns undefined call' result h e = cc
