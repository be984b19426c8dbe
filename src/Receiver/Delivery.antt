-- ===== src/Receiver/Delivery.antt =====
-- src/receiver.c: what the receiver has written is a prefix of the stream of the sender. `stream i`
-- is the payload of packet i, whose sequence number is i modulo 256.
use lingi1341_projet.Prelude.{
  ℕ, zero, suc, ◌+◌, ◌%◌, ◌≤◌, ◌<◌, ◌≡◌, ap, ◌⊎◌, true, none, some, List, [], ◌∷◌, ◌++◌, arith,
  suc-not_zero, length, All, returns,
}
use mathlib.Core.Path.{subst}
use lingi1341_projet.Packet.Fields.{pkt_del, pkt_get_payload, Pkt}
use lingi1341_projet.Packet.Wire.{Carries}
use lingi1341_projet.Queue.Order.{offset, InOrder}
use lingi1341_projet.Receiver.State.{Receiver, System}
use lingi1341_projet.Bytes.Memory.{read_at-whole}
use lingi1341_projet.Packet.Encode.{read_payload}
use lingi1341_projet.Receiver.Sequence.{written_bytes}
use lingi1341_projet.Queue.Sorting.{offset-next}
use lingi1341_projet.Receiver.Acks.{All-IsAck, IsAck}
use lingi1341_projet.Bytes.{IsU32}

module _ (stream : ℕ → List ℕ) where
  -- The first `n` payloads.
  unfoldable pub up_to : ℕ → List ℕ
  up_to zero = []
  up_to (suc n) = up_to n ++ stream n

module _ (top : ℕ) (stream : ℕ → List ℕ) where
  -- While packet `n` is waited for, `pkt` is the packet of the stream that its number stands for, one
  -- of the first `top`.
  abbrev pub Holds : ℕ → Pkt → Type 0
  Holds n pkt =
      (n + offset (n % 256) pkt.seqnum < top)
      × Carries pkt (stream (n + offset (n % 256) pkt.seqnum))
      × (pkt_del (some pkt) ≡ returns tt)

module _ (crc32 : List ℕ → ℕ) (top : ℕ) (stream : ℕ → List ℕ) where
  -- The first `n` payloads are written, of at most `top`; the list is in order and holds packets of
  -- the stream; the datagrams sent are acknowledgements of what was written when they were sent.
  pub record Delivers (n : ℕ) (st : Receiver) : Type 0 where
    pub waited : st.waited_seqnum ≡ n % 256
    pub low : 1 ≤ st.window_size
    pub high : st.window_size ≤ 31
    pub order : InOrder (n % 256) 0 st.list
    pub stocked : All (Holds top stream n) st.list
    pub output : st.output ≡ up_to stream n
    pub bound : n ≤ top
    pub clock : IsU32 st.last_timestamp
    pub acks : All (IsAck crc32 n) st.sent

-- The system works: malloc succeeds for acknowledgements, and write() writes all or
-- fails.
pub record IsSound (sys : System) : Type 0 where
  pub acks : (k : ℕ) → sys.ack_memory k ≡ true
  pub writes :
      (k : ℕ) (bytes : List ℕ)
      → (sys.write k bytes ≡ none) ⊎ (sys.write k bytes ≡ some (length bytes))

-- One number further all offsets are one less.
InOrder-next : (n k : ℕ) (xs : List Pkt) → InOrder (n % 256) (suc k) xs → InOrder (suc n % 256) k xs
InOrder-next n k [] s = tt
InOrder-next n k (x ∷ xs) s = (
  s.0,
  omega (arith, offset-next n x.seqnum s.0),
  ground (arith, offset-next n x.seqnum s.0),
  rw (offset-next n x.seqnum s.0 (omega arith)) (InOrder-next n (offset (n % 256) x.seqnum) xs s.3),
)

pub written_bytes-Carries :
    (pkt : Pkt) (bytes : List ℕ) → Carries pkt bytes → written_bytes pkt ≡ returns bytes
unfolding written_bytes pkt_get_payload read_payload
written_bytes-Carries pkt [] c = rw c
written_bytes-Carries pkt (x ∷ xs) (size, carried) =
    rw (size, suc-not_zero (length xs), carried) (read_at-whole (x ∷ xs))

module _ (crc32 : List ℕ → ℕ) (top : ℕ) (stream : ℕ → List ℕ) where
  Holds-next :
      (n k : ℕ) (xs : List Pkt)
      → InOrder (n % 256) (suc k) xs
      → All (Holds top stream n) xs
      → All (Holds top stream (suc n)) xs
  Holds-next n k [] s h = tt
  Holds-next n k (x ∷ xs) s ((below, carries, deletable), h) = (
    (omega (arith, same), subst (λ i. Carries x (stream i)) same carries, deletable),
    Holds-next n (offset (n % 256) x.seqnum) xs s.3 h,
  )
    where
      same : n + offset (n % 256) x.seqnum ≡ suc n + offset (suc n % 256) x.seqnum
      same = omega (arith, offset-next n x.seqnum s.0 (omega arith))

  -- The packet that is waited for is written.
  pub Delivers-next :
      (n : ℕ) (x : Pkt) (xs : List Pkt) (st : Receiver)
      → x.seqnum ≡ st.waited_seqnum
      → Delivers crc32 top stream n (record st { list = x ∷ xs })
      → Delivers crc32 top stream (suc n) (record st {
        waited_seqnum = (st.waited_seqnum + 1) % 256;
        list = xs;
        output = st.output ++ stream n;
      })
  unfolding up_to
  Delivers-next n x xs st here d = record {
    waited = omega (arith, d.waited);
    low = d.low;
    high = d.high;
    order = InOrder-next n 0 xs tail;
    stocked = Holds-next n 0 xs tail d.stocked.1;
    output = ap (λ o. o ++ stream n) d.output;
    bound = omega (arith, here, d.waited, d.stocked.0.0);
    clock = d.clock;
    acks = All-IsAck crc32 n (suc n) st.sent (omega arith) d.acks;
  }
    where
      tail : InOrder (n % 256) 1 xs
      tail = subst (λ o. InOrder (n % 256) (suc o) xs) (omega (arith, here, d.waited)) d.order.3
