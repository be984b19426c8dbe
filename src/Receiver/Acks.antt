-- ===== src/Receiver/Acks.antt =====
-- src/receiver.c: create_ack and send_ack together. An acknowledgement is a header of twelve bytes.
use lingi1341_projet.Prelude.{
  ℕ, ◌+◌, ◌%◌, ◌≤◌, ◌<◌, ◌≡◌, refl, true, some, List, [], ◌∷◌, ◌++◌, arith, ltb, if◌then◌else◌,
  le→not_ltb, replicate, All, returns,
}
use native.Mathlib.Nat.{mod-eq_of_lt}
use lingi1341_projet.Packet.Fields.{
  ptype_ack, pkt_new, free_payload, pkt_del, pkt_set_type, pkt_set_window, pkt_set_seqnum,
  pkt_set_timestamp, drop_payload, copy_payload, pkt_set_payload, null, Pkt,
}
use lingi1341_projet.Packet.Wire.{wire_header, pkt_encode-wire}
use lingi1341_projet.Receiver.State.{window_add, create_ack, send_ack, Receiver, System}
use lingi1341_projet.Bytes.{IsU32, u32_bytes}
use lingi1341_projet.Receiver.Sequence.{acknowledge}
use lingi1341_projet.Receiver.Handler.{reply, Status}

-- The acknowledgement as a packet.
abbrev pub ack : (window seqnum kind timestamp : ℕ) → Pkt
ack window seqnum kind timestamp = record {
  window = window;
  truncated = 0;
  kind = kind;
  seqnum = seqnum;
  length = 0;
  timestamp = timestamp;
  crc1 = 0;
  payload = null;
  crc2 = 0;
}

-- The window that window_add leaves.
abbrev pub wider : ℕ → ℕ
wider w = if ltb w 31 then w + 1 else w

window_add-wider :
    (st : Receiver) → window_add st ≡ record st { window_size = wider st.window_size }
unfolding window_add
window_add-wider st = ground arith

create_ack-ack :
    (window seqnum kind : ℕ)
    → window ≤ 31
    → seqnum < 256
    → kind ≤ 3
    → create_ack true window seqnum kind ≡ returns (some (ack window seqnum kind 0))
unfolding create_ack pkt_new pkt_set_type pkt_set_seqnum pkt_set_payload drop_payload copy_payload
    pkt_set_window
create_ack-ack window seqnum kind hw hs hk = rw (
  le→not_ltb 3 kind hk,
  mod-eq_of_lt hs,
  mod-eq_of_lt (let e : window < 256 = omega arith in e),
  le→not_ltb 31 window hw,
)

module _ (crc32 : List ℕ → ℕ) where
  send_ack-ack :
      (window seqnum kind timestamp : ℕ) (st : Receiver)
      → send_ack crc32 (some (ack window seqnum kind 0)) timestamp st
        ≡ returns (record st {
          sent = st.sent ++ (wire_header crc32 (ack window seqnum kind timestamp) ∷ []);
        })
  unfolding send_ack pkt_set_timestamp u32_bytes
  send_ack-ack window seqnum kind timestamp st = rw (
      pkt_encode-wire crc32 (ack window seqnum kind timestamp) (replicate 12 0) [] 12 refl
        (omega arith) (omega arith))

  -- create_ack, send_ack and pkt_del, when malloc succeeds: the acknowledgement is sent, and nothing
  -- else changes.
  pub reply-sent :
      (sys : System) (seqnum kind : ℕ) (status : Status) (st : Receiver)
      → sys.ack_memory 0 ≡ true
      → st.window_size ≤ 31
      → seqnum < 256
      → kind ≤ 3
      → reply crc32 sys seqnum kind status st
        ≡ returns (
          status,
          record st {
            sent =
                st.sent
                ++ (wire_header crc32 (ack st.window_size seqnum kind st.last_timestamp) ∷ []);
          },
        )
  unfolding reply pkt_del free_payload
  reply-sent sys seqnum kind status st memory hw hs hk = rw (
    memory,
    create_ack-ack st.window_size seqnum kind hw hs hk,
    send_ack-ack st.window_size seqnum kind st.last_timestamp st,
  )

  -- The state after a packet was written and acknowledged: the window has grown by one, if it could.
  abbrev pub acknowledged : Receiver → Receiver
  acknowledged st = record st {
    window_size = wider st.window_size;
    sent =
        st.sent
        ++ (wire_header crc32
              (ack (wider st.window_size) st.waited_seqnum ptype_ack st.last_timestamp)
            ∷ []);
  }

  pub acknowledge-sent :
      (sys : System) (k : ℕ) (st : Receiver)
      → sys.ack_memory k ≡ true
      → st.window_size ≤ 31
      → st.waited_seqnum < 256
      → acknowledge crc32 sys k st ≡ returns (acknowledged st)
  unfolding acknowledge pkt_del free_payload
  acknowledge-sent sys k st memory hw hs = rw (
    window_add-wider st,
    memory,
    create_ack-ack (wider st.window_size) st.waited_seqnum ptype_ack (ground arith) hs
        (omega arith),
    send_ack-ack (wider st.window_size) st.waited_seqnum ptype_ack st.last_timestamp
        (record st { window_size = wider st.window_size }),
  )

-- The datagram is a header with some kind and a window that is not 0; an acknowledgement is of the first `count` packets, at
-- most `n`.
pub record IsAck (crc32 : List ℕ → ℕ) (n : ℕ) (bytes : List ℕ) : Type 0 where
  pub window : ℕ
  pub count : ℕ
  pub kind : ℕ
  pub timestamp : ℕ
  pub wide : 1 ≤ window
  pub narrow : window ≤ 31
  pub low : 0 < kind
  pub high : kind ≤ 3
  pub clock : IsU32 timestamp
  pub written : kind ≡ ptype_ack → count ≤ n
  pub contents : bytes ≡ wire_header crc32 (ack window (count % 256) kind timestamp)

pub All-IsAck :
    (crc32 : List ℕ → ℕ) (n m : ℕ) (log : List (List ℕ))
    → n ≤ m
    → All (IsAck crc32 n) log
    → All (IsAck crc32 m) log
All-IsAck crc32 n m [] above h = tt
All-IsAck crc32 n m (x ∷ xs) above (a, h) = (
  record {
    window = a.window;
    count = a.count;
    kind = a.kind;
    timestamp = a.timestamp;
    wide = a.wide;
    narrow = a.narrow;
    low = a.low;
    high = a.high;
    clock = a.clock;
    written = λ is_ack. let before = a.written is_ack in omega arith;
    contents = a.contents;
  },
  All-IsAck crc32 n m xs above h,
)
