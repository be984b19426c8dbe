-- ===== src/Sender/Input.antt =====
-- src/sender.c: read_to_list and check_ack on consecutive packets of a stream.
use mathlib.Core.Path.{subst}
use lingi1341_projet.Prelude.{
  ℕ, ◌+◌, ◌≤◌, ◌<◌, ◌≡◌, refl, sym, ◌≢◌, ◌⊎◌, inl, inr, Bool, true, Option, none, some, List, [],
  ◌∷◌, ◌++◌, arith, leb, Bool-cases, lt→not_leb, not_leb→lt, length, All, length-append, ◌>>=◌,
  Yields, Outcome, returns,
}
use lingi1341_projet.Bytes.{IsByte}
use lingi1341_projet.Packet.Fields.{pkt_new, pkt_set_payload, pkt_ok, Pkt}
use lingi1341_projet.Packet.Format.{header_list, Header}
use lingi1341_projet.Sender.State.{data_pkt, send_packet, add_packet, read_to_list, Sender, System}
use lingi1341_projet.Sender.Supply.{All-IsSent, stamped, IsData-stamped, send_packet-wire, IsData}
use lingi1341_projet.Sender.Acks.{Checked, finished}
use lingi1341_projet.Sender.Filling.{filled, Stock-append, filled-IsData, pkt_set_payload-filled}
use lingi1341_projet.Sender.Invariant.{IsSent-posted, Supplies}

-- malloc has memory, and read() gives at most 512 bytes, the next payload of the stream; recv() gives
-- a buffer of at least 528 bytes, with any contents.
pub record IsWorking (stream : ℕ → List ℕ) (i : ℕ) (sys : System) : Type 0 where
  pub packets : sys.pkt_memory ≡ true
  pub payloads : sys.payload_memory ≡ true
  pub nodes : sys.node_memory ≡ true
  pub input :
      (bytes : List ℕ)
      → sys.read ≡ some bytes
      → (bytes ≡ stream i) × (length bytes ≤ 512) × All IsByte bytes
  pub buffers :
      (bytes : List ℕ) (readed : ℕ)
      → sys.recv ≡ some (bytes, readed)
      → (h : Header) × (rest : List ℕ) × (bytes ≡ header_list h ++ rest)
        × All IsByte (header_list h)
        × All IsByte rest
        × (516 ≤ length rest)

module _ (stream : ℕ → List ℕ) (crc32 : List ℕ → ℕ) (least : ℕ) where
  -- The state supplies the stream from a packet between `low` and `high` on, up to packet `top` or the
  -- next one.
  abbrev pub Goes : (low high top : ℕ) → Sender → Type 0
  Goes low high top st =
      (m : ℕ) × (low ≤ m)
      × (m ≤ high)
      × (top ≤ m + length st.list)
      × (m + length st.list ≤ top + 1)
      × Supplies stream crc32 least m st

  -- The end is not reported.
  abbrev pub Takes : (low high top : ℕ) → Checked × Sender → Type 0
  Takes low high top (checked, st) = (checked ≢ finished) × Goes low high top st

module _ (stream : ℕ → List ℕ) (crc32 : List ℕ → ℕ) (least : ℕ) (sys : System) where
  -- There is one packet more than `k`, or the end of the input is reached.
  abbrev pub Reads : (n k : ℕ) → Sender → Type 0
  Reads n k st =
      Supplies stream crc32 least n st
      × ((length st.list ≡ k + 1) ⊎ ((st.seqnum_eof ≡ 1) × (length st.list ≡ k)))

  add_packet-Reads :
      (n : ℕ) (bytes : List ℕ) (st : Sender)
      → sys.node_memory ≡ true
      → bytes ≡ stream (n + length st.list)
      → length bytes ≤ 512
      → All IsByte bytes
      → length st.list ≤ 30
      → st.seqnum_eof ≡ 0
      → Supplies stream crc32 least n st
      → Yields
          (Reads n (length st.list))
          (add_packet crc32 sys (length bytes) pkt_ok (filled st.seqnum bytes) st)
  unfolding add_packet
  add_packet-Reads n [] st node e fits contents room unread d = (
    _,
    refl,
    (
      record {
        stocked = d.stocked;
        few = d.few;
        window = d.window;
        wide = d.wide;
        ready = (
          d.ready.0,
          inr (
            refl,
            sym e,
            (
              _,
              refl,
              filled-IsData stream (n + length st.list) st.seqnum [] d.ready.0 e fits contents,
            ),
          ),
        );
        sent = d.sent;
      },
      inr (refl, refl),
    ),
  )
  add_packet-Reads n (x ∷ xs) st node e fits contents room unread d =
      rw (send_packet-wire crc32 sys stream (n + length st.list) packet st here, node)
        (
          _,
          refl,
          (
            record {
              stocked =
                  Stock-append stream n (n + length st.list) st.list (stamped sys packet) d.stocked
                    refl (IsData-stamped stream sys (n + length st.list) packet here)
                    (subst (λ l. 0 < length l) e (omega arith));
              few = omega (arith, longer);
              window = d.window;
              wide = d.wide;
              ready = (omega (arith, d.ready.0, longer), inl unread);
              sent =
                  IsSent-posted stream crc32 sys (n + length st.list) _ packet st here
                    (omega (arith, longer))
                    (All-IsSent stream crc32 (n + length st.list) _ st.sent (omega (arith, longer))
                      d.sent);
            },
            inl longer,
          ),
        )
    where
      packet : Pkt
      packet = filled st.seqnum (x ∷ xs)

      longer : length (st.list ++ (stamped sys packet ∷ [])) ≡ length st.list + 1
      longer = length-append st.list (stamped sys packet ∷ [])

      here : IsData stream (n + length st.list) packet
      here = filled-IsData stream (n + length st.list) st.seqnum (x ∷ xs) d.ready.0 e fits contents

  Reads-Goes :
      (n k : ℕ) (outcome : Outcome Sender)
      → Yields (Reads n k) outcome
      → Yields (Goes stream crc32 least n n (n + k)) outcome
  Reads-Goes n k outcome (st, called, (d, inl more)) =
      (st, called, (n, omega arith, omega arith, omega (arith, more), omega (arith, more), d))
  Reads-Goes n k outcome (st, called, (d, inr (over, same))) =
      (st, called, (n, omega arith, omega arith, omega (arith, same), omega (arith, same), d))

  Goes-same :
      (n : ℕ) (st : Sender)
      → Supplies stream crc32 least n st
      → Goes stream crc32 least n n (n + length st.list) st
  Goes-same n st d = (n, omega arith, omega arith, omega arith, omega arith, d)

  -- What read() gave, with the packet's and the payload's memory.
  answered :
      (n : ℕ) (st : Sender) (r : Option (List ℕ)) (packet payload : Bool)
      → packet ≡ true
      → payload ≡ true
      → sys.node_memory ≡ true
      → ((bytes : List ℕ)
          → r ≡ some bytes
          → (bytes ≡ stream (n + length st.list)) × (length bytes ≤ 512) × All IsByte bytes)
      → length st.list ≤ 30
      → st.seqnum_eof ≡ 0
      → Supplies stream crc32 least n st
      → Yields (Goes stream crc32 least n n (n + length st.list)) (elim r [
        | none ↦ returns st
        | some bytes ↦ elim (pkt_new packet) [
          | none ↦ returns st
          | some new ↦
              pkt_set_payload (data_pkt st.seqnum new) (some bytes) (length bytes) payload
              >>= (λ (status, pkt). add_packet crc32 sys (length bytes) status pkt st)
        ]
      ])
  unfolding pkt_new
  answered n st none packet payload have_packet have_payload node input room unread d =
      (_, refl, Goes-same n st d)
  answered n st (some bytes) packet payload have_packet have_payload node input room unread d =
      let (next, fits, contents) = input bytes refl in
      rw
        (
          have_packet,
          have_payload,
          pkt_set_payload-filled st.seqnum bytes (omega (arith, d.ready.0)) fits,
        )
        (Reads-Goes n (length st.list) _
          (add_packet-Reads n bytes st node next fits contents room unread d))

  -- read_to_list of a state that supplies the stream, with a window of at least `least`, before
  -- the end of the input and when the system works: it returns, and the state still supplies the
  -- stream from the same packet on, with the same bound of the window, at most one packet more in
  -- the list and only packets of the stream sent.
  pub read_to_list-Supplies :
      (n : ℕ) (st : Sender)
      → IsWorking stream (n + length st.list) sys
      → st.seqnum_eof ≡ 0
      → Supplies stream crc32 least n st
      → Yields (Goes stream crc32 least n n (n + length st.list)) (read_to_list crc32 sys st)
  unfolding read_to_list
  read_to_list-Supplies n st works unread d =
      elim (Bool-cases (leb st.window_size (length st.list))) [
        | inl full ↦ rw full (_, refl, Goes-same n st d)
        | inr space ↦
            let below = not_leb→lt st.window_size (length st.list) space in
            rw space (
              answered n st sys.read sys.pkt_memory sys.payload_memory works.packets works.payloads
                works.nodes works.input (omega (arith, d.window)) unread d)
      ]

  -- read_to_list of a state that supplies the stream, with room in the window, when the system works and
  -- read() succeeds: there is one packet more, or the end of the input is reached.
  pub read_to_list-Reads :
      (n : ℕ) (bytes : List ℕ) (st : Sender)
      → IsWorking stream (n + length st.list) sys
      → sys.read ≡ some bytes
      → length st.list < st.window_size
      → st.seqnum_eof ≡ 0
      → Supplies stream crc32 least n st
      → Yields (Reads n (length st.list)) (read_to_list crc32 sys st)
  unfolding read_to_list pkt_new add_packet lingi1341_projet.Sender.State.send_packet
  read_to_list-Reads n bytes st works given space unread d =
      let (next, fits, contents) = works.input bytes given in
      rw
        (
          lt→not_leb st.window_size (length st.list) space,
          given,
          works.packets,
          works.payloads,
          pkt_set_payload-filled st.seqnum bytes (omega (arith, d.ready.0)) fits,
        )
        (add_packet-Reads n bytes st works.nodes next fits contents (omega (arith, d.window)) unread
          d)
