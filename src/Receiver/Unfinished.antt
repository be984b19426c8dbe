-- ===== src/Receiver/Unfinished.antt =====
-- src/receiver.c: as long as no packet is empty, the end of the transfer is not reported.
use lingi1341_projet.Receiver.State.{
  window_divide, create_ack, send_ack, check_in_window, Receiver, System,
}
use lingi1341_projet.Receiver.Sequence.{
  written_bytes, is_eof, acknowledge, write_loop, write_in_sequence, Progress, waits, written,
  write_error, eof,
}
use lingi1341_projet.Receiver.Handler.{
  stock, reply, after_write, out_of_window, accept, dispatch, Status, okay, failed, finished,
}
use lingi1341_projet.Packet.Fields.{
  ptype_data, ptype_ack, ptype_nack, max_payload_size, pkt_del, StatusCode, Pkt,
}
use lingi1341_projet.Prelude.{
  ℕ, suc, ◌+◌, ◌%◌, ◌≤◌, ◌≡◌, refl, ◌≢◌, Bool, true, false, ◌&&◌, ◌||◌, not, Option, none, some,
  List, [], ◌∷◌, ◌++◌, arith, ltb, ◌==◌, if◌then◌else◌, ne→not_==, take, All, ◌>>=◌, Always,
  Always-returns, Always-undefined, Always-bind, Always-if, returns,
}
use lingi1341_projet.Receiver.Insertion.{insert-All}
use lingi1341_projet.Queue.Order.{insert, offset}
use lingi1341_projet.Packet.Encode.{is_ok}
use lingi1341_projet.Packet.Wire.{Carries}
use lingi1341_projet.Receiver.Delivery.{Holds}

module _ (crc32 : List ℕ → ℕ) (sys : System) where
  abbrev GoesOn : Progress × Receiver → Type 0
  GoesOn (progress, _) = progress ≢ eof

  abbrev pub Unfinished : Status × Receiver → Type 0
  Unfinished (status, _) = status ≢ finished

  abbrev pub AreFull : List Pkt → Type 0
  AreFull xs = All (λ x. x.length ≢ 0) xs

  is_eof-full : (rest : List Pkt) (x : Pkt) (n : ℕ) → x.length ≢ 0 → is_eof rest x n ≡ false
  unfolding is_eof
  is_eof-full rest x n full = rw (ne→not_== x.length 0 full) (ground arith)

  -- What write() answers.
  answered :
      (k : ℕ) (x : Pkt) (xs : List Pkt) (st st' : Receiver) (r : Option ℕ)
      → x.length ≢ 0
      → ((next : Receiver) → Always GoesOn (write_loop crc32 sys (suc k) xs next))
      → (output : ℕ → Receiver)
      → Always GoesOn (elim r [
        | none ↦ returns (write_error, st)
        | some n ↦
            if is_eof xs x (output n).waited_seqnum
            then pkt_del (some x) >>= (λ _. returns (eof, output n))
            else acknowledge crc32 sys k (output n)
              >>= (λ st''. pkt_del (some x) >>= (λ _. write_loop crc32 sys (suc k) xs st''))
      ])
  answered k x xs st st' none full rest output = Always-returns GoesOn _ (λ e. cc)
  answered k x xs st st' (some n) full rest output =
      rw (is_eof-full xs x (output n).waited_seqnum full) (
        Always-bind (λ _. Unit {0}) GoesOn (acknowledge crc32 sys k (output n)) _ (λ _ _. tt)
          (λ next _.
            Always-bind (λ _. Unit {0}) GoesOn (pkt_del (some x)) _ (λ _ _. tt) (λ _ _. rest next)))

  write_loop-GoesOn :
      (k : ℕ) (xs : List Pkt) (st : Receiver)
      → AreFull xs
      → Always GoesOn (write_loop crc32 sys k xs st)
  unfolding write_loop
  write_loop-GoesOn k [] st full = Always-returns GoesOn _ (λ e. cc)
  write_loop-GoesOn k (x ∷ xs) st (full, rest) =
      Always-if GoesOn (x.seqnum == st.waited_seqnum) _ _
        (Always-bind (λ _. Unit {0}) GoesOn (written_bytes x) _ (λ _ _. tt)
          (λ bytes _.
            answered k x xs (record st { list = x ∷ xs }) st (sys.write k bytes) full
              (λ next. write_loop-GoesOn (suc k) xs next rest)
              (λ n. record st {
                waited_seqnum = (st.waited_seqnum + 1) % 256;
                list = xs;
                output = st.output ++ take n bytes;
              })))
        (Always-returns GoesOn _ (λ e. cc))

  write_in_sequence-GoesOn :
      (xs : List Pkt) (st : Receiver)
      → AreFull xs
      → Always GoesOn (write_in_sequence crc32 sys (record st { list = xs }))
  unfolding write_in_sequence
  write_in_sequence-GoesOn [] st full = Always-undefined GoesOn
  write_in_sequence-GoesOn (x ∷ xs) st full =
      Always-if GoesOn (ltb st.waited_seqnum x.seqnum) _ _ (Always-returns GoesOn _ (λ e. cc))
        (write_loop-GoesOn 0 (x ∷ xs) (record st { list = x ∷ xs }) full)

  reply-Unfinished :
      (seqnum kind : ℕ) (st : Receiver) → Always Unfinished (reply crc32 sys seqnum kind okay st)
  unfolding reply
  reply-Unfinished seqnum kind st =
      Always-bind (λ _. Unit {0}) Unfinished
        (create_ack (sys.ack_memory 0) st.window_size seqnum kind) _ (λ _ _. tt) (λ made _. go made)
    where
      go :
          (made : Option Pkt)
          → Always Unfinished (elim made [
            | none ↦ returns (failed, st)
            | some ack ↦
                send_ack crc32 (some ack) st.last_timestamp st
                >>= (λ st'. pkt_del (some ack) >>= (λ _. returns (okay, st')))
          ])
      go none = Always-returns Unfinished _ (λ e. cc)
      go (some ack) =
          Always-bind (λ _. Unit {0}) Unfinished (send_ack crc32 (some ack) st.last_timestamp st) _
            (λ _ _. tt)
            (λ next _.
              Always-bind (λ _. Unit {0}) Unfinished (pkt_del (some ack)) _ (λ _ _. tt)
                (λ _ _. Always-returns Unfinished _ (λ e. cc)))

  after_write-Unfinished :
      (result : Progress × Receiver)
      → GoesOn result
      → Always Unfinished (after_write crc32 sys result)
  unfolding after_write
  after_write-Unfinished (eof, st) on = absurd (on refl)
  after_write-Unfinished (write_error, st) on = Always-returns Unfinished _ (λ e. cc)
  after_write-Unfinished (written, st) on = Always-returns Unfinished _ (λ e. cc)
  after_write-Unfinished (waits, st) on = reply-Unfinished st.waited_seqnum ptype_ack st

  stock-full :
      (memory : Bool) (pkt : Pkt) (st : Receiver)
      → pkt.length ≢ 0
      → AreFull st.list
      → (xs : List Pkt) × (stock memory pkt st ≡ record st { list = xs }) × AreFull xs
  stock-full true pkt st full rest =
      (insert pkt st.list, refl, insert-All (λ x. x.length ≢ 0) pkt st.list full rest)
  stock-full false pkt st full rest = (st.list, refl, rest)

  -- Where neither the packet nor one of the list is empty.
  pub accept-Unfinished :
      (pkt : Pkt) (st : Receiver)
      → pkt.length ≢ 0
      → AreFull st.list
      → Always Unfinished (accept crc32 sys pkt st)
  unfolding accept out_of_window
  accept-Unfinished pkt st full rest =
      let (xs, e, all) = stock-full sys.node_memory pkt st full rest in
      Always-if Unfinished (pkt.truncated == 1) _ _
        (Always-bind Unfinished Unfinished
          (reply crc32 sys pkt.seqnum ptype_nack okay (window_divide st)) _
          (reply-Unfinished pkt.seqnum ptype_nack (window_divide st))
          (λ result on.
            Always-bind (λ _. Unit {0}) Unfinished (pkt_del (some pkt)) _ (λ _ _. tt)
              (λ _ _. Always-returns Unfinished result on)))
        (Always-if Unfinished (check_in_window st pkt.seqnum) _ _
          (rw e (
            Always-bind GoesOn Unfinished (write_in_sequence crc32 sys (record st { list = xs })) _
              (write_in_sequence-GoesOn xs st all) after_write-Unfinished))
          (rw (no_repetition pkt st full) (
            Always-bind (λ _. Unit {0}) Unfinished (pkt_del (some pkt)) _ (λ _ _. tt)
              (λ _ _.
                Always-if Unfinished (sys.ack_memory 0) _ _
                  (reply-Unfinished st.waited_seqnum ptype_ack st) (Always-undefined Unfinished)))))
    where
      no_repetition :
          (p : Pkt) (s : Receiver)
          → p.length ≢ 0
          → ((p.seqnum + 1 == s.waited_seqnum) && (p.length == 0) && (p.kind == ptype_data)) ≡ false
      no_repetition p s h = rw (ne→not_== p.length 0 h) (ground arith)

  pub dispatch-Unfinished :
      (status : StatusCode) (pkt : Pkt) (st : Receiver)
      → pkt.length ≢ 0
      → AreFull st.list
      → Always Unfinished (dispatch crc32 sys (status, pkt) st)
  unfolding dispatch
  dispatch-Unfinished status pkt st full rest =
      Always-if Unfinished
        (not (is_ok status) || ltb max_payload_size pkt.length || not (pkt.kind == ptype_data)) _ _
        (Always-bind (λ _. Unit {0}) Unfinished (pkt_del (some pkt)) _ (λ _ _. tt)
          (λ _ _. Always-returns Unfinished _ (λ e. cc)))
        (accept-Unfinished pkt (record st { last_timestamp = pkt.timestamp }) full rest)

-- The packets of the list are not empty where no packet made is.
pub Holds-full :
    (top : ℕ) (stream : ℕ → List ℕ) (n : ℕ) (xs : List Pkt)
    → ((last : ℕ) → stream last ≡ [] → top ≤ last)
    → All (Holds top stream n) xs
    → All (λ x. x.length ≢ 0) xs
Holds-full top stream n [] early h = tt
Holds-full top stream n (x ∷ xs) early ((below, carries, _), h) =
    (not_empty (stream _) refl carries, Holds-full top stream n xs early h)
  where
    not_empty :
        (bytes : List ℕ)
        → stream (n + offset (n % 256) x.seqnum) ≡ bytes
        → Carries x bytes
        → x.length ≢ 0
    not_empty [] e c =
        λ same. let late = early (n + offset (n % 256) x.seqnum) e in omega (arith, late, below)
    not_empty (b ∷ bytes) e (size, _) = λ same. omega (arith, size, same)
