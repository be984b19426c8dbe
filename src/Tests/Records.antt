-- ===== src/Tests/Records.antt =====
-- src/inginious/decoder_encore_structures/record.c: the theorem on records at a concrete input.
use lingi1341_projet.Prelude.{ℕ, ◌≡◌, true, some, List, [], ◌∷◌, ◌++◌, arith, length, returns}
use lingi1341_projet.Record.{record_write, record_read, FileRecord}
use lingi1341_projet.Record.RoundTrip.{made, record_read-record_write}

record_read-record_write_example :
    let r = made 23 1 1234 (97 ∷ 98 ∷ 99 ∷ []) in
    (file : List ℕ) × (record_write r (λ k. 65536) ≡ returns (length file, file))
    × ((old : FileRecord) (rest : List ℕ)
        → record_read old (file ++ rest) true ≡ returns (some (length file, r, rest)))
record_read-record_write_example =
    record_read-record_write 23 1 1234 (omega arith) (omega arith) (omega arith)
      (λ absent. absurd (omega arith)) (97 ∷ 98 ∷ 99 ∷ []) (omega arith) (λ k. 65536)
      (λ k. omega arith)
