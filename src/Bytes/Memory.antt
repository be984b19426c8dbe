-- ===== src/Bytes/Memory.antt =====
-- Laws of the memory representation: byte orders, and reads and writes in range.
use lingi1341_projet.Prelude.{
  ℕ, ◌+◌, ◌≤◌, ◌<◌, ◌≡◌, sym, ap, ◌∙◌, List, ◌++◌, append_assoc, arith, le→leb, lt→not_leb, length,
  take, drop, length-append, length-drop, take-length, take-append, drop-append, drop-drop, returns,
  undefined,
}
use lingi1341_projet.Bytes.{IsU16, IsU32, u32_bytes, bytes_u32, swap16, swap32, read_at, write_at}

pub swap16-swap16 : (n : ℕ) → IsU16 n → swap16 (swap16 n) ≡ n
unfolding swap16
swap16-swap16 n h = omega arith

pub swap16-IsU16 : (n : ℕ) → IsU16 (swap16 n)
unfolding swap16
swap16-IsU16 n = omega arith

pub swap32-swap32 : (n : ℕ) → IsU32 n → swap32 (swap32 n) ≡ n
unfolding swap32
swap32-swap32 n h = omega arith

pub swap32-IsU32 : (n : ℕ) → IsU32 (swap32 n)
unfolding swap32
swap32-IsU32 n = omega arith

pub bytes_u32-u32_bytes : (n : ℕ) → IsU32 n → bytes_u32 (u32_bytes n) ≡ n
unfolding bytes_u32 u32_bytes
bytes_u32-u32_bytes n h = omega arith

-- A read of the middle part.
pub read_at-append :
    (front part back : List ℕ)
    → read_at (front ++ (part ++ back)) (length front) (length part) ≡ returns part
unfolding read_at
read_at-append front part back =
    rw
      (le→leb (length front + length part) (length (front ++ (part ++ back)))
        (omega (arith, length-append front (part ++ back), length-append part back)))
      (rw (drop-append front (part ++ back), take-append part back))

pub read_at-in_range :
    (object : List ℕ) (at n : ℕ)
    → at + n ≤ length object
    → read_at object at n ≡ returns (take n (drop at object))
unfolding read_at
read_at-in_range object at n h = rw (le→leb (at + n) (length object) h)

-- Behind what was written so far, the next write replaces as many bytes of the old contents.
pub write_at-append :
    (old done bytes : List ℕ)
    → length done + length bytes ≤ length old
    → write_at (done ++ drop (length done) old) (length done) bytes
      ≡ returns ((done ++ bytes) ++ drop (length (done ++ bytes)) old)
unfolding write_at
write_at-append old done bytes h =
    rw
      (le→leb (length done + length bytes) (length (done ++ drop (length done) old))
        (omega (arith, length-append done (drop (length done) old), length-drop (length done) old)))
      (rw (take-append done (drop (length done) old), tail_eq, length-append done bytes)
        (ap returns (sym (append_assoc done bytes _))))
  where
    tail_eq :
        drop (length done + length bytes) (done ++ drop (length done) old)
        ≡ drop (length done + length bytes) old
    tail_eq =
        sym (drop-drop (length done) (length bytes) (done ++ drop (length done) old))
        ∙ ap (drop (length bytes)) (drop-append done (drop (length done) old))
        ∙ drop-drop (length done) (length bytes) old

pub read_at-whole : (object : List ℕ) → read_at object 0 (length object) ≡ returns object
unfolding read_at
read_at-whole object =
    rw (le→leb (0 + length object) (length object) (omega arith)) (ap returns (take-length object))

pub write_at-out_of_range :
    (object : List ℕ) (at : ℕ) (bytes : List ℕ)
    → length object < at + length bytes
    → write_at object at bytes ≡ undefined
unfolding write_at
write_at-out_of_range object at bytes h = rw (lt→not_leb (at + length bytes) (length object) h)

pub read_at-out_of_range :
    (object : List ℕ) (at n : ℕ) → length object < at + n → read_at object at n ≡ undefined
unfolding read_at
read_at-out_of_range object at n h = rw (lt→not_leb (at + n) (length object) h)
