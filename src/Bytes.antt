-- ===== src/Bytes.antt =====
-- Memory as bytes on a little-endian host: the representation of integers, the byte-order
-- functions of <arpa/inet.h>, and memcpy out of and into an object, undefined out of range.
pub mod Memory
use lingi1341_projet.Prelude.{
  ℕ, zero, suc, ◌+◌, ◌*◌, ◌/◌, ◌%◌, ◌<◌, List, [], ◌∷◌, ◌++◌, arith, leb, if◌then◌else◌, length,
  take, drop, replicate, All, Outcome, returns, undefined,
}

abbrev pub IsByte : ℕ → Type 0
IsByte b = b < 256

abbrev pub IsU16 : ℕ → Type 0
IsU16 n = n < 65536

abbrev pub IsU32 : ℕ → Type 0
IsU32 n = n < 4294967296

-- The bytes of a uint16_t and of a uint32_t in memory, lowest first.
unfoldable pub u16_bytes : ℕ → List ℕ
u16_bytes n = n % 256 ∷ n / 256 % 256 ∷ []

unfoldable pub u32_bytes : ℕ → List ℕ
u32_bytes n = n % 256 ∷ n / 256 % 256 ∷ n / 65536 % 256 ∷ n / 16777216 % 256 ∷ []

unfoldable pub bytes_u32 : List ℕ → ℕ
bytes_u32 (a ∷ b ∷ c ∷ d ∷ _) = a + 256 * b + 65536 * c + 16777216 * d
bytes_u32 _ = 0

-- htons and ntohs swap two bytes, htonl and ntohl reverse four.
unfoldable pub swap16 : ℕ → ℕ
swap16 n = n % 256 * 256 + n / 256 % 256

unfoldable pub swap32 : ℕ → ℕ
swap32 n = n % 256 * 16777216 + n / 256 % 256 * 65536 + n / 65536 % 256 * 256 + n / 16777216 % 256

-- memcpy of `n` bytes from offset `at` of an object.
unfoldable pub read_at : List ℕ → ℕ → ℕ → Outcome (List ℕ)
read_at object at n =
    if leb (at + n) (length object) then returns (take n (drop at object)) else undefined

-- memcpy of `bytes` to offset `at` of an object.
unfoldable pub write_at : List ℕ → ℕ → List ℕ → Outcome (List ℕ)
write_at object at bytes =
    if leb (at + length bytes) (length object)
    then returns (take at object ++ (bytes ++ drop (at + length bytes) object))
    else undefined

pub zeros-IsByte : (n : ℕ) → All IsByte (replicate n 0)
zeros-IsByte zero = tt
zeros-IsByte (suc n) = (omega arith, zeros-IsByte n)
