-- ===== src/Coding.antt =====
-- src/coding.h, namespace coding: little-endian integers. A `put` is the list of the bytes that it
-- writes from its pointer on; a `get` reads from the list that starts at its pointer.
pub mod RoundTrip
use keystone_db.Prelude.{ℕ, ◌+◌, ◌*◌, ◌/◌, ◌%◌, ◌^◌, ◌<◌, List, [], ◌∷◌, get_or, bit_or}
use keystone_db.Prelude.Keys.{Bytes}

abbrev pub IsU32 : ℕ → Type 0
IsU32 v = v < 2 ^ 32

abbrev pub IsU64 : ℕ → Type 0
IsU64 v = v < 2 ^ 64

-- `static_cast<uint8_t>(v >> k)`
abbrev pub byte_of : ℕ → ℕ → ℕ
byte_of v k = v / 2 ^ k % 256

abbrev pub byte_at : Bytes → ℕ → ℕ
byte_at buf i = get_or buf i 0

unfoldable pub put_u32_le : ℕ → Bytes
put_u32_le v = byte_of v 0 ∷ byte_of v 8 ∷ byte_of v 16 ∷ byte_of v 24 ∷ []

-- `static_cast<uint32_t>(buf[i]) << k`
abbrev pub shl32 : ℕ → ℕ → ℕ
shl32 x k = x * 2 ^ k % 2 ^ 32

abbrev pub shl64 : ℕ → ℕ → ℕ
shl64 x k = x * 2 ^ k % 2 ^ 64

unfoldable pub get_u32_le : Bytes → ℕ
get_u32_le buf =
    bit_or (bit_or (bit_or (byte_at buf 0) (shl32 (byte_at buf 1) 8)) (shl32 (byte_at buf 2) 16))
      (shl32 (byte_at buf 3) 24)

unfoldable pub put_u64_le : ℕ → Bytes
put_u64_le v =
    byte_of v 0
    ∷ byte_of v 8
    ∷ byte_of v 16
    ∷ byte_of v 24
    ∷ byte_of v 32
    ∷ byte_of v 40
    ∷ byte_of v 48
    ∷ byte_of v 56
    ∷ []

unfoldable pub get_u64_le : Bytes → ℕ
get_u64_le buf =
    let low =
      bit_or (bit_or (bit_or (byte_at buf 0) (shl64 (byte_at buf 1) 8)) (shl64 (byte_at buf 2) 16))
        (shl64 (byte_at buf 3) 24) in
    bit_or
      (bit_or (bit_or (bit_or low (shl64 (byte_at buf 4) 32)) (shl64 (byte_at buf 5) 40))
        (shl64 (byte_at buf 6) 48))
      (shl64 (byte_at buf 7) 56)
