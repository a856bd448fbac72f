-- ===== src/Crc32/Bounds.antt =====
-- Every checksum is a 32-bit number.
use keystone_db.Prelude.{ℕ, zero, suc, ◌/◌, arith, All, [], ◌∷◌, bit_and, bit_xor}
use keystone_db.Prelude.Bits.{bit_xor-lt, bit_and-le}
use keystone_db.Prelude.Keys.{Bytes, IsByte}
use keystone_db.Coding.{IsU32}
use keystone_db.Crc32.{table_round, table_rounds, entries, crc_step, crc_loop, crc32}

-- A mask of eight ones leaves a byte.
bit_and-low_lt : (a : ℕ) → IsU32 (bit_and a 0xff)
bit_and-low_lt a = omega (arith, bit_and-le a a 0xff (omega arith))

table_round-IsU32 : (c : ℕ) → IsU32 c → IsU32 (table_round c)
unfolding table_round
table_round-IsU32 c h = ground (arith, bit_xor-lt 32 0xEDB88320 (c / 2))

table_rounds-IsU32 : (j c : ℕ) → IsU32 c → IsU32 (table_rounds j c)
unfolding table_rounds
table_rounds-IsU32 zero c h = h
table_rounds-IsU32 (suc j) c h = table_rounds-IsU32 j _ (table_round-IsU32 c h)

crc_step-IsU32 : (crc b : ℕ) → IsU32 crc → IsByte b → IsU32 (crc_step crc b)
unfolding crc_step
crc_step-IsU32 crc b h hb =
    bit_xor-lt 32 _ _ (unfold entries in table_rounds-IsU32 8 _ (bit_and-low_lt (bit_xor crc b)))
      (omega arith)

crc_loop-IsU32 :
    (crc : ℕ) (bytes : Bytes) → IsU32 crc → All IsByte bytes → IsU32 (crc_loop crc bytes)
unfolding crc_loop
crc_loop-IsU32 crc [] h p = h
crc_loop-IsU32 crc (b ∷ bytes) h (hb, p) =
    crc_loop-IsU32 (crc_step crc b) bytes (crc_step-IsU32 crc b h hb) p

pub crc32-IsU32 : (bytes : Bytes) → All IsByte bytes → IsU32 (crc32 bytes)
unfolding crc32
crc32-IsU32 bytes p =
    bit_xor-lt 32 _ _ (crc_loop-IsU32 0xffffffff bytes (omega arith) p) (omega arith)
