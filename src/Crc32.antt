-- ===== src/Crc32.antt =====
-- src/crc32.cpp: CRC-32 with the reflected polynomial 0xEDB88320, by a table of 256 entries.
pub mod Bounds
use keystone_db.Prelude.{
  ℕ, zero, suc, ◌/◌, ◌^◌, List, [], ◌∷◌, bit_and, bit_xor, ◌==◌, if◌then◌else◌,
}
use keystone_db.Prelude.Keys.{Bytes}

-- One round of the inner loop of `Table`.
unfoldable pub table_round : ℕ → ℕ
table_round c = if bit_and c 1 == 0 then c / 2 else bit_xor 0xEDB88320 (c / 2)

unfoldable pub table_rounds : ℕ → ℕ → ℕ
unfolding table_round
table_rounds zero c = c
table_rounds (suc j) c = table_rounds j (table_round c)

-- `kTable.entries[i]`
unfoldable pub entries : ℕ → ℕ
unfolding table_rounds
entries i = table_rounds 8 i

unfoldable pub crc_step : ℕ → ℕ → ℕ
unfolding entries
crc_step crc b = bit_xor (entries (bit_and (bit_xor crc b) 0xff)) (crc / 2 ^ 8)

unfoldable pub crc_loop : ℕ → Bytes → ℕ
unfolding crc_step
crc_loop crc [] = crc
crc_loop crc (b ∷ bytes) = crc_loop (crc_step crc b) bytes

unfoldable pub crc32 : Bytes → ℕ
unfolding crc_loop
crc32 bytes = bit_xor (crc_loop 0xffffffff bytes) 0xffffffff
