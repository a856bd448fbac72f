-- ===== src/Bloom.antt =====
-- src/bloom.cpp and include/keystone/bloom.h: the Bloom filter of an SSTable.
pub mod Contains
pub mod Serial
mod Tests
use keystone_db.Prelude.{
  ℕ, zero, suc, ◌+◌, ◌*◌, ◌/◌, ◌%◌, ◌^◌, min, max, List, [], ◌∷◌, ◌++◌, Bool, true, false, not,
  bit_and, bit_or, bit_xor, length, get_or, set, take, drop, replicate, ltb, ◌==◌, if◌then◌else◌,
}
use keystone_db.Prelude.Keys.{Bytes}
use keystone_db.Coding.{put_u32_le, get_u32_le, put_u64_le, get_u64_le}

pub record Bloom : Type 0 where
  pub bits : Bytes
  pub m_bits : ℕ
  pub k : ℕ

-- `lround(bits_per_key * 0.6931)` in ten-thousandths, rounded half up. The clamp to 30 hides the
-- ties, which lie above.
abbrev raw_k : ℕ → ℕ
raw_k bits_per_key = (bits_per_key * 6931 + 5000) / 10000

-- The number of bits for some keys, of `uint64_t` arithmetic.
unfoldable pub bits_for : ℕ → ℕ → ℕ
bits_for key_count bits_per_key =
    let raw = (if key_count == 0 then 1 else key_count) * bits_per_key % 2 ^ 64 in
    let m = (raw + 7) % 2 ^ 64 / 8 * 8 in if ltb m 8 then 8 else m

unfoldable pub new_bloom : ℕ → ℕ → Bloom
new_bloom key_count bits_per_key =
    let m = bits_for key_count bits_per_key in
    record { bits = replicate (m / 8) 0; m_bits = m; k = max 1 (min 30 (raw_k bits_per_key)) }

-- The loop of `hash`: FNV-1a on 64 bits.
unfoldable pub hash_loop : ℕ → Bytes → ℕ
hash_loop h [] = h
hash_loop h (b ∷ key) = hash_loop (bit_xor h b * 0x00000100000001B3 % 2 ^ 64) key

-- The two halves `h1` and `h2`.
unfoldable pub hash : Bytes → ℕ × ℕ
unfolding hash_loop
hash key = let h = hash_loop 0xcbf29ce484222325 key in (h % 2 ^ 32, h / 2 ^ 32 % 2 ^ 32)

-- The bit of round `i`.
abbrev pub position : ℕ × ℕ → ℕ → ℕ → ℕ
position h m_bits i = (h.0 + i * h.1 % 2 ^ 64) % 2 ^ 64 % m_bits

unfoldable pub set_bit : Bytes → ℕ → Bytes
set_bit bits idx = set bits (idx / 8) (bit_or (get_or bits (idx / 8) 0) (2 ^ (idx % 8) % 256))

unfoldable pub has_bit : Bytes → ℕ → Bool
has_bit bits idx = not (bit_and (get_or bits (idx / 8) 0) (2 ^ (idx % 8)) == 0)

-- The loop of `add`, with the rounds that are left and the round's number.
unfoldable pub add_loop : ℕ × ℕ → ℕ → ℕ → ℕ → Bytes → Bytes
unfolding set_bit
add_loop h m zero i bits = bits
add_loop h m (suc n) i bits = add_loop h m n (i + 1) (set_bit bits (position h m i))

unfoldable pub add : Bloom → Bytes → Bloom
unfolding add_loop hash
add b key = record b { bits = add_loop (hash key) b.m_bits b.k 0 b.bits }

-- The loop of `may_contain`.
unfoldable pub contains_loop : ℕ × ℕ → ℕ → ℕ → ℕ → Bytes → Bool
unfolding has_bit
contains_loop h m zero i bits = true
contains_loop h m (suc n) i bits =
    let rest = contains_loop h m n (i + 1) bits in
    if not (has_bit bits (position h m i)) then false else rest

unfoldable pub may_contain : Bloom → Bytes → Bool
unfolding contains_loop hash
may_contain b key = contains_loop (hash key) b.m_bits b.k 0 b.bits

unfoldable pub serialize : Bloom → Bytes
serialize b = put_u32_le (b.k % 2 ^ 32) ++ (put_u64_le b.m_bits ++ b.bits)

-- What `Bloom::load` returns, or the message that it throws.
pub data Loaded : Type 0 where
  loaded : Bloom → Loaded
  too_short : Loaded
  truncated : Loaded

unfoldable pub load : Bytes → Loaded
load bytes =
    let m_bits = get_u64_le (drop 4 bytes) in
    let byte_count = (m_bits + 7) % 2 ^ 64 / 8 in
    if ltb (length bytes) 12
    then too_short
    else if ltb (length bytes) (12 + byte_count)
    then truncated
    else loaded
        (record { bits = take byte_count (drop 12 bytes); m_bits = m_bits; k = get_u32_le bytes })

-- `SSTableWriter::finish` adds the keys of the table one by one.
unfoldable pub add_all : Bloom → List Bytes → Bloom
unfolding add
add_all b [] = b
add_all b (key ∷ keys) = add_all (add b key) keys
