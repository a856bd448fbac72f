-- ===== src/Coding/RoundTrip.antt =====
-- The integers of src/coding.h come back, and so do the bytes.
use keystone_db.Prelude.{
  ℕ, ◌+◌, ◌*◌, ◌/◌, ◌%◌, ◌^◌, ◌≡◌, refl, ◌∙◌, [], ◌∷◌, ◌++◌, arith, length, All,
}
use keystone_db.Prelude.Bits.{bit_or_disjoint}
use keystone_db.Prelude.Keys.{Bytes, IsByte}
use keystone_db.Coding.{IsU32, IsU64, put_u32_le, get_u32_le, put_u64_le, get_u64_le}

get_u32_le_sum :
    (a b c d : ℕ) (rest : Bytes)
    → IsByte a
    → IsByte b
    → IsByte c
    → IsByte d
    → get_u32_le (a ∷ b ∷ c ∷ d ∷ rest) ≡ a + b * 2 ^ 8 + c * 2 ^ 16 + d * 2 ^ 24
unfolding get_u32_le
get_u32_le_sum a b c d rest ha hb hc hd = ground (
  arith,
  bit_or_disjoint 8 a b,
  bit_or_disjoint 16 (a + b * 2 ^ 8) c,
  bit_or_disjoint 24 (a + b * 2 ^ 8 + c * 2 ^ 16) d,
)

get_u64_le_sum :
    (a b c d e f g h : ℕ) (rest : Bytes)
    → All IsByte (a ∷ b ∷ c ∷ d ∷ e ∷ f ∷ g ∷ h ∷ [])
    → get_u64_le (a ∷ b ∷ c ∷ d ∷ e ∷ f ∷ g ∷ h ∷ rest)
      ≡ a + b * 2 ^ 8 + c * 2 ^ 16 + d * 2 ^ 24 + e * 2 ^ 32 + f * 2 ^ 40 + g * 2 ^ 48 + h * 2 ^ 56
unfolding get_u64_le
get_u64_le_sum a b c d e f g h rest p = ground (
  arith,
  bit_or_disjoint 8 a b,
  bit_or_disjoint 16 (a + b * 2 ^ 8) c,
  bit_or_disjoint 24 (a + b * 2 ^ 8 + c * 2 ^ 16) d,
  bit_or_disjoint 32 (a + b * 2 ^ 8 + c * 2 ^ 16 + d * 2 ^ 24) e,
  bit_or_disjoint 40 (a + b * 2 ^ 8 + c * 2 ^ 16 + d * 2 ^ 24 + e * 2 ^ 32) f,
  bit_or_disjoint 48 (a + b * 2 ^ 8 + c * 2 ^ 16 + d * 2 ^ 24 + e * 2 ^ 32 + f * 2 ^ 40) g,
  bit_or_disjoint 56
      (a + b * 2 ^ 8 + c * 2 ^ 16 + d * 2 ^ 24 + e * 2 ^ 32 + f * 2 ^ 40 + g * 2 ^ 48) h,
)

-- Reading what was written gives the integer, whatever follows it.
pub get-put_u32 : (v : ℕ) (rest : Bytes) → IsU32 v → get_u32_le (put_u32_le v ++ rest) ≡ v
unfolding put_u32_le
get-put_u32 v rest h = ground (
  arith,
  get_u32_le_sum (v / 2 ^ 0 % 256) (v / 2 ^ 8 % 256) (v / 2 ^ 16 % 256) (v / 2 ^ 24 % 256) rest,
)

pub get-put_u64 : (v : ℕ) (rest : Bytes) → IsU64 v → get_u64_le (put_u64_le v ++ rest) ≡ v
unfolding put_u64_le
get-put_u64 v rest h =
    get_u64_le_sum (v / 2 ^ 0 % 256) (v / 2 ^ 8 % 256) (v / 2 ^ 16 % 256) (v / 2 ^ 24 % 256)
      (v / 2 ^ 32 % 256) (v / 2 ^ 40 % 256) (v / 2 ^ 48 % 256) (v / 2 ^ 56 % 256) rest (omega arith)
    ∙ omega arith

pub put_u32-length : (v : ℕ) → length (put_u32_le v) ≡ 4
unfolding put_u32_le
put_u32-length v = refl

pub put_u64-length : (v : ℕ) → length (put_u64_le v) ≡ 8
unfolding put_u64_le
put_u64-length v = refl

pub put_u32-All : (v : ℕ) → All IsByte (put_u32_le v)
unfolding put_u32_le
put_u32-All v = omega arith

pub put_u64-All : (v : ℕ) → All IsByte (put_u64_le v)
unfolding put_u64_le
put_u64-All v = omega arith

-- Four bytes that were read are the bytes that the integer would be written as.
pub put-get-IsU32 :
    (buf : Bytes)
    → All IsByte buf
    → length buf ≡ 4
    → (put_u32_le (get_u32_le buf) ≡ buf) × IsU32 (get_u32_le buf)
unfolding put_u32_le
put-get-IsU32 (a ∷ b ∷ c ∷ d ∷ []) (ha, (hb, (hc, (hd, _)))) e =
    rw (get_u32_le_sum a b c d [] ha hb hc hd) (ground arith, omega arith)
put-get-IsU32 _ p e = absurd (omega arith)

pub put-get-IsU64 :
    (buf : Bytes)
    → All IsByte buf
    → length buf ≡ 8
    → (put_u64_le (get_u64_le buf) ≡ buf) × IsU64 (get_u64_le buf)
unfolding put_u64_le
put-get-IsU64 (a ∷ b ∷ c ∷ d ∷ e ∷ f ∷ g ∷ h ∷ []) p q =
    rw (get_u64_le_sum a b c d e f g h [] p) (ground arith, omega arith)
put-get-IsU64 _ p e = absurd (omega arith)

-- A read looks at four (eight) bytes only.
pub get_u32-append : (buf rest : Bytes) → length buf ≡ 4 → get_u32_le (buf ++ rest) ≡ get_u32_le buf
unfolding get_u32_le
get_u32-append (a ∷ b ∷ c ∷ d ∷ []) rest e = refl
get_u32-append _ rest e = absurd (omega arith)

pub get_u64-append : (buf rest : Bytes) → length buf ≡ 8 → get_u64_le (buf ++ rest) ≡ get_u64_le buf
unfolding get_u64_le
get_u64-append (a ∷ b ∷ c ∷ d ∷ e ∷ f ∷ g ∷ h ∷ []) rest q = refl
get_u64-append _ rest e = absurd (omega arith)
