-- ===== src/Bloom/Serial.antt =====
-- The serialized filter is loaded back, and a shorter one is refused.
use keystone_db.Prelude.{
  ℕ, suc, List, [], ◌∷◌, ◌+◌, ◌-◌, ◌/◌, ◌%◌, ◌^◌, ◌≤◌, ◌<◌, ◌≡◌, refl, sym, ap, ◌∙◌, ◌++◌,
  append_assoc, arith, length, length-append, take, drop, take-length-append, drop-length-append,
  length-take, ltb, if◌then◌else◌,
}
use native.Mathlib.Decide.{dec_lt}
use keystone_db.Prelude.Keys.{Bytes}
use keystone_db.Coding.{IsU32, put_u32_le, get_u32_le, put_u64_le, get_u64_le}
use keystone_db.Coding.RoundTrip.{get-put_u32, get-put_u64, put_u32-length}
use keystone_db.Bloom.{Bloom, add, add_all, serialize, loaded, too_short, truncated, load}
use keystone_db.Bloom.Contains.{IsBloom}

-- A filter whose numbers fit their fields.
pub record IsSmall (b : Bloom) : Type 0 where
  pub k : IsU32 b.k
  pub m_bits : b.m_bits + 7 < 2 ^ 64

pub length-serialize : (b : Bloom) → length (serialize b) ≡ 12 + length b.bits
unfolding serialize put_u32_le put_u64_le
length-serialize b = omega arith

module _ (b : Bloom) (rest : Bytes) (h : IsBloom b) (s : IsSmall b) where
  serialize_fields :
      (get_u32_le (serialize b ++ rest) ≡ b.k)
      × (get_u64_le (drop 4 (serialize b ++ rest)) ≡ b.m_bits)
      × (drop 12 (serialize b ++ rest) ≡ b.bits ++ rest)
  unfolding serialize
  serialize_fields =
      let e = append_assoc (put_u32_le (b.k % 2 ^ 32)) (put_u64_le b.m_bits ++ b.bits) rest in
      let f = append_assoc (put_u64_le b.m_bits) b.bits rest in
      rw (e, f)
        (
          get-put_u32 (b.k % 2 ^ 32) _ (omega arith) ∙ omega arith,
          ap get_u64_le
                (drop-length-append (put_u32_le (b.k % 2 ^ 32)) _ 4 (sym (put_u32-length _)))
              ∙ get-put_u64 b.m_bits _ (omega arith),
          unfold put_u32_le put_u64_le in refl,
        )

  -- A serialized filter is loaded, whatever follows it.
  pub load-serialize : load (serialize b ++ rest) ≡ loaded b
  unfolding load
  load-serialize =
      let (ek, em, eb) = serialize_fields in
      ground (
        arith,
        ek,
        em,
        eb,
        length-append (serialize b) rest,
        length-serialize b,
        h.bits,
        take-length-append b.bits rest ((b.m_bits + 7) % 2 ^ 64 / 8) (omega arith),
      )

-- The number of bits is read from the first 12 bytes.
cut_m_bits :
    (b : Bloom) (n : ℕ)
    → IsBloom b
    → IsSmall b
    → 12 ≤ n
    → get_u64_le (drop 4 (take n (serialize b))) ≡ b.m_bits
unfolding serialize put_u32_le put_u64_le
cut_m_bits b n h s long =
    let e : n ≡ suc (suc (suc (suc (suc (suc (suc (suc (suc (suc (suc (suc (n - 12)))))))))))) =
      omega arith in
    rw e (unfold put_u64_le in get-put_u64 b.m_bits (take (n - 12) b.bits) (omega arith))

-- A filter that was cut short is refused: without its numbers as too short, else as truncated.
pub load-take :
    (b : Bloom) (n : ℕ)
    → IsBloom b
    → IsSmall b
    → n < length (serialize b)
    → load (take n (serialize b)) ≡ (if ltb n 12 then too_short else truncated)
unfolding load
load-take b n h s cut = elim (dec_lt n 12) [
  | yes short ↦ ground (arith, length-take n (serialize b))
  | no long ↦ ground (
    arith,
    length-take n (serialize b),
    length-serialize b,
    h.bits,
    cut_m_bits b n h s (omega arith),
  )
]

pub add_all-IsSmall : (b : Bloom) (keys : List Bytes) → IsSmall b → IsSmall (add_all b keys)
unfolding add_all
add_all-IsSmall b [] h = h
add_all-IsSmall b (key ∷ keys) h =
    add_all-IsSmall (add b key) keys (unfold add in record { k = h.k; m_bits = h.m_bits })
