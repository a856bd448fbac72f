-- ===== src/Bloom/Contains.antt =====
-- No false negatives: every key that was added may be contained, and stays so.
use keystone_db.Prelude.{
  ℕ, zero, suc, ◌+◌, ◌*◌, ◌/◌, ◌%◌, ◌^◌, ◌<◌, ◌≡◌, refl, sym, ap, ◌∙◌, List, [], ◌∷◌, ◌++◌, arith,
  true, bit_or, length, length-set, length-replicate, get_or, set, get_or-set_self, get_or-set_ne,
  set-past,
}
use native.Mathlib.Decide.{ℕ_discrete, dec_lt}
use native.Mathlib.Nat.{one-le-pow, mod-lt}
use keystone_db.Prelude.Bits.{bit_and-bit_or_mono, bit_and-bit_or_self}
use keystone_db.Prelude.Keys.{Bytes}
use keystone_db.Bloom.{
  Bloom, bits_for, new_bloom, hash, position, set_bit, has_bit, add_loop, add, contains_loop,
  may_contain, add_all,
}

-- The bit array has the bits that `m_bits` counts, and there is one at least.
pub record IsBloom (b : Bloom) : Type 0 where
  pub bits : length b.bits * 8 ≡ b.m_bits
  pub some_bits : 0 < b.m_bits

length-set_bit : (bits : Bytes) (i : ℕ) → length (set_bit bits i) ≡ length bits
unfolding set_bit
length-set_bit bits i = length-set bits (i / 8) _

small_pow : (r : ℕ) → r < 8 → 2 ^ r < 256
small_pow zero h = omega arith
small_pow (suc zero) h = omega arith
small_pow (suc (suc zero)) h = omega arith
small_pow (suc (suc (suc zero))) h = omega arith
small_pow (suc (suc (suc (suc zero)))) h = omega arith
small_pow (suc (suc (suc (suc (suc zero))))) h = omega arith
small_pow (suc (suc (suc (suc (suc (suc zero)))))) h = omega arith
small_pow (suc (suc (suc (suc (suc (suc (suc zero))))))) h = omega arith
small_pow (suc (suc (suc (suc (suc (suc (suc (suc r)))))))) h = absurd (omega arith)

-- A bit that was set is set.
has_bit-set_bit_self :
    (bits : Bytes) (i : ℕ) → i / 8 < length bits → has_bit (set_bit bits i) i ≡ true
unfolding set_bit has_bit
has_bit-set_bit_self bits i h =
    let mask = 2 ^ (i % 8) in
    let whole : mask % 256 ≡ mask = omega (arith, small_pow (i % 8) (omega arith)) in
    rw (get_or-set_self bits (i / 8) _ 0 h, whole)
      (ground (arith, bit_and-bit_or_self mask (get_or bits (i / 8) 0) mask, one-le-pow (i % 8) 2))

-- Setting a bit clears none.
has_bit-set_bit :
    (bits : Bytes) (i j : ℕ) → has_bit bits j ≡ true → has_bit (set_bit bits i) j ≡ true
unfolding set_bit has_bit
has_bit-set_bit bits i j h = elim (ℕ_discrete (i / 8) (j / 8)) [
  | no other ↦ rw (get_or-set_ne bits (i / 8) (j / 8) _ 0 other) h
  | yes same ↦ elim (dec_lt (i / 8) (length bits)) [
    | no past ↦ rw (set-past bits (i / 8) _ (omega arith)) h
    | yes inside ↦
        let byte = get_or bits (i / 8) 0 in
        let e : get_or (set bits (i / 8) (bit_or byte (2 ^ (i % 8) % 256))) (j / 8) 0
            ≡ bit_or byte (2 ^ (i % 8) % 256) =
          ap (λ (t : ℕ). get_or (set bits (i / 8) (bit_or byte (2 ^ (i % 8) % 256))) t 0) (sym same)
          ∙ get_or-set_self bits (i / 8) _ 0 inside in
        let f : get_or bits (j / 8) 0 ≡ byte = ap (λ (t : ℕ). get_or bits t 0) (sym same) in
        rw e (
          ground
            (arith, f, h, bit_and-bit_or_mono (2 ^ (j % 8)) byte (2 ^ (j % 8)) (2 ^ (i % 8) % 256)))
  ]
]

length-add_loop :
    (h : ℕ × ℕ) (m n i : ℕ) (bits : Bytes) → length (add_loop h m n i bits) ≡ length bits
unfolding add_loop
length-add_loop h m zero i bits = refl
length-add_loop h m (suc n) i bits =
    length-add_loop h m n (i + 1) _ ∙ length-set_bit bits (position h m i)

add_loop_keeps :
    (h : ℕ × ℕ) (m n i j : ℕ) (bits : Bytes)
    → has_bit bits j ≡ true
    → has_bit (add_loop h m n i bits) j ≡ true
unfolding add_loop
add_loop_keeps h m zero i j bits p = p
add_loop_keeps h m (suc n) i j bits p =
    add_loop_keeps h m n (i + 1) j _ (has_bit-set_bit bits (position h m i) j p)

contains_loop-add_loop :
    (h : ℕ × ℕ) (m n i : ℕ) (bits : Bytes)
    → length bits * 8 ≡ m
    → 0 < m
    → contains_loop h m n i (add_loop h m n i bits) ≡ true
unfolding contains_loop add_loop
contains_loop-add_loop h m zero i bits l p = refl
contains_loop-add_loop h m (suc n) i bits l p =
    let pos = position h m i in
    let bits' = set_bit bits pos in
    let inside : pos < m = mod-lt _ p in
    ground (
      arith,
      add_loop_keeps h m n (i + 1) pos bits' (has_bit-set_bit_self bits pos (omega arith)),
      contains_loop-add_loop h m n (i + 1) bits' (omega (arith, length-set_bit bits pos)) p,
    )

contains_loop_mono :
    (h : ℕ × ℕ) (m n i : ℕ) (bits bits' : Bytes)
    → ((j : ℕ) → has_bit bits j ≡ true → has_bit bits' j ≡ true)
    → contains_loop h m n i bits ≡ true
    → contains_loop h m n i bits' ≡ true
unfolding contains_loop
contains_loop_mono h m zero i bits bits' keep p = refl
contains_loop_mono h m (suc n) i bits bits' keep p =
    ground (arith, keep (position h m i), contains_loop_mono h m n (i + 1) bits bits' keep)

bits_for_whole : (c b : ℕ) → (bits_for c b / 8 * 8 ≡ bits_for c b) × (0 < bits_for c b)
unfolding bits_for
bits_for_whole c b = ground arith

-- The constructor builds a filter of whole bytes, at least one.
pub new_bloom-IsBloom : (key_count bits_per_key : ℕ) → IsBloom (new_bloom key_count bits_per_key)
unfolding new_bloom
new_bloom-IsBloom key_count bits_per_key =
    let (whole, pos) = bits_for_whole key_count bits_per_key in
    record {
      bits =
          ap (λ (t : ℕ). t * 8) (length-replicate (bits_for key_count bits_per_key / 8) 0) ∙ whole;
      some_bits = pos;
    }

pub add-IsBloom : (b : Bloom) (key : Bytes) → IsBloom b → IsBloom (add b key)
unfolding add
add-IsBloom b key h = record {
  bits = omega (arith, h.bits, length-add_loop (hash key) b.m_bits b.k 0 b.bits);
  some_bits = h.some_bits;
}

-- A key that was just added may be contained.
pub may_contain-add_self :
    (b : Bloom) (key : Bytes) → IsBloom b → may_contain (add b key) key ≡ true
unfolding may_contain add
may_contain-add_self b key h =
    contains_loop-add_loop (hash key) b.m_bits b.k 0 b.bits h.bits h.some_bits

-- Adding a key loses none.
pub may_contain-add :
    (b : Bloom) (other key : Bytes)
    → may_contain b key ≡ true
    → may_contain (add b other) key ≡ true
unfolding may_contain add
may_contain-add b other key =
    contains_loop_mono (hash key) b.m_bits b.k 0 b.bits _
      (λ j. add_loop_keeps (hash other) b.m_bits b.k 0 j b.bits)

add_all_keeps :
    (b : Bloom) (keys : List Bytes) (key : Bytes)
    → may_contain b key ≡ true
    → may_contain (add_all b keys) key ≡ true
unfolding add_all
add_all_keeps b [] key h = h
add_all_keeps b (other ∷ keys) key h =
    add_all_keeps (add b other) keys key (may_contain-add b other key h)

-- The filter of a table answers yes for every key of the table: there are no false negatives.
pub may_contain-add_all :
    (b : Bloom) (before after : List Bytes) (key : Bytes)
    → IsBloom b
    → may_contain (add_all b (before ++ (key ∷ after))) key ≡ true
unfolding add_all
may_contain-add_all b [] after key h =
    add_all_keeps (add b key) after key (may_contain-add_self b key h)
may_contain-add_all b (other ∷ before) after key h =
    may_contain-add_all (add b other) before after key (add-IsBloom b other h)

pub add_all-IsBloom : (b : Bloom) (keys : List Bytes) → IsBloom b → IsBloom (add_all b keys)
unfolding add_all
add_all-IsBloom b [] h = h
add_all-IsBloom b (key ∷ keys) h = add_all-IsBloom (add b key) keys (add-IsBloom b key h)
