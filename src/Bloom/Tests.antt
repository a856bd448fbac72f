-- ===== src/Bloom/Tests.antt =====
-- Runs of the filter, and its theorems at concrete inputs.
use keystone_db.Prelude.{◌≡◌, refl, [], ◌∷◌, ◌++◌, arith, true, false, take, if◌then◌else◌, ltb}
use keystone_db.Prelude.Keys.{Bytes}
use keystone_db.Coding.{put_u32_le, put_u64_le}
use keystone_db.Bloom.{
  Bloom, bits_for, new_bloom, hash, add, may_contain, add_all, serialize, loaded, truncated,
  too_short, load,
}
use keystone_db.Bloom.Contains.{IsBloom, new_bloom-IsBloom, may_contain-add_all}
use keystone_db.Bloom.Serial.{IsSmall, load-serialize, load-take}

abbrev cat : Bytes
cat = b'c' ∷ b'a' ∷ b't' ∷ []

abbrev dog : Bytes
dog = b'd' ∷ b'o' ∷ b'g' ∷ []

abbrev filter : Bloom
filter = add_all (new_bloom 2 10) ([] ++ (cat ∷ dog ∷ []))

program : Unit {0}
unfolding bits_for new_bloom hash add may_contain add_all serialize put_u32_le put_u64_le
program = tt

has_cat : may_contain filter cat ≡ true
unfolding program
has_cat = refl

-- A key that was not added is turned away.
no_cow : may_contain filter (b'c' ∷ b'o' ∷ b'w' ∷ []) ≡ false
unfolding program
no_cow = refl

new_bloom-IsBloom_example : IsBloom (new_bloom 2 10)
new_bloom-IsBloom_example = new_bloom-IsBloom 2 10

may_contain-add_all_example : may_contain filter cat ≡ true
may_contain-add_all_example =
    may_contain-add_all (new_bloom 2 10) [] (dog ∷ []) cat (new_bloom-IsBloom 2 10)

abbrev small : Bloom
small = record { bits = 5 ∷ 0 ∷ []; m_bits = 16; k = 7 }

small-IsBloom : IsBloom small
small-IsBloom = omega arith

small-IsSmall : IsSmall small
small-IsSmall = omega arith

load-serialize_example : load (serialize small ++ (1 ∷ [])) ≡ loaded small
load-serialize_example = load-serialize small (1 ∷ []) small-IsBloom small-IsSmall

load-take_example : load (take 13 (serialize small)) ≡ (if ltb 13 12 then too_short else truncated)
unfolding program
load-take_example = load-take small 13 small-IsBloom small-IsSmall (omega arith)
