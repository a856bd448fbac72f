-- ===== src/Prelude/Keys.antt =====
-- Byte strings and their order: `std::string::compare` and the comparisons of `std::string_view`
-- go byte by byte, unsigned, and a proper prefix is smaller.
use Prim.Native.Nat.{ℕ, ◌<◌, compare, Ordering}
use mathlib.Core.Path.{◌≡◌, refl}
use mathlib.Core.Bool.{Bool, true, false, ◌&&◌}
use mathlib.Core.List.{List, [], ◌∷◌}
use native.Mathlib.Omega.{arith}

abbrev pub Bytes : Type 0
Bytes = List ℕ

abbrev pub IsByte : ℕ → Type 0
IsByte b = b < 256

-- The sign of `a.compare(b)`.
unfoldable pub compare_keys : Bytes → Bytes → Ordering
compare_keys [] [] = Ordering.eq
compare_keys [] (b ∷ bs) = Ordering.lt
compare_keys (a ∷ as') [] = Ordering.gt
compare_keys (a ∷ as') (b ∷ bs) = elim (compare a b) [
  | Ordering.lt ↦ Ordering.lt
  | Ordering.gt ↦ Ordering.gt
  | Ordering.eq ↦ compare_keys as' bs
]

abbrev pub key_lt : Bytes → Bytes → Bool
key_lt a b = elim (compare_keys a b) [ Ordering.lt ↦ true | _ ↦ false ]

abbrev pub key_le : Bytes → Bytes → Bool
key_le a b = elim (compare_keys a b) [ Ordering.gt ↦ false | _ ↦ true ]

abbrev pub key_eq : Bytes → Bytes → Bool
key_eq a b = elim (compare_keys a b) [ Ordering.eq ↦ true | _ ↦ false ]

pub compare_keys_refl : (a : Bytes) → compare_keys a a ≡ Ordering.eq
unfolding compare_keys
compare_keys_refl [] = refl
compare_keys_refl (x ∷ a) = ground (arith, compare_keys_refl a)

pub compare_keys-eq : (a b : Bytes) → compare_keys a b ≡ Ordering.eq → a ≡ b
unfolding compare_keys
compare_keys-eq [] [] h = refl
compare_keys-eq [] (y ∷ b) h = ground arith
compare_keys-eq (x ∷ a) [] h = ground arith
compare_keys-eq (x ∷ a) (y ∷ b) h = ground (arith, compare_keys-eq a b)

pub compare_keys-swap_lt :
    (a b : Bytes) → compare_keys a b ≡ Ordering.lt → compare_keys b a ≡ Ordering.gt
unfolding compare_keys
compare_keys-swap_lt [] [] h = ground arith
compare_keys-swap_lt [] (y ∷ b) h = refl
compare_keys-swap_lt (x ∷ a) [] h = ground arith
compare_keys-swap_lt (x ∷ a) (y ∷ b) h = ground (arith, compare_keys-swap_lt a b)

pub compare_keys-swap_gt :
    (a b : Bytes) → compare_keys a b ≡ Ordering.gt → compare_keys b a ≡ Ordering.lt
unfolding compare_keys
compare_keys-swap_gt [] [] h = ground arith
compare_keys-swap_gt [] (y ∷ b) h = ground arith
compare_keys-swap_gt (x ∷ a) [] h = refl
compare_keys-swap_gt (x ∷ a) (y ∷ b) h = ground (arith, compare_keys-swap_gt a b)

pub compare_keys_trans :
    (a b c : Bytes)
    → compare_keys a b ≡ Ordering.lt
    → compare_keys b c ≡ Ordering.lt
    → compare_keys a c ≡ Ordering.lt
unfolding compare_keys
compare_keys_trans [] [] c h k = ground arith
compare_keys_trans [] (y ∷ b) [] h k = ground arith
compare_keys_trans [] (y ∷ b) (z ∷ c) h k = refl
compare_keys_trans (x ∷ a) [] c h k = ground arith
compare_keys_trans (x ∷ a) (y ∷ b) [] h k = ground arith
compare_keys_trans (x ∷ a) (y ∷ b) (z ∷ c) h k = ground (arith, compare_keys_trans a b c)

pub key_le_of_not_lt : (a b : Bytes) → key_lt a b ≡ false → key_le b a ≡ true
key_le_of_not_lt a b h = ground (arith, compare_keys-swap_gt b a)

pub key_eq_refl : (a : Bytes) → key_eq a a ≡ true
key_eq_refl a = ground (arith, compare_keys_refl a)

pub key_eq→eq : (a b : Bytes) → key_eq a b ≡ true → a ≡ b
key_eq→eq a b h = compare_keys-eq a b (ground arith)

pub key_le_refl : (a : Bytes) → key_le a a ≡ true
key_le_refl a = ground (arith, compare_keys_refl a)

pub key_lt→not_le : (a b : Bytes) → key_lt a b ≡ true → key_le b a ≡ false
key_lt→not_le a b h = ground (arith, compare_keys-swap_lt a b)

pub key_lt_trans : (a b c : Bytes) → key_lt a b ≡ true → key_lt b c ≡ true → key_lt a c ≡ true
key_lt_trans a b c h k = ground (arith, compare_keys_trans a b c)

pub key_lt→not_eq : (a b : Bytes) → key_lt a b ≡ true → key_eq b a ≡ false
key_lt→not_eq a b h = ground (arith, compare_keys-swap_lt a b)

pub key_lt_of_not_le : (a b : Bytes) → key_le a b ≡ false → key_lt b a ≡ true
key_lt_of_not_le a b h = ground (arith, compare_keys-swap_gt a b)

pub key_le_lt_trans : (a b c : Bytes) → key_le a b ≡ true → key_lt b c ≡ true → key_lt a c ≡ true
key_le_lt_trans a b c h k = ground (arith, compare_keys_trans a b c, compare_keys-eq a b)

pub key_lt_le_trans : (a b c : Bytes) → key_lt a b ≡ true → key_le b c ≡ true → key_lt a c ≡ true
key_lt_le_trans a b c h k = ground (arith, compare_keys_trans a b c, compare_keys-eq b c)

pub key_le_trans : (a b c : Bytes) → key_le a b ≡ true → key_le b c ≡ true → key_le a c ≡ true
key_le_trans a b c h k =
    ground (arith, compare_keys_trans a b c, compare_keys-eq a b, compare_keys-eq b c)

-- A key up to a second one is below the target that the second one is up to, unless both are it.
pub key_lt_of_once :
    (a b target : Bytes)
    → key_le a b ≡ true
    → key_le b target ≡ true
    → (key_eq a target && key_eq b target) ≡ false
    → key_lt a target ≡ true
key_lt_of_once a b target h k once = ground (arith, key_lt_le_trans a b target, compare_keys-eq a b)
