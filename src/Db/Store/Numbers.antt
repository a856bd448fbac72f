-- ===== src/Db/Store/Numbers.antt =====
-- The sequence numbers of batches.
use keystone_db.Prelude.{
  ℕ, suc, ◌+◌, ◌%◌, ◌^◌, ◌<◌, ◌≡◌, refl, ap, ◌∙◌, List, [], ◌∷◌, ◌++◌, arith, length, All,
}
use keystone_db.Db.Store.{WriteRequest, assign, seq_after}

pub assign-append :
    (n : ℕ) (xs ys : List WriteRequest)
    → assign n (xs ++ ys) ≡ assign n xs ++ assign (seq_after n xs) ys
unfolding assign seq_after
assign-append n [] ys = refl
assign-append n (r ∷ xs) ys =
    ap (λ t. record r { seq = n } ∷ t) (assign-append ((n + 1) % 2 ^ 64) xs ys)

pub seq_after-append :
    (n : ℕ) (xs ys : List WriteRequest) → seq_after n (xs ++ ys) ≡ seq_after (seq_after n xs) ys
unfolding seq_after
seq_after-append n [] ys = refl
seq_after-append n (r ∷ xs) ys = seq_after-append ((n + 1) % 2 ^ 64) xs ys

pub length-assign : (n : ℕ) (xs : List WriteRequest) → length (assign n xs) ≡ length xs
unfolding assign
length-assign n [] = refl
length-assign n (r ∷ xs) = ap suc (length-assign ((n + 1) % 2 ^ 64) xs)

pub seq_after_lt : (n : ℕ) (xs : List WriteRequest) → n < 2 ^ 64 → seq_after n xs < 2 ^ 64
unfolding seq_after
seq_after_lt n [] h = h
seq_after_lt n (r ∷ xs) h = seq_after_lt ((n + 1) % 2 ^ 64) xs (omega arith)

-- What holds of a request but for its number holds once it has one.
pub assign-All :
    (P Q : WriteRequest → Type 0)
    → ((r : WriteRequest) (n : ℕ) → n < 2 ^ 64 → P r → Q (record r { seq = n }))
    → (n : ℕ) (xs : List WriteRequest) → n < 2 ^ 64
    → All P xs
    → All Q (assign n xs)
unfolding assign
assign-All P Q f n [] h all = tt
assign-All P Q f n (r ∷ xs) h (p, ps) =
    (f r n h p, assign-All P Q f ((n + 1) % 2 ^ 64) xs (omega arith) ps)

-- The requests of the second list are those of the first, and their numbers are `n`, `n + 1` and so on.
unfoldable pub Consecutive : ℕ → List WriteRequest → List WriteRequest → Type 0
Consecutive n [] [] = Unit {0}
Consecutive n [] (x ∷ xs) = ⊥
Consecutive n (r ∷ rs) [] = ⊥
Consecutive n (r ∷ rs) (x ∷ xs) = (x ≡ record r { seq = n % 2 ^ 64 }) × Consecutive (n + 1) rs xs

pub assign-Consecutive :
    (n : ℕ) (rs : List WriteRequest) → Consecutive n rs (assign (n % 2 ^ 64) rs)
unfolding assign Consecutive
assign-Consecutive n [] = tt
assign-Consecutive n (r ∷ rs) =
    let next : (n % 2 ^ 64 + 1) % 2 ^ 64 ≡ (n + 1) % 2 ^ 64 = omega arith in
    (refl, rw next (assign-Consecutive (n + 1) rs))

pub seq_after-length :
    (n : ℕ) (rs : List WriteRequest) → seq_after (n % 2 ^ 64) rs ≡ (n + length rs) % 2 ^ 64
unfolding seq_after
seq_after-length n [] = omega arith
seq_after-length n (r ∷ rs) =
    let next : (n % 2 ^ 64 + 1) % 2 ^ 64 ≡ (n + 1) % 2 ^ 64 = omega arith in
    rw next (seq_after-length (n + 1) rs ∙ omega arith)
