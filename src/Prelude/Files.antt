-- ===== src/Prelude/Files.antt =====
-- src/coding.h, namespace io: reading a file from a position on. The file is what is left of it.
-- The operating system's `read` gives what the file holds, so `read_fully` fails exactly when fewer
-- bytes are left than were asked for; its callers stop at a failure.
use Prim.Native.Nat.{ℕ, ◌<◌}
use mathlib.Core.Path.{◌≡◌, refl, sym, ap, ◌∙◌}
use mathlib.Core.Option.{Option, none, some}
use mathlib.Core.Bool.{Bool, true, false}
use mathlib.Core.List.{◌++◌, append_assoc}
use native.Mathlib.Omega.{arith}
use keystone_db.Prelude.Keys.{Bytes}
use keystone_db.Prelude.Tests.{leb, guard, ◌>>=◌, >>=-some}
use keystone_db.Prelude.Lists.{
  length, take, drop, length-append, take-append-drop, length-take, take-length-append,
  drop-length-append,
}

unfoldable pub read_fully : ℕ → Bytes → Option (Bytes × Bytes)
read_fully count file = guard (leb count (length file)) (some (take count file, drop count file))

-- What was written in front is what is read.
pub read_fully-append :
    (n : ℕ) (xs ys : Bytes) → n ≡ length xs → read_fully n (xs ++ ys) ≡ some (xs, ys)
unfolding read_fully
read_fully-append n xs ys e =
    ground (arith, length-append xs ys, take-length-append xs ys n e, drop-length-append xs ys n e)

pub read_fully-append₂ :
    (n : ℕ) (xs ys zs : Bytes)
    → n ≡ length xs
    → read_fully n ((xs ++ ys) ++ zs) ≡ some (xs, ys ++ zs)
read_fully-append₂ n xs ys zs e = rw append_assoc (read_fully-append n xs (ys ++ zs) e)

pub read_fully-short : (n : ℕ) (xs : Bytes) → length xs < n → read_fully n xs ≡ none
unfolding read_fully
read_fully-short n xs h = ground arith

-- What was read stood in front.
pub read_fully-some :
    (n : ℕ) (file xs ys : Bytes)
    → read_fully n file ≡ some (xs, ys)
    → (file ≡ xs ++ ys) × (length xs ≡ n)
unfolding read_fully
read_fully-some n file xs ys h = ground (arith, take-append-drop n file, length-take n file)

-- A read in a chain that succeeded: the proof goes on with what it read.
pub read_fully-bind {ℓ κ} :
    {B : Type ℓ} {P : Type κ} (n : ℕ) (file : Bytes) (f : Bytes × Bytes → Option B) {b : B}
    → (read_fully n file >>= f) ≡ some b
    → ((xs ys : Bytes) → file ≡ xs ++ ys → length xs ≡ n → f (xs, ys) ≡ some b → P)
    → P
read_fully-bind n file f h k =
    let ((xs, ys), e, c) = >>=-some (read_fully n file) f h in
    let (e', l) = read_fully-some n file xs ys e in k xs ys e' l c

pub guard-bind {ℓ κ ι} :
    {A : Type ℓ} {B : Type κ} {P : Type ι} (t : Bool) (m : Option A) (f : A → Option B) {b : B}
    → (guard t m >>= f) ≡ some b
    → (t ≡ true → (m >>= f) ≡ some b → P)
    → P
guard-bind true m f h k = k refl h
guard-bind false m f h k = cc

-- A read does not look at what follows.
pub read_fully-extend :
    (n : ℕ) (file more xs ys : Bytes)
    → read_fully n file ≡ some (xs, ys)
    → read_fully n (file ++ more) ≡ some (xs, ys ++ more)
read_fully-extend n file more xs ys h =
    let (e, l) = read_fully-some n file xs ys h in
    ap (λ (t : Bytes). read_fully n (t ++ more)) e ∙ read_fully-append₂ n xs ys more (sym l)
