-- ===== src/Db/Collected.antt =====
-- What a compaction throws away.
use keystone_db.Prelude.{ℕ, ◌≤◌, ◌≡◌, List, [], ◌∷◌, false, All}
use keystone_db.Prelude.Keys.{key_eq}
use keystone_db.Sstable.{Entry}

-- No version is kept behind a version of its key that the oldest snapshot sees already.
unfoldable pub IsCollected : ℕ → List Entry → Type 0
IsCollected o [] = Unit {0}
IsCollected o (e ∷ entries) =
    (e.seq ≤ o → All (λ x. key_eq x.key e.key ≡ false) entries) × IsCollected o entries
