-- ===== src/Manifest/Extend.antt =====
-- The readers of `load_latest` do not look past what they read: bytes added behind the file change
-- nothing but the rest.
use keystone_db.Prelude.{
  ℕ, zero, suc, ◌+◌, ◌≡◌, List, [], ◌++◌, some, arith, not, length, ltb, bind-some,
}
use keystone_db.Prelude.Keys.{Bytes}
use keystone_db.Prelude.Files.{read_fully, read_fully-extend, guard-bind}
use keystone_db.Coding.{get_u32_le}
use keystone_db.Manifest.{
  ManifestEntry, Reader, read_u32, read_bytes, read_entry, read_entries, max_count, rest_size,
  load_snapshot,
}

abbrev extend : Reader → Bytes → Reader
extend r more = record r { file = r.file ++ more }

read_u32-extend :
    (r : Reader) (more : Bytes) (x : ℕ × Reader)
    → read_u32 r ≡ some x
    → read_u32 (extend r more) ≡ some (x.0, extend x.1 more)
unfolding read_u32
read_u32-extend r more x e =
    guard-bind (not (ltb r.size (length r.rest + 4))) (read_fully 4 r.file) _ e λ t c.
      bind-some (read_fully 4 r.file) _ c
        λ a e₁ c₁. ground (arith, read_fully-extend 4 r.file more a.0 a.1)

read_bytes-extend :
    (n : ℕ) (r : Reader) (more : Bytes) (x : Bytes × Reader)
    → read_bytes n r ≡ some x
    → read_bytes n (extend r more) ≡ some (x.0, extend x.1 more)
unfolding read_bytes
read_bytes-extend zero r more x e = ground arith
read_bytes-extend (suc n) r more x e =
    bind-some (read_fully (suc n) r.file) _ e
      λ a e₁ c₁. ground (arith, read_fully-extend (suc n) r.file more a.0 a.1)

read_entry-extend :
    (r : Reader) (more : Bytes) (x : ManifestEntry × Reader)
    → read_entry r ≡ some x
    → read_entry (extend r more) ≡ some (x.0, extend x.1 more)
unfolding read_entry
read_entry-extend r more x e = bind-some (read_u32 r) _ e λ a₁ e₁ c₁.
    bind-some (read_u32 a₁.1) _ c₁ λ a₂ e₂ c₂. bind-some (read_u32 a₂.1) _ c₂ λ a₃ e₃ c₃.
      bind-some (read_bytes a₃.0 a₃.1) _ c₃ λ a₄ e₄ c₄. bind-some (read_u32 a₄.1) _ c₄ λ a₅ e₅ c₅.
        bind-some (read_bytes a₅.0 a₅.1) _ c₅ λ a₆ e₆ c₆.
          rw
            (
              read_u32-extend r more a₁ e₁,
              read_u32-extend a₁.1 more a₂ e₂,
              read_u32-extend a₂.1 more a₃ e₃,
              read_bytes-extend a₃.0 a₃.1 more a₄ e₄,
              read_u32-extend a₄.1 more a₅ e₅,
              read_bytes-extend a₅.0 a₅.1 more a₆ e₆,
            )
            (ground arith)

read_entries-extend :
    (count : ℕ) (r : Reader) (more : Bytes) (x : List ManifestEntry × Reader)
    → read_entries count r ≡ some x
    → read_entries count (extend r more) ≡ some (x.0, extend x.1 more)
unfolding read_entries
read_entries-extend zero r more x e = ground arith
read_entries-extend (suc count) r more x e = bind-some (read_entry r) _ e λ a₁ e₁ c₁.
    bind-some (read_entries count a₁.1) _ c₁ λ a₂ e₂ c₂.
      rw (read_entry-extend r more a₁ e₁, read_entries-extend count a₁.1 more a₂ e₂) (ground arith)

pub load_snapshot-extend :
    (file more rest : Bytes) (files : List ManifestEntry)
    → load_snapshot file ≡ some (files, rest)
    → load_snapshot (file ++ more) ≡ some (files, rest ++ more)
unfolding load_snapshot
load_snapshot-extend file more rest files e = bind-some (read_fully 4 file) _ e λ a₁ e₁ c₁.
    bind-some (read_fully 4 a₁.1) _ c₁ λ a₂ e₂ c₂.
      let count = get_u32_le a₂.0 in
      let r : Reader = record { file = a₂.1; rest = []; size = rest_size count } in
      guard-bind (not (ltb max_count count)) (read_entries count r) _ c₂ λ t c₃.
        bind-some (read_entries count r) _ c₃ λ a₃ e₃ c₄.
          rw
            (
              read_fully-extend 4 file more a₁.0 a₁.1 e₁,
              read_fully-extend 4 a₁.1 more a₂.0 a₂.1 e₂,
              read_entries-extend count r more a₃ e₃,
              t,
            )
            (ground arith)
