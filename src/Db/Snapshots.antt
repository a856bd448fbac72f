-- ===== src/Db/Snapshots.antt =====
-- DB::get_snapshot, release_snapshot and oldest_live_snapshot. The multiset of the live snapshots
-- is the ascending list of its elements.
use keystone_db.Prelude.{
  ℕ, ◌+◌, ◌-◌, ◌%◌, ◌^◌, ◌≤◌, ◌≡◌, List, [], ◌∷◌, false, ◌⊎◌, All, leb, ◌==◌, if◌then◌else◌,
}

pub record Snapshots : Type 0 where
  pub next_seq : ℕ
  pub live : List ℕ

unfoldable pub insert : ℕ → List ℕ → List ℕ
insert s [] = s ∷ []
insert s (x ∷ xs) = let rest = insert s xs in if leb s x then s ∷ (x ∷ xs) else x ∷ rest

-- One element is erased, if there is one.
unfoldable pub erase : ℕ → List ℕ → List ℕ
erase s [] = []
erase s (x ∷ xs) = let rest = erase s xs in if x == s then xs else x ∷ rest

unfoldable pub get_snapshot : Snapshots → ℕ × Snapshots
get_snapshot st =
    let s = (st.next_seq + (2 ^ 64 - 1)) % 2 ^ 64 in (s, record st { live = insert s st.live })

unfoldable pub release_snapshot : ℕ → Snapshots → Snapshots
release_snapshot s st = record st { live = erase s st.live }

unfoldable pub oldest_of : List ℕ → ℕ
oldest_of [] = 2 ^ 64 - 1
oldest_of (s ∷ live) = s

unfoldable pub oldest_live_snapshot : Snapshots → ℕ
oldest_live_snapshot st = oldest_of st.live

-- What happens to the snapshots: one is taken or released, or the leader of a batch of writes
-- takes sequence numbers.
pub data Event : Type 0 where
  take_snapshot : Event
  release : ℕ → Event
  writes : ℕ → Event

unfoldable pub step : Event → Snapshots → Snapshots
step take_snapshot st = (get_snapshot st).1
step (release s) st = release_snapshot s st
step (writes n) st = record st { next_seq = (st.next_seq + n) % 2 ^ 64 }

unfoldable pub run : List Event → Snapshots → Snapshots
run [] st = st
run (e ∷ events) st = run events (step e st)

unfoldable pub IsAscending : List ℕ → Type 0
IsAscending [] = Unit {0}
IsAscending (x ∷ xs) = All (λ y. x ≤ y) xs × IsAscending xs

unfoldable pub IsLive : ℕ → List ℕ → Type 0
IsLive s [] = ⊥
IsLive s (x ∷ xs) = (s ≡ x) ⊎ IsLive s xs

-- The event is not the release of the snapshot.
unfoldable pub Keeps : ℕ → Event → Type 0
Keeps s take_snapshot = Unit {0}
Keeps s (release s') = (s' == s) ≡ false
Keeps s (writes n) = Unit {0}
