-- ===== src/Memtable.antt =====
-- src/memtable.cpp and include/keystone/memtable.h: the skip list on an explicit store. A node's
-- address is its place in the list of the nodes made so far, and `none` is the null pointer; the
-- head is the first node. put and del take the level that random_level has drawn.
pub mod Chain
pub mod Store
pub mod Splice
pub mod Weave
pub mod Search
pub mod Abstract
pub mod Invariant
pub mod Place
pub mod Insert
pub mod Reads
pub mod Run
mod Tests
use Prim.Native.Nat.{Ordering}
use keystone_db.Prelude.{
  ℕ, zero, suc, ◌+◌, List, [], ◌∷◌, ◌++◌, Bool, true, false, Option, none, some, length, get_or,
  set, replicate, ltb, if◌then◌else◌, ◌-◌, ◌^◌,
}
use keystone_db.Prelude.Keys.{Bytes, compare_keys, key_eq}
use keystone_db.Sstable.{Entry, LookupResult, LookupStatus}

pub record Node : Type 0 where
  pub entry : Entry
  pub forward : List (Option ℕ)

abbrev pub new_node : Entry → ℕ → Node
new_node e height = record { entry = e; forward = replicate height none }

abbrev pub no_entry : Entry
no_entry = record { key = []; value = []; tombstone = false; seq = 0 }

abbrev pub no_node : Node
no_node = record { entry = no_entry; forward = [] }

pub record Memtable : Type 0 where
  pub nodes : List Node
  pub max_height : ℕ
  pub current_height : ℕ
  pub approx_bytes : ℕ

abbrev pub head : ℕ
head = 0

abbrev pub k_node_overhead : ℕ
k_node_overhead = 64

unfoldable pub new_memtable : ℕ → Memtable
new_memtable max_height = record {
  nodes = new_node no_entry max_height ∷ [];
  max_height = max_height;
  current_height = 1;
  approx_bytes = 0;
}

-- The coins that are thrown decide the level.
unfoldable pub random_level_loop : ℕ → ℕ → List Bool → ℕ
random_level_loop max_height lvl [] = lvl
random_level_loop max_height lvl (coin ∷ coins) =
    let next = random_level_loop max_height (lvl + 1) coins in
    if ltb lvl max_height then (if coin then next else lvl) else lvl

unfoldable pub random_level : ℕ → List Bool → ℕ
unfolding random_level_loop
random_level max_height coins = random_level_loop max_height 1 coins

-- What stands at an address, and a node's forward pointer.
abbrev pub node_at : List Node → ℕ → Node
node_at nodes p = get_or nodes p no_node

abbrev pub entry_at : List Node → ℕ → Entry
entry_at nodes p = (node_at nodes p).entry

abbrev pub forward_at : List Node → ℕ → ℕ → Option ℕ
forward_at nodes p i = get_or (node_at nodes p).forward i none

unfoldable pub set_forward : ℕ → ℕ → Option ℕ → List Node → List Node
set_forward p i next nodes =
    set nodes p (record (node_at nodes p) { forward = set (node_at nodes p).forward i next })

unfoldable pub key_less : Entry → Bytes → ℕ → Bool
key_less e key seq = elim (compare_keys e.key key) [
  | Ordering.lt ↦ true
  | Ordering.gt ↦ false
  | Ordering.eq ↦ ltb seq e.seq
]

-- The walk to the right on a level. A level has no more nodes than the store, so the number of the
-- nodes is fuel enough.
unfoldable pub walk : ℕ → List Node → Bytes → ℕ → ℕ → ℕ → ℕ
walk zero nodes key seq i x = x
walk (suc fuel) nodes key seq i x = elim (forward_at nodes x i) [
  | none ↦ x
  | some next ↦
      let rest = walk fuel nodes key seq i next in
      if key_less (entry_at nodes next) key seq then rest else x
]

-- The loop over the levels below `n`, down to 0: the node it ends at, and `update`.
unfoldable pub descend : ℕ → List Node → Bytes → ℕ → ℕ → List ℕ → ℕ × List ℕ
unfolding walk
descend zero nodes key seq x update = (x, update)
descend (suc i) nodes key seq x update =
    let stop = walk (length nodes) nodes key seq i x in
    descend i nodes key seq stop (set update i stop)

-- The loop that links node `n` on `count` levels from `i` on.
unfoldable pub link : ℕ → ℕ → ℕ → List ℕ → List Node → List Node
unfolding set_forward
link zero i n update nodes = nodes
link (suc count) i n update nodes =
    let u = get_or update i head in
    link count (i + 1) n update
      (set_forward u i (some n) (set_forward n i (forward_at nodes u i) nodes))

-- What put and del have in common.
unfoldable pub insert_node : Memtable → Entry → ℕ → Memtable
unfolding descend link
insert_node m e lvl =
    let found = descend m.current_height m.nodes e.key e.seq head (replicate m.max_height head) in
    record m {
      nodes = link lvl 0 (length m.nodes) found.1 (m.nodes ++ (new_node e lvl ∷ []));
      current_height = if ltb m.current_height lvl then lvl else m.current_height;
    }

unfoldable pub put : Memtable → Bytes → Bytes → ℕ → ℕ → Memtable
put m key value seq lvl =
    let m₁ =
      insert_node m (record { key = key; value = value; tombstone = false; seq = seq }) lvl in
    record m₁ { approx_bytes = m.approx_bytes + (length key + length value + k_node_overhead) }

unfoldable pub del : Memtable → Bytes → ℕ → ℕ → Memtable
del m key seq lvl =
    let m₁ = insert_node m (record { key = key; value = []; tombstone = true; seq = seq }) lvl in
    record m₁ { approx_bytes = m.approx_bytes + (length key + k_node_overhead) }

-- The node that lookup and lower_bound come to.
unfoldable pub seek : Memtable → Bytes → ℕ → Option ℕ
unfolding descend
seek m key seq = forward_at m.nodes (descend m.current_height m.nodes key seq head []).0 0

-- What lookup says of the node it comes to.
unfoldable pub answer_at : List Node → Bytes → Option ℕ → LookupResult
answer_at nodes key none = record { status = LookupStatus.not_found; value = [] }
answer_at nodes key (some x) =
    let e = entry_at nodes x in
    if key_eq e.key key
    then (if e.tombstone
        then record { status = LookupStatus.deleted; value = [] }
        else record { status = LookupStatus.found; value = e.value })
    else record { status = LookupStatus.not_found; value = [] }

unfoldable pub lookup : Memtable → Bytes → ℕ → LookupResult
unfolding answer_at
lookup m key snapshot_seq = answer_at m.nodes key (seek m key snapshot_seq)

-- The entries that a RawIterator goes through from a node on.
unfoldable pub raw_from : ℕ → List Node → Option ℕ → List Entry
raw_from zero nodes at = []
raw_from (suc fuel) nodes none = []
raw_from (suc fuel) nodes (some x) = entry_at nodes x ∷ raw_from fuel nodes (forward_at nodes x 0)

unfoldable pub raw_entries : Memtable → List Entry
unfolding raw_from
raw_entries m = raw_from (length m.nodes) m.nodes (forward_at m.nodes head 0)

unfoldable pub raw_lower_bound : Memtable → Bytes → List Entry
unfolding seek raw_from
raw_lower_bound m key = raw_from (length m.nodes) m.nodes (seek m key (2 ^ 64 - 1))

-- Iterator's `++`: past every node of the current key.
unfoldable pub skip_key : ℕ → List Node → Bytes → Option ℕ → Option ℕ
skip_key zero nodes cur at = at
skip_key (suc fuel) nodes cur none = none
skip_key (suc fuel) nodes cur (some x) =
    let rest = skip_key fuel nodes cur (forward_at nodes x 0) in
    if key_eq (entry_at nodes x).key cur then rest else some x

-- The entries that an Iterator goes through from a node on.
unfoldable pub entries_from : ℕ → List Node → Option ℕ → List Entry
unfolding skip_key
entries_from zero nodes at = []
entries_from (suc fuel) nodes none = []
entries_from (suc fuel) nodes (some x) =
    entry_at nodes x
    ∷ entries_from fuel nodes
        (skip_key (length nodes) nodes (entry_at nodes x).key (forward_at nodes x 0))

unfoldable pub entries : Memtable → List Entry
unfolding entries_from
entries m = entries_from (length m.nodes) m.nodes (forward_at m.nodes head 0)

unfoldable pub lower_bound : Memtable → Bytes → List Entry
unfolding seek entries_from
lower_bound m key = entries_from (length m.nodes) m.nodes (seek m key (2 ^ 64 - 1))
