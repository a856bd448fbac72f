-- ===== src/Db/Levels.antt =====
-- The search of DB::get_impl for the one covering file of a level finds what asking every file
-- of the level finds.
use keystone_db.Prelude.{
  ℕ, ◌≡◌, refl, sym, List, [], ◌∷◌, arith, none, some, true, false, Bool-cases, Option-cases, inl,
  inr, All, All-map, drop,
}
use keystone_db.Prelude.Keys.{
  Bytes, key_lt, key_le, key_le_of_not_lt, key_lt_trans, key_lt_of_not_le, key_lt_le_trans,
}
use keystone_db.Sstable.{LookupResult}
use keystone_db.Sstable.Reader.{result, nothing, table_may_contain, table_get}
use keystone_db.Db.{FileMeta, Version, files_at}
use keystone_db.Db.Get.{
  Answer, or_next, file_get, covering, search_l0, search_level, search_levels, get_impl, IsFile,
  IsLevel, AreLevels, ask_back, ask_each, ask_levels,
}

-- The filter is asked in `get` too.
file_get-table_get :
    (key : Bytes) (s : ℕ) (fm : FileMeta) → file_get key s fm ≡ table_get fm.table key s
unfolding file_get table_get
file_get-table_get key s fm = elim (Bool-cases (table_may_contain fm.table key)) [
  | inl t ↦ rw t refl
  | inr t ↦ rw t refl
]

or_next-nothing : (next : Answer) → or_next (result nothing) next ≡ next
unfolding or_next
or_next-nothing next = refl

search_l0-ask_back :
    (key : Bytes) (s : ℕ) (files : List FileMeta) (next : Answer)
    → search_l0 key s files next ≡ ask_back key s files next
unfolding search_l0 ask_back
search_l0-ask_back key s [] next = refl
search_l0-ask_back key s (fm ∷ files) next =
    rw (file_get-table_get key s fm) (search_l0-ask_back key s files _)

-- Where every file begins above the key, none of them answers.
ask_each-above :
    (key : Bytes) (s : ℕ) (files : List FileMeta) (next : Answer)
    → IsLevel files
    → All (λ g. key_lt key g.smallest_key ≡ true) files
    → ask_each key s files next ≡ next
unfolding ask_each IsLevel
ask_each-above key s [] next h a = refl
ask_each-above key s (fm ∷ files) next (hf, (apart, hs)) (below, as') =
    rw (hf.outside key s (inl below), or_next-nothing (ask_each key s files next))
      (ask_each-above key s files next hs as')

covering-All :
    (P : FileMeta → Type 0) (key : Bytes) (files : List FileMeta) (g : FileMeta)
    → covering key files ≡ some g
    → All P files
    → P g × (key_lt key g.smallest_key ≡ false)
unfolding covering
covering-All P key [] g e h = absurd (ground arith)
covering-All P key (fm ∷ files) g e (hf, hs) = elim (Bool-cases (key_lt key fm.smallest_key)) [
  | inl below ↦ absurd (ground arith)
  | inr at ↦ elim (Option-cases (covering key files)) [
    | inl alone ↦ let q : fm ≡ g = ground arith in rw (← q) (hf, at)
    | inr (x, later) ↦
        let q : covering key files ≡ some g = ground arith in covering-All P key files g q hs
  ]
]

above_all :
    (key : Bytes) (fm : FileMeta) (files : List FileMeta)
    → IsFile fm
    → key_lt key fm.smallest_key ≡ true
    → All (λ g. key_lt fm.largest_key g.smallest_key ≡ true) files
    → All (λ g. key_lt key g.smallest_key ≡ true) files
above_all key fm files hf below apart =
    let under = key_lt_le_trans key fm.smallest_key fm.largest_key below hf.range in
    All-map (λ (g : FileMeta). key_lt fm.largest_key g.smallest_key ≡ true)
      (λ g. key_lt key g.smallest_key ≡ true)
      (λ g a. key_lt_trans key fm.largest_key g.smallest_key under a) files apart

-- If no later file is chosen, all of them begin above the key.
covering-none :
    (key : Bytes) (files : List FileMeta)
    → IsLevel files
    → covering key files ≡ none
    → All (λ g. key_lt key g.smallest_key ≡ true) files
unfolding covering IsLevel
covering-none key [] h e = tt
covering-none key (fm ∷ files) (hf, (apart, hs)) e =
    elim (Bool-cases (key_lt key fm.smallest_key)) [
      | inl below ↦ (below, above_all key fm files hf below apart)
      | inr at ↦ elim (Option-cases (covering key files)) [
        | inl alone ↦ absurd (ground arith)
        | inr (x, later) ↦ absurd (ground arith)
      ]
    ]

covering-first :
    (key : Bytes) (fm : FileMeta) (files : List FileMeta)
    → (key_lt key fm.smallest_key ≡ true → covering key (fm ∷ files) ≡ none)
      × ((key_lt key fm.smallest_key ≡ false)
          → covering key files ≡ none
          → covering key (fm ∷ files) ≡ some fm)
unfolding covering
covering-first key fm files = (λ below. rw below refl, λ at alone. rw (at, alone) refl)

covering_later :
    (key : Bytes) (fm g : FileMeta) (files : List FileMeta)
    → key_lt key fm.smallest_key ≡ false
    → covering key files ≡ some g
    → covering key (fm ∷ files) ≡ some g
unfolding covering
covering_later key fm g files at later = rw (at, later) refl

-- In a level the file that the search chooses is the only one that can answer.
search_level-ask_each :
    (key : Bytes) (s : ℕ) (files : List FileMeta) (next : Answer)
    → IsLevel files
    → search_level key s files next ≡ ask_each key s files next
unfolding search_level ask_each IsLevel
search_level-ask_each key s [] next h = unfold covering in refl
search_level-ask_each key s (fm ∷ files) next (hf, (apart, hs)) =
    elim (Bool-cases (key_lt key fm.smallest_key)) [
      | inl below ↦
          rw
            (
              search_level,
              (covering-first key fm files).0 below,
              hf.outside key s (inl below),
              or_next-nothing (ask_each key s files next),
            )
            (sym (ask_each-above key s files next hs (above_all key fm files hf below apart)))
      | inr at ↦ elim (Option-cases (covering key files)) [
        | inl alone ↦
            let rest = ask_each-above key s files next hs (covering-none key files hs alone) in
            let here = (covering-first key fm files).1 at alone in
            elim (Bool-cases (key_le key fm.largest_key)) [
              | inl inside ↦ rw (search_level, here, inside, rest, file_get-table_get key s fm) refl
              | inr past ↦
                  let out = hf.outside key s (inr (key_lt_of_not_le key fm.largest_key past)) in
                  rw (search_level, here, past, rest, out, or_next-nothing next) refl
            ]
        | inr (g, later) ↦
            let (apart_g, ge) =
              covering-All (λ (x : FileMeta). key_lt fm.largest_key x.smallest_key ≡ true) key files
                g later apart in
            let out = hf.outside key s (
              inr (
                key_lt_le_trans fm.largest_key g.smallest_key key apart_g
                  (key_le_of_not_lt key g.smallest_key ge))) in
            let ih = search_level-ask_each key s files next hs in
            rw
              (
                search_level,
                covering_later key fm g files at later,
                out,
                or_next-nothing (ask_each key s files next),
              )
              (rw (search_level, later) at ih)
      ]
    ]

search_levels-ask_levels :
    (key : Bytes) (s : ℕ) (levels : List (List FileMeta))
    → AreLevels levels
    → search_levels key s levels ≡ ask_levels key s levels
unfolding search_levels ask_levels AreLevels
search_levels-ask_levels key s [] h = refl
search_levels-ask_levels key s (files ∷ levels) (h, hs) =
    rw
      (
        search_level-ask_each key s files (search_levels key s levels) h,
        search_levels-ask_levels key s levels hs,
      )
      refl

-- If in every level but 0 the files follow each other and a table says nothing of keys outside
-- its file's range, get_impl answers what asking the memtable, every file of level 0 from the last
-- on, and every file of every further level would.
pub get_impl-ask :
    (memtable_result : LookupResult) (ver : Version) (key : Bytes) (snap_seq : ℕ)
    → AreLevels (drop 1 ver.files)
    → get_impl memtable_result ver key snap_seq
      ≡ or_next
          (result memtable_result)
          (ask_back key snap_seq (files_at ver 0) (ask_levels key snap_seq (drop 1 ver.files)))
unfolding get_impl
get_impl-ask memtable_result ver key snap_seq h =
    rw
      (
        search_levels-ask_levels key snap_seq (drop 1 ver.files) h,
        search_l0-ask_back key snap_seq (files_at ver 0)
            (ask_levels key snap_seq (drop 1 ver.files)),
      )
      refl
