-- ===== src/Memtable/Store.antt =====
-- Writing forward pointers: what a write and the linking loop change in the store.
use keystone_db.Prelude.{
  ℕ, ◌<◌, ◌≡◌, ◌≢◌, refl, ap, ◌∙◌, List, arith, ◌&&◌, Option, none, Bool-cases, inl, inr, length,
  get_or, set, get_or-set_self, get_or-set_ne, length-set, ◌==◌, if◌then◌else◌,
}
use keystone_db.Memtable.{Node, no_node, node_at, entry_at, forward_at, set_forward}
use keystone_db.Memtable.Search.{height_at}

-- A write changes one pointer of one node, and neither the entries nor the heights.
module _ (p i : ℕ) (v : Option ℕ) (nodes : List Node) where
  pub length-set_forward : length (set_forward p i v nodes) ≡ length nodes
  unfolding set_forward
  length-set_forward = length-set nodes p _

  node_at-set_forward :
      p < length nodes
      → (q : ℕ)
      → node_at (set_forward p i v nodes) q ≡ (
          if p == q
          then (record (node_at nodes p) { forward = set (node_at nodes p).forward i v })
          else node_at nodes q)
  unfolding set_forward
  node_at-set_forward inside q = elim (Bool-cases (p == q)) [
    | inl same ↦
        let e : p ≡ q = ground arith in rw (same, ← e) (get_or-set_self nodes p _ no_node inside)
    | inr other ↦
        let ne : p ≢ q = λ e. absurd (ground (arith, e, other)) in
        rw other (get_or-set_ne nodes p q _ no_node ne)
  ]

  pub entry_at-set_forward :
      p < length nodes → (q : ℕ) → entry_at (set_forward p i v nodes) q ≡ entry_at nodes q
  entry_at-set_forward inside q = elim (Bool-cases (p == q)) [
    | inl same ↦
        let e : p ≡ q = ground arith in
        ap (λ (n : Node). n.entry) (node_at-set_forward inside q) ∙ (rw (same, e) refl)
    | inr other ↦ ap (λ (n : Node). n.entry) (node_at-set_forward inside q) ∙ (rw other refl)
  ]

  pub height_at-set_forward :
      p < length nodes → (q : ℕ) → height_at (set_forward p i v nodes) q ≡ height_at nodes q
  height_at-set_forward inside q = elim (Bool-cases (p == q)) [
    | inl same ↦
        let e : p ≡ q = ground arith in
        ap (λ (n : Node). length n.forward) (node_at-set_forward inside q)
        ∙ (rw (same, e) (length-set (node_at nodes q).forward i v))
    | inr other ↦
        ap (λ (n : Node). length n.forward) (node_at-set_forward inside q) ∙ (rw other refl)
  ]

  pub forward_at-set_forward :
      p < length nodes
      → i < height_at nodes p
      → (q j : ℕ)
      → forward_at (set_forward p i v nodes) q j
        ≡ (if (p == q) && (i == j) then v else forward_at nodes q j)
  forward_at-set_forward inside tall q j = elim (Bool-cases (p == q)) [
    | inr other ↦
        ap (λ (n : Node). get_or n.forward j none) (node_at-set_forward inside q) ∙ (rw other refl)
    | inl same ↦
        let e : p ≡ q = ground arith in
        ap (λ (n : Node). get_or n.forward j none) (node_at-set_forward inside q)
        ∙ (rw same (elim (Bool-cases (i == j)) [
          | inl here ↦
              let e' : i ≡ j = ground arith in
              rw (here, ← e') (get_or-set_self (node_at nodes p).forward i v none tall)
          | inr there ↦
              let ne : i ≢ j = λ k. absurd (ground (arith, k, there)) in
              rw (there, ← e) (get_or-set_ne (node_at nodes p).forward i j v none ne)
        ]))
  ]
