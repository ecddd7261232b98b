-- ===== src/Desired/Lookup.antt =====
-- What the lookups of a snapshot return.
use edge_route_gw.Prelude.{
  String, List, [], ◌∷◌, Option, none, some, ◌≡◌, ◌≢◌, refl, sym, true, arith, eq_iff, ◌⊎◌, inl,
  inr, not, all, length, Bool-cases, keep-mem,
}
use mathlib.Core.List.{Memᴰ}
use edge_route_gw.Model.{Node}
use edge_route_gw.Desired.{
  Snapshot, find_node, node_of, enabled_nodes, flagged, default_node, only, or_else,
}

find_node-id : (id : String) (ns : List Node) (n : Node) → find_node id ns ≡ some n → n.id ≡ id
unfolding find_node
find_node-id id [] n h = cc
find_node-id id (m ∷ ns) n h = ground (arith, eq_iff m.id id, find_node-id id ns n)

-- A node that is found bears the id that was asked for.
pub node_of-id : (s : Snapshot) (id : String) (n : Node) → node_of s id ≡ some n → n.id ≡ id
unfolding node_of
node_of-id s id n h = find_node-id id s.nodes n h

flagged-mem : (ns : List Node) (n : Node) → flagged ns ≡ some n → Memᴰ n ns × (n.is_default ≡ true)
unfolding flagged
flagged-mem [] n h = cc
flagged-mem (m ∷ ns) n h = elim (Bool-cases m.is_default) [
  | inl yes' ↦ let e : m ≡ n = ground arith in (Memᴰ.head (sym e), ground arith)
  | inr no' ↦ let (found, e) = flagged-mem ns n (ground arith) in (Memᴰ.tail found, e)
]

flagged-none : (ns : List Node) → flagged ns ≡ none → all (λ n. not n.is_default) ns ≡ true
unfolding flagged
flagged-none [] h = refl
flagged-none (m ∷ ns) h = ground (arith, flagged-none ns)

only-eq : (ns : List Node) (n : Node) → only ns ≡ some n → ns ≡ n ∷ []
only-eq [] n h = cc
only-eq (m ∷ []) n h = cc
only-eq (m ∷ k ∷ ns) n h = cc

only-none : (ns : List Node) → only ns ≡ none → length ns ≢ 1
only-none [] h = omega arith
only-none (m ∷ []) h = absurd (cc)
only-none (m ∷ k ∷ ns) h = omega arith

or_else-some : (a b : Option Node) (n : Node) → or_else a b ≡ some n → (a ≡ some n) ⊎ (b ≡ some n)
or_else-some (some m) b n h = inl h
or_else-some none b n h = inr h

-- The default node is an enabled node of the snapshot, and is flagged or the only enabled one.
pub default_node_sound :
    (s : Snapshot) (n : Node)
    → default_node s ≡ some n
    → Memᴰ n s.nodes × (n.enabled ≡ true) × ((n.is_default ≡ true) ⊎ (enabled_nodes s ≡ n ∷ []))
unfolding default_node
default_node_sound s n h = elim (or_else-some _ _ n h) [
  | inl f ↦
      let (m, d) = flagged-mem (enabled_nodes s) n f in
      let (k, e) = keep-mem (λ n. n.enabled) s.nodes n m in (k, e, inl d)
  | inr o ↦
      let single = only-eq (enabled_nodes s) n o in
      let (k, e) = keep-mem (λ n. n.enabled) s.nodes n (rw single (Memᴰ.head refl)) in
      (k, e, inr single)
]

-- There is no default node only if no enabled node is flagged, and there is not just one of them.
pub default_node-none :
    (s : Snapshot)
    → default_node s ≡ none
    → (all (λ n. not n.is_default) (enabled_nodes s) ≡ true) × (length (enabled_nodes s) ≢ 1)
unfolding default_node
default_node-none s h =
    (flagged-none (enabled_nodes s) (ground arith), only-none (enabled_nodes s) (ground arith))
