-- ===== src/RoutingSnapshot/Families.antt =====
-- src/routing_snapshot.rs: `from_nodes` makes an index of each family.
use dht_crawler.Base.{
  ◌++◌, sym, ℕ, suc, ◌+◌, ◌≤◌, ◌==◌, Bool, true, false, not, List, [], ◌∷◌, ◌≡◌, refl, ap, subst,
  length, take, arith, Bool-cases, All, inl, inr, All-take, if◌then◌else◌,
}
use mathlib.Core.List.{Perm}
use mathlib.Core.List.Perm
use dht_crawler.Net.{NodeTuple, is_ipv6}
use dht_crawler.RoutingSnapshot.{Nodes, PrefixIndex, new, RoutingSnapshot, family, from_nodes}
use dht_crawler.RoutingSnapshot.Parting.{HasIds, IsNodeId}
use mathlib.Core.List.{perm_middle}
use dht_crawler.RoutingSnapshot.Answering.{Answers, new-Answers, empty-Answers}

length-family :
    (nodes : Nodes) → length (family true nodes) + length (family false nodes) ≡ length nodes
unfolding family
length-family [] = omega arith
length-family (node ∷ nodes) = elim (Bool-cases (is_ipv6 node.addr)) [
  | inl ipv6 ↦ rw ipv6 (omega (arith, length-family nodes))
  | inr ipv4 ↦ rw ipv4 (omega (arith, length-family nodes))
]

abbrev in_family : Bool → NodeTuple → Bool
in_family ipv6 node = if ipv6 then is_ipv6 node.addr else not (is_ipv6 node.addr)

length-family_le : (ipv6 : Bool) (nodes : Nodes) → length (family ipv6 nodes) ≤ length nodes
length-family_le true nodes = omega (arith, length-family nodes)
length-family_le false nodes = omega (arith, length-family nodes)

family-kept :
    (ipv6 : Bool) (node : NodeTuple) (nodes : Nodes)
    → in_family ipv6 node ≡ true
    → length (family ipv6 (node ∷ nodes)) ≡ suc (length nodes)
    → length (family ipv6 nodes) ≡ length nodes
unfolding family
family-kept ipv6 node nodes same h = ground (arith, same, h)

family-dropped :
    (ipv6 : Bool) (node : NodeTuple) (nodes : Nodes)
    → in_family ipv6 node ≡ false
    → length (family ipv6 (node ∷ nodes)) ≡ suc (length nodes)
    → ⊥
unfolding family
family-dropped ipv6 node nodes other h = ground (arith, other, h, length-family_le ipv6 nodes)

-- A family that has as many nodes as there are is all of them.
family-all :
    (ipv6 : Bool) (nodes : Nodes)
    → length (family ipv6 nodes) ≡ length nodes
    → family ipv6 nodes ≡ nodes
unfolding family
family-all ipv6 [] h = refl
family-all ipv6 (node ∷ nodes) h = elim (Bool-cases (in_family ipv6 node)) [
  | inl same ↦ rw same (ap (◌∷◌ node) (family-all ipv6 nodes (family-kept ipv6 node nodes same h)))
  | inr other ↦ absurd (family-dropped ipv6 node nodes other h)
]

family-none :
    (ipv6 : Bool) (nodes : Nodes) → length (family ipv6 nodes) ≡ 0 → family ipv6 nodes ≡ []
family-none ipv6 nodes h = length-zero (family ipv6 nodes) h
  where
    length-zero : (xs : Nodes) → length xs ≡ 0 → xs ≡ []
    length-zero [] h = refl
    length-zero (x ∷ xs) h = absurd (omega arith)

All-family {κ} :
    (P : NodeTuple → Type κ) (ipv6 : Bool) (nodes : Nodes) → All P nodes → All P (family ipv6 nodes)
unfolding family
All-family P ipv6 [] h = tt
All-family P true (node ∷ nodes) h = elim (Bool-cases (is_ipv6 node.addr)) [
  | inl same ↦ rw same (h.0, All-family P true nodes h.1)
  | inr other ↦ rw other (All-family P true nodes h.1)
]
All-family P false (node ∷ nodes) h = elim (Bool-cases (is_ipv6 node.addr)) [
  | inl other ↦ rw other (All-family P false nodes h.1)
  | inr same ↦ rw same (h.0, All-family P false nodes h.1)
]

-- The families together are all the nodes.
pub family-perm : (nodes : Nodes) → Perm (family false nodes ++ family true nodes) nodes
unfolding family
family-perm [] = Perm.refl _
family-perm (node ∷ nodes) = elim (Bool-cases (is_ipv6 node.addr)) [
  | inl ipv6 ↦ rw ipv6 (
      Perm.trans (perm_middle (family false nodes) (family true nodes))
        (Perm.cons node (family-perm nodes)))
  | inr ipv4 ↦ rw ipv4 (Perm.cons node (family-perm nodes))
]

abbrev pub index_of : Bool → RoutingSnapshot → PrefixIndex
index_of ipv6 snapshot = if ipv6 then snapshot.v6 else snapshot.v4

all-Answers :
    (target : List ℕ) (count : ℕ) (nodes part : Nodes)
    → part ≡ nodes
    → HasIds nodes
    → IsNodeId target
    → Answers target count part (new nodes)
all-Answers target count nodes part same ids ht =
    subst (λ part. Answers target count part (new nodes)) (sym same)
      (new-Answers target count nodes ids ht)

-- The index of a family, in each of the ways that the snapshot is made.
pub index_of-Answers :
    (target : List ℕ) (count : ℕ) (ipv6 : Bool) (given : Nodes) (limit : ℕ)
    → HasIds given
    → IsNodeId target
    → Answers target count (family ipv6 (take limit given)) (index_of ipv6 (from_nodes given limit))
unfolding from_nodes
index_of-Answers target count true given limit ids ht =
    let nodes = take limit given in
    let ids' : HasIds nodes = All-take _ limit given ids in
    let v6_count = length (family true nodes) in
    elim (Bool-cases (v6_count == 0)) [
      | inl none_v6 ↦ rw none_v6 (
          empty-Answers target count (family true nodes)
            (family-none true nodes (ground (arith, none_v6))))
      | inr some_v6 ↦ elim (Bool-cases (v6_count == length nodes)) [
        | inl all_v6 ↦
            rw (some_v6, all_v6)
              (all-Answers target count nodes (family true nodes)
                (family-all true nodes (ground (arith, all_v6))) ids' ht)
        | inr both ↦
            rw (some_v6, both)
              (new-Answers target count (family true nodes) (All-family _ true nodes ids') ht)
      ]
    ]
index_of-Answers target count false given limit ids ht =
    let nodes = take limit given in
    let ids' : HasIds nodes = All-take _ limit given ids in
    let v6_count = length (family true nodes) in
    let total = length-family nodes in
    elim (Bool-cases (v6_count == 0)) [
      | inl none_v6 ↦ rw none_v6 (
          all-Answers target count nodes (family false nodes)
            (family-all false nodes (ground (arith, none_v6, total))) ids' ht)
      | inr some_v6 ↦ elim (Bool-cases (v6_count == length nodes)) [
        | inl all_v6 ↦
            rw (some_v6, all_v6)
              (empty-Answers target count (family false nodes)
                (family-none false nodes (ground (arith, all_v6, total))))
        | inr both ↦
            rw (some_v6, both)
              (new-Answers target count (family false nodes) (All-family _ false nodes ids') ht)
      ]
    ]
