-- ===== src/RoutingSnapshot/Sorting.antt =====
-- src/routing_snapshot.rs: `PrefixIndex::new` sorts the nodes by their ids and then by their addresses.
use dht_crawler.Base.{
  ℕ, zero, suc, ◌≤◌, Bool, true, false, [], ◌∷◌, ◌≡◌, refl, get_elem?, some, arith, Bool-cases, All,
  inl, inr, sym, subst, ◌∙◌,
}
use mathlib.Core.List.{Perm}
use mathlib.Core.List.Perm
use dht_crawler.Net.{NodeTuple, SocketAddr, IpAddr, v4, v6, ip_lt, addr_lt, octets_lt}
use dht_crawler.RoutingSnapshot.Slices.{some-injective}
use dht_crawler.RoutingSnapshot.{Nodes, node_le, sort_by, insert_by, later}
use dht_crawler.RoutingSnapshot.Ids.{octets_lt_irrefl, octets_lt_asym, octets_lt_trans}

-- A node is at most all those after it.
abbrev pub SortedBy : (NodeTuple → NodeTuple → Bool) → Nodes → Type 0
SortedBy le [] = Unit
SortedBy le (node ∷ nodes) = All (λ other. le node other ≡ true) nodes × SortedBy le nodes

pub All-get_elem? {κ} :
    (P : NodeTuple → Type κ) (nodes : Nodes) (i : ℕ) (node : NodeTuple)
    → All P nodes
    → get_elem? nodes i ≡ some node
    → P node
All-get_elem? P [] i node h found = absurd cc
All-get_elem? P (first ∷ nodes) zero node h found = subst P (some-injective found) h.0
All-get_elem? P (first ∷ nodes) (suc i) node h found = All-get_elem? P nodes i node h.1 found

ip_lt_irrefl : (a : IpAddr) → ip_lt a a ≡ false
unfolding ip_lt
ip_lt_irrefl (v4 a b c d) = octets_lt_irrefl (a ∷ b ∷ c ∷ d ∷ [])
ip_lt_irrefl (v6 octets) = octets_lt_irrefl octets

ip_lt_asym : (a b : IpAddr) → ip_lt a b ≡ true → ip_lt b a ≡ false
unfolding ip_lt
ip_lt_asym (v4 a b c d) (v4 a' b' c' d') h =
    octets_lt_asym (a ∷ b ∷ c ∷ d ∷ []) (a' ∷ b' ∷ c' ∷ d' ∷ []) h
ip_lt_asym (v4 a b c d) (v6 octets) h = refl
ip_lt_asym (v6 octets) (v4 a b c d) h = absurd cc
ip_lt_asym (v6 octets) (v6 octets') h = octets_lt_asym octets octets' h

ip_lt_trans : (a b c : IpAddr) → ip_lt b a ≡ false → ip_lt c b ≡ false → ip_lt c a ≡ false
unfolding ip_lt
ip_lt_trans (v4 a b c d) (v4 a' b' c' d') (v4 a'' b'' c'' d'') h1 h2 =
    octets_lt_trans (a ∷ b ∷ c ∷ d ∷ []) (a' ∷ b' ∷ c' ∷ d' ∷ []) (a'' ∷ b'' ∷ c'' ∷ d'' ∷ []) h1 h2
ip_lt_trans (v4 a b c d) (v6 octets) (v4 a'' b'' c'' d'') h1 h2 = absurd cc
ip_lt_trans (v4 a b c d) j (v6 octets'') h1 h2 = refl
ip_lt_trans (v6 octets) (v4 a b c d) k h1 h2 = absurd cc
ip_lt_trans (v6 octets) (v6 octets') (v4 a b c d) h1 h2 = absurd cc
ip_lt_trans (v6 octets) (v6 octets') (v6 octets'') h1 h2 =
    octets_lt_trans octets octets' octets'' h1 h2

addr_lt_irrefl : (a : SocketAddr) → addr_lt a a ≡ false
unfolding addr_lt
addr_lt_irrefl a = ground (arith, ip_lt_irrefl a.ip)

addr_lt_trans :
    (a b c : SocketAddr) → addr_lt b a ≡ false → addr_lt c b ≡ false → addr_lt c a ≡ false
unfolding addr_lt
addr_lt_trans a b c h1 h2 = ground (
  arith,
  h1,
  h2,
  ip_lt_trans a.ip b.ip c.ip,
  ip_lt_trans b.ip c.ip a.ip,
  ip_lt_trans c.ip a.ip b.ip,
  ip_lt_asym b.ip a.ip,
  ip_lt_asym c.ip b.ip,
)

addr_lt_asym : (a b : SocketAddr) → addr_lt a b ≡ true → addr_lt b a ≡ false
unfolding addr_lt
addr_lt_asym a b h = ground (arith, h, ip_lt_asym a.ip b.ip)

-- What the order of the sort says of the ids.
pub node_le-ids : (a b : NodeTuple) → node_le a b ≡ true → octets_lt b.id a.id ≡ false
node_le-ids a b h = elim (Bool-cases (octets_lt a.id b.id)) [
  | inl less ↦ octets_lt_asym a.id b.id less
  | inr not_less ↦ ground (arith, not_less, h)
]

node_le_refl : (a : NodeTuple) → node_le a a ≡ true
node_le_refl a = ground (arith, octets_lt_irrefl a.id, addr_lt_irrefl a.addr)

pub node_le_total : (a b : NodeTuple) → node_le a b ≡ false → node_le b a ≡ true
node_le_total a b h = ground (arith, h, octets_lt_asym a.id b.id, addr_lt_asym b.addr a.addr)

pub node_le_trans :
    (a b c : NodeTuple) → node_le a b ≡ true → node_le b c ≡ true → node_le a c ≡ true
node_le_trans a b c h1 h2 = ground (
  arith,
  h1,
  h2,
  octets_lt_trans b.id c.id a.id,
  octets_lt_trans c.id a.id b.id,
  octets_lt_trans a.id b.id c.id,
  addr_lt_trans a.addr b.addr c.addr,
  node_le-ids a b h1,
  node_le-ids b c h2,
)

pub All-insert_by {κ} :
    (P : NodeTuple → Type κ) (le : NodeTuple → NodeTuple → Bool) (node : NodeTuple) (nodes : Nodes)
    → P node
    → All P nodes
    → All P (insert_by le node nodes)
unfolding insert_by
All-insert_by P le node [] p h = (p, tt)
All-insert_by P le node (other ∷ nodes) p h = elim (Bool-cases (le node other)) [
  | inl first ↦ rw first (p, h)
  | inr later ↦ rw later (h.0, All-insert_by P le node nodes p h.1)
]

module _ (le : NodeTuple → NodeTuple → Bool)
    (total : (a b : NodeTuple) → le a b ≡ false → le b a ≡ true)
    (trans : (a b c : NodeTuple) → le a b ≡ true → le b c ≡ true → le a c ≡ true) where
  All-le :
      (a b : NodeTuple) (nodes : Nodes)
      → le a b ≡ true
      → All (λ other. le b other ≡ true) nodes
      → All (λ other. le a other ≡ true) nodes
  All-le a b [] h hs = tt
  All-le a b (node ∷ nodes) h hs = (trans a b node h hs.0, All-le a b nodes h hs.1)

  insert_by-SortedBy :
      (node : NodeTuple) (nodes : Nodes) → SortedBy le nodes → SortedBy le (insert_by le node nodes)
  unfolding insert_by
  insert_by-SortedBy node [] h = (tt, tt)
  insert_by-SortedBy node (other ∷ nodes) h = elim (Bool-cases (le node other)) [
    | inl first ↦ rw first ((first, All-le node other nodes first h.0), h)
    | inr after ↦ rw after (
      All-insert_by (λ n. le other n ≡ true) le node nodes (total node other after) h.0,
      insert_by-SortedBy node nodes h.1,
    )
  ]

  pub sort_by-SortedBy : (nodes : Nodes) → SortedBy le (sort_by le nodes)
  unfolding sort_by
  sort_by-SortedBy [] = tt
  sort_by-SortedBy (node ∷ nodes) =
      insert_by-SortedBy node (sort_by le nodes) (sort_by-SortedBy nodes)

-- The order of the index.
abbrev pub IsOrdered : Nodes → Type 0
IsOrdered = SortedBy node_le

pub sort_by-IsOrdered : (nodes : Nodes) → IsOrdered (sort_by node_le nodes)
sort_by-IsOrdered = sort_by-SortedBy node_le node_le_total node_le_trans

pub IsOrdered-lem :
    (nodes : Nodes) (i j : ℕ) (a b : NodeTuple)
    → IsOrdered nodes
    → get_elem? nodes i ≡ some a
    → get_elem? nodes j ≡ some b
    → i ≤ j
    → node_le a b ≡ true
IsOrdered-lem [] i j a b h at_i at_j le = absurd cc
IsOrdered-lem (node ∷ nodes) zero zero a b h at_i at_j le =
    let same : a ≡ b = some-injective (sym at_i ∙ at_j) in
    subst (λ b. node_le a b ≡ true) same (node_le_refl a)
IsOrdered-lem (node ∷ nodes) zero (suc j) a b h at_i at_j le =
    let same : node ≡ a = some-injective at_i in
    subst (λ a. node_le a b ≡ true) same (All-get_elem? _ nodes j b h.0 at_j)
IsOrdered-lem (node ∷ nodes) (suc i) zero a b h at_i at_j le = absurd (omega arith)
IsOrdered-lem (node ∷ nodes) (suc i) (suc j) a b h at_i at_j le =
    IsOrdered-lem nodes i j a b h.1 at_i at_j (omega arith)

pub All-sort_by {κ} :
    (P : NodeTuple → Type κ) (le : NodeTuple → NodeTuple → Bool) (nodes : Nodes)
    → All P nodes
    → All P (sort_by le nodes)
unfolding sort_by
All-sort_by P le [] h = tt
All-sort_by P le (node ∷ nodes) h =
    All-insert_by P le node (sort_by le nodes) h.0 (All-sort_by P le nodes h.1)

insert_by-perm :
    (le : NodeTuple → NodeTuple → Bool) (node : NodeTuple) (nodes : Nodes)
    → Perm (insert_by le node nodes) (node ∷ nodes)
unfolding insert_by
insert_by-perm le node [] = Perm.refl _
insert_by-perm le node (other ∷ nodes) = elim (Bool-cases (le node other)) [
  | inl first ↦ rw first (Perm.refl _)
  | inr later ↦
      rw later
        (Perm.trans (Perm.cons other (insert_by-perm le node nodes)) (Perm.swap node other nodes))
]

-- A sort gives the nodes in another order.
pub sort_by-perm :
    (le : NodeTuple → NodeTuple → Bool) (nodes : Nodes) → Perm (sort_by le nodes) nodes
unfolding sort_by
sort_by-perm le [] = Perm.refl _
sort_by-perm le (node ∷ nodes) =
    Perm.trans (insert_by-perm le node (sort_by le nodes)) (Perm.cons node (sort_by-perm le nodes))
