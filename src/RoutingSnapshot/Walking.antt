-- ===== src/RoutingSnapshot/Walking.antt =====
-- src/routing_snapshot.rs: the nodes of a trie in the order in which `PrefixIndex::visit` comes to them,
-- which is that of the distance.
use dht_crawler.Base.{
  ℕ, zero, suc, ◌+◌, ◌-◌, ◌*◌, ◌≤◌, ◌<◌, ◌==◌, Bool, true, false, List, [], ◌∷◌, ◌++◌, ◌≡◌, refl,
  sym, subst, ◌∙◌, length, get_elem?, take, drop, some, arith, Bool-cases, All, inl, inr, All-take,
  length-take, length-append, if◌then◌else◌,
}
use mathlib.Core.Path.{ap₂}
use Prim.Native.Nat.{lt, eq}
use mathlib.Core.List.{Perm, perm_append_comm}
use mathlib.Core.List.Perm
use dht_crawler.Net.{NodeTuple, octets_lt}
use dht_crawler.RoutingSnapshot.{
  Nodes, Branches, slice, id_at, bit_clear, node_le, near_le, xor_distance_cmp,
}
use dht_crawler.RoutingSnapshot.Ids.{octets_lt_irrefl}
use dht_crawler.RoutingSnapshot.Sorting.{SortedBy, IsOrdered, All-get_elem?}
use dht_crawler.RoutingSnapshot.Distance.{SortedBy-append, xor_distance_cmp-same, All-append}
use dht_crawler.RoutingSnapshot.Slices.{slice-append}
use dht_crawler.RoutingSnapshot.Parting.{
  HasIds, IsNodeId, bit_value, bit_clear-bit_value, Parted-clear, Parted-set, not_clear,
}
use dht_crawler.RoutingSnapshot.Building.{Covers, at_leaf, at_split, Covers-range}

-- The nodes of a range in the order in which they are visited: the part with the bit of the target
-- first.
unfoldable pub walk :
    {nodes : Nodes} {branches : Branches} {position start end : ℕ}
    → List ℕ
    → Covers nodes branches position start end
    → Nodes
walk {nodes} {start} {end} target (at_leaf found h same) = slice start end nodes
walk target (at_split middle byte place z o found l1 l2 hp divides c1 c2) =
    let low = walk target c1 in
    let high = walk target c2 in
    if bit_clear (byte * 8 + place) target then low ++ high else high ++ low

All-take-drop {κ} :
    (P : NodeTuple → Type κ) (count start : ℕ) (nodes : Nodes)
    → ((i : ℕ) (c : NodeTuple) → start ≤ i → i < start + count → get_elem? nodes i ≡ some c → P c)
    → All P (take count (drop start nodes))
All-take-drop P zero zero nodes holds = tt
All-take-drop P zero (suc start) [] holds = tt
All-take-drop P zero (suc start) (node ∷ nodes) holds = tt
All-take-drop P (suc count) zero [] holds = tt
All-take-drop P (suc count) zero (node ∷ nodes) holds = (
  holds 0 node (omega arith) (omega arith) refl,
  All-take-drop P count zero nodes (λ i c h1 h2 at. holds (suc i) c (omega arith) (omega arith) at),
)
All-take-drop P (suc count) (suc start) [] holds = tt
All-take-drop P (suc count) (suc start) (node ∷ nodes) holds =
    All-take-drop P (suc count) start nodes
      (λ i c h1 h2 at. holds (suc i) c (omega arith) (omega arith) at)

All-slice {κ} :
    (P : NodeTuple → Type κ) (start end : ℕ) (nodes : Nodes)
    → ((i : ℕ) (c : NodeTuple) → start ≤ i → i < end → get_elem? nodes i ≡ some c → P c)
    → All P (slice start end nodes)
All-slice P start end nodes holds =
    All-take-drop P (end - start) start nodes
      (λ i c h1 h2 at. holds i c h1 (omega (arith, h1, h2)) at)

SortedBy-drop :
    (le : NodeTuple → NodeTuple → Bool) (n : ℕ) (nodes : Nodes)
    → SortedBy le nodes
    → SortedBy le (drop n nodes)
SortedBy-drop le zero nodes h = h
SortedBy-drop le (suc n) [] h = tt
SortedBy-drop le (suc n) (node ∷ nodes) h = SortedBy-drop le n nodes h.1

SortedBy-take :
    (le : NodeTuple → NodeTuple → Bool) (n : ℕ) (nodes : Nodes)
    → SortedBy le nodes
    → SortedBy le (take n nodes)
SortedBy-take le zero nodes h = tt
SortedBy-take le (suc n) [] h = tt
SortedBy-take le (suc n) (node ∷ nodes) h = (All-take _ n nodes h.0, SortedBy-take le n nodes h.1)

-- Of nodes with one id, the address decides in either order.
near_le-same :
    (target id : List ℕ) (a b : NodeTuple)
    → a.id ≡ id
    → b.id ≡ id
    → node_le a b ≡ true
    → near_le target a b ≡ true
near_le-same target id a b ha hb h =
    let nearness : xor_distance_cmp a.id b.id target ≡ eq =
      ap₂ (λ x y. xor_distance_cmp x y target) ha hb ∙ xor_distance_cmp-same id target in
    let order : octets_lt a.id b.id ≡ false = ap₂ octets_lt ha hb ∙ octets_lt_irrefl id in
    rw nearness (ground (arith, order, h))

SortedBy-near :
    (target id : List ℕ) (nodes : Nodes)
    → SortedBy node_le nodes
    → All (λ node. node.id ≡ id) nodes
    → SortedBy (near_le target) nodes
SortedBy-near target id [] h same = tt
SortedBy-near target id (node ∷ nodes) h same =
    (All-near target id node nodes same.0 h.0 same.1, SortedBy-near target id nodes h.1 same.1)
  where
    All-near :
        (target id : List ℕ) (node : NodeTuple) (nodes : Nodes)
        → node.id ≡ id
        → All (λ other. node_le node other ≡ true) nodes
        → All (λ other. other.id ≡ id) nodes
        → All (λ other. near_le target node other ≡ true) nodes
    All-near target id node [] same h hs = tt
    All-near target id node (other ∷ nodes) same h hs = (
      near_le-same target id node other same hs.0 h.0,
      All-near target id node nodes same h.1 hs.1,
    )

nearer-near_le :
    (target : List ℕ) (a b : NodeTuple)
    → xor_distance_cmp a.id b.id target ≡ lt
    → near_le target a b ≡ true
nearer-near_le target a b h = rw h

module _ (target : List ℕ) where
  pub walk-perm :
      {nodes : Nodes} {branches : Branches} {position start end : ℕ}
      (covers : Covers nodes branches position start end)
      → Perm (walk target covers) (slice start end nodes)
  unfolding walk
  walk-perm (at_leaf found h same) = Perm.refl _
  walk-perm {nodes} {start} {end} (at_split middle byte place z o found l1 l2 hp divides c1 c2) =
      let low = walk target c1 in
      let high = walk target c2 in
      let both : Perm (low ++ high) (slice start end nodes) =
        subst (Perm (low ++ high))
          (slice-append start middle end nodes (omega (arith, Covers-range c1))
            (omega (arith, Covers-range c2)))
          (Perm.append (walk-perm c1) (walk-perm c2)) in
      elim (Bool-cases (bit_clear (byte * 8 + place) target)) [
        | inl clear ↦ rw clear both
        | inr set ↦ rw set (Perm.trans (perm_append_comm high low) both)
      ]

  clear_value :
      (byte place : ℕ)
      → place < 8
      → IsNodeId target
      → bit_clear (byte * 8 + place) target ≡ true
      → bit_value byte place target ≡ 0
  clear_value byte place hp ht clear =
      let value : (bit_value byte place target == 0) ≡ true =
        sym (bit_clear-bit_value byte place target hp ht) ∙ clear in
      ground (arith, value)

  set_value :
      (byte place : ℕ)
      → place < 8
      → IsNodeId target
      → bit_clear (byte * 8 + place) target ≡ false
      → bit_value byte place target ≡ 1
  set_value byte place hp ht set =
      not_clear _ (sym (bit_clear-bit_value byte place target hp ht) ∙ set)

  -- What holds of the nodes of the range holds of those visited.
  pub All-walk :
      {nodes : Nodes} {branches : Branches} {position start end : ℕ} (P : NodeTuple → Type 0)
      (covers : Covers nodes branches position start end)
      → ((i : ℕ) (c : NodeTuple) → start ≤ i → i < end → get_elem? nodes i ≡ some c → P c)
      → All P (walk target covers)
  unfolding walk
  All-walk {nodes} {start} {end} P (at_leaf found h same) holds = All-slice P start end nodes holds
  All-walk P (at_split middle byte place z o found l1 l2 hp d c1 c2) holds =
      let low =
        All-walk P c1 (λ i c h1 h2 at. holds i c h1 (omega (arith, h2, Covers-range c2)) at) in
      let high =
        All-walk P c2 (λ i c h1 h2 at. holds i c (omega (arith, h1, Covers-range c1)) h2 at) in
      elim (Bool-cases (bit_clear (byte * 8 + place) target)) [
        | inl clear ↦ rw clear (All-append P (walk target c1) (walk target c2) low high)
        | inr set ↦ rw set (All-append P (walk target c2) (walk target c1) high low)
      ]

  -- In the order of the distance.
  pub walk-SortedBy :
      {nodes : Nodes} {branches : Branches} {position start end : ℕ}
      (covers : Covers nodes branches position start end)
      → IsOrdered nodes
      → HasIds nodes
      → IsNodeId target
      → SortedBy (near_le target) (walk target covers)
  unfolding walk
  walk-SortedBy {nodes} {start} {end} (at_leaf found h same) ordered ids ht =
      SortedBy-near target (id_at nodes start) (slice start end nodes)
        (SortedBy-take node_le (end - start) (drop start nodes)
          (SortedBy-drop node_le start nodes ordered))
        (All-slice (λ node. node.id ≡ id_at nodes start) start end nodes same)
  walk-SortedBy {nodes} {start} {end} (at_split middle byte place z o found l1 l2 hp d c1 c2)
        ordered ids ht =
      let low = walk-SortedBy c1 ordered ids ht in
      let high = walk-SortedBy c2 ordered ids ht in
      let ok : (i : ℕ) (c : NodeTuple) → get_elem? nodes i ≡ some c → IsNodeId c.id =
        λ i c at. All-get_elem? (λ node. IsNodeId node.id) nodes i c ids at in
      elim (Bool-cases (bit_clear (byte * 8 + place) target)) [
        | inl clear ↦
            let value = clear_value byte place hp ht clear in
            rw clear (
              SortedBy-append (near_le target) (walk target c1) (walk target c2) low high (
                All-walk _ c1 (λ i c h1 h2 at_i. All-walk _ c2 (λ j e h3 h4 at_j.
                  nearer-near_le target c e (
                    Parted-clear byte place c.id e.id target (d i j c e h1 h2 h3 h4 at_i at_j)
                      (ok i c at_i) (ok j e at_j) ht value)))))
        | inr set ↦
            let value = set_value byte place hp ht set in
            rw set (
              SortedBy-append (near_le target) (walk target c2) (walk target c1) high low (
                All-walk _ c2 (λ j e h3 h4 at_j. All-walk _ c1 (λ i c h1 h2 at_i.
                  nearer-near_le target e c (
                    Parted-set byte place c.id e.id target (d i j c e h1 h2 h3 h4 at_i at_j)
                      (ok i c at_i) (ok j e at_j) ht value)))))
      ]

pub length-walk :
    (target : List ℕ) {nodes : Nodes} {branches : Branches} {position start end : ℕ}
    (covers : Covers nodes branches position start end)
    → length (walk target covers) ≤ end - start
unfolding walk
length-walk target {nodes} {start} {end} (at_leaf found h same) =
    omega (arith, length-take (end - start) (drop start nodes))
length-walk target (at_split middle byte place z o found l1 l2 hp d c1 c2) =
    let low = length-walk target c1 in
    let high = length-walk target c2 in
    let before = Covers-range c1 in
    let after = Covers-range c2 in
    elim (Bool-cases (bit_clear (byte * 8 + place) target)) [
      | inl clear ↦
          rw clear (
            omega
              (arith, length-append (walk target c1) (walk target c2), low, high, before, after))
      | inr set ↦
          rw set (
            omega
              (arith, length-append (walk target c2) (walk target c1), low, high, before, after))
    ]
