-- ===== src/RoutingSnapshot/Nearest.antt =====
-- src/routing_snapshot.rs: `closest_nodes` gives the nodes that are nearest to the target.
use dht_crawler.Base.{
  ◌++◌, Option, none, some, sym, ℕ, ◌==◌, Bool, true, false, List, [], ◌≡◌, refl, ap, ◌∙◌, take,
  arith, Bool-cases, inl, inr, All-take, if◌then◌else◌,
}
use mathlib.Core.List.Perm
use dht_crawler.Net.{NodeTuple}
use dht_crawler.RoutingSnapshot.{
  Nodes, append_nearest, RoutingSnapshot, family, from_nodes, closest_nodes, near_le, sort_by,
}
use dht_crawler.RoutingSnapshot.Sorting.{SortedBy}
use dht_crawler.RoutingSnapshot.Parting.{HasIds, IsNodeId}
use dht_crawler.RoutingSnapshot.Order.{
  distance_le, distance_le_total, distance_le_trans, near_le-distance_le, SortedBy-agree,
  sort_by-agree,
}
use dht_crawler.RoutingSnapshot.Distance.{All-append}
use dht_crawler.RoutingSnapshot.Merging.{
  merged, merged-SortedBy, merged-perm, take-merged, All-merged,
}
use dht_crawler.RoutingSnapshot.Answering.{Nearest}
use dht_crawler.RoutingSnapshot.Families.{index_of, index_of-Answers, family-perm}

-- The nodes that the filter lets through.
abbrev pub filtered : Option Bool → Nodes → Nodes
filtered none nodes = nodes
filtered (some ipv6) nodes = family ipv6 nodes

-- What is asked for where there is something to ask for.
at_count :
    (target : List ℕ) (count : ℕ) (ordered result : Nodes)
    → result ≡ take count ordered
    → (if count == 0 then [] else result) ≡ take count ordered
at_count target count ordered result h = elim (Bool-cases (count == 0)) [
  | inl nothing ↦
      let zero_count : count ≡ 0 = ground (arith, nothing) in rw (nothing, zero_count) refl
  | inr some_count ↦ rw some_count h
]

-- Twenty octets each way, so that both orders are one.
same_order :
    (target : List ℕ) (a b : NodeTuple)
    → IsNodeId a.id
    → IsNodeId b.id
    → near_le target a b ≡ distance_le target a b
same_order target a b ha hb = near_le-distance_le target a b (ha.0 ∙ sym hb.0)

-- The nodes of both families, given those of each in the order of the distance.
both-Nearest :
    (target : List ℕ) (count : ℕ) (xs ys : Nodes)
    → SortedBy (near_le target) xs
    → SortedBy (near_le target) ys
    → HasIds xs
    → HasIds ys
    → Nearest target count
        (xs ++ ys)
        (take count (sort_by (near_le target) (take count xs ++ take count ys)))
both-Nearest target count xs ys hx hy ids_x ids_y =
    let P : NodeTuple → Type 0 = λ node. IsNodeId node.id in
    let le = distance_le target in
    let total = distance_le_total target in
    let trans = distance_le_trans target in
    let there = SortedBy-agree P (near_le target) le (same_order target) in
    let back =
      SortedBy-agree P le (near_le target) (λ a b ha hb. sym (same_order target a b ha hb)) in
    let front = take count xs ++ take count ys in
    let front_ids =
      All-append P (take count xs) (take count ys) (All-take P count xs ids_x)
        (All-take P count ys ids_y) in
    (
      merged le total trans count xs ys,
      merged-perm le total trans count xs ys,
      back (merged le total trans count xs ys) (All-merged le total trans P count xs ys ids_x ids_y)
          (merged-SortedBy le total trans count xs ys (there xs ids_x hx) (there ys ids_y hy)),
      ap (take count) (sort_by-agree P (near_le target) le (same_order target) front front_ids).0
          ∙ sym (take-merged le total trans count xs ys),
    )

family_nearest :
    (target : List ℕ) (count : ℕ) (ipv6 : Bool) (snapshot : RoutingSnapshot)
    → closest_nodes target count (some ipv6) snapshot
      ≡ (if count == 0 then [] else (append_nearest target count (index_of ipv6 snapshot) []).0)
unfolding closest_nodes
family_nearest target count true snapshot = refl
family_nearest target count false snapshot = refl

-- A snapshot of given nodes, of which it takes at most `limit`, gives the first `count` of all the
-- nodes that it took and that the filter lets through, in the order of the XOR distance to the
-- target and then of the address, where the ids and the target have twenty octets each.
pub closest_nodes-Nearest :
    (target : List ℕ) (count : ℕ) (filter : Option Bool) (given : Nodes) (limit : ℕ)
    → HasIds given
    → IsNodeId target
    → Nearest target count
        (filtered filter (take limit given))
        (closest_nodes target count filter (from_nodes given limit))
unfolding closest_nodes
closest_nodes-Nearest target count (some ipv6) given limit ids ht =
    let (ordered, perm, sorted, kept_ids, result) =
      index_of-Answers target count ipv6 given limit ids ht in
    (
      ordered,
      perm,
      sorted,
      family_nearest target count ipv6 (from_nodes given limit)
          ∙ at_count target count ordered _ (result []),
    )
closest_nodes-Nearest target count none given limit ids ht =
    let (xs, perm_x, sorted_x, ids_x, result_x) =
      index_of-Answers target count false given limit ids ht in
    let (ys, perm_y, sorted_y, ids_y, result_y) =
      index_of-Answers target count true given limit ids ht in
    let snapshot = from_nodes given limit in
    let (ordered, perm, sorted, result) =
      both-Nearest target count xs ys sorted_x sorted_y ids_x ids_y in
    let gathered =
      ap (λ out. (append_nearest target count snapshot.v6 out).0) (result_x [])
      ∙ result_y (take count xs) in
    (
      ordered,
      Perm.trans perm (Perm.trans (Perm.append perm_x perm_y) (family-perm (take limit given))),
      sorted,
      at_count target count ordered _
          (ap (λ nodes. take count (sort_by (near_le target) nodes)) gathered ∙ result),
    )
