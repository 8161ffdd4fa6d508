-- ===== src/RoutingSnapshot/Tests.antt =====
-- src/routing_snapshot.rs at concrete nodes.
use dht_crawler.Base.{
  ℕ, zero, suc, ◌<◌, false, List, [], ◌∷◌, ◌++◌, ◌≡◌, refl, replicate, none, some, arith, All,
}
use dht_crawler.Net.{NodeTuple, v4, v6, octets_lt, ip_lt, addr_lt, is_ipv6, ip_is_ipv6, IsByte}
use dht_crawler.RoutingSnapshot.{
  Nodes, sort_by, insert_by, first_difference, leading_zeros, partition_point, build, built, new,
  visit, append_from, append_nearest, xor_distance_cmp, family, from_nodes, closest_nodes,
}
use dht_crawler.RoutingSnapshot.Parting.{HasIds, IsNodeId}
use dht_crawler.RoutingSnapshot.Answering.{Nearest}
use dht_crawler.RoutingSnapshot.Nearest.{closest_nodes-Nearest}

abbrev id_of_octet : ℕ → List ℕ
id_of_octet n = replicate 20 n

-- A node of IPv4 and one of IPv6, by the octet of the id and the port.
abbrev node4 : ℕ → ℕ → NodeTuple
node4 n port = record { id = id_of_octet n; addr = record { ip = v4 8 8 8 8; port = port } }

abbrev node6 : ℕ → ℕ → NodeTuple
node6 n port = record {
  id = id_of_octet n;
  addr = record { ip = v6 (replicate 15 0 ++ (1 ∷ [])); port = port };
}

abbrev three : Nodes
three = node4 0xf0 1 ∷ node4 0x01 2 ∷ node4 0x10 3 ∷ []

abbrev mixed : Nodes
mixed = node4 0xf0 1 ∷ node6 0x03 2 ∷ node4 0x10 3 ∷ node6 0x01 4 ∷ node4 0x10 2 ∷ node4 0x02 9 ∷ []

abbrev ports : Nodes → List ℕ
ports [] = []
ports (node ∷ nodes) = node.addr.port ∷ ports nodes

All-IsByte : (count n : ℕ) → n < 256 → All IsByte (replicate count n)
All-IsByte zero n h = tt
All-IsByte (suc count) n h = (h, All-IsByte count n h)

id_of_octet-IsNodeId : (n : ℕ) → n < 256 → IsNodeId (id_of_octet n)
id_of_octet-IsNodeId n h = (refl, All-IsByte 20 n h)

mixed-HasIds : HasIds mixed
mixed-HasIds = (
  id_of_octet-IsNodeId 0xf0 (omega arith),
  (
    id_of_octet-IsNodeId 0x03 (omega arith),
    (
      id_of_octet-IsNodeId 0x10 (omega arith),
      (
        id_of_octet-IsNodeId 0x01 (omega arith),
        (id_of_octet-IsNodeId 0x10 (omega arith), (id_of_octet-IsNodeId 0x02 (omega arith), tt)),
      ),
    ),
  ),
)

-- The test of the source.
nearest_two : ports (closest_nodes (id_of_octet 0) 2 (some false) (from_nodes three 3)) ≡ 2 ∷ 3 ∷ []
unfolding sort_by insert_by first_difference leading_zeros partition_point build built new visit
    append_from append_nearest family from_nodes closest_nodes octets_lt ip_lt addr_lt is_ipv6
    ip_is_ipv6
nearest_two = refl

-- The limit leaves out the last node; equal ids are in the order of their addresses.
nearest_of_family :
    ports (closest_nodes (id_of_octet 0x11) 9 (some false) (from_nodes mixed 5)) ≡ 2 ∷ 3 ∷ 1 ∷ []
unfolding sort_by insert_by first_difference leading_zeros partition_point build built new visit
    append_from append_nearest family from_nodes closest_nodes octets_lt ip_lt addr_lt is_ipv6
    ip_is_ipv6
nearest_of_family = refl

nearest_of_both :
    ports (closest_nodes (id_of_octet 0x02) 3 none (from_nodes mixed 6)) ≡ 9 ∷ 2 ∷ 4 ∷ []
unfolding sort_by insert_by first_difference leading_zeros partition_point build built new visit
    append_from append_nearest family from_nodes closest_nodes octets_lt ip_lt addr_lt is_ipv6
    ip_is_ipv6 xor_distance_cmp
nearest_of_both = refl

closest_nodes-Nearest_example :
    Nearest
      (id_of_octet 0x02)
      3
      mixed
      (closest_nodes (id_of_octet 0x02) 3 none (from_nodes mixed 6))
closest_nodes-Nearest_example =
    closest_nodes-Nearest (id_of_octet 0x02) 3 none mixed 6 mixed-HasIds
      (id_of_octet-IsNodeId 0x02 (omega arith))
