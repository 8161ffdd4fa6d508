-- ===== src/RoutingSnapshot.antt =====
-- src/routing_snapshot.rs: the nodes that the other actors read, in a trie by id for each family. An id
-- has twenty octets. The branches of the trie are a list, and a branch names its parts by their
-- positions, as in the source. `partition_point` counts the elements in front that satisfy the
-- test, which is what the standard library documents for a list that the test parts.
pub mod Bits
pub mod Ids
pub mod Sorting
pub mod Distance
pub mod Slices
pub mod Parting
pub mod Dividing
pub mod Building
pub mod Walking
pub mod Visiting
pub mod Order
pub mod Fronts
pub mod Merging
pub mod Answering
pub mod Families
pub mod Nearest
pub mod Tests
use dht_crawler.Base.{
  ℕ, zero, suc, ◌+◌, ◌-◌, ◌*◌, ◌/◌, ◌%◌, ◌^◌, ◌==◌, min, bit_and, bit_xor, Bool, true, false, not,
  ◌&&◌, ◌||◌, ltb, leb, if◌then◌else◌, List, [], ◌∷◌, ◌++◌, length, get_elem?, get_or, take, drop,
  Option, none, some,
}
use Prim.Native.Nat.{compare, Ordering, lt, eq, gt}
use dht_crawler.Net.{NodeTuple, SocketAddr, octets_lt, addr_lt, is_ipv6}

pub data PrefixBranch : Type 0 where
  leaf : ℕ → ℕ → PrefixBranch
  split : ℕ → ℕ → ℕ → PrefixBranch

abbrev pub Nodes : Type 0
Nodes = List NodeTuple

abbrev pub Branches : Type 0
Branches = List PrefixBranch

pub record PrefixIndex : Type 0 where
  pub nodes : Nodes
  pub branches : Branches
  pub root : Option ℕ

abbrev pub empty_index : PrefixIndex
empty_index = record { nodes = []; branches = []; root = none }

-- The order of `sort_unstable_by`: at most, by the id and then by the address.
abbrev pub node_le : NodeTuple → NodeTuple → Bool
node_le a b = octets_lt a.id b.id || (not (octets_lt b.id a.id) && not (addr_lt b.addr a.addr))

unfoldable pub insert_by : (NodeTuple → NodeTuple → Bool) → NodeTuple → Nodes → Nodes
insert_by le node [] = node ∷ []
insert_by le node (other ∷ nodes) =
    let later = other ∷ insert_by le node nodes in
    if le node other then node ∷ other ∷ nodes else later

-- `sort_unstable_by`, given what is at most what.
unfoldable pub sort_by : (NodeTuple → NodeTuple → Bool) → Nodes → Nodes
unfolding insert_by
sort_by le [] = []
sort_by le (node ∷ nodes) = insert_by le node (sort_by le nodes)

abbrev pub later : Option ℕ → Option ℕ
later none = none
later (some n) = some (suc n)

-- The first place at which two ids differ.
unfoldable pub first_difference : List ℕ → List ℕ → Option ℕ
first_difference [] ys = none
first_difference (x ∷ xs) [] = none
first_difference (x ∷ xs) (y ∷ ys) =
    let rest = later (first_difference xs ys) in if x == y then rest else some 0

-- `u8::leading_zeros`
unfoldable pub leading_zeros : ℕ → ℕ
leading_zeros x =
    if leb 128 x
    then 0
    else if leb 64 x
    then 1
    else if leb 32 x
    then 2
    else if leb 16 x
    then 3
    else if leb 8 x
    then 4
    else if leb 4 x
    then 5
    else if leb 2 x
    then 6
    else if leb 1 x
    then 7
    else 8

unfoldable pub partition_point : (NodeTuple → Bool) → Nodes → ℕ
partition_point p [] = 0
partition_point p (node ∷ nodes) =
    let rest = suc (partition_point p nodes) in if p node then rest else 0

abbrev pub id_of : Option NodeTuple → List ℕ
id_of none = []
id_of (some node) = node.id

abbrev pub id_at : Nodes → ℕ → List ℕ
id_at nodes index = id_of (get_elem? nodes index)

-- `id[byte] & mask == 0`, where the mask is that of the bit.
abbrev pub bit_clear : ℕ → List ℕ → Bool
bit_clear bit id = bit_and (get_or id (bit / 8) 0) (2 ^ (7 - bit % 8)) == 0

-- `nodes[start..end]`
abbrev pub slice : ℕ → ℕ → Nodes → Nodes
slice start end nodes = take (end - start) (drop start nodes)

-- `build` on the branches so far. The fuel is the length of the range, which is shorter for each part.
unfoldable pub build : ℕ → ℕ → ℕ → Nodes → Branches → Branches × ℕ
unfolding first_difference leading_zeros partition_point
build zero start end nodes branches = (branches, 0)
build (suc fuel) start end nodes branches =
    let first = id_at nodes start in
    let last = id_at nodes (end - 1) in
    elim (first_difference first last) [
      | none ↦ (branches ++ (leaf start end ∷ []), length branches)
      | some byte ↦
          let bit = byte * 8 + leading_zeros (bit_xor (get_or first byte 0) (get_or last byte 0)) in
          let middle =
            start + partition_point (λ node. bit_clear bit node.id) (slice start end nodes) in
          let (branches1, zeros) = build fuel start middle nodes branches in
          let (branches2, ones) = build fuel middle end nodes branches1 in
          (branches2 ++ (split bit zeros ones ∷ []), length branches2)
    ]

unfoldable pub built : Nodes → PrefixIndex
unfolding build
built [] = empty_index
built (node ∷ rest) =
    let nodes = node ∷ rest in
    let (branches, root) = build (length nodes) 0 (length nodes) nodes [] in
    record { nodes = nodes; branches = branches; root = some root }

unfoldable pub new : Nodes → PrefixIndex
unfolding built sort_by
new nodes = built (sort_by node_le nodes)

-- `visit`, with the number of branches that it looked at. The parts of a branch stand before it, so
-- that the position of a branch is fuel enough.
unfoldable pub visit : ℕ → ℕ → List ℕ → ℕ → PrefixIndex → Nodes → Nodes × ℕ
visit zero branch target limit index output = (output, 0)
visit (suc fuel) branch target limit index output =
    let found = get_elem? index.branches branch in
    let result : Nodes × ℕ = elim found [
      | none ↦ (output, 0)
      | some (leaf start end) ↦
          (output ++ slice start (min end (start + limit - length output)) index.nodes, 1)
      | some (split bit zeros ones) ↦
          let clear = bit_clear bit target in
          let near = if clear then zeros else ones in
          let far = if clear then ones else zeros in
          let (output1, visits1) = visit fuel near target limit index output in
          let (output2, visits2) = visit fuel far target limit index output1 in
          (output2, 1 + visits1 + visits2)
    ] in
    if leb limit (length output) then (output, 0) else result

unfoldable pub append_from : Option ℕ → List ℕ → ℕ → PrefixIndex → Nodes → Nodes × ℕ
unfolding visit
append_from none target count index output = (output, 0)
append_from (some root) target count index output =
    visit (suc root) root target (length output + min count (length index.nodes)) index output

unfoldable pub append_nearest : List ℕ → ℕ → PrefixIndex → Nodes → Nodes × ℕ
unfolding append_from
append_nearest target count index output = append_from index.root target count index output

unfoldable pub xor_distance_cmp : List ℕ → List ℕ → List ℕ → Ordering
xor_distance_cmp [] right target = eq
xor_distance_cmp (l ∷ left) [] target = eq
xor_distance_cmp (l ∷ left) (r ∷ right) [] = eq
xor_distance_cmp (l ∷ left) (r ∷ right) (t ∷ target) =
    let rest = xor_distance_cmp left right target in
    elim (compare (bit_xor l t) (bit_xor r t)) [ lt ↦ lt | eq ↦ rest | gt ↦ gt ]

abbrev pub then_at_most : Ordering → Bool → Bool
then_at_most lt next = true
then_at_most eq next = next
then_at_most gt next = false

-- At most, by the distance to the target and then by the address.
abbrev pub near_le : List ℕ → NodeTuple → NodeTuple → Bool
near_le target a b = then_at_most (xor_distance_cmp a.id b.id target) (not (addr_lt b.addr a.addr))

pub record RoutingSnapshot : Type 0 where
  pub v4 : PrefixIndex
  pub v6 : PrefixIndex

-- The nodes of one family, in their order.
unfoldable pub family : Bool → Nodes → Nodes
family ipv6 [] = []
family ipv6 (node ∷ nodes) =
    let rest = family ipv6 nodes in
    let same = if ipv6 then is_ipv6 node.addr else not (is_ipv6 node.addr) in
    if same then node ∷ rest else rest

unfoldable pub from_nodes : Nodes → ℕ → RoutingSnapshot
unfolding new family
from_nodes given limit =
    let nodes = take limit given in
    let v6_count = length (family true nodes) in
    if v6_count == 0
    then record { v4 = new nodes; v6 = empty_index }
    else if v6_count == length nodes
    then record { v4 = empty_index; v6 = new nodes }
    else record { v4 = new (family false nodes); v6 = new (family true nodes) }

unfoldable pub closest_nodes : List ℕ → ℕ → Option Bool → RoutingSnapshot → Nodes
unfolding append_nearest sort_by
closest_nodes target count (some true) snapshot =
    if count == 0 then [] else (append_nearest target count snapshot.v6 []).0
closest_nodes target count (some false) snapshot =
    if count == 0 then [] else (append_nearest target count snapshot.v4 []).0
closest_nodes target count none snapshot =
    let nodes =
      (append_nearest target count snapshot.v6 (append_nearest target count snapshot.v4 []).0).0 in
    if count == 0 then [] else take count (sort_by (near_le target) nodes)
