-- ===== src/RoutingSnapshot/Dividing.antt =====
-- src/routing_snapshot.rs: `PrefixIndex::build` divides a range of the nodes in the order of their ids
-- at the first bit in which the ids of the range differ.
use dht_crawler.Base.{
  ℕ, suc, ◌+◌, ◌-◌, ◌*◌, ◌/◌, ◌%◌, ◌≤◌, ◌<◌, ◌==◌, bit_xor, Bool, true, false, List, ◌≡◌, sym, ap,
  ◌∙◌, get_elem?, get_or, take, some, arith,
}
use dht_crawler.Net.{NodeTuple, octets_lt}
use dht_crawler.RoutingSnapshot.{
  Nodes, first_difference, leading_zeros, partition_point, bit_clear, slice,
}
use dht_crawler.RoutingSnapshot.Bits.{parts_at, parts_lem, shift, shift-le, shift-suc, mask-shift}
use dht_crawler.RoutingSnapshot.Ids.{
  first_difference-lt, first_difference-bound, between-take, take-get_or_le,
}
use dht_crawler.RoutingSnapshot.Sorting.{IsOrdered, IsOrdered-lem, All-get_elem?, node_le-ids}
use dht_crawler.RoutingSnapshot.Slices.{
  get_elem?-slice_lem, get_elem?-Found, get_elem?-bound, partition_point-at_most,
  partition_point-positive, partition_point-holds, partition_point-fails,
}
use dht_crawler.RoutingSnapshot.Parting.{
  IsNodeId, HasIds, get_or-IsByte, bit_value, Parted, bit_clear-bit_value, not_clear,
}

plus-zero : (n : ℕ) → n + 0 ≡ n
plus-zero n = omega arith

sub-plus : (start n : ℕ) → n ≡ start + n - start
sub-plus start n = omega arith

plus-sub : (start i : ℕ) → start ≤ i → start + (i - start) ≡ i
plus-sub start i h = omega (arith, h)

-- Of numbers with equal halves, the larger is odd where the smaller is.
odd_above : (m n : ℕ) → m / 2 ≡ n / 2 → m ≤ n → m % 2 ≡ 1 → n % 2 ≡ 1
odd_above m n h le odd = omega (arith, h, le, odd)

-- Every pair of nodes of the two parts differs first in the bit.
abbrev pub Divides : Nodes → ℕ → ℕ → ℕ → ℕ → ℕ → Type 0
Divides nodes byte place start middle end =
    (i j : ℕ) (c d : NodeTuple)
    → start ≤ i
    → i < middle
    → middle ≤ j
    → j < end
    → get_elem? nodes i ≡ some c
    → get_elem? nodes j ≡ some d
    → Parted byte place c.id d.id

abbrev pub place_of : ℕ → List ℕ → List ℕ → ℕ
place_of byte first last = leading_zeros (bit_xor (get_or first byte 0) (get_or last byte 0))

abbrev pub middle_of : ℕ → ℕ → Nodes → ℕ → ℕ
middle_of start end nodes bit =
    start + partition_point (λ node. bit_clear bit node.id) (slice start end nodes)

module _ (nodes : Nodes) (start end byte : ℕ) (a b : NodeTuple) (ordered : IsOrdered nodes)
    (ids : HasIds nodes) (range : start < end) (at_start : get_elem? nodes start ≡ some a)
    (at_last : get_elem? nodes (end - 1) ≡ some b)
    (differ : first_difference a.id b.id ≡ some byte) where
  abbrev place : ℕ
  place = place_of byte a.id b.id

  abbrev middle : ℕ
  middle = middle_of start end nodes (byte * 8 + place)

  abbrev part : Nodes
  part = slice start end nodes

  abbrev test : NodeTuple → Bool
  test node = bit_clear (byte * 8 + place) node.id

  id_ok : (i : ℕ) (c : NodeTuple) → get_elem? nodes i ≡ some c → IsNodeId c.id
  id_ok i c at = All-get_elem? (λ node. IsNodeId node.id) nodes i c ids at

  at_most :
      (i j : ℕ) (c d : NodeTuple)
      → i ≤ j
      → get_elem? nodes i ≡ some c
      → get_elem? nodes j ≡ some d
      → octets_lt d.id c.id ≡ false
  at_most i j c d le at_i at_j = node_le-ids c d (IsOrdered-lem nodes i j c d ordered at_i at_j le)

  the_parts : parts_at place (get_or a.id byte 0) (get_or b.id byte 0) ≡ true
  the_parts =
      parts_lem (get_or a.id byte 0) (get_or b.id byte 0)
        (get_or-IsByte a.id byte (id_ok start a at_start).1)
        (get_or-IsByte b.id byte (id_ok (end - 1) b at_last).1)
        (first_difference-lt a.id b.id byte differ
          (at_most start (end - 1) a b (omega (arith, range)) at_start at_last))

  pub place-bound : place < 8
  place-bound = ground (arith, the_parts)

  byte-bound : byte < 20
  byte-bound =
      omega (arith, first_difference-bound a.id b.id byte differ, (id_ok start a at_start).0)

  ends-above :
      shift (suc (7 - place)) (get_or a.id byte 0) ≡ shift (suc (7 - place)) (get_or b.id byte 0)
  ends-above = ground (arith, the_parts)

  test-bit_value :
      (i : ℕ) (c : NodeTuple)
      → get_elem? nodes i ≡ some c
      → test c ≡ (bit_value byte place c.id == 0)
  test-bit_value i c at = bit_clear-bit_value byte place c.id place-bound (id_ok i c at)

  first-clear : test a ≡ true
  first-clear =
      test-bit_value start a at_start
      ∙ sym (
          mask-shift place (get_or a.id byte 0) place-bound
            (get_or-IsByte a.id byte (id_ok start a at_start).1))
      ∙ ground (arith, the_parts)

  last-set : test b ≡ false
  last-set =
      test-bit_value (end - 1) b at_last
      ∙ sym (
          mask-shift place (get_or b.id byte 0) place-bound
            (get_or-IsByte b.id byte (id_ok (end - 1) b at_last).1))
      ∙ ground (arith, the_parts)

  at_part :
      (i : ℕ) (c : NodeTuple)
      → start ≤ i
      → i < end
      → get_elem? nodes i ≡ some c
      → get_elem? part (i - start) ≡ some c
  at_part i c h1 h2 at =
      get_elem?-slice_lem start end (i - start) nodes (omega (arith, h1, h2))
      ∙ ap (get_elem? nodes) (plus-sub start i h1)
      ∙ at

  pub middle_of-inside : (start < middle) × (middle < end)
  middle_of-inside =
      let first : get_elem? part 0 ≡ some a =
        get_elem?-slice_lem start end 0 nodes (omega (arith, range))
        ∙ ap (get_elem? nodes) (plus-zero start)
        ∙ at_start in
      let above = partition_point-positive test part a first first-clear in
      let below =
        partition_point-at_most test part (end - 1 - start) b
          (at_part (end - 1) b (omega (arith, range)) (omega (arith, range)) at_last) last-set in
      (omega (arith, above), omega (arith, below))

  agree :
      (i : ℕ) (c : NodeTuple)
      → start ≤ i
      → i < end
      → get_elem? nodes i ≡ some c
      → (take byte c.id ≡ take byte a.id)
        × (shift (suc (7 - place)) (get_or c.id byte 0)
            ≡ shift (suc (7 - place)) (get_or a.id byte 0))
  agree i c h1 h2 at =
      let (before, low, high) =
        between-take a.id b.id c.id byte differ (at_most start i a c h1 at_start at)
          (at_most i (end - 1) c b (omega (arith, h2)) at at_last) in
      let above_low = shift-le (suc (7 - place)) (get_or a.id byte 0) (get_or c.id byte 0) low in
      let above_high = shift-le (suc (7 - place)) (get_or c.id byte 0) (get_or b.id byte 0) high in
      (before, omega (arith, above_low, above_high, ends-above))

  low_part :
      (i : ℕ) (c : NodeTuple)
      → start ≤ i
      → i < middle
      → get_elem? nodes i ≡ some c
      → bit_value byte place c.id ≡ 0
  low_part i c h1 h2 at =
      let before_end : i < end = omega (arith, h2, middle_of-inside.1) in
      let holds : test c ≡ true =
        partition_point-holds test part (i - start) c (omega (arith, h1, h2))
          (at_part i c h1 before_end at) in
      let clear : (bit_value byte place c.id == 0) ≡ true = sym (test-bit_value i c at) ∙ holds in
      ground (arith, clear)

  high_part :
      (j : ℕ) (d : NodeTuple)
      → middle ≤ j
      → j < end
      → get_elem? nodes j ≡ some d
      → bit_value byte place d.id ≡ 1
  high_part j d h1 h2 at =
      let (e, at_middle) =
        get_elem?-Found nodes middle (omega (arith, h1, get_elem?-bound nodes j d at)) in
      let inside = middle_of-inside in
      let at_point : get_elem? part (partition_point test part) ≡ some e =
        ap (get_elem? part) (sub-plus start (partition_point test part))
        ∙ at_part middle e (omega (arith, inside.0)) inside.1 at_middle in
      let set : (bit_value byte place e.id == 0) ≡ false =
        sym (test-bit_value middle e at_middle) ∙ partition_point-fails test part e at_point in
      let odd = not_clear (shift (7 - place) (get_or e.id byte 0)) set in
      let (e_before, e_above) = agree middle e (omega (arith, inside.0)) inside.1 at_middle in
      let (d_before, d_above) = agree j d (omega (arith, h1, inside.0)) h2 at in
      let octet_le : get_or e.id byte 0 ≤ get_or d.id byte 0 =
        take-get_or_le byte e.id d.id (e_before ∙ sym d_before)
          (omega (arith, byte-bound, (id_ok middle e at_middle).0))
          (omega (arith, byte-bound, (id_ok j d at).0)) (at_most middle j e d h1 at_middle at) in
      let halves : shift (7 - place) (get_or e.id byte 0) / 2
          ≡ shift (7 - place) (get_or d.id byte 0) / 2 =
        sym (shift-suc (7 - place) (get_or e.id byte 0))
        ∙ (e_above ∙ sym d_above)
        ∙ shift-suc (7 - place) (get_or d.id byte 0) in
      odd_above (shift (7 - place) (get_or e.id byte 0)) (shift (7 - place) (get_or d.id byte 0))
        halves (shift-le (7 - place) (get_or e.id byte 0) (get_or d.id byte 0) octet_le) odd

  pub middle_of-Divides : Divides nodes byte place start middle end
  middle_of-Divides i j c d h1 h2 h3 h4 at_i at_j =
      let inside = middle_of-inside in
      let (c_before, c_above) = agree i c h1 (omega (arith, h2, inside.1)) at_i in
      let (d_before, d_above) = agree j d (omega (arith, h3, inside.0)) h4 at_j in
      record {
        byte_ok = byte-bound;
        place_ok = place-bound;
        before = c_before ∙ sym d_before;
        above = c_above ∙ sym d_above;
        is_clear = low_part i c h1 h2 at_i;
        is_set = high_part j d h3 h4 at_j;
      }
