-- ===== src/RoutingSnapshot/Building.antt =====
-- src/routing_snapshot.rs: `PrefixIndex::build` gives a trie of the range that it gets.
use dht_crawler.Base.{
  ℕ, zero, suc, ◌+◌, ◌-◌, ◌*◌, ◌≤◌, ◌<◌, List, [], ◌∷◌, ◌++◌, ◌≡◌, refl, sym, ap, subst, ◌∙◌,
  length, get_elem?, none, some, arith, Option-cases, inl, inr, append_assoc,
}
use mathlib.Core.Path.{ap₂}
use dht_crawler.Net.{NodeTuple}
use dht_crawler.RoutingSnapshot.{
  leaf, split, Nodes, Branches, build, id_at, id_of, first_difference,
}
use dht_crawler.RoutingSnapshot.Ids.{between-same}
use dht_crawler.RoutingSnapshot.Sorting.{IsOrdered, IsOrdered-lem, All-get_elem?, node_le-ids}
use dht_crawler.RoutingSnapshot.Slices.{
  get_elem?-append_left, get_elem?-append_last, get_elem?-Found, get_elem?-bound,
}
use dht_crawler.RoutingSnapshot.Dividing.{
  Divides, place_of, middle_of, middle_of-inside, middle_of-Divides, place-bound,
}
use dht_crawler.RoutingSnapshot.Parting.{HasIds, IsNodeId}

-- The nodes of the range have one id.
abbrev pub Alike : Nodes → ℕ → ℕ → Type 0
Alike nodes start end =
    (i : ℕ) (c : NodeTuple)
    → start ≤ i
    → i < end
    → get_elem? nodes i ≡ some c
    → c.id ≡ id_at nodes start

-- The branch at a position covers a range that is not empty, with branches before it.
pub data Covers (nodes : Nodes) : Branches → ℕ → ℕ → ℕ → Type 0 where
  at_leaf :
      {branches : Branches} {position start end : ℕ}
      → get_elem? branches position ≡ some (leaf start end)
      → start < end
      → Alike nodes start end
      → Covers nodes branches position start end
  at_split :
      {branches : Branches} {position start end : ℕ} (middle byte place zeros ones : ℕ)
      → get_elem? branches position ≡ some (split (byte * 8 + place) zeros ones)
      → zeros < position
      → ones < position
      → place < 8
      → Divides nodes byte place start middle end
      → Covers nodes branches zeros start middle
      → Covers nodes branches ones middle end
      → Covers nodes branches position start end

pub Covers-append :
    {nodes : Nodes} {branches : Branches} {position start end : ℕ} (more : Branches)
    → Covers nodes branches position start end
    → Covers nodes (branches ++ more) position start end
Covers-append {branches} {position} more (at_leaf found h same) =
    at_leaf (get_elem?-append_left branches more position _ found) h same
Covers-append {branches} {position} more (at_split middle byte place z o found l1 l2 hp d c1 c2) =
    at_split middle byte place z o (get_elem?-append_left branches more position _ found) l1 l2 hp d
      (Covers-append more c1) (Covers-append more c2)

pub Covers-range :
    {nodes : Nodes} {branches : Branches} {p start end : ℕ}
    → Covers nodes branches p start end
    → start < end
Covers-range (at_leaf found h same) = h
Covers-range (at_split middle byte place z o found l1 l2 hp d c1 c2) =
    omega (arith, Covers-range c1, Covers-range c2)

pub Covers-bound :
    {nodes : Nodes} {branches : Branches} {p start end : ℕ}
    → Covers nodes branches p start end
    → p < length branches
Covers-bound (at_leaf found h same) = get_elem?-bound _ _ _ found
Covers-bound (at_split middle byte place z o found l1 l2 hp d c1 c2) = get_elem?-bound _ _ _ found

-- Where the first id of a range in order is the last one, it is that of all.
same-Alike :
    (nodes : Nodes) (start end : ℕ) (a b : NodeTuple)
    → IsOrdered nodes
    → HasIds nodes
    → get_elem? nodes start ≡ some a
    → get_elem? nodes (end - 1) ≡ some b
    → first_difference a.id b.id ≡ none
    → Alike nodes start end
same-Alike nodes start end a b ordered ids at_start at_last same i c h1 h2 at =
    let le1 = node_le-ids a c (IsOrdered-lem nodes start i a c ordered at_start at h1) in
    let le2 =
      node_le-ids c b
        (IsOrdered-lem nodes i (end - 1) c b ordered at at_last (omega (arith, h2))) in
    let ok : (i : ℕ) (c : NodeTuple) → get_elem? nodes i ≡ some c → IsNodeId c.id =
      λ i c at. All-get_elem? (λ node. IsNodeId node.id) nodes i c ids at in
    between-same a.id b.id c.id same ((ok (end - 1) b at_last).0 ∙ sym (ok start a at_start).0)
      ((ok i c at).0 ∙ sym (ok start a at_start).0) le1 le2
    ∙ sym (ap id_of at_start)

range-Alike :
    (nodes : Nodes) (start end : ℕ)
    → IsOrdered nodes
    → HasIds nodes
    → start < end
    → end ≤ length nodes
    → first_difference (id_at nodes start) (id_at nodes (end - 1)) ≡ none
    → Alike nodes start end
range-Alike nodes start end ordered ids range bound same =
    let (a, at_start) = get_elem?-Found nodes start (omega arith) in
    let (b, at_last) = get_elem?-Found nodes (end - 1) (omega arith) in
    same-Alike nodes start end a b ordered ids at_start at_last
      (ap₂ first_difference (sym (ap id_of at_start)) (sym (ap id_of at_last)) ∙ same)

-- What a split of a range is to be.
abbrev DividesAt : Nodes → ℕ → ℕ → ℕ → List ℕ → List ℕ → Type 0
DividesAt nodes start end byte first last =
    let middle = middle_of start end nodes (byte * 8 + place_of byte first last) in
    (start < middle)
    × (middle < end)
    × (place_of byte first last < 8)
    × Divides nodes byte (place_of byte first last) start middle end

range-DividesAt :
    (nodes : Nodes) (start end byte : ℕ)
    → IsOrdered nodes
    → HasIds nodes
    → start < end
    → end ≤ length nodes
    → first_difference (id_at nodes start) (id_at nodes (end - 1)) ≡ some byte
    → DividesAt nodes start end byte (id_at nodes start) (id_at nodes (end - 1))
range-DividesAt nodes start end byte ordered ids range bound differ =
    let (a, at_start) = get_elem?-Found nodes start (omega arith) in
    let (b, at_last) = get_elem?-Found nodes (end - 1) (omega arith) in
    let first = ap id_of at_start in
    let last = ap id_of at_last in
    let differ' : first_difference a.id b.id ≡ some byte =
      ap₂ first_difference (sym first) (sym last) ∙ differ in
    let inside =
      middle_of-inside nodes start end byte a b ordered ids range at_start at_last differ' in
    subst (λ f. DividesAt nodes start end byte f (id_at nodes (end - 1))) (sym first)
      (subst (DividesAt nodes start end byte a.id) (sym last) (
        inside.0,
        inside.1,
        place-bound nodes start end byte a b ordered ids range at_start at_last differ',
        middle_of-Divides nodes start end byte a b ordered ids range at_start at_last differ',
      ))

-- The branches of `build` are those before it, and more.
unfoldable pub Builds : Nodes → Branches → ℕ → ℕ → Branches × ℕ → Type 0
Builds nodes branches start end result =
    Covers nodes result.0 result.1 start end × (more : Branches) × (result.0 ≡ branches ++ more)

-- A leaf after the branches.
leaf-Builds :
    (nodes : Nodes) (branches : Branches) (start end : ℕ)
    → start < end
    → Alike nodes start end
    → Builds nodes branches start end (branches ++ (leaf start end ∷ []), length branches)
unfolding Builds
leaf-Builds nodes branches start end range same = (
  at_leaf (get_elem?-append_last branches (leaf start end)) range same,
  leaf start end ∷ [],
  refl,
)

-- A split after the branches of its parts.
split-Builds :
    (nodes : Nodes) (branches : Branches) (start middle end byte place : ℕ)
    (low high : Branches × ℕ)
    → place < 8
    → Divides nodes byte place start middle end
    → Builds nodes branches start middle low
    → Builds nodes low.0 middle end high
    → Builds nodes branches start end
        (high.0 ++ (split (byte * 8 + place) low.1 high.1 ∷ []), length high.0)
unfolding Builds
split-Builds nodes branches start middle end byte place low high hp divides (c1, more1, e1)
      (c2, more2, e2) =
    let c1' : Covers nodes high.0 low.1 start middle =
      subst (λ bs. Covers nodes bs low.1 start middle) (sym e2) (Covers-append more2 c1) in
    let here = split (byte * 8 + place) low.1 high.1 in
    (
      at_split middle byte place low.1 high.1 (get_elem?-append_last high.0 here) (Covers-bound c1')
          (Covers-bound c2) hp divides (Covers-append (here ∷ []) c1')
          (Covers-append (here ∷ []) c2),
      more1 ++ (more2 ++ (here ∷ [])),
      ap (λ bs. bs ++ (here ∷ [])) (e2 ∙ ap (λ bs. bs ++ more2) e1)
          ∙ append_assoc (branches ++ more1) more2 (here ∷ [])
          ∙ append_assoc branches more1 (more2 ++ (here ∷ [])),
    )

pub build-Builds :
    (fuel start end : ℕ) (nodes : Nodes) (branches : Branches)
    → IsOrdered nodes
    → HasIds nodes
    → start < end
    → end ≤ length nodes
    → end - start ≤ fuel
    → Builds nodes branches start end (build fuel start end nodes branches)
unfolding build
build-Builds zero start end nodes branches ordered ids range bound enough = absurd (omega arith)
build-Builds (suc fuel) start end nodes branches ordered ids range bound enough =
    let first = id_at nodes start in
    let last = id_at nodes (end - 1) in
    elim (Option-cases (first_difference first last)) [
      | inl same ↦
          let alike = range-Alike nodes start end ordered ids range bound same in
          rw (build, same) (leaf-Builds nodes branches start end range alike)
      | inr (byte, differ) ↦
          let middle = middle_of start end nodes (byte * 8 + place_of byte first last) in
          let (above, below, place_ok, divides) =
            range-DividesAt nodes start end byte ordered ids range bound differ in
          let low = build fuel start middle nodes branches in
          rw (build, differ)
            (split-Builds nodes branches start middle end byte (place_of byte first last) low
              (build fuel middle end nodes low.0) place_ok divides
              (build-Builds fuel start middle nodes branches ordered ids above
                (omega (arith, below, bound)) (omega (arith, below, enough)))
              (build-Builds fuel middle end nodes low.0 ordered ids below bound
                (omega (arith, above, enough))))
    ]
