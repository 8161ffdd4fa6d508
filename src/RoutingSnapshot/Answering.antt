-- ===== src/RoutingSnapshot/Answering.antt =====
-- src/routing_snapshot.rs: what `append_nearest` of an index gives.
use dht_crawler.Base.{
  append-nil, min, ◌++◌, sym, ℕ, zero, suc, ◌+◌, ◌-◌, ◌≤◌, List, [], ◌∷◌, ◌≡◌, refl, ap, subst, ◌∙◌,
  length, take, arith,
}
use mathlib.Core.List.{Perm}
use mathlib.Core.List.Perm
use dht_crawler.RoutingSnapshot.{
  Nodes, PrefixIndex, empty_index, build, built, new, slice, append_from, append_nearest, near_le,
  node_le, sort_by,
}
use dht_crawler.RoutingSnapshot.Sorting.{
  All-get_elem?, SortedBy, IsOrdered, sort_by-IsOrdered, All-sort_by, sort_by-perm,
}
use dht_crawler.RoutingSnapshot.Slices.{take-take, take-nil}
use dht_crawler.RoutingSnapshot.Parting.{HasIds, IsNodeId}
use dht_crawler.RoutingSnapshot.Building.{build-Builds, Builds}
use dht_crawler.RoutingSnapshot.Visiting.{visit-walk}
use dht_crawler.RoutingSnapshot.Walking.{All-walk, walk, walk-perm, walk-SortedBy, length-walk}

-- The nodes given back are the first of all the nodes in the order of the distance.
abbrev pub Nearest : List ℕ → ℕ → Nodes → Nodes → Type 0
Nearest target count nodes result =
    (ordered : Nodes) × (Perm ordered nodes)
    × (SortedBy (near_le target) ordered)
    × (result ≡ take count ordered)

-- The index appends the first of all the nodes in the order of the distance.
abbrev pub Answers : List ℕ → ℕ → Nodes → PrefixIndex → Type 0
Answers target count nodes index =
    (ordered : Nodes) × (Perm ordered nodes)
    × (SortedBy (near_le target) ordered)
    × (HasIds ordered)
    × ((output : Nodes)
        → (append_nearest target count index output).0 ≡ output ++ take count ordered)

take-all {ℓ} : {A : Type ℓ} (n : ℕ) (xs : List A) → length xs ≤ n → take n xs ≡ xs
take-all zero [] h = refl
take-all zero (x ∷ xs) h = absurd (omega arith)
take-all (suc n) [] h = refl
take-all (suc n) (x ∷ xs) h = ap (◌∷◌ x) (take-all n xs (omega arith))

-- The limit that is left counts at most the nodes of the index.
taken_all :
    (count size : ℕ) (output xs : Nodes)
    → length xs ≤ size - 0
    → take (length output + min count size - length output) xs ≡ take count xs
taken_all count size output xs h =
    ap (λ n. take n xs) (rest (length output) (min count size))
    ∙ sym (take-take count size xs)
    ∙ ap (take count) (take-all size xs (omega (arith, h)))
  where
    rest : (m n : ℕ) → m + n - m ≡ n
    rest m n = omega arith

built-Answers :
    (target : List ℕ) (count : ℕ) (nodes : Nodes)
    → IsOrdered nodes
    → HasIds nodes
    → IsNodeId target
    → Answers target count nodes (built nodes)
unfolding built append_nearest append_from Builds
built-Answers target count [] ordered ids ht = (
  [],
  Perm.refl _,
  tt,
  tt,
  λ output. sym (ap (λ l. output ++ l) (take-nil count) ∙ append-nil output),
)
built-Answers target count (node ∷ rest) ordered ids ht =
    let nodes = node ∷ rest in
    let size = length nodes in
    let (covers, more, grown) =
      build-Builds size 0 size nodes [] ordered ids (omega arith) (omega arith) (omega arith) in
    let index = built nodes in
    let root = (build size 0 size nodes []).1 in
    let all : slice 0 size nodes ≡ nodes = take-all (size - 0) nodes (omega arith) in
    (
      walk target covers,
      subst (Perm (walk target covers)) all (walk-perm target covers),
      walk-SortedBy target covers ordered ids ht,
      All-walk target (λ node. IsNodeId node.id) covers
          (λ i c h1 h2 at. All-get_elem? (λ node. IsNodeId node.id) nodes i c ids at),
      λ output.
          visit-walk target (suc root) root 0 size (length output + min count size) index output
            covers (omega arith)
          ∙ ap (λ l. output ++ l)
              (taken_all count size output (walk target covers) (length-walk target covers)),
    )

pub new-Answers :
    (target : List ℕ) (count : ℕ) (nodes : Nodes)
    → HasIds nodes
    → IsNodeId target
    → Answers target count nodes (new nodes)
unfolding new
new-Answers target count nodes ids ht =
    let (ordered, perm, sorted, kept_ids, result) =
      built-Answers target count (sort_by node_le nodes) (sort_by-IsOrdered nodes)
        (All-sort_by (λ node. IsNodeId node.id) node_le nodes ids) ht in
    (ordered, Perm.trans perm (sort_by-perm node_le nodes), sorted, kept_ids, result)

pub empty-Answers :
    (target : List ℕ) (count : ℕ) (nodes : Nodes)
    → nodes ≡ []
    → Answers target count nodes empty_index
unfolding append_nearest append_from
empty-Answers target count nodes h =
    subst (λ nodes. Answers target count nodes empty_index) (sym h)
      (
        [],
        Perm.refl _,
        tt,
        tt,
        λ output. sym (ap (λ l. output ++ l) (take-nil count) ∙ append-nil output),
      )
