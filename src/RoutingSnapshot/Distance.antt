-- ===== src/RoutingSnapshot/Distance.antt =====
-- src/routing_snapshot.rs: `xor_distance_cmp`, and the order of the nodes by the distance.
use dht_crawler.Base.{
  ℕ, zero, suc, ◌<◌, bit_xor, Bool, true, List, [], ◌∷◌, ◌++◌, ◌≡◌, refl, ap, ◌∙◌, length, take,
  drop, get_or, arith, All,
}
use Prim.Native.Nat.{compare, Ordering, lt, eq, gt}
use dht_crawler.Net.{NodeTuple}
use dht_crawler.RoutingSnapshot.Sorting.{SortedBy}
use dht_crawler.RoutingSnapshot.{Nodes, xor_distance_cmp}

compare-cases : (a b : ℕ) → a < b → compare a b ≡ lt
compare-cases a b h = ground arith

compare-same : (a : ℕ) → compare a a ≡ eq
compare-same a = ground arith

-- What the rest of the octets says counts where these are as near.
pub xor_distance_cmp-step :
    (l r t : ℕ) (left right target : List ℕ) (o : Ordering)
    → compare (bit_xor l t) (bit_xor r t) ≡ o
    → xor_distance_cmp (l ∷ left) (r ∷ right) (t ∷ target)
      ≡ elim o [ lt ↦ lt | eq ↦ xor_distance_cmp left right target | gt ↦ gt ]
unfolding xor_distance_cmp
xor_distance_cmp-step l r t left right target o h =
    ap (λ o. elim o [ lt ↦ lt | eq ↦ xor_distance_cmp left right target | gt ↦ gt ]) h

-- Ids that agree up to an octet are compared by it.
pub xor_distance_cmp-lt :
    (byte : ℕ) (left right target : List ℕ)
    → take byte left ≡ take byte right
    → byte < length left
    → byte < length right
    → byte < length target
    → bit_xor (get_or left byte 0) (get_or target byte 0)
      < bit_xor (get_or right byte 0) (get_or target byte 0)
    → xor_distance_cmp left right target ≡ lt
unfolding xor_distance_cmp
xor_distance_cmp-lt byte [] right target agree hl hr ht less = absurd (omega arith)
xor_distance_cmp-lt byte (l ∷ left) [] target agree hl hr ht less = absurd (omega arith)
xor_distance_cmp-lt byte (l ∷ left) (r ∷ right) [] agree hl hr ht less = absurd (omega arith)
xor_distance_cmp-lt zero (l ∷ left) (r ∷ right) (t ∷ target) agree hl hr ht less =
    xor_distance_cmp-step l r t left right target lt
      (compare-cases (bit_xor l t) (bit_xor r t) less)
xor_distance_cmp-lt (suc byte) (l ∷ left) (r ∷ right) (t ∷ target) agree hl hr ht less =
    let head : l ≡ r = ap (λ xs. get_or xs 0 0) agree in
    let tail : take byte left ≡ take byte right = ap (drop 1) agree in
    rw head (xor_distance_cmp-step r r t left right target eq (compare-same (bit_xor r t)))
    ∙ (xor_distance_cmp-lt byte left right target tail (omega arith) (omega arith) (omega arith)
        less)

pub xor_distance_cmp-same : (id target : List ℕ) → xor_distance_cmp id id target ≡ eq
unfolding xor_distance_cmp
xor_distance_cmp-same [] target = refl
xor_distance_cmp-same (x ∷ id) [] = refl
xor_distance_cmp-same (x ∷ id) (t ∷ target) =
    xor_distance_cmp-step x x t id id target eq (compare-same (bit_xor x t))
    ∙ (xor_distance_cmp-same id target)

-- A node of the first list is at most one of the second.
abbrev pub Below : (NodeTuple → NodeTuple → Bool) → Nodes → Nodes → Type 0
Below le xs ys = All (λ x. All (λ y. le x y ≡ true) ys) xs

pub All-append {κ} :
    (P : NodeTuple → Type κ) (xs ys : Nodes) → All P xs → All P ys → All P (xs ++ ys)
All-append P [] ys h k = k
All-append P (x ∷ xs) ys h k = (h.0, All-append P xs ys h.1 k)

pub SortedBy-append :
    (le : NodeTuple → NodeTuple → Bool) (xs ys : Nodes)
    → SortedBy le xs
    → SortedBy le ys
    → Below le xs ys
    → SortedBy le (xs ++ ys)
SortedBy-append le [] ys hx hy below = hy
SortedBy-append le (x ∷ xs) ys hx hy below = (
  All-append (λ other. le x other ≡ true) xs ys hx.0 below.0,
  SortedBy-append le xs ys hx.1 hy below.1,
)
