-- ===== src/RoutingSnapshot/Order.antt =====
-- src/routing_snapshot.rs: the order by the distance is that of the ids, once an id is replaced by its
-- distance to the target.
use dht_crawler.Base.{
  ℕ, bit_xor, Bool, true, false, not, ◌&&◌, ◌||◌, List, [], ◌∷◌, ◌≡◌, ◌⊎◌, refl, sym, ap, ◌∙◌,
  length, arith, Bool-cases, All, inl, inr,
}
use Prim.Native.Nat.{compare, Ordering, lt, eq, gt}
use native.Mathlib.Omega.{compare-lt, compare-eq, compare-gt}
use dht_crawler.Net.{NodeTuple, octets_lt, addr_lt}
use dht_crawler.RoutingSnapshot.{
  Nodes, xor_distance_cmp, then_at_most, near_le, node_le, sort_by, insert_by,
}
use dht_crawler.RoutingSnapshot.Distance.{xor_distance_cmp-step}
use dht_crawler.RoutingSnapshot.Sorting.{SortedBy, node_le_total, node_le_trans, All-insert_by}

-- The octets of the distance.
unfoldable pub distance : List ℕ → List ℕ → List ℕ
distance [] target = []
distance (x ∷ id) [] = []
distance (x ∷ id) (t ∷ target) = bit_xor x t ∷ distance id target

abbrev pub away : List ℕ → NodeTuple → NodeTuple
away target node = record { id = distance node.id target; addr = node.addr }

abbrev pub distance_le : List ℕ → NodeTuple → NodeTuple → Bool
distance_le target a b = node_le (away target a) (away target b)

pub distance_le_total :
    (target : List ℕ) (a b : NodeTuple)
    → distance_le target a b ≡ false
    → distance_le target b a ≡ true
distance_le_total target a b = node_le_total (away target a) (away target b)

pub distance_le_trans :
    (target : List ℕ) (a b c : NodeTuple)
    → distance_le target a b ≡ true
    → distance_le target b c ≡ true
    → distance_le target a c ≡ true
distance_le_trans target a b c = node_le_trans (away target a) (away target b) (away target c)

Ordering-cases : (o : Ordering) → (o ≡ lt) ⊎ ((o ≡ eq) ⊎ (o ≡ gt))
Ordering-cases lt = inl refl
Ordering-cases eq = inr (inl refl)
Ordering-cases gt = inr (inr refl)

xor_distance_cmp-distance :
    (left right target : List ℕ) (next : Bool)
    → length left ≡ length right
    → then_at_most (xor_distance_cmp left right target) next ≡ (
        octets_lt (distance left target) (distance right target)
        || (not (octets_lt (distance right target) (distance left target)) && next))
unfolding xor_distance_cmp distance octets_lt
xor_distance_cmp-distance [] [] target next h = refl
xor_distance_cmp-distance [] (r ∷ right) target next h = absurd (omega arith)
xor_distance_cmp-distance (l ∷ left) [] target next h = absurd (omega arith)
xor_distance_cmp-distance (l ∷ left) (r ∷ right) [] next h = refl
xor_distance_cmp-distance (l ∷ left) (r ∷ right) (t ∷ target) next h =
    elim (Ordering-cases (compare (bit_xor l t) (bit_xor r t))) [
      | inl less ↦
          ap (λ o. then_at_most o next) (xor_distance_cmp-step l r t left right target lt less)
          ∙ (ground (arith, less, compare-lt (bit_xor l t) (bit_xor r t) less))
      | inr (inl same) ↦
          ap (λ o. then_at_most o next) (xor_distance_cmp-step l r t left right target eq same)
          ∙ (xor_distance_cmp-distance left right target next (omega arith))
          ∙ (ground (arith, same, compare-eq (bit_xor l t) (bit_xor r t) same))
      | inr (inr more) ↦
          ap (λ o. then_at_most o next) (xor_distance_cmp-step l r t left right target gt more)
          ∙ (ground (arith, more, compare-gt (bit_xor l t) (bit_xor r t) more))
    ]

pub near_le-distance_le :
    (target : List ℕ) (a b : NodeTuple)
    → length a.id ≡ length b.id
    → near_le target a b ≡ distance_le target a b
near_le-distance_le target a b h =
    xor_distance_cmp-distance a.id b.id target (not (addr_lt b.addr a.addr)) h

module _ {κ} (P : NodeTuple → Type κ) (le le' : NodeTuple → NodeTuple → Bool)
    (agree : (a b : NodeTuple) → P a → P b → le a b ≡ le' a b) where
  All-agree :
      (a : NodeTuple) (xs : Nodes)
      → P a
      → All P xs
      → All (λ b. le a b ≡ true) xs
      → All (λ b. le' a b ≡ true) xs
  All-agree a [] pa ps h = tt
  All-agree a (x ∷ xs) pa ps h = (sym (agree a x pa ps.0) ∙ h.0, All-agree a xs pa ps.1 h.1)

  pub SortedBy-agree : (xs : Nodes) → All P xs → SortedBy le xs → SortedBy le' xs
  SortedBy-agree [] ps h = tt
  SortedBy-agree (x ∷ xs) ps h = (All-agree x xs ps.0 ps.1 h.0, SortedBy-agree xs ps.1 h.1)

  insert_by-agree :
      (x : NodeTuple) (xs : Nodes) → P x → All P xs → insert_by le x xs ≡ insert_by le' x xs
  unfolding insert_by
  insert_by-agree x [] px ps = refl
  insert_by-agree x (y ∷ xs) px ps = elim (Bool-cases (le x y)) [
    | inl first ↦ rw (first, sym (agree x y px ps.0) ∙ first) refl
    | inr after ↦
        rw (after, sym (agree x y px ps.0) ∙ after) (ap (◌∷◌ y) (insert_by-agree x xs px ps.1))
  ]

  pub sort_by-agree :
      (xs : Nodes) → All P xs → (sort_by le xs ≡ sort_by le' xs) × All P (sort_by le xs)
  unfolding sort_by
  sort_by-agree [] ps = (refl, tt)
  sort_by-agree (x ∷ xs) ps =
      let (same, kept) = sort_by-agree xs ps.1 in
      (
        insert_by-agree x (sort_by le xs) ps.0 kept ∙ ap (insert_by le' x) same,
        All-insert_by P le x (sort_by le xs) ps.0 kept,
      )
