-- ===== src/RoutingSnapshot/Merging.antt =====
-- src/routing_snapshot.rs: `closest_nodes` sorts the nearest nodes of each family together and keeps the
-- nearest of them, which are the nearest of all.
use dht_crawler.Base.{
  ℕ, zero, suc, ◌+◌, ◌≤◌, ◌<◌, Bool, true, false, [], ◌∷◌, ◌++◌, ◌≡◌, refl, sym, ap, subst, ◌∙◌,
  length, take, drop, arith, Bool-cases, All, inl, inr, if◌then◌else◌, append_assoc, length-take,
  length-append, take-append-drop, All-take,
}
use mathlib.Core.List.{Perm}
use mathlib.Core.List.Perm
use dht_crawler.Net.{NodeTuple}
use dht_crawler.RoutingSnapshot.{Nodes, sort_by, insert_by}
use dht_crawler.RoutingSnapshot.Sorting.{SortedBy, sort_by-SortedBy, sort_by-perm, All-sort_by}
use dht_crawler.RoutingSnapshot.Distance.{SortedBy-append, All-append}
use dht_crawler.RoutingSnapshot.Fronts.{
  All-map, All-drop, All-fill, All-zip, Below-flip, perm_exchange, length-sort_by, sort_by-nil,
  take-enough, drop-few,
}

module _ (le : NodeTuple → NodeTuple → Bool)
    (total : (a b : NodeTuple) → le a b ≡ false → le b a ≡ true)
    (trans : (a b c : NodeTuple) → le a b ≡ true → le b c ≡ true → le a c ≡ true) where
  -- How many nodes are at most the node.
  count_le : NodeTuple → Nodes → ℕ
  count_le y [] = 0
  count_le y (x ∷ xs) = (if le x y then 1 else 0) + count_le y xs

  count_le-append :
      (y : NodeTuple) (xs ys : Nodes) → count_le y (xs ++ ys) ≡ count_le y xs + count_le y ys
  unfolding count_le
  count_le-append y [] ys = omega arith
  count_le-append y (x ∷ xs) ys = omega (arith, count_le-append y xs ys)

  count_le-insert_by :
      (y x : NodeTuple) (xs : Nodes) → count_le y (insert_by le x xs) ≡ count_le y (x ∷ xs)
  unfolding count_le insert_by
  count_le-insert_by y x [] = refl
  count_le-insert_by y x (z ∷ xs) = elim (Bool-cases (le x z)) [
    | inl first ↦ rw first refl
    | inr after ↦ rw after (omega (arith, count_le-insert_by y x xs))
  ]

  count_le-sort_by : (y : NodeTuple) (xs : Nodes) → count_le y (sort_by le xs) ≡ count_le y xs
  unfolding count_le sort_by
  count_le-sort_by y [] = refl
  count_le-sort_by y (x ∷ xs) =
      count_le-insert_by y x (sort_by le xs)
      ∙ ap (λ n. (if le x y then 1 else 0) + n) (count_le-sort_by y xs)

  -- Above a node that is not at most the node there is none that is.
  count_le-none :
      (y x : NodeTuple) (xs : Nodes)
      → le x y ≡ false
      → All (λ z. le x z ≡ true) xs
      → count_le y xs ≡ 0
  unfolding count_le
  count_le-none y x [] h hs = refl
  count_le-none y x (z ∷ xs) h hs = elim (Bool-cases (le z y)) [
    | inl below ↦ absurd (cc (trans x z y hs.0 below))
    | inr above ↦ rw above (omega (arith, count_le-none y x xs h hs.1))
  ]

  -- Of nodes in order, as many in front are at most the node as there are.
  take-Below_one :
      (count : ℕ) (y : NodeTuple) (xs : Nodes)
      → SortedBy le xs
      → count ≤ count_le y xs
      → All (λ x. le x y ≡ true) (take count xs)
  unfolding count_le
  take-Below_one zero y xs h enough = tt
  take-Below_one (suc count) y [] h enough = tt
  take-Below_one (suc count) y (x ∷ xs) h enough = elim (Bool-cases (le x y)) [
    | inl below ↦ (below, take-Below_one count y xs h.1 (ground (arith, below, enough)))
    | inr above ↦ absurd (ground (arith, above, enough, count_le-none y x xs above h.0))
  ]

  -- The nodes in front of nodes in order are at most those behind.
  drop-counts :
      (count : ℕ) (xs : Nodes)
      → SortedBy le xs
      → All (λ y. count ≤ count_le y (take count xs)) (drop count xs)
  unfolding count_le
  drop-counts zero xs h = All-fill _ xs (λ x. omega arith)
  drop-counts (suc count) [] h = tt
  drop-counts (suc count) (x ∷ xs) h =
      All-map (drop count xs) (λ y both. ground (arith, both.0, both.1))
        (All-zip _ _ (drop count xs) (All-drop _ count xs h.0) (drop-counts count xs h.1))

  SortedBy-take_front : (count : ℕ) (xs : Nodes) → SortedBy le xs → SortedBy le (take count xs)
  SortedBy-take_front zero xs h = tt
  SortedBy-take_front (suc count) [] h = tt
  SortedBy-take_front (suc count) (x ∷ xs) h =
      (All-take _ count xs h.0, SortedBy-take_front count xs h.1)

  -- The nodes that both lists have left over, and what of the nearest is left over.
  left_over : ℕ → Nodes → Nodes → Nodes
  left_over count xs ys =
      drop count (sort_by le (take count xs ++ take count ys)) ++ (drop count xs ++ drop count ys)

  left_over-counts :
      (count : ℕ) (xs ys : Nodes)
      → SortedBy le xs
      → SortedBy le ys
      → All
          (λ y. count ≤ count_le y (sort_by le (take count xs ++ take count ys)))
          (left_over count xs ys)
  unfolding left_over
  left_over-counts count xs ys hx hy =
      let front = take count xs ++ take count ys in
      let sorted = sort_by le front in
      let counted : (y : NodeTuple)
          → count_le y sorted ≡ count_le y (take count xs) + count_le y (take count ys) =
        λ y. count_le-sort_by y front ∙ count_le-append y (take count xs) (take count ys) in
      All-append _ (drop count sorted) (drop count xs ++ drop count ys)
        (All-map (drop count sorted)
          (λ y h.
            subst (λ zs. count ≤ count_le y zs) (take-append-drop count sorted)
              (omega (arith, h, count_le-append y (take count sorted) (drop count sorted))))
          (drop-counts count sorted (sort_by-SortedBy le total trans front)))
        (All-append _ (drop count xs) (drop count ys)
          (All-map (drop count xs) (λ y h. omega (arith, h, counted y)) (drop-counts count xs hx))
          (All-map (drop count ys) (λ y h. omega (arith, h, counted y)) (drop-counts count ys hy)))

  left_over-nil :
      (count : ℕ) (xs ys : Nodes)
      → length (sort_by le (take count xs ++ take count ys)) < suc count
      → length xs < suc count
      → length ys < suc count
      → left_over count xs ys ≡ []
  unfolding left_over
  left_over-nil count xs ys h hx hy =
      rw
        (
          drop-few count (sort_by le (take count xs ++ take count ys)) h,
          drop-few count xs hx,
          drop-few count ys hy,
        )
        refl

  -- Both lists in one order, of which the nearest come first.
  pub merged : ℕ → Nodes → Nodes → Nodes
  merged count xs ys =
      take count (sort_by le (take count xs ++ take count ys)) ++ sort_by le (left_over count xs ys)

  pub merged-SortedBy :
      (count : ℕ) (xs ys : Nodes)
      → SortedBy le xs
      → SortedBy le ys
      → SortedBy le (merged count xs ys)
  unfolding merged
  merged-SortedBy count xs ys hx hy =
      let front = take count xs ++ take count ys in
      let sorted = sort_by le front in
      let rest = sort_by le (left_over count xs ys) in
      let in_order = sort_by-SortedBy le total trans front in
      SortedBy-append le (take count sorted) rest (SortedBy-take_front count sorted in_order)
        (sort_by-SortedBy le total trans (left_over count xs ys))
        (Below-flip le (take count sorted) rest (
          All-map rest (λ y h. take-Below_one count y sorted in_order h)
            (All-sort_by _ le (left_over count xs ys) (left_over-counts count xs ys hx hy))))

  pub merged-perm : (count : ℕ) (xs ys : Nodes) → Perm (merged count xs ys) (xs ++ ys)
  unfolding merged left_over
  merged-perm count xs ys =
      let a = take count xs in
      let b = take count ys in
      let c = drop count xs in
      let d = drop count ys in
      let sorted = sort_by le (a ++ b) in
      let whole : Perm (take count sorted ++ (drop count sorted ++ (c ++ d)))
          ((a ++ b) ++ (c ++ d)) =
        subst (λ zs. Perm zs ((a ++ b) ++ (c ++ d)))
          (ap (λ zs. zs ++ (c ++ d)) (sym (take-append-drop count sorted))
            ∙ append_assoc (take count sorted) (drop count sorted) (c ++ d))
          (Perm.append_right (c ++ d) (sort_by-perm le (a ++ b))) in
      let swapped : Perm ((a ++ b) ++ (c ++ d)) ((a ++ c) ++ (b ++ d)) = perm_exchange a b c d in
      let joined : (a ++ c) ++ (b ++ d) ≡ xs ++ ys =
        ap (λ zs. zs ++ (b ++ d)) (take-append-drop count xs)
        ∙ ap (λ zs. xs ++ zs) (take-append-drop count ys) in
      Perm.trans
        (Perm.append_left (take count sorted) (sort_by-perm le (drop count sorted ++ (c ++ d))))
        (Perm.trans whole (subst (Perm ((a ++ b) ++ (c ++ d))) joined swapped))

  pub take-merged :
      (count : ℕ) (xs ys : Nodes)
      → take count (merged count xs ys) ≡ take count (sort_by le (take count xs ++ take count ys))
  unfolding merged
  take-merged count xs ys =
      let a = take count xs in
      let b = take count ys in
      let sorted = sort_by le (a ++ b) in
      take-enough count sorted (sort_by le (left_over count xs ys)) (λ few.
        let total_length : length a + length b < count =
          omega (arith, few, length-sort_by le (a ++ b), length-append a b) in
        let few_xs : length xs < suc count = omega (arith, total_length, length-take count xs) in
        let few_ys : length ys < suc count = omega (arith, total_length, length-take count ys) in
        sort_by-nil le (left_over count xs ys)
          (left_over-nil count xs ys (omega (arith, few)) few_xs few_ys))

  pub All-merged {κ} :
      (P : NodeTuple → Type κ) (count : ℕ) (xs ys : Nodes)
      → All P xs
      → All P ys
      → All P (merged count xs ys)
  unfolding merged left_over
  All-merged P count xs ys hx hy =
      let front = take count xs ++ take count ys in
      let sorted = All-sort_by P le front (
        All-append P (take count xs) (take count ys) (All-take P count xs hx)
          (All-take P count ys hy)) in
      All-append P (take count (sort_by le front)) (sort_by le (left_over count xs ys))
        (All-take P count (sort_by le front) sorted)
        (All-sort_by P le (left_over count xs ys) (
          All-append P (drop count (sort_by le front)) (drop count xs ++ drop count ys)
            (All-drop P count (sort_by le front) sorted)
            (All-append P (drop count xs) (drop count ys) (All-drop P count xs hx)
              (All-drop P count ys hy))))
