-- ===== src/RoutingSnapshot/Slices.antt =====
-- Parts of a list by their ends, and the number of elements in front that satisfy a test.
use dht_crawler.Base.{
  ℕ, zero, suc, ◌+◌, ◌-◌, ◌≤◌, ◌<◌, min, Bool, true, false, List, [], ◌∷◌, ◌++◌, ◌≡◌, refl, ap, sym,
  subst, ◌∙◌, length, get_elem?, take, drop, none, some, arith, Bool-cases, inl, inr,
}
use native.Mathlib.Nat.{zero-add, suc-add, suc-sub-suc}
use dht_crawler.Net.{NodeTuple}
use dht_crawler.RoutingSnapshot.{Nodes, partition_point, slice}

pub some-injective {ℓ} : {A : Type ℓ} {x y : A} → some x ≡ some y → x ≡ y
some-injective {x} h = ap (λ o. elim o [ none ↦ x | some z ↦ z ]) h

sub-none : (k : ℕ) → suc k - 0 ≡ suc k
sub-none k = omega arith

pub get_elem?-bound {ℓ} :
    {A : Type ℓ} (xs : List A) (i : ℕ) (x : A) → get_elem? xs i ≡ some x → i < length xs
get_elem?-bound [] i x h = absurd cc
get_elem?-bound (y ∷ xs) zero x h = omega arith
get_elem?-bound (y ∷ xs) (suc i) x h = omega (arith, get_elem?-bound xs i x h)

module _ {ℓ} {A : Type ℓ} where
  pub take-nil : (n : ℕ) → take {A = A} n [] ≡ []
  take-nil zero = refl
  take-nil (suc n) = refl

  pub drop-nil : (n : ℕ) → drop {A = A} n [] ≡ []
  drop-nil zero = refl
  drop-nil (suc n) = refl

  -- Taking a number of elements, part by part.
  pub take-append_parts :
      (k : ℕ) (xs ys : List A) → take k xs ++ take (k - length (take k xs)) ys ≡ take k (xs ++ ys)
  take-append_parts zero xs ys = refl
  take-append_parts (suc k) [] ys = ap (λ n. take n ys) (sub-none k)
  take-append_parts (suc k) (x ∷ xs) ys = ap (◌∷◌ x) (rw suc-sub-suc (take-append_parts k xs ys))

  take-drop_parts : (m n : ℕ) (xs : List A) → take m xs ++ take n (drop m xs) ≡ take (m + n) xs
  take-drop_parts zero n xs = rw zero-add
  take-drop_parts (suc m) n [] = take-nil n ∙ sym (take-nil (suc m + n))
  take-drop_parts (suc m) n (x ∷ xs) = rw suc-add (ap (◌∷◌ x) (take-drop_parts m n xs))

  drop-drop_parts : (m n : ℕ) (xs : List A) → drop n (drop m xs) ≡ drop (m + n) xs
  drop-drop_parts zero n xs = rw zero-add
  drop-drop_parts (suc m) n [] = drop-nil n ∙ sym (drop-nil (suc m + n))
  drop-drop_parts (suc m) n (x ∷ xs) = rw suc-add (drop-drop_parts m n xs)

  pub get_elem?-drop : (n i : ℕ) (xs : List A) → get_elem? (drop n xs) i ≡ get_elem? xs (n + i)
  get_elem?-drop zero i xs = rw zero-add
  get_elem?-drop (suc n) i [] = refl
  get_elem?-drop (suc n) i (x ∷ xs) = rw suc-add (get_elem?-drop n i xs)

  pub get_elem?-take_below :
      (n i : ℕ) (xs : List A) → i < n → get_elem? (take n xs) i ≡ get_elem? xs i
  get_elem?-take_below zero i xs h = absurd (omega arith)
  get_elem?-take_below (suc n) i [] h = refl
  get_elem?-take_below (suc n) zero (x ∷ xs) h = refl
  get_elem?-take_below (suc n) (suc i) (x ∷ xs) h = get_elem?-take_below n i xs (omega arith)

  pub get_elem?-append_left :
      (xs ys : List A) (i : ℕ) (x : A) → get_elem? xs i ≡ some x → get_elem? (xs ++ ys) i ≡ some x
  get_elem?-append_left [] ys i x h = cc
  get_elem?-append_left (y ∷ xs) ys zero x h = h
  get_elem?-append_left (y ∷ xs) ys (suc i) x h = get_elem?-append_left xs ys i x h

  pub get_elem?-append_last :
      (xs : List A) (x : A) → get_elem? (xs ++ (x ∷ [])) (length xs) ≡ some x
  get_elem?-append_last [] x = refl
  get_elem?-append_last (y ∷ xs) x = get_elem?-append_last xs x

  pub get_elem?-Found : (xs : List A) (i : ℕ) → i < length xs → (x : A) × get_elem? xs i ≡ some x
  get_elem?-Found [] i h = absurd (omega arith)
  get_elem?-Found (x ∷ xs) zero h = (x, refl)
  get_elem?-Found (x ∷ xs) (suc i) h = get_elem?-Found xs i (omega arith)

  -- The part of a list before `limit`, of one more than `k` and of all of it.
  pub take-take : (k n : ℕ) (xs : List A) → take k (take n xs) ≡ take (min k n) xs
  take-take zero n xs = ap (λ k. take k xs) (min-zero n)
    where
      min-zero : (n : ℕ) → 0 ≡ min 0 n
      min-zero n = omega arith
  take-take (suc k) zero xs = ap (λ k. take k xs) (zero-min (suc k))
    where
      zero-min : (k : ℕ) → 0 ≡ min k 0
      zero-min k = omega arith
  take-take (suc k) (suc n) [] = sym (take-nil (min (suc k) (suc n)))
  take-take (suc k) (suc n) (x ∷ xs) =
      ap (◌∷◌ x) (take-take k n xs) ∙ ap (λ m. take m (x ∷ xs)) (suc-min k n)
    where
      suc-min : (k n : ℕ) → suc (min k n) ≡ min (suc k) (suc n)
      suc-min k n = omega arith

  pub slice-append :
      (start middle end : ℕ) (xs : List A)
      → start ≤ middle
      → middle ≤ end
      → take (middle - start) (drop start xs) ++ take (end - middle) (drop middle xs)
        ≡ take (end - start) (drop start xs)
  slice-append start middle end xs h1 h2 =
      let there : drop middle xs ≡ drop (middle - start) (drop start xs) =
        ap (λ n. drop n xs) (start_plus start middle h1)
        ∙ sym (drop-drop_parts start (middle - start) xs) in
      rw there (
        take-drop_parts (middle - start) (end - middle) (drop start xs)
        ∙ ap (λ n. take n (drop start xs)) (between start middle end h1 h2))
    where
      start_plus : (s m : ℕ) → s ≤ m → m ≡ s + (m - s)
      start_plus s m h = omega arith

      between : (s m e : ℕ) → s ≤ m → m ≤ e → (m - s) + (e - m) ≡ e - s
      between s m e h1 h2 = omega arith

pub get_elem?-slice_lem :
    (start end i : ℕ) (nodes : Nodes)
    → start + i < end
    → get_elem? (slice start end nodes) i ≡ get_elem? nodes (start + i)
get_elem?-slice_lem start end i nodes h =
    get_elem?-take_below (end - start) i (drop start nodes) (omega (arith, h))
    ∙ get_elem?-drop start i nodes

pub partition_point-at_most :
    (p : NodeTuple → Bool) (nodes : Nodes) (i : ℕ) (node : NodeTuple)
    → get_elem? nodes i ≡ some node
    → p node ≡ false
    → partition_point p nodes ≤ i
unfolding partition_point
partition_point-at_most p [] i node found fails = absurd cc
partition_point-at_most p (other ∷ nodes) zero node found fails =
    let fails' : p other ≡ false = subst (λ n. p n ≡ false) (sym (some-injective found)) fails in
    ground (arith, fails')
partition_point-at_most p (other ∷ nodes) (suc i) node found fails =
    ground (arith, partition_point-at_most p nodes i node found fails)

pub partition_point-positive :
    (p : NodeTuple → Bool) (nodes : Nodes) (node : NodeTuple)
    → get_elem? nodes 0 ≡ some node
    → p node ≡ true
    → 0 < partition_point p nodes
unfolding partition_point
partition_point-positive p [] node found holds = absurd cc
partition_point-positive p (other ∷ nodes) node found holds =
    let holds' : p other ≡ true = subst (λ n. p n ≡ true) (sym (some-injective found)) holds in
    ground (arith, holds')

-- The elements before the point satisfy the test, and the one at the point does not.
pub partition_point-holds :
    (p : NodeTuple → Bool) (nodes : Nodes) (i : ℕ) (node : NodeTuple)
    → i < partition_point p nodes
    → get_elem? nodes i ≡ some node
    → p node ≡ true
unfolding partition_point
partition_point-holds p [] i node h found = absurd cc
partition_point-holds p (other ∷ nodes) zero node h found =
    subst (λ n. p n ≡ true) (some-injective found) (ground (arith, h))
partition_point-holds p (other ∷ nodes) (suc i) node h found =
    partition_point-holds p nodes i node (ground (arith, h)) found

pub partition_point-fails :
    (p : NodeTuple → Bool) (nodes : Nodes) (node : NodeTuple)
    → get_elem? nodes (partition_point p nodes) ≡ some node
    → p node ≡ false
unfolding partition_point
partition_point-fails p [] node found = absurd cc
partition_point-fails p (other ∷ nodes) node found = elim (Bool-cases (p other)) [
  | inl holds ↦ partition_point-fails p nodes node (ground (arith, holds, found))
  | inr fails ↦ subst (λ n. p n ≡ false) (some-injective (ground (arith, fails, found))) fails
]
