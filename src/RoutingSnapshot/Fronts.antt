-- ===== src/RoutingSnapshot/Fronts.antt =====
-- src/routing_snapshot.rs: lists of nodes, what holds of all of them, and the nodes in front of others.
use dht_crawler.Base.{
  ℕ, zero, suc, ◌<◌, Bool, true, [], ◌∷◌, ◌++◌, ◌≡◌, refl, sym, ap, subst, length, take, drop,
  arith, Bool-cases, All, inl, inr, append_assoc,
}
use mathlib.Core.List.{Perm, perm_append_comm}
use mathlib.Core.List.Perm
use dht_crawler.Net.{NodeTuple}
use dht_crawler.RoutingSnapshot.{Nodes, sort_by, insert_by}
use dht_crawler.RoutingSnapshot.Distance.{Below}

pub All-map {κ μ} :
    {P : NodeTuple → Type κ} {Q : NodeTuple → Type μ} (xs : Nodes)
    → ((x : NodeTuple) → P x → Q x)
    → All P xs
    → All Q xs
All-map [] f h = tt
All-map (x ∷ xs) f h = (f x h.0, All-map xs f h.1)

pub All-drop {κ} : (P : NodeTuple → Type κ) (n : ℕ) (xs : Nodes) → All P xs → All P (drop n xs)
All-drop P zero xs h = h
All-drop P (suc n) [] h = tt
All-drop P (suc n) (x ∷ xs) h = All-drop P n xs h.1

pub All-fill {κ} : (P : NodeTuple → Type κ) (xs : Nodes) → ((x : NodeTuple) → P x) → All P xs
All-fill P [] f = tt
All-fill P (x ∷ xs) f = (f x, All-fill P xs f)

pub All-zip {κ μ} :
    (P : NodeTuple → Type κ) (Q : NodeTuple → Type μ) (xs : Nodes)
    → All P xs
    → All Q xs
    → All (λ x. P x × Q x) xs
All-zip P Q [] h k = tt
All-zip P Q (x ∷ xs) h k = ((h.0, k.0), All-zip P Q xs h.1 k.1)

-- That every node of the first is at most each of the second, from the side of the second.
pub Below-flip :
    (le : NodeTuple → NodeTuple → Bool) (xs ys : Nodes)
    → All (λ y. All (λ x. le x y ≡ true) xs) ys
    → Below le xs ys
Below-flip le [] ys h = tt
Below-flip le (x ∷ xs) ys h =
    (All-map ys (λ y both. both.0) h, Below-flip le xs ys (All-map ys (λ y both. both.1) h))

pub perm_exchange : (a b c d : Nodes) → Perm ((a ++ b) ++ (c ++ d)) ((a ++ c) ++ (b ++ d))
perm_exchange a b c d =
    let middle : Perm (b ++ (c ++ d)) (c ++ (b ++ d)) =
      subst (λ z. Perm z (c ++ (b ++ d))) (append_assoc b c d)
        (subst (Perm ((b ++ c) ++ d)) (append_assoc c b d)
          (Perm.append_right d (perm_append_comm b c))) in
    subst (λ z. Perm z ((a ++ c) ++ (b ++ d))) (sym (append_assoc a b (c ++ d)))
      (subst (Perm (a ++ (b ++ (c ++ d)))) (sym (append_assoc a c (b ++ d)))
        (Perm.append_left a middle))

pub length-insert_by :
    (le : NodeTuple → NodeTuple → Bool) (x : NodeTuple) (xs : Nodes)
    → length (insert_by le x xs) ≡ suc (length xs)
unfolding insert_by
length-insert_by le x [] = refl
length-insert_by le x (y ∷ xs) = elim (Bool-cases (le x y)) [
  | inl first ↦ rw first refl
  | inr after ↦ rw after (omega (arith, length-insert_by le x xs))
]

pub length-sort_by :
    (le : NodeTuple → NodeTuple → Bool) (xs : Nodes) → length (sort_by le xs) ≡ length xs
unfolding sort_by
length-sort_by le [] = refl
length-sort_by le (x ∷ xs) =
    omega (arith, length-insert_by le x (sort_by le xs), length-sort_by le xs)

pub sort_by-nil : (le : NodeTuple → NodeTuple → Bool) (xs : Nodes) → xs ≡ [] → sort_by le xs ≡ []
unfolding sort_by
sort_by-nil le [] h = refl
sort_by-nil le (x ∷ xs) h = absurd cc

-- The first of some nodes, and others where these were not enough.
pub take-enough :
    (count : ℕ) (xs ys : Nodes)
    → (length xs < count → ys ≡ [])
    → take count (take count xs ++ ys) ≡ take count xs
take-enough zero xs ys h = refl
take-enough (suc count) [] ys h = ap (take (suc count)) (h (omega arith))
take-enough (suc count) (x ∷ xs) ys h =
    ap (◌∷◌ x) (take-enough count xs ys (λ few. h (omega (arith, few))))

pub drop-few : (count : ℕ) (xs : Nodes) → length xs < suc count → drop count xs ≡ []
drop-few zero [] h = refl
drop-few zero (x ∷ xs) h = absurd (omega arith)
drop-few (suc count) [] h = refl
drop-few (suc count) (x ∷ xs) h = drop-few count xs (omega arith)
