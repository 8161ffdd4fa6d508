-- ===== src/Base/Places.antt =====
-- Lists as arrays: what stands where after a write, a push and a swap-remove.
use Prim.Native.Nat.{ℕ, zero, suc, ◌<◌, ◌≤◌}
use mathlib.Core.Path.{◌≡◌, refl}
use mathlib.Core.Logic.{ite, if_pos}
use mathlib.Core.List.{List, [], ◌∷◌, ◌++◌}
use mathlib.Core.Option.{none, some}
use native.Mathlib.Omega.{arith}
use native.Mathlib.Decide.{ℕ_discrete}
use dht_crawler.Base.Lists.{length, get_elem?, get_or, set, take}

module _ {ℓ} {A : Type ℓ} where
  pub get_elem?-get_or :
      (xs : List A) (i : ℕ) (d : A) → i < length xs → get_elem? xs i ≡ some (get_or xs i d)
  get_elem?-get_or [] i d h = elim h [ ]
  get_elem?-get_or (x ∷ xs) zero d h = refl
  get_elem?-get_or (x ∷ xs) (suc i) d h = get_elem?-get_or xs i d (omega arith)

  pub get_elem?-ne-none : (xs : List A) (i : ℕ) → i < length xs → ¬ (get_elem? xs i ≡ none)
  get_elem?-ne-none [] i h = elim h [ ]
  get_elem?-ne-none (x ∷ xs) zero h = λ e. ground arith
  get_elem?-ne-none (x ∷ xs) (suc i) h = get_elem?-ne-none xs i (omega arith)

  pub get_elem?-out : (xs : List A) (i : ℕ) → length xs ≤ i → get_elem? xs i ≡ none
  get_elem?-out [] i h = refl
  get_elem?-out (x ∷ xs) zero h = absurd (omega arith)
  get_elem?-out (x ∷ xs) (suc i) h = get_elem?-out xs i (omega arith)

  pub lt_of_get_elem? : (xs : List A) (i : ℕ) {x : A} → get_elem? xs i ≡ some x → i < length xs
  lt_of_get_elem? [] i h = absurd (ground arith)
  lt_of_get_elem? (x ∷ xs) zero h = omega arith
  lt_of_get_elem? (x ∷ xs) (suc i) h = omega (arith, lt_of_get_elem? xs i h)

  pub get_elem?-set :
      (xs : List A) (i j : ℕ) (v : A)
      → i < length xs
      → get_elem? (set xs i v) j ≡ ite (ℕ_discrete j i) (some v) (get_elem? xs j)
  get_elem?-set [] i j v h = elim h [ ]
  get_elem?-set (x ∷ xs) zero zero v h = rw (if_pos _ refl)
  get_elem?-set (x ∷ xs) zero (suc j) v h = ground arith
  get_elem?-set (x ∷ xs) (suc i) zero v h = ground arith
  get_elem?-set (x ∷ xs) (suc i) (suc j) v h = ground (arith, get_elem?-set xs i j v (omega arith))

  pub get_elem?-push :
      (xs : List A) (j : ℕ) (v : A)
      → get_elem? (xs ++ (v ∷ [])) j ≡ ite (ℕ_discrete j (length xs)) (some v) (get_elem? xs j)
  get_elem?-push [] zero v = rw (if_pos _ refl)
  get_elem?-push [] (suc j) v = ground arith
  get_elem?-push (x ∷ xs) zero v = ground arith
  get_elem?-push (x ∷ xs) (suc j) v = ground (arith, get_elem?-push xs j v)

  -- All but the last element.
  pub get_elem?-init :
      (xs : List A) (j n : ℕ)
      → length xs ≡ suc n
      → get_elem? (take n xs) j ≡ ite (ℕ_discrete j n) none (get_elem? xs j)
  get_elem?-init [] j n h = absurd (omega arith)
  get_elem?-init (x ∷ xs) zero zero h = rw (if_pos _ refl)
  get_elem?-init (x ∷ []) (suc j) zero h = ground arith
  get_elem?-init (x ∷ y ∷ xs) (suc j) zero h = absurd (omega arith)
  get_elem?-init (x ∷ xs) zero (suc n) h = ground arith
  get_elem?-init (x ∷ xs) (suc j) (suc n) h = ground (arith, get_elem?-init xs j n (omega arith))

  pub get_or-of_get_elem? :
      (xs : List A) (i : ℕ) (d : A) {x : A} → get_elem? xs i ≡ some x → get_or xs i d ≡ x
  get_or-of_get_elem? [] i d h = absurd (ground arith)
  get_or-of_get_elem? (x ∷ xs) zero d h = ground arith
  get_or-of_get_elem? (x ∷ xs) (suc i) d h = get_or-of_get_elem? xs i d h
