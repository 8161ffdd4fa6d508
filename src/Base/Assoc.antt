-- ===== src/Base/Assoc.antt =====
-- Hash maps and hash sets as association lists: at most one entry is kept for a key.
use Prim.Native.Nat.{suc, ◌≤◌}
use mathlib.Core.Path.{◌≡◌, refl, ap, sym, ◌∙◌}
use mathlib.Core.Logic.{ite, if_pos, if_neg, ◌⊎◌, inl, inr}
use mathlib.Core.Bool.{Bool, true, false, not, ◌&&◌, ◌||◌}
use mathlib.Core.List.{List, [], ◌∷◌, ◌++◌}
use mathlib.Core.Option.{Option, none, some, some-injective}
use native.Mathlib.Nat.{le_refl}
use native.Mathlib.Omega.{arith}
use dht_crawler.Base.Lists.{length}
use dht_crawler.Base.Tests.{is_some, Option-cases}

module _ {ℓ} {K V : Type ℓ} (dec : Discrete K) where
  unfoldable pub get : K → List (K × V) → Option V
  get k [] = none
  get k ((j, v) ∷ m) = ite (dec j k) (some v) (get k m)

  unfoldable pub remove : K → List (K × V) → List (K × V)
  remove k [] = []
  remove k ((j, v) ∷ m) = ite (dec j k) (remove k m) ((j, v) ∷ remove k m)

  abbrev pub insert : K → V → List (K × V) → List (K × V)
  insert k v m = (k, v) ∷ remove k m

  abbrev pub contains : K → List (K × V) → Bool
  contains k m = is_some (get k m)

  pub get-remove : (k j : K) (m : List (K × V)) → get j (remove k m) ≡ ite (dec k j) none (get j m)
  unfolding get remove
  get-remove k j [] = ground arith
  get-remove k j ((i, v) ∷ m) = ground (arith, get-remove k j m)

  pub get-insert :
      (k j : K) (v : V) (m : List (K × V)) → get j (insert k v m) ≡ ite (dec k j) (some v) (get j m)
  unfolding get
  get-insert k j v m = ground (arith, get-remove k j m)

  -- No key has two entries.
  abbrev pub Uniq : List (K × V) → Type ℓ
  Uniq [] = Unit
  Uniq ((k, v) ∷ m) = (get k m ≡ none) × Uniq m

-- Membership in a list, as a test: the content of a hash set.
module _ {ℓ} {K : Type ℓ} (dec : Discrete K) where
  abbrev pub same : K → K → Bool
  same k j = elim (dec k j) [ yes _ ↦ true | no _ ↦ false ]

  unfoldable pub elem : K → List K → Bool
  elem k [] = false
  elem k (j ∷ js) = same j k || elem k js

  -- `HashSet::remove`
  unfoldable pub erase : K → List K → List K
  erase k [] = []
  erase k (j ∷ js) = ite (dec j k) (erase k js) (j ∷ erase k js)

  pub elem-erase : (k j : K) (js : List K) → elem j (erase k js) ≡ (not (same k j) && elem j js)
  unfolding elem erase
  elem-erase k j [] = ground arith
  elem-erase k j (i ∷ js) = elim (dec i k) [
    | yes p ↦ rw (if_pos _ p) (ground (arith, elem-erase k j js))
    | no n ↦ rw (if_neg _ n) (ground (arith, elem-erase k j js))
  ]

  pub elem-append : (k : K) (xs ys : List K) → elem k (xs ++ ys) ≡ (elem k xs || elem k ys)
  unfolding elem
  elem-append k [] ys = refl
  elem-append k (x ∷ xs) ys = ground (arith, elem-append k xs ys)

  -- No key stands twice.
  abbrev pub Distinct : List K → Type 0
  Distinct [] = Unit
  Distinct (k ∷ ks) = (elem k ks ≡ false) × Distinct ks

-- Sizes of maps: the number of entries is that of keys where no key has two.
module _ {ℓ} {K V : Type ℓ} (dec : Discrete K) where
  pub get-remove_self : (k : K) (m : List (K × V)) → get dec k (remove dec k m) ≡ none
  get-remove_self k m = rw (get-remove dec k k m, if_pos _ refl)

  pub get-remove_other :
      (k j : K) (m : List (K × V)) → ¬ (k ≡ j) → get dec j (remove dec k m) ≡ get dec j m
  get-remove_other k j m apart = rw (get-remove dec k j m, if_neg _ apart)

  pub get-insert_self :
      (k j : K) (v : V) (m : List (K × V)) → k ≡ j → get dec j (insert dec k v m) ≡ some v
  get-insert_self k j v m here = rw (get-insert dec k j v m, if_pos _ here)

  pub get-insert_other :
      (k j : K) (v : V) (m : List (K × V)) → ¬ (k ≡ j) → get dec j (insert dec k v m) ≡ get dec j m
  get-insert_other k j v m apart = rw (get-insert dec k j v m, if_neg _ apart)

  -- Where an entry that is found after an insertion or a removal comes from.
  pub get-insert_cases :
      (k j : K) (v w : V) (m : List (K × V))
      → get dec j (insert dec k v m) ≡ some w
      → ((k ≡ j) × (v ≡ w)) ⊎ (¬ (k ≡ j) × (get dec j m ≡ some w))
  get-insert_cases k j v w m found = elim (dec k j) [
    | yes here ↦ inl (here, some-injective v w (sym (get-insert_self k j v m here) ∙ found))
    | no apart ↦ inr (apart, sym (get-insert_other k j v m apart) ∙ found)
  ]

  pub get-remove_cases :
      (k j : K) (w : V) (m : List (K × V))
      → get dec j (remove dec k m) ≡ some w
      → ¬ (k ≡ j) × (get dec j m ≡ some w)
  get-remove_cases k j w m found = elim (dec k j) [
    | yes here ↦ absurd (ground (arith, found, get-remove dec k j m))
    | no apart ↦ (apart, sym (get-remove_other k j m apart) ∙ found)
  ]

  pub Uniq-remove : (k : K) (m : List (K × V)) → Uniq dec m → Uniq dec (remove dec k m)
  unfolding remove
  Uniq-remove k [] u = tt
  Uniq-remove k ((j, v) ∷ m) u = elim (dec j k) [
    | yes p ↦ rw (if_pos _ p) (Uniq-remove k m u.1)
    | no n ↦ rw (if_neg _ n) (ground (arith, get-remove dec k j m), Uniq-remove k m u.1)
  ]

  pub Uniq-insert : (k : K) (v : V) (m : List (K × V)) → Uniq dec m → Uniq dec (insert dec k v m)
  Uniq-insert k v m u = (get-remove_self k m, Uniq-remove k m u)

  pub remove_absent : (k : K) (m : List (K × V)) → get dec k m ≡ none → remove dec k m ≡ m
  unfolding get remove
  remove_absent k [] h = refl
  remove_absent k ((j, v) ∷ m) h = ground (arith, remove_absent k m)

  pub length-remove :
      (k : K) (m : List (K × V)) {v : V}
      → Uniq dec m
      → get dec k m ≡ some v
      → suc (length (remove dec k m)) ≡ length m
  unfolding get remove
  length-remove k [] u h = absurd (ground arith)
  length-remove k ((j, w) ∷ m) u h = elim (dec j k) [
    | yes p ↦ rw (if_pos _ p) (ap (λ x. suc (length x)) (remove_absent k m (rw (← p) u.0)))
    | no n ↦ rw (if_neg _ n) (ap suc (length-remove k m u.1 (rw (if_neg _ n) at h)))
  ]

  pub length-insert_new :
      (k : K) (v : V) (m : List (K × V))
      → get dec k m ≡ none
      → length (insert dec k v m) ≡ suc (length m)
  length-insert_new k v m h = ap (λ x. suc (length x)) (remove_absent k m h)

  pub length-insert_old :
      (k : K) (v w : V) (m : List (K × V))
      → Uniq dec m
      → get dec k m ≡ some w
      → length (insert dec k v m) ≡ length m
  length-insert_old k v w m u h = length-remove k m u h

  pub remove-insert :
      (k : K) (v : V) (m : List (K × V)) → remove dec k (insert dec k v m) ≡ remove dec k m
  unfolding remove
  remove-insert k v m =
      rw (if_pos (dec k k) refl) (remove_absent k (remove dec k m) (get-remove_self k m))

  pub get-remove_absent :
      (k j : K) (m : List (K × V)) → get dec j m ≡ none → get dec j (remove dec k m) ≡ none
  get-remove_absent k j m absent = ground (arith, get-remove dec k j m)

  pub length-remove_le :
      (k : K) (m : List (K × V)) → Uniq dec m → length (remove dec k m) ≤ length m
  length-remove_le k m u = elim (Option-cases (get dec k m)) [
    | inl absent ↦ rw (remove_absent k m absent) (le_refl (length m))
    | inr (v, found) ↦ omega (arith, length-remove k m u found)
  ]
