-- ===== src/RoutingSnapshot/Ids.antt =====
-- src/routing_snapshot.rs: the order of ids, and the octet in which two ids differ.
use dht_crawler.Base.{
  ℕ, zero, suc, ◌≤◌, ◌<◌, ◌==◌, true, false, List, [], ◌∷◌, ◌≡◌, refl, length, take, drop, get_or,
  Option, none, some, arith, Bool-cases, inl, inr, ap,
}
use dht_crawler.Net.{octets_lt}
use dht_crawler.RoutingSnapshot.Slices.{some-injective}
use dht_crawler.RoutingSnapshot.{first_difference, later}

pub octets_lt_irrefl : (xs : List ℕ) → octets_lt xs xs ≡ false
unfolding octets_lt
octets_lt_irrefl [] = refl
octets_lt_irrefl (x ∷ xs) = ground (arith, octets_lt_irrefl xs)

pub octets_lt_asym : (xs ys : List ℕ) → octets_lt xs ys ≡ true → octets_lt ys xs ≡ false
unfolding octets_lt
octets_lt_asym xs [] h = absurd cc
octets_lt_asym [] (y ∷ ys) h = refl
octets_lt_asym (x ∷ xs) (y ∷ ys) h = ground (arith, octets_lt_asym xs ys)

-- At most is transitive.
pub octets_lt_trans :
    (xs ys zs : List ℕ)
    → octets_lt ys xs ≡ false
    → octets_lt zs ys ≡ false
    → octets_lt zs xs ≡ false
unfolding octets_lt
octets_lt_trans [] ys zs h1 h2 = refl
octets_lt_trans (x ∷ xs) [] zs h1 h2 = absurd cc
octets_lt_trans (x ∷ xs) (y ∷ ys) [] h1 h2 = h2
octets_lt_trans (x ∷ xs) (y ∷ ys) (z ∷ zs) h1 h2 = ground (arith, octets_lt_trans xs ys zs)

later-Some : (o : Option ℕ) (n : ℕ) → later o ≡ some n → (m : ℕ) × ((o ≡ some m) × (n ≡ suc m))
later-Some none n h = absurd cc
later-Some (some m) n h = (m, (refl, cc))

later-none : (o : Option ℕ) → later o ≡ none → o ≡ none
later-none none h = refl
later-none (some m) h = absurd cc

some-ne : (n : ℕ) → some n ≡ none → ⊥
some-ne n h = cc

pub first_difference-lt :
    (xs ys : List ℕ) (byte : ℕ)
    → first_difference xs ys ≡ some byte
    → octets_lt ys xs ≡ false
    → get_or xs byte 0 < get_or ys byte 0
unfolding first_difference octets_lt
first_difference-lt [] ys byte h le = absurd cc
first_difference-lt (x ∷ xs) [] byte h le = absurd cc
first_difference-lt (x ∷ xs) (y ∷ ys) byte h le = elim (Bool-cases (x == y)) [
  | inl same ↦
      let (m, (found, place)) =
        later-Some (first_difference xs ys) byte (ground (arith, same, h)) in
      rw place (first_difference-lt xs ys m found (ground (arith, same, le)))
  | inr differ ↦
      let first : byte ≡ 0 = some-injective (ground (arith, differ, h)) in
      rw first (ground (arith, differ, le))
]

-- An id between two that differ agrees with them before the octet in which they differ, and is
-- between them there.
pub between-take :
    (first last xs : List ℕ) (byte : ℕ)
    → first_difference first last ≡ some byte
    → octets_lt xs first ≡ false
    → octets_lt last xs ≡ false
    → (take byte xs ≡ take byte first)
      × (get_or first byte 0 ≤ get_or xs byte 0)
      × (get_or xs byte 0 ≤ get_or last byte 0)
unfolding first_difference octets_lt
between-take [] last xs byte h le1 le2 = absurd cc
between-take (f ∷ first) [] xs byte h le1 le2 = absurd cc
between-take (f ∷ first) (l ∷ last) [] byte h le1 le2 = absurd cc
between-take (f ∷ first) (l ∷ last) (x ∷ xs) byte h le1 le2 = elim (Bool-cases (f == l)) [
  | inl same ↦
      let (m, (found, place)) =
        later-Some (first_difference first last) byte (ground (arith, same, h)) in
      let head : x ≡ f = ground (arith, same, le1, le2) in
      let (agree, above, below) =
        between-take first last xs m found (ground (arith, same, le1, le2))
          (ground (arith, same, le1, le2)) in
      rw place (rw head (ap (◌∷◌ f) agree), above, below)
  | inr differ ↦
      let place : byte ≡ 0 = some-injective (ground (arith, differ, h)) in
      rw place (refl, ground (arith, differ, le1), ground (arith, differ, le2))
]

-- An id between two equal ones is equal to them.
pub between-same :
    (first last xs : List ℕ)
    → first_difference first last ≡ none
    → length last ≡ length first
    → length xs ≡ length first
    → octets_lt xs first ≡ false
    → octets_lt last xs ≡ false
    → xs ≡ first
unfolding first_difference octets_lt
between-same [] last [] h l1 l2 le1 le2 = refl
between-same [] last (x ∷ xs) h l1 l2 le1 le2 = absurd (omega arith)
between-same (f ∷ first) [] xs h l1 l2 le1 le2 = absurd (omega arith)
between-same (f ∷ first) (l ∷ last) [] h l1 l2 le1 le2 = absurd (omega arith)
between-same (f ∷ first) (l ∷ last) (x ∷ xs) h l1 l2 le1 le2 = elim (Bool-cases (f == l)) [
  | inl same ↦
      let head : x ≡ f = ground (arith, same, le1, le2) in
      rw head (
        ap (◌∷◌ f) (
          between-same first last xs
            (later-none (first_difference first last) (ground (arith, same, h))) (omega (arith, l1))
            (omega (arith, l2)) (ground (arith, same, le1, le2)) (ground (arith, same, le1, le2))))
  | inr differ ↦ absurd (some-ne 0 (ground (arith, differ, h)))
]

-- Of ids that agree before an octet, the smaller has the smaller octet there.
pub take-get_or_le :
    (byte : ℕ) (xs ys : List ℕ)
    → take byte xs ≡ take byte ys
    → byte < length xs
    → byte < length ys
    → octets_lt ys xs ≡ false
    → get_or xs byte 0 ≤ get_or ys byte 0
unfolding octets_lt
take-get_or_le byte [] ys agree hx hy le = omega arith
take-get_or_le byte (x ∷ xs) [] agree hx hy le = absurd (omega arith)
take-get_or_le zero (x ∷ xs) (y ∷ ys) agree hx hy le = ground (arith, le)
take-get_or_le (suc byte) (x ∷ xs) (y ∷ ys) agree hx hy le =
    let head : x ≡ y = ap (λ l. get_or l 0 0) agree in
    let tail : take byte xs ≡ take byte ys = ap (drop 1) agree in
    take-get_or_le byte xs ys tail (omega arith) (omega arith) (ground (arith, head, le))

pub first_difference-bound :
    (xs ys : List ℕ) (byte : ℕ) → first_difference xs ys ≡ some byte → byte < length xs
unfolding first_difference
first_difference-bound [] ys byte h = absurd cc
first_difference-bound (x ∷ xs) [] byte h = absurd cc
first_difference-bound (x ∷ xs) (y ∷ ys) byte h = elim (Bool-cases (x == y)) [
  | inl same ↦
      let (m, (found, place)) =
        later-Some (first_difference xs ys) byte (ground (arith, same, h)) in
      omega (arith, place, first_difference-bound xs ys m found)
  | inr differ ↦
      let place : byte ≡ 0 = some-injective (ground (arith, differ, h)) in omega (arith, place)
]
