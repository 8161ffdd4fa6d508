-- ===== src/Base/Ordered.antt =====
-- `BTreeMap` of the standard library as an association list: its first and its last entry.
use mathlib.Core.Path.{◌≡◌}
use mathlib.Core.Bool.{Bool}
use mathlib.Core.List.{List, [], ◌∷◌}
use mathlib.Core.Logic.{inl, inr}
use mathlib.Core.Option.{Option, none, some}
use native.Mathlib.Omega.{arith}
use dht_crawler.Base.Tests.{if◌then◌else◌, Bool-cases, Option-cases}
use dht_crawler.Base.Assoc.{get, Uniq}

module _ {K V : Type 0} (lt : K → K → Bool) where
  -- The entry with the lesser key; of two with one key, the earlier.
  abbrev pub lesser : K × V → Option (K × V) → Option (K × V)
  lesser entry none = some entry
  lesser entry (some other) = if lt other.0 entry.0 then some other else some entry

  unfoldable pub first_key_value : List (K × V) → Option (K × V)
  first_key_value [] = none
  first_key_value (entry ∷ m) = lesser entry (first_key_value m)

  abbrev pub greater : K × V → Option (K × V) → Option (K × V)
  greater entry none = some entry
  greater entry (some other) = if lt entry.0 other.0 then some other else some entry

  unfoldable pub last_key_value : List (K × V) → Option (K × V)
  last_key_value [] = none
  last_key_value (entry ∷ m) = greater entry (last_key_value m)

  module _ (dec : Discrete K) where
    -- The first entry is one of the map.
    pub get-first_key_value :
        (m : List (K × V)) (k : K) (v : V)
        → Uniq dec m
        → first_key_value m ≡ some (k, v)
        → get dec k m ≡ some v
    unfolding first_key_value get
    get-first_key_value [] k v u h = absurd (ground arith)
    get-first_key_value ((j, w) ∷ m) k v u h = elim (Option-cases (first_key_value m)) [
      | inl last_one ↦ ground (arith, last_one)
      | inr (other, found) ↦
          let there = get-first_key_value m other.0 other.1 u.1 found in
          elim (Bool-cases (lt other.0 j)) [
            | inl takes ↦ ground (arith, found, takes, there, u.0)
            | inr keeps ↦ ground (arith, found, keeps)
          ]
    ]

    pub get-last_key_value :
        (m : List (K × V)) (k : K) (v : V)
        → Uniq dec m
        → last_key_value m ≡ some (k, v)
        → get dec k m ≡ some v
    unfolding last_key_value get
    get-last_key_value [] k v u h = absurd (ground arith)
    get-last_key_value ((j, w) ∷ m) k v u h = elim (Option-cases (last_key_value m)) [
      | inl last_one ↦ ground (arith, last_one)
      | inr (other, found) ↦
          let there = get-last_key_value m other.0 other.1 u.1 found in
          elim (Bool-cases (lt j other.0)) [
            | inl takes ↦ ground (arith, found, takes, there, u.0)
            | inr keeps ↦ ground (arith, found, keeps)
          ]
    ]
