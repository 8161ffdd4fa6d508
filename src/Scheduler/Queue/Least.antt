-- ===== src/Scheduler/Queue/Least.antt =====
-- src/scheduler.rs: the first key of an index has the least time, and the last one the greatest.
use dht_crawler.Base.{
  ◌≤◌, ◌≡◌, refl, [], ◌∷◌, none, some, arith, Bool-cases, Option-cases, inl, inr,
}
use dht_crawler.Base.Assoc.{get}
use dht_crawler.Base.Ordered.{first_key_value, last_key_value}
use dht_crawler.Scheduler.{Hash, Key, key_lt}
use dht_crawler.Scheduler.Queue.{Index}
use dht_crawler.Scheduler.Queue.Indexes.{hash_at}

pub first-none : (m : Index) (j : Key) → first_key_value key_lt m ≡ none → hash_at j m ≡ none
unfolding first_key_value get
first-none [] j h = refl
first-none (entry ∷ m) j h = absurd (ground arith)

pub last-none : (m : Index) (j : Key) → last_key_value key_lt m ≡ none → hash_at j m ≡ none
unfolding last_key_value get
last-none [] j h = refl
last-none (entry ∷ m) j h = absurd (ground arith)

pub first-least :
    (m : Index) (k j : Key) (h h' : Hash)
    → first_key_value key_lt m ≡ some (k, h)
    → hash_at j m ≡ some h'
    → k.0 ≤ j.0
unfolding first_key_value get
first-least [] k j h h' first at = absurd (ground arith)
first-least ((i, w) ∷ m) k j h h' first at = elim (Option-cases (first_key_value key_lt m)) [
  | inl alone ↦ ground (arith, alone, first-none m j alone)
  | inr (other, found) ↦
      let rest = first-least m other.0 j other.1 h' found in
      elim (Bool-cases (key_lt other.0 i)) [
        | inl takes ↦ ground (arith, found, takes, rest)
        | inr keeps ↦ ground (arith, found, keeps, rest)
      ]
]
