-- ===== src/NodePool/Recent/Deadlines.antt =====
-- `RecentProbes` of src/node_pool.rs as the map from addresses to deadlines that it stands for.
use dht_crawler.Base.{
  ◌⊎◌, ◌≢◌, ℕ, ◌≤◌, ◌<◌, ◌≡◌, inl, inr, refl, ap, subst, ◌==◌, length, none, some, arith, ite,
  Bool-cases, Option-cases,
}
use dht_crawler.Base.Assoc.{get}
use dht_crawler.Base.Places.{get_or-of_get_elem?, lt_of_get_elem?}
use dht_crawler.Net.{SocketAddr, addr_discrete}
use dht_crawler.NodePool.Recent.{
  RecentProbes, new, expiry_at, remove_at, evict_if_full, record_entry, record_probe, remove_entry,
  forget,
}
use dht_crawler.NodePool.Recent.Steps.{Agree, deadline, deadline_of, no_element}
use dht_crawler.NodePool.Recent.Recording.{
  Records, refreshed, record_new-Records, refreshed-Records,
}
use dht_crawler.NodePool.Recent.Removal.{Removes, remove_at-Removes}

-- What holds between any two calls: the map and the heap agree, within the capacity.
pub record Inv (p : RecentProbes) : Type 0 where
  pub agree : Agree p
  pub positive : 0 < p.capacity
  pub bounded : length p.entries ≤ p.capacity

-- A new set of probes is empty and valid.
pub new-Inv : (capacity : ℕ) → Inv (new capacity)
unfolding new get
new-Inv capacity = record {
  agree = record {
    linked = record {
      has_entry = λ i t a h. absurd (ground arith);
      has_place = λ a d i h. absurd (ground arith);
    };
    uniq = tt;
    sizes = refl;
  };
  positive = omega arith;
  bounded = omega arith;
}

evict-Inv :
    (p : RecentProbes)
    → Inv p
    → Inv (evict_if_full p) × (length (evict_if_full p).entries < (evict_if_full p).capacity)
unfolding evict_if_full
evict-Inv p v = elim (Bool-cases (length p.entries == p.capacity)) [
  | inl full ↦
      let gone = remove_at-Removes p 0 v.agree (ground (arith, v.positive, v.agree.sizes)) in
      let sizes : (0 < (remove_at 0 p).capacity)
          × (length (remove_at 0 p).entries < (remove_at 0 p).capacity) =
        ground
          (arith, v.positive, v.agree.sizes, gone.agree.sizes, gone.size, gone.cap, v.bounded) in
      rw full (record { agree = gone.agree; positive = sizes.0; bounded = omega arith }, sizes.1)
  | inr room ↦ rw room (v, ground (arith, v.bounded))
]

evict_room : (p : RecentProbes) → length p.entries < p.capacity → evict_if_full p ≡ p
unfolding evict_if_full
evict_room p h = ground arith

-- An eviction drops entries, and changes none.
evict_deadline :
    (p : RecentProbes) (a : SocketAddr)
    → Inv p
    → get addr_discrete a p.entries ≡ none
    → get addr_discrete a (evict_if_full p).entries ≡ none
unfolding evict_if_full
evict_deadline p a v h = elim (Bool-cases (length p.entries == p.capacity)) [
  | inl full ↦
      let gone = remove_at-Removes p 0 v.agree (ground (arith, v.positive, v.agree.sizes)) in
      rw full (ground (arith, gone.deadlines a))
  | inr room ↦ rw room h
]

evict_subset :
    (p : RecentProbes) (a : SocketAddr)
    → Inv p
    → (deadline_of a (evict_if_full p) ≡ none) ⊎ (deadline_of a (evict_if_full p) ≡ deadline_of a p)
unfolding evict_if_full
evict_subset p a v = elim (Bool-cases (length p.entries == p.capacity)) [
  | inl full ↦
      let gone = remove_at-Removes p 0 v.agree (ground (arith, v.positive, v.agree.sizes)) in
      rw full (ground (arith, gone.deadlines a))
  | inr room ↦ rw room (inr refl)
]

module _ (addr : SocketAddr) (t : ℕ) (p : RecentProbes) (v : Inv p)
    (fresh : (d : ℕ) → deadline_of addr p ≡ some d → d ≤ t) where
  -- Recording a probe keeps the map and the heap in agreement and within the capacity, whether the
  -- address is known, new or in need of an eviction, if its deadline does not go back.
  pub record_probe-Inv : Inv (record_probe addr t p)
  unfolding record_probe record_entry refreshed
  record_probe-Inv = elim (Option-cases (get addr_discrete addr p.entries)) [
    | inl unknown ↦
        let (v', room) = evict-Inv p v in
        let (made, size) =
          record_new-Records addr t (evict_if_full p) v'.agree (evict_deadline p addr v unknown) in
        rw (unknown, record_entry)
          (record {
            agree = made.agree;
            positive = omega (arith, made.cap, v'.positive);
            bounded = omega (arith, size, room, made.cap);
          })
    | inr (probe, old) ↦
        let (made, size) =
          refreshed-Records addr t p v.agree probe.expires_at probe.heap_index old
            (fresh _ (rw old)) in
        rw (old, record_entry)
          (record {
            agree = made.agree;
            positive = v.positive;
            bounded = omega (arith, size, v.bounded);
          })
  ]

  -- Whatever is evicted, the address has its new deadline, and any other its old one or none.
  pub record_probe_any :
      (a : SocketAddr)
      → ((addr ≡ a) × (deadline_of a (record_probe addr t p) ≡ some t))
        ⊎ ((addr ≢ a)
            × ((deadline_of a (record_probe addr t p) ≡ none)
                ⊎ (deadline_of a (record_probe addr t p) ≡ deadline_of a p)))
  unfolding record_probe record_entry refreshed
  record_probe_any a = elim (Option-cases (get addr_discrete addr p.entries)) [
    | inl unknown ↦
        let v' = (evict-Inv p v).0 in
        let made =
          (record_new-Records addr t (evict_if_full p) v'.agree
            (evict_deadline p addr v unknown)).0 in
        rw (unknown, record_entry) (ground (arith, made.deadlines a, evict_subset p a v))
    | inr (probe, old) ↦
        let made =
          (refreshed-Records addr t p v.agree probe.expires_at probe.heap_index old
            (fresh _ (rw old))).0 in
        rw (old, record_entry) (ground (arith, made.deadlines a))
  ]

  -- On probes with their invariant, where the address is known, with a deadline that is not after the
  -- new one, or is unknown and there is room: recording gives it the new deadline, every other
  -- address keeps its own, the map and the heap still agree, and the capacity stays.
  pub record_probe-Records :
      (deadline_of addr p ≡ none → length p.entries < p.capacity)
      → Records addr t p (record_probe addr t p)
  unfolding record_probe record_entry refreshed
  record_probe-Records room = elim (Option-cases (get addr_discrete addr p.entries)) [
    | inl unknown ↦
        let place : length p.entries < p.capacity = room (ap deadline unknown) in
        rw (unknown, record_entry, evict_room p place)
          (record_new-Records addr t p v.agree unknown).0
    | inr (probe, old) ↦
        rw (old, record_entry)
          (refreshed-Records addr t p v.agree probe.expires_at probe.heap_index old
            (fresh _ (rw old))).0
  ]

pub Removes-Inv : {gone : SocketAddr} {p q : RecentProbes} → Inv p → Removes gone p q → Inv q
Removes-Inv v f = record {
  agree = f.agree;
  positive = omega (arith, f.cap, v.positive);
  bounded = omega (arith, f.cap, f.size, f.agree.sizes, v.agree.sizes, v.bounded);
}

-- Forgetting an address takes its deadline out, and leaves every other as it was.
pub forget-Inv :
    (addr : SocketAddr) (p : RecentProbes)
    → Inv p
    → Inv (forget addr p)
      × ((a : SocketAddr)
          → deadline_of a (forget addr p) ≡ ite (addr_discrete addr a) none (deadline_of a p))
unfolding forget remove_entry
forget-Inv addr p v = elim (Option-cases (get addr_discrete addr p.entries)) [
  | inl absent ↦ rw (absent, remove_entry) (v, λ a. ground arith)
  | inr (probe, present) ↦
      let i = probe.heap_index in
      let (t, place) = v.agree.linked.has_place addr probe.expires_at i present in
      let at_place : expiry_at p.expiry i ≡ (t, addr) =
        get_or-of_get_elem? p.expiry i no_element place in
      let gone = remove_at-Removes p i v.agree (lt_of_get_elem? p.expiry i place) in
      rw (present, remove_entry)
        (
          Removes-Inv v gone,
          subst
              (λ b.
                (a : SocketAddr)
                → deadline_of a (remove_at i p) ≡ ite (addr_discrete b a) none (deadline_of a p))
              (ap (λ e. e.1) at_place) gone.deadlines,
        )
]
