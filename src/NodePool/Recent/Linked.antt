-- ===== src/NodePool/Recent/Linked.antt =====
-- The map and the heap of `RecentProbes` in src/node_pool.rs point at each other. Here both are
-- functions: `g` gives the element at a place of the heap, `s` the map's entry for an address.
use dht_crawler.Base.{ℕ, ◌≤◌, ◌≡◌, ◌≢◌, Option, none, some, arith, ite}
use dht_crawler.Base.{ℕ_discrete}
use dht_crawler.Net.{SocketAddr, addr_discrete}
use dht_crawler.NodePool.Recent.{RecentProbe}

abbrev pub Places : Type 0
Places = ℕ → Option (ℕ × SocketAddr)

abbrev pub Entries : Type 0
Entries = SocketAddr → Option RecentProbe

-- Each element of the heap has an entry, which names its place and a deadline that is no earlier;
-- and each entry's place holds its address.
pub record Linked (g : Places) (s : Entries) : Type 0 where
  pub has_entry :
      (i t : ℕ) (a : SocketAddr)
      → g i ≡ some (t, a)
      → (d : ℕ) × (s a ≡ some (record { expires_at = d; heap_index = i })) × (t ≤ d)
  pub has_place :
      (a : SocketAddr) (d i : ℕ)
      → s a ≡ some (record { expires_at = d; heap_index = i })
      → (t : ℕ) × (g i ≡ some (t, a))

-- Two places change their elements.
module _ (g g' : Places) (s s' : Entries) (l r tl tr dl dr : ℕ) (al ar : SocketAddr)
    (k : Linked g s) (apart : l ≢ r) (left : g l ≡ some (tl, al)) (right : g r ≡ some (tr, ar))
    (left_entry : s al ≡ some (record { expires_at = dl; heap_index = l }))
    (right_entry : s ar ≡ some (record { expires_at = dr; heap_index = r }))
    (places : (i : ℕ)
      → g' i ≡ ite (ℕ_discrete i l) (some (tr, ar)) (ite (ℕ_discrete i r) (some (tl, al)) (g i)))
    (entries : (a : SocketAddr)
      → s' a
        ≡ ite (addr_discrete al a) (some (record { expires_at = dl; heap_index = r })) (
            ite
              (addr_discrete ar a)
              (some (record { expires_at = dr; heap_index = l }))
              (s a))) where
  has_entry_at :
      (i t : ℕ) (a : SocketAddr)
      → g' i ≡ some (t, a)
      → (d : ℕ) × (s' a ≡ some (record { expires_at = d; heap_index = i })) × (t ≤ d)
  has_entry_at i t a h =
      let el = k.has_entry l tl al left in
      let er = k.has_entry r tr ar right in
      elim (ℕ_discrete i l) [
        | yes p ↦
            (dr, ground (arith, places i, entries a, el, er), ground (arith, places i, el, er))
        | no n ↦ elim (ℕ_discrete i r) [
          | yes q ↦
              (dl, ground (arith, places i, entries a, el, er), ground (arith, places i, el, er))
          | no m ↦
              let before : g i ≡ some (t, a) = ground (arith, places i) in
              let (d, entry, le) = k.has_entry i t a before in (d, ground (arith, entries a), le)
        ]
      ]

  has_place_of :
      (a : SocketAddr) (d i : ℕ)
      → s' a ≡ some (record { expires_at = d; heap_index = i })
      → (t : ℕ) × (g' i ≡ some (t, a))
  has_place_of a d i h = elim (addr_discrete al a) [
    | yes p ↦ (tl, ground (arith, places i, entries a))
    | no n ↦ elim (addr_discrete ar a) [
      | yes q ↦ (tr, ground (arith, places i, entries a))
      | no m ↦
          let before : s a ≡ some (record { expires_at = d; heap_index = i }) =
            ground (arith, entries a) in
          let (t, place) = k.has_place a d i before in (t, ground (arith, places i))
    ]
  ]

  pub places-Linked : Linked g' s'
  places-Linked = record { has_entry = has_entry_at; has_place = has_place_of }

-- A new element at a free place, for an address with no entry.
module _ (g g' : Places) (s s' : Entries) (n t0 : ℕ) (a0 : SocketAddr) (k : Linked g s)
    (free : g n ≡ none) (new : s a0 ≡ none)
    (places : (i : ℕ) → g' i ≡ ite (ℕ_discrete i n) (some (t0, a0)) (g i))
    (entries : (a : SocketAddr)
      → s' a
        ≡ ite (addr_discrete a0 a) (some (record { expires_at = t0; heap_index = n })) (s a)) where
  pub push-Linked : Linked g' s'
  push-Linked = record {
    has_entry = λ i t a h. elim (ℕ_discrete i n) [
      | yes p ↦ (t0, ground (arith, places i, entries a), ground (arith, places i))
      | no m ↦
          let before : g i ≡ some (t, a) = ground (arith, places i) in
          let (d, entry, le) = k.has_entry i t a before in (d, ground (arith, entries a), le)
    ];
    has_place = λ a d i h. elim (addr_discrete a0 a) [
      | yes p ↦ (t0, ground (arith, places i, entries a))
      | no m ↦
          let before : s a ≡ some (record { expires_at = d; heap_index = i }) =
            ground (arith, entries a) in
          let (t, place) = k.has_place a d i before in (t, ground (arith, places i))
    ];
  }

-- The last element goes.
module _ (g g' : Places) (s s' : Entries) (m tm : ℕ) (am : SocketAddr) (k : Linked g s)
    (last : g m ≡ some (tm, am)) (places : (i : ℕ) → g' i ≡ ite (ℕ_discrete i m) none (g i))
    (entries : (a : SocketAddr) → s' a ≡ ite (addr_discrete am a) none (s a)) where
  pub pop-Linked : Linked g' s'
  pop-Linked = record {
    has_entry = λ i t a h.
        let before : (g i ≡ some (t, a)) × (i ≢ m) = ground (arith, places i) in
        let (d, entry, le) = k.has_entry i t a before.0 in
        (d, ground (arith, entries a, k.has_entry m tm am last), le);
    has_place = λ a d i h.
        let before : (s a ≡ some (record { expires_at = d; heap_index = i })) × (am ≢ a) =
          ground (arith, entries a) in
        let (t, place) = k.has_place a d i before.0 in (t, ground (arith, places i));
  }

-- The last element takes the place of another.
module _ (g g' : Places) (s s' : Entries) (x m tx tm dm : ℕ) (ax am : SocketAddr) (k : Linked g s)
    (apart : x ≢ m) (removed : g x ≡ some (tx, ax)) (last : g m ≡ some (tm, am))
    (last_entry : s am ≡ some (record { expires_at = dm; heap_index = m }))
    (places : (i : ℕ)
      → g' i ≡ ite (ℕ_discrete i m) none (ite (ℕ_discrete i x) (some (tm, am)) (g i)))
    (entries : (a : SocketAddr)
      → s' a
        ≡ ite
            (addr_discrete am a)
            (some (record { expires_at = dm; heap_index = x }))
            (ite (addr_discrete ax a) none (s a))) where
  moved_entry_at :
      (i t : ℕ) (a : SocketAddr)
      → g' i ≡ some (t, a)
      → (d : ℕ) × (s' a ≡ some (record { expires_at = d; heap_index = i })) × (t ≤ d)
  moved_entry_at i t a h =
      let ex = k.has_entry x tx ax removed in
      let em = k.has_entry m tm am last in
      elim (ℕ_discrete i x) [
        | yes p ↦ (dm, ground (arith, places i, entries a, em), ground (arith, places i, em))
        | no n ↦
            let before : (g i ≡ some (t, a)) × (i ≢ m) = ground (arith, places i) in
            let (d, entry, le) = k.has_entry i t a before.0 in
            (d, ground (arith, entries a, ex, em), le)
      ]

  moved_place_of :
      (a : SocketAddr) (d i : ℕ)
      → s' a ≡ some (record { expires_at = d; heap_index = i })
      → (t : ℕ) × (g' i ≡ some (t, a))
  moved_place_of a d i h = elim (addr_discrete am a) [
    | yes p ↦ (tm, ground (arith, places i, entries a))
    | no n ↦
        let before : (s a ≡ some (record { expires_at = d; heap_index = i })) × (ax ≢ a) =
          ground (arith, entries a) in
        let (t, place) = k.has_place a d i before.0 in (t, ground (arith, places i))
  ]

  pub move-Linked : Linked g' s'
  move-Linked = record { has_entry = moved_entry_at; has_place = moved_place_of }

-- A place takes on the deadline of its entry.
module _ (g g' : Places) (s : Entries) (x t d : ℕ) (a : SocketAddr) (k : Linked g s)
    (place : g x ≡ some (t, a)) (entry : s a ≡ some (record { expires_at = d; heap_index = x }))
    (places : (i : ℕ) → g' i ≡ ite (ℕ_discrete i x) (some (d, a)) (g i)) where
  pub retime-Linked : Linked g' s
  retime-Linked = record {
    has_entry = λ i u b h. elim (ℕ_discrete i x) [
      | yes p ↦ (d, ground (arith, places i), ground (arith, places i))
      | no n ↦ k.has_entry i u b (ground (arith, places i))
    ];
    has_place = λ b e i h. elim (ℕ_discrete i x) [
      | yes p ↦ (d, ground (arith, places i, k.has_place b e i h))
      | no n ↦ let (u, old) = k.has_place b e i h in (u, ground (arith, places i))
    ];
  }

-- An entry takes on a later deadline.
module _ (g : Places) (s s' : Entries) (x d e : ℕ) (a : SocketAddr) (k : Linked g s)
    (entry : s a ≡ some (record { expires_at = d; heap_index = x })) (later : d ≤ e)
    (entries : (b : SocketAddr)
      → s' b
        ≡ ite (addr_discrete a b) (some (record { expires_at = e; heap_index = x })) (s b)) where
  pub refresh-Linked : Linked g s'
  refresh-Linked = record {
    has_entry = λ i t b h.
        let (f, old, le) = k.has_entry i t b h in
        elim (addr_discrete a b) [
          | yes p ↦ (e, ground (arith, entries b), ground arith)
          | no n ↦ (f, ground (arith, entries b), le)
        ];
    has_place = λ b f i h. elim (addr_discrete a b) [
      | yes p ↦ k.has_place b d i (ground (arith, entries b))
      | no n ↦ k.has_place b f i (ground (arith, entries b))
    ];
  }
