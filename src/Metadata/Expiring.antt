-- ===== src/Metadata/Expiring.antt =====
-- `PeerFailureCache::expire` and `get` of src/metadata.rs: an entry is found exactly until it expires.
use dht_crawler.Base.{
  ℕ, ◌+◌, ◌≤◌, ◌≡◌, refl, sym, ap, ◌∙◌, ◌⊎◌, inl, inr, true, false, ltb, if◌then◌else◌, [], ◌∷◌,
  length, All, Option, none, some, arith, Bool-cases, Option-cases,
}
use mathlib.Core.Logic.{if_pos, if_neg}
use dht_crawler.Base.Assoc.{get, get-remove, Uniq, Uniq-remove, length-remove}
use dht_crawler.Metadata.{
  PeerFailureReason, PeerFailureEntry, PeerFailureKey, key_discrete, Entries, Expiry,
  PeerFailureCache, new, expires_then, drop_popped, expire, reason_of, disabled, get_reason,
}

-- A time is noted for the key.
abbrev pub Queued : ℕ → PeerFailureKey → Expiry → Type 0
Queued at k [] = ⊥
Queued at k ((t, j) ∷ q) = ((t ≡ at) × (j ≡ k)) ⊎ Queued at k q

abbrev pub Sorted : Expiry → Type 0
Sorted [] = Unit {0}
Sorted ((t, j) ∷ q) = All (λ x. t ≤ x.0) q × Sorted q

-- The entries and the queue of their ends fit together.
pub record Agree (entries : Entries) (expiry : Expiry) : Type 0 where
  pub uniq : Uniq key_discrete entries
  pub to_expiry :
      (k : PeerFailureKey) (e : PeerFailureEntry)
      → get key_discrete k entries ≡ some e
      → Queued e.expires_at k expiry
  pub sorted : Sorted expiry

-- `clock` is the time of the last operation.
pub record Inv (clock : ℕ) (cache : PeerFailureCache) : Type 0 where
  pub agree : Agree cache.entries cache.expiry
  pub bounded : length cache.entries ≤ cache.capacity
  pub ends : All (λ x. x.0 ≤ clock + cache.ttl) cache.expiry
  pub off : disabled cache ≡ true → cache.entries ≡ []

pub new-Inv : (clock capacity ttl : ℕ) → Inv clock (new capacity ttl)
unfolding new get
new-Inv clock capacity ttl = record {
  agree = record { uniq = tt; to_expiry = λ k e h. absurd (ground arith); sorted = tt };
  bounded = omega arith;
  ends = tt;
  off = λ h. refl;
}

pub Queued-le :
    (t at : ℕ) (k : PeerFailureKey) (q : Expiry) → All (λ x. t ≤ x.0) q → Queued at k q → t ≤ at
Queued-le t at k [] later h = elim h [ ]
Queued-le t at k ((u, j) ∷ q) later (inl (same, _)) = omega (arith, later.0)
Queued-le t at k ((u, j) ∷ q) later (inr h) = Queued-le t at k q later.1 h

-- What stands for a key once the element (`at`, `j`) is popped.
abbrev pub popped : ℕ → Option PeerFailureEntry → Option PeerFailureEntry
popped at e = if expires_then at e then none else e

pub get-drop_popped :
    (at : ℕ) (j k : PeerFailureKey) (entries : Entries)
    → ((get key_discrete k (drop_popped at j entries) ≡ get key_discrete k entries)
        × (j ≡ k → expires_then at (get key_discrete k entries) ≡ false))
      ⊎ ((j ≡ k)
          × (expires_then at (get key_discrete k entries) ≡ true)
          × (get key_discrete k (drop_popped at j entries) ≡ none))
unfolding drop_popped
get-drop_popped at j k entries = elim (Bool-cases (expires_then at (get key_discrete j entries))) [
  | inr keeps ↦ rw keeps (inl (refl, λ here. rw (← here) keeps))
  | inl drops ↦ elim (key_discrete j k) [
    | yes here ↦
        rw drops
          (inr (here, rw (← here) drops, rw (get-remove key_discrete j k entries, if_pos _ here)))
    | no apart ↦ rw drops (
        inl (rw (get-remove key_discrete j k entries, if_neg _ apart), λ here. absurd (apart here)))
  ]
]

pub length-drop_popped :
    (at : ℕ) (j : PeerFailureKey) (entries : Entries)
    → Uniq key_discrete entries
    → Uniq key_discrete (drop_popped at j entries)
      × (length (drop_popped at j entries) ≤ length entries)
unfolding drop_popped
length-drop_popped at j entries u =
    elim (Bool-cases (expires_then at (get key_discrete j entries))) [
      | inr keeps ↦ rw keeps (u, omega arith)
      | inl drops ↦ elim (Option-cases (get key_discrete j entries)) [
        | inl absent ↦ absurd (ground (arith, drops, absent))
        | inr (e, found) ↦ rw drops (
          Uniq-remove key_discrete j entries u,
          omega (arith, length-remove key_discrete j entries u found),
        )
      ]
    ]

pub drop_popped-Agree :
    (at : ℕ) (j : PeerFailureKey) (q : Expiry) (entries : Entries)
    → Agree entries ((at, j) ∷ q)
    → Agree (drop_popped at j entries) q
drop_popped-Agree at j q entries v = record {
  uniq = (length-drop_popped at j entries v.uniq).0;
  to_expiry = λ k e found. elim (get-drop_popped at j k entries) [
    | inr (here, drops, gone) ↦ absurd (ground (arith, gone, found))
    | inl (same, kept) ↦ elim (v.to_expiry k e (sym same ∙ found)) [
      | inr later ↦ later
      | inl (time, key) ↦ absurd (ground (arith, kept key, sym same ∙ found))
    ]
  ];
  sorted = v.sorted.1;
}

-- An entry that lives on after `now`.
abbrev pub alive : ℕ → Option PeerFailureEntry → Option PeerFailureEntry
alive now none = none
alive now (some e) = if ltb now e.expires_at then some e else none

pub record Expires (now : ℕ) (before : Entries) (P : ℕ × PeerFailureKey → Type 0)
    (after : Entries × Expiry) : Type 0 where
  pub agree : Agree after.0 after.1
  pub live :
      (k : PeerFailureKey) → get key_discrete k after.0 ≡ alive now (get key_discrete k before)
  pub shorter : length after.0 ≤ length before
  pub within : All P after.1

drop-alive :
    (now at : ℕ) (j k : PeerFailureKey) (entries : Entries)
    → at ≤ now
    → alive now (get key_discrete k (drop_popped at j entries))
      ≡ alive now (get key_discrete k entries)
drop-alive now at j k entries over = elim (get-drop_popped at j k entries) [
  | inl (same, _) ↦ rw same refl
  | inr (here, drops, gone) ↦ ground (arith, drops, gone)
]

pub expire-Expires :
    (now : ℕ) (P : ℕ × PeerFailureKey → Type 0) (q : Expiry) (entries : Entries)
    → Agree entries q
    → All P q
    → Expires now entries P (expire now q entries)
unfolding expire
expire-Expires now P [] entries v w = record {
  agree = v;
  live = λ k. elim (Option-cases (get key_discrete k entries)) [
    | inl absent ↦ rw absent refl
    | inr (e, found) ↦ elim (v.to_expiry k e found) [ ]
  ];
  shorter = omega arith;
  within = tt;
}
expire-Expires now P ((at, j) ∷ q) entries v w = elim (Bool-cases (ltb now at)) [
  | inl live ↦ rw live (record {
    agree = v;
    live = λ k. elim (Option-cases (get key_discrete k entries)) [
      | inl absent ↦ rw absent refl
      | inr (e, found) ↦
          let later =
            Queued-le at e.expires_at k ((at, j) ∷ q) (omega arith, v.sorted.0)
              (v.to_expiry k e found) in
          ground (arith, found, later)
    ];
    shorter = omega arith;
    within = w;
  })
  | inr over ↦
      let rest =
        expire-Expires now P q (drop_popped at j entries) (drop_popped-Agree at j q entries v)
          w.1 in
      rw over (record {
        agree = rest.agree;
        live = λ k. rest.live k ∙ drop-alive now at j k entries (ground arith);
        shorter = omega (arith, rest.shorter, (length-drop_popped at j entries v.uniq).1);
        within = rest.within;
      })
]

-- What `get` tells of a key.
pub live_reason : ℕ → Option PeerFailureEntry → Option PeerFailureReason
live_reason now none = none
live_reason now (some e) = if ltb now e.expires_at then some e.reason else none

reason_of-alive :
    (now : ℕ) (e : Option PeerFailureEntry) → reason_of (alive now e) ≡ live_reason now e
unfolding live_reason
reason_of-alive now none = refl
reason_of-alive now (some e) = ground arith

pub alive-alive : (now : ℕ) (e : Option PeerFailureEntry) → alive now (alive now e) ≡ alive now e
alive-alive now none = refl
alive-alive now (some e) = ground arith

pub ends-later : (q : Expiry) (a b : ℕ) → a ≤ b → All (λ x. x.0 ≤ a) q → All (λ x. x.0 ≤ b) q
ends-later [] a b h w = tt
ends-later (x ∷ q) a b h w = (omega (arith, w.0), ends-later q a b h w.1)

abbrev pub entry_at : PeerFailureKey → PeerFailureCache → Option PeerFailureEntry
entry_at k cache = get key_discrete k cache.entries

module _ (clock now : ℕ) (cache : PeerFailureCache) (v : Inv clock cache)
    (later : clock ≤ now) where
  pub expired :
      Expires now cache.entries (λ x. x.0 ≤ now + cache.ttl) (expire now cache.expiry cache.entries)
  expired =
      expire-Expires now (λ x. x.0 ≤ now + cache.ttl) cache.expiry cache.entries v.agree
        (ends-later cache.expiry (clock + cache.ttl) (now + cache.ttl) (omega arith) v.ends)

  pub later-Inv : Inv now cache
  later-Inv = record {
    agree = v.agree;
    bounded = v.bounded;
    ends = ends-later cache.expiry (clock + cache.ttl) (now + cache.ttl) (omega arith) v.ends;
    off = v.off;
  }

  pub off-none : disabled cache ≡ true → (k : PeerFailureKey) → entry_at k cache ≡ none
  unfolding get
  off-none h k = rw (v.off h) refl

  -- Asked at a time that is not before the last operation, `get` tells the reason of a failure that was
  -- stored and has not expired, and of no other; every entry is then there as long as it has not
  -- expired, and the invariant holds.
  pub get_reason-live :
      (key : PeerFailureKey)
      → let (cache', (reason, count)) = get_reason key now cache in
        (reason ≡ live_reason now (entry_at key cache))
        × ((k : PeerFailureKey) → alive now (entry_at k cache') ≡ alive now (entry_at k cache))
        × (count ≤ cache.capacity)
        × Inv now cache'
  unfolding get_reason live_reason
  get_reason-live key = elim (Bool-cases (disabled cache)) [
    | inl off ↦ rw (off, off-none off key) (refl, λ k. refl, omega arith, later-Inv)
    | inr on ↦ rw on (
      ap reason_of (expired.live key) ∙ reason_of-alive now (entry_at key cache),
      (λ k. rw (expired.live k) (alive-alive now (entry_at k cache))),
      omega (arith, expired.shorter, v.bounded),
      record {
        agree = expired.agree;
        bounded = omega (arith, expired.shorter, v.bounded);
        ends = expired.within;
        off = λ h. absurd (ground arith);
      },
    )
  ]
