-- ===== src/Metadata/Storing.antt =====
-- `PeerFailureCache::insert` and `remove` of src/metadata.rs: what a full cache gives up, and its bounds.
use dht_crawler.Base.{
  ℕ, ◌+◌, ◌≤◌, ◌<◌, ◌≡◌, ◌≢◌, refl, sym, ap, subst, ◌∙◌, inl, inr, false, not, ◌&&◌, leb, [], ◌∷◌,
  ◌++◌, length, All, All-append, none, some, arith, Bool-cases, Option-cases,
}
use mathlib.Core.Logic.{if_pos}
use mathlib.Core.Option.{some-injective}
use dht_crawler.Base.Assoc.{
  get, insert, remove, contains, get-insert_self, get-insert_other, get-remove_other, get-remove,
  get-remove_self, Uniq, Uniq-remove, Uniq-insert, length-remove, remove_absent, length-insert_new,
  length-insert_old,
}
use dht_crawler.Metadata.{
  PeerFailureReason, PeerFailureEntry, PeerFailureKey, key_discrete, Entries, Expiry,
  PeerFailureCache, drop_popped, expire, disabled, make_room, store, forget,
}
use dht_crawler.Metadata.Expiring.{
  Queued, Queued-le, Sorted, Agree, Inv, alive, alive-alive, entry_at, expired, later-Inv, off-none,
  get-drop_popped, length-drop_popped, drop_popped-Agree,
}

-- The queue has nothing, so there is no entry.
empty-length : (entries : Entries) → Agree entries [] → length entries ≤ 0
unfolding get
empty-length [] v = omega arith
empty-length ((k, e) ∷ m) v = elim (v.to_expiry k e (rw (if_pos _ refl))) [ ]

-- The room that is made for `key`: entries are given up, the first to expire first, and only as long as
-- the cache is full without the key.
pub record Room (capacity : ℕ) (key : PeerFailureKey) (entries : Entries)
    (P : ℕ × PeerFailureKey → Type 0) (after : Entries × Expiry) : Type 0 where
  pub agree : Agree after.0 after.1
  pub within : All P after.1
  pub kept :
      (k : PeerFailureKey) (e : PeerFailureEntry)
      → get key_discrete k after.0 ≡ some e
      → get key_discrete k entries ≡ some e
  pub oldest :
      (k j : PeerFailureKey) (e f : PeerFailureEntry)
      → get key_discrete k entries ≡ some e
      → get key_discrete k after.0 ≡ none
      → get key_discrete j after.0 ≡ some f
      → e.expires_at ≤ f.expires_at
  pub shorter : length after.0 ≤ length entries
  pub room : (leb capacity (length after.0) && not (contains key_discrete key after.0)) ≡ false
  pub idle :
      (leb capacity (length entries) && not (contains key_discrete key entries)) ≡ false
      → after.0 ≡ entries

module _ (capacity : ℕ) (key : PeerFailureKey) (P : ℕ × PeerFailureKey → Type 0)
    (positive : 0 < capacity) where
  stop-Room :
      (entries : Entries) (q : Expiry)
      → Agree entries q
      → All P q
      → (leb capacity (length entries) && not (contains key_discrete key entries)) ≡ false
      → Room capacity key entries P (entries, q)
  stop-Room entries q v w h = record {
    agree = v;
    within = w;
    kept = λ k e found. found;
    oldest = λ k j e f before gone there. absurd (ground arith);
    shorter = omega arith;
    room = h;
    idle = λ _. refl;
  }

  make_room-Room :
      (q : Expiry) (entries : Entries)
      → Agree entries q
      → All P q
      → Room capacity key entries P (make_room capacity key q entries)
  unfolding make_room
  make_room-Room [] entries v w =
      let small = empty-length entries v in stop-Room entries [] v tt (ground arith)
  make_room-Room ((at, j) ∷ q) entries v w =
      elim (Bool-cases (leb capacity (length entries) && not (contains key_discrete key entries))) [
        | inr enough ↦ rw enough (stop-Room entries ((at, j) ∷ q) v w enough)
        | inl full ↦
            let v' = drop_popped-Agree at j q entries v in
            let rest = make_room-Room q (drop_popped at j entries) v' w.1 in
            rw full (record {
              agree = rest.agree;
              within = rest.within;
              kept = λ k e found. kept_before at j entries k e (rest.kept k e found);
              oldest = λ k i e f before gone there. elim (get-drop_popped at j k entries) [
                | inl (same, _) ↦ rest.oldest k i e f (same ∙ before) gone there
                | inr (here, drops, out) ↦
                    let queued = v'.to_expiry i f (rest.kept i f there) in
                    let low = Queued-le at f.expires_at i q v.sorted.0 queued in
                    let exact : e.expires_at ≡ at = ground (arith, drops, before) in
                    omega (arith, low, exact)
              ];
              shorter = omega (arith, rest.shorter, (length-drop_popped at j entries v.uniq).1);
              room = rest.room;
              idle = λ h. absurd (ground (arith, h, full));
            })
      ]
    where
      kept_before :
          (at : ℕ) (j : PeerFailureKey) (entries : Entries) (k : PeerFailureKey)
          (e : PeerFailureEntry)
          → get key_discrete k (drop_popped at j entries) ≡ some e
          → get key_discrete k entries ≡ some e
      kept_before at j entries k e found = elim (get-drop_popped at j k entries) [
        | inl (same, _) ↦ sym same ∙ found
        | inr (here, drops, out) ↦ absurd (ground (arith, out, found))
      ]

Queued-within :
    (b at : ℕ) (k : PeerFailureKey) (q : Expiry) → All (λ x. x.0 ≤ b) q → Queued at k q → at ≤ b
Queued-within b at k [] w h = elim h [ ]
Queued-within b at k ((t, j) ∷ q) w (inl (same, _)) = omega (arith, w.0)
Queued-within b at k ((t, j) ∷ q) w (inr h) = Queued-within b at k q w.1 h

Queued-snoc :
    (at : ℕ) (k : PeerFailureKey) (q : Expiry) (x : ℕ × PeerFailureKey)
    → Queued at k q
    → Queued at k (q ++ (x ∷ []))
Queued-snoc at k [] x h = elim h [ ]
Queued-snoc at k ((t, j) ∷ q) x (inl h) = inl h
Queued-snoc at k ((t, j) ∷ q) x (inr h) = inr (Queued-snoc at k q x h)

Queued-last : (at : ℕ) (k : PeerFailureKey) (q : Expiry) → Queued at k (q ++ ((at, k) ∷ []))
Queued-last at k [] = inl (refl, refl)
Queued-last at k ((t, j) ∷ q) = inr (Queued-last at k q)

Sorted-snoc :
    (q : Expiry) (at : ℕ) (k : PeerFailureKey)
    → Sorted q
    → All (λ x. x.0 ≤ at) q
    → Sorted (q ++ ((at, k) ∷ []))
Sorted-snoc [] at k s w = (tt, tt)
Sorted-snoc ((t, j) ∷ q) at k s w =
    (All-append (λ x. t ≤ x.0) q ((at, k) ∷ []) s.0 (w.0, tt), Sorted-snoc q at k s.1 w.1)

-- A new entry and its end.
insert-Agree :
    (key : PeerFailureKey) (e : PeerFailureEntry) (entries : Entries) (q : Expiry)
    → Agree entries q
    → All (λ x. x.0 ≤ e.expires_at) q
    → Agree (insert key_discrete key e entries) (q ++ ((e.expires_at, key) ∷ []))
insert-Agree key e entries q v w = record {
  uniq = Uniq-insert key_discrete key e entries v.uniq;
  to_expiry = λ k f found. elim (key_discrete key k) [
    | yes here ↦
        let new : e ≡ f =
          some-injective e f (sym (get-insert_self key_discrete key k e entries here) ∙ found) in
        subst (λ x. Queued x k (q ++ ((e.expires_at, key) ∷ []))) (ap (λ y. y.expires_at) new)
          (subst (λ x. Queued e.expires_at x (q ++ ((e.expires_at, key) ∷ []))) here
            (Queued-last e.expires_at key q))
    | no apart ↦
        Queued-snoc f.expires_at k q (e.expires_at, key)
          (v.to_expiry k f (sym (get-insert_other key_discrete key k e entries apart) ∙ found))
  ];
  sorted = Sorted-snoc q e.expires_at key v.sorted w;
}

inserted-length :
    (capacity : ℕ) (key : PeerFailureKey) (e : PeerFailureEntry) (entries : Entries)
    → Uniq key_discrete entries
    → length entries ≤ capacity
    → (leb capacity (length entries) && not (contains key_discrete key entries)) ≡ false
    → length (insert key_discrete key e entries) ≤ capacity
inserted-length capacity key e entries u bounded room =
    elim (Option-cases (get key_discrete key entries)) [
      | inl absent ↦
          ground (arith, room, absent, length-insert_new key_discrete key e entries absent)
      | inr (f, found) ↦ omega (arith, length-insert_old key_discrete key e f entries u found)
    ]

removed-Agree :
    (key : PeerFailureKey) (entries : Entries) (q : Expiry)
    → Agree entries q
    → Agree (remove key_discrete key entries) q
removed-Agree key entries q agree = record {
  uniq = Uniq-remove key_discrete key entries agree.uniq;
  to_expiry = λ k f found. elim (key_discrete key k) [
    | yes here ↦ absurd (ground (arith, found, get-remove key_discrete key k entries))
    | no apart ↦
        agree.to_expiry k f (sym (get-remove_other key_discrete key k entries apart) ∙ found)
  ];
  sorted = agree.sorted;
}

forgotten-length :
    (key : PeerFailureKey) (entries : Entries)
    → Uniq key_discrete entries
    → length (remove key_discrete key entries) ≤ length entries
forgotten-length key entries u = elim (Option-cases (get key_discrete key entries)) [
  | inl absent ↦ rw (remove_absent key_discrete key entries absent) (omega arith)
  | inr (e, found) ↦ omega (arith, length-remove key_discrete key entries u found)
]

-- What `insert` does to a cache that is in use.
pub record Stores (key : PeerFailureKey) (reason : PeerFailureReason) (now : ℕ)
    (cache cache' : PeerFailureCache) : Type 0 where
  pub stored : entry_at key cache' ≡ some (record { expires_at = now + cache.ttl; reason = reason })
  pub kept :
      (k : PeerFailureKey) (e : PeerFailureEntry)
      → key ≢ k
      → entry_at k cache' ≡ some e
      → alive now (entry_at k cache) ≡ some e
  pub oldest :
      (k j : PeerFailureKey) (e f : PeerFailureEntry)
      → alive now (entry_at k cache) ≡ some e
      → entry_at k cache' ≡ none
      → entry_at j cache' ≡ some f
      → e.expires_at ≤ f.expires_at

module _ (clock now : ℕ) (cache : PeerFailureCache) (v : Inv clock cache)
    (later : clock ≤ now) where
  -- On a cache that is in use, whose last operation is not later than `now`, `insert` stores the failure
  -- until the end of its time to live, keeps of the other entries only such as have not expired,
  -- and gives up none that expires later than one that it keeps. In every case the capacity and
  -- the invariant hold.
  pub store-Stores :
      (key : PeerFailureKey) (reason : PeerFailureReason)
      → let (cache', count) = store key reason now cache in
        (disabled cache ≡ false → Stores key reason now cache cache')
        × (count ≤ cache.capacity)
        × Inv now cache'
  unfolding store
  store-Stores key reason = elim (Bool-cases (disabled cache)) [
    | inl off ↦ rw off ((λ on. absurd (cc)), omega arith, later-Inv clock now cache v later)
    | inr on ↦
        let gone = expired clock now cache v later in
        let (live, waiting) = expire now cache.expiry cache.entries in
        let made =
          make_room-Room cache.capacity key (λ x. x.0 ≤ now + cache.ttl) (ground (arith, on))
            waiting live gone.agree gone.within in
        let e : PeerFailureEntry = record { expires_at = now + cache.ttl; reason = reason } in
        let kept = (make_room cache.capacity key waiting live).0 in
        let bounded : length (insert key_discrete key e kept) ≤ cache.capacity =
          inserted-length cache.capacity key e kept made.agree.uniq
            (omega (arith, made.shorter, gone.shorter, v.bounded)) made.room in
        rw on (
          (λ _. record {
            stored = get-insert_self key_discrete key key e kept refl;
            kept = λ k f apart found.
                sym (gone.live k)
                ∙ made.kept k f (sym (get-insert_other key_discrete key k e kept apart) ∙ found);
            oldest = λ k j f g before out there. elim (key_discrete key j) [
              | yes here ↦
                  let queued = gone.agree.to_expiry k f (gone.live k ∙ before) in
                  let low =
                    Queued-within (now + cache.ttl) f.expires_at k waiting gone.within queued in
                  let last : e ≡ g =
                    some-injective e g
                      (sym (get-insert_self key_discrete key j e kept here) ∙ there) in
                  omega (arith, low, ap (λ y. y.expires_at) last)
              | no apart ↦
                  let other : key ≢ k =
                    λ same. ground (arith, get-insert_self key_discrete key k e kept same, out) in
                  made.oldest k j f g (gone.live k ∙ before)
                    (sym (get-insert_other key_discrete key k e kept other) ∙ out)
                    (sym (get-insert_other key_discrete key j e kept apart) ∙ there)
            ];
          }),
          bounded,
          record {
            agree = insert-Agree key e kept _ made.agree made.within;
            bounded = bounded;
            ends = All-append _ _ _ made.within (omega arith, tt);
            off = λ off. absurd (cc);
          },
        )
  ]

  -- On a cache whose last operation is not later than `now`, `remove` takes out the failure of the key,
  -- leaves every other one that has not expired, and keeps the invariant and the capacity.
  pub forget-Forgets :
      (key : PeerFailureKey)
      → let (cache', count) = forget key now cache in
        (entry_at key cache' ≡ none)
        × ((k : PeerFailureKey)
            → key ≢ k
            → alive now (entry_at k cache') ≡ alive now (entry_at k cache))
        × (count ≤ cache.capacity)
        × Inv now cache'
  unfolding forget
  forget-Forgets key = elim (Bool-cases (disabled cache)) [
    | inl off ↦ rw off (
      off-none clock now cache v later off key,
      (λ k apart. refl),
      omega arith,
      later-Inv clock now cache v later,
    )
    | inr on ↦
        let gone = expired clock now cache v later in
        let (live, waiting) = expire now cache.expiry cache.entries in
        let bounded : length (remove key_discrete key live) ≤ cache.capacity =
          omega (arith, forgotten-length key live gone.agree.uniq, gone.shorter, v.bounded) in
        rw on (
          get-remove_self key_discrete key live,
          (λ k apart.
              ap (alive now) (get-remove_other key_discrete key k live apart ∙ gone.live k)
              ∙ alive-alive now (entry_at k cache)),
          bounded,
          record {
            agree = removed-Agree key live waiting gone.agree;
            bounded = bounded;
            ends = gone.within;
            off = λ off. absurd (cc);
          },
        )
  ]
