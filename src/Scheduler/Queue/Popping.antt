-- ===== src/Scheduler/Queue/Popping.antt =====
-- `pop_newest_ready` of `PendingHashQueue` in src/scheduler.rs takes a ready hash whenever there is
-- one.
use dht_crawler.Base.{
  ℕ, ◌≡◌, ◌≢◌, refl, sym, ap, subst, ◌∙◌, true, false, not, ◌&&◌, ◌||◌, ◌==◌, leb, [], ◌∷◌, length,
  Option, none, some, ite, arith, Bool-cases, Option-cases, inl, inr,
}
use dht_crawler.Base.Assoc.{get, get-remove}
use dht_crawler.Base.Ordered.{
  first_key_value, last_key_value, get-first_key_value, get-last_key_value,
}
use dht_crawler.Scheduler.{Hash, Key, hash_discrete, key_discrete, key_lt, QueuedHash}
use dht_crawler.Scheduler.Queue.{
  Index, PendingHashQueue, remove_found, remove_hash, pop_key, pop_ready, pop_newest_ready, expire,
  promote_ready,
}
use dht_crawler.Scheduler.Queue.Indexes.{entry_at, hash_at}
use dht_crawler.Scheduler.Queue.Invariant.{Inv}
use dht_crawler.Scheduler.Queue.Storing.{remove_found-Inv}
use dht_crawler.Scheduler.Queue.Expiring.{unexpired, expire-Drops}
use dht_crawler.Scheduler.Queue.Promoting.{promoted, promote_ready-Promotes}

-- What is left of the entry of a hash once a result was taken out.
abbrev pub left_by : Option QueuedHash → Hash → Option QueuedHash → Option QueuedHash
left_by none h entry = entry
left_by (some e) h entry = ite (hash_discrete e.info_hash h) none entry

-- A result is a ready entry, which leaves; there is none only if no entry is ready.
pub record Takes (entries : Hash → Option QueuedHash) (s : PendingHashQueue × Option QueuedHash)
    : Type 0 where
  pub inv : Inv s.0
  pub ready : (e : QueuedHash) → s.1 ≡ some e → (entries e.info_hash ≡ some e) × (e.ready ≡ true)
  pub rest : (h : Hash) → entry_at h s.0.entries ≡ left_by s.1 h (entries h)
  pub idle : s.1 ≡ none → (h : Hash) (e : QueuedHash) → entries h ≡ some e → e.ready ≡ false

counted-Inv : (n : ℕ) (q : PendingHashQueue) → Inv q → Inv (record q { fresh_dispatches = n })
counted-Inv n q v = record {
  positive = v.positive;
  bounded = v.bounded;
  uniq = v.uniq;
  numbered = v.numbered;
  expiry_ok = v.expiry_ok;
  retry_expiry_ok = v.retry_expiry_ok;
  waiting_ok = v.waiting_ok;
  ready_fresh_ok = v.ready_fresh_ok;
  ready_retry_ok = v.ready_retry_ok;
}

taking :
    (q : PendingHashQueue) (h : Hash) (e : QueuedHash)
    → Inv q
    → entry_at h q.entries ≡ some e
    → e.ready ≡ true
    → Takes (λ x. entry_at x q.entries) (remove_hash h q)
unfolding remove_hash remove_found
taking q h e v at is_ready =
    let name = v.numbered.named h e at in
    rw (at, remove_found)
      (record {
        inv = remove_found-Inv q v h e at;
        ready = λ e' same.
            let is : e ≡ e' = ground arith in
            (
              subst (λ x. entry_at x.info_hash q.entries ≡ some x) is
                  (subst (λ y. entry_at y q.entries ≡ some e) (sym name) at),
              ap (λ x. x.ready) (sym is) ∙ is_ready,
            );
        rest = λ x. rw name (get-remove hash_discrete h x q.entries);
        idle = λ h. absurd (ground arith);
      })

first_empty : (m : Index) → first_key_value key_lt m ≡ none → length m ≡ 0
unfolding first_key_value
first_empty [] h = refl
first_empty (x ∷ m) h = absurd (ground arith)

last_empty : (m : Index) → last_key_value key_lt m ≡ none → length m ≡ 0
unfolding last_key_value
last_empty [] h = refl
last_empty (x ∷ m) h = absurd (ground arith)

empty_at : (m : Index) (k : Key) → length m ≡ 0 → hash_at k m ≡ none
unfolding get
empty_at [] k h = refl
empty_at (x ∷ m) k h = absurd (omega arith)

module _ (q : PendingHashQueue) (v : Inv q) where
  fresh_ready :
      (k : Key) (h : Hash)
      → hash_at k q.ready_fresh ≡ some h
      → (e : QueuedHash) × (entry_at h q.entries ≡ some e) × (e.ready ≡ true)
  fresh_ready k h at =
      let (e, there, named) = v.ready_fresh_ok.to_entry k h at in (e, there, ground arith)

  retry_ready :
      (k : Key) (h : Hash)
      → hash_at k q.ready_retry ≡ some h
      → (e : QueuedHash) × (entry_at h q.entries ≡ some e) × (e.ready ≡ true)
  retry_ready k h at =
      let (e, there, named) = v.ready_retry_ok.to_entry k h at in (e, there, ground arith)

  none_ready :
      length q.ready_fresh ≡ 0
      → length q.ready_retry ≡ 0
      → (h : Hash) (e : QueuedHash) → entry_at h q.entries ≡ some e
      → e.ready ≡ false
  none_ready no_fresh no_retry h e at = elim (Bool-cases e.ready) [
    | inr unready ↦ unready
    | inl is_ready ↦ elim (Bool-cases e.is_retry) [
      | inl retry ↦ absurd (
          ground (
            arith,
            v.ready_retry_ok.to_index h e (e.ready_at, e.order_key.1) at
                (rw (is_ready, retry) refl),
            empty_at q.ready_retry (e.ready_at, e.order_key.1) no_retry,
          ))
      | inr fresh ↦ absurd (
          ground (
            arith,
            v.ready_fresh_ok.to_index h e e.order_key at (rw (is_ready, fresh) refl),
            empty_at q.ready_fresh e.order_key no_fresh,
          ))
    ]
  ]

  pop_retry :
      (n : ℕ)
      → length q.ready_retry ≢ 0
      → Takes
          (λ x. entry_at x q.entries)
          (pop_key (first_key_value key_lt q.ready_retry) (record q { fresh_dispatches = n }))
  unfolding pop_key
  pop_retry n some_retry = elim (Option-cases (first_key_value key_lt q.ready_retry)) [
    | inl empty ↦ absurd (some_retry (first_empty q.ready_retry empty))
    | inr ((key, hash), first) ↦
        let (e, at, is_ready) = retry_ready key hash (
          get-first_key_value key_lt key_discrete q.ready_retry key hash v.ready_retry_ok.uniq
            first) in
        rw (first, pop_key)
          (taking (record q { fresh_dispatches = n }) hash e (counted-Inv n q v) at is_ready)
  ]

  pop_fresh :
      (n : ℕ)
      → (length q.ready_fresh ≡ 0 → length q.ready_retry ≡ 0)
      → Takes
          (λ x. entry_at x q.entries)
          (pop_key (last_key_value key_lt q.ready_fresh) (record q { fresh_dispatches = n }))
  unfolding pop_key
  pop_fresh n else_none = elim (Option-cases (last_key_value key_lt q.ready_fresh)) [
    | inl empty ↦
        let no_fresh = last_empty q.ready_fresh empty in
        rw (empty, pop_key)
          (record {
            inv = counted-Inv n q v;
            ready = λ e same. absurd (ground arith);
            rest = λ h. refl;
            idle = λ h. none_ready no_fresh (else_none no_fresh);
          })
    | inr ((key, hash), last) ↦
        let (e, at, is_ready) = fresh_ready key hash (
          get-last_key_value key_lt key_discrete q.ready_fresh key hash v.ready_fresh_ok.uniq
            last) in
        rw (last, pop_key)
          (taking (record q { fresh_dispatches = n }) hash e (counted-Inv n q v) at is_ready)
  ]

  pop_ready-Takes : Takes (λ x. entry_at x q.entries) (pop_ready q)
  unfolding pop_ready
  pop_ready-Takes =
      elim (Bool-cases (
        not (length q.ready_retry == 0)
        && (leb 3 q.fresh_dispatches || (length q.ready_fresh == 0)))) [
          | inl retry ↦ rw retry (pop_retry 0 (λ none_there. ground arith))
          | inr fresh ↦ rw fresh (pop_fresh _ (λ none_there. ground arith))
        ]

-- The entry of a hash as it stands once `now` has come.
abbrev pub current : ℕ → PendingHashQueue → Hash → Option QueuedHash
current now q h = promoted now (unexpired now (entry_at h q.entries))

-- `pop_newest_ready` answers with a hash that has not expired and is ready by `now`, and takes out it
-- and what has expired, and nothing else; it answers with none only if no hash is ready by `now`.
pub pop_newest_ready-Takes :
    (now : ℕ) (q : PendingHashQueue) → Inv q → Takes (current now q) (pop_newest_ready now q)
unfolding pop_newest_ready
pop_newest_ready-Takes now q v =
    let drops = expire-Drops now q v in
    let q1 = (expire now q).0 in
    let promotes = promote_ready-Promotes now q1 drops.inv in
    let q2 = promote_ready now q1 in
    let takes = pop_ready-Takes q2 promotes.inv in
    let same : (h : Hash) → entry_at h q2.entries ≡ current now q h =
      λ h. promotes.entries h ∙ ap (promoted now) (drops.entries h) in
    record {
      inv = takes.inv;
      ready =
          λ e is. let (at, is_ready) = takes.ready e is in (sym (same e.info_hash) ∙ at, is_ready);
      rest = λ h. takes.rest h ∙ ap (left_by (pop_ready q2).1 h) (same h);
      idle = λ nothing h e at. takes.idle nothing h e (same h ∙ at);
    }
