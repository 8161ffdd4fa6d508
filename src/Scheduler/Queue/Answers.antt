-- ===== src/Scheduler/Queue/Answers.antt =====
-- What the answers of `push` of `PendingHashQueue` in src/scheduler.rs mean.
use dht_crawler.Base.{
  ℕ, ◌+◌, ◌-◌, ◌%◌, ◌^◌, ◌≡◌, ◌≢◌, ◌⊎◌, refl, sym, subst, ◌∙◌, Bool, true, false, not, ◌&&◌, ltb,
  leb, if◌then◌else◌, length, Option, none, some, arith, Bool-cases, Option-cases, inl, inr,
}
use mathlib.Core.Logic.{if_pos}
use dht_crawler.Base.Assoc.{get, get-insert}
use dht_crawler.Scheduler.{Hash, hash_discrete, QueuedHash, HashDiscovered, merge_candidate}
use dht_crawler.Scheduler.Queue.{
  PendingHashQueue, QueuePushKind, inserted, updated, evicted_oldest, evicted_retry, stale,
  insert_entry, remove_found, remove_hash, new_entry, refreshed, oldest, evict_entry, evict_key,
  make_room, push_new, push_removed, push,
}
use dht_crawler.Scheduler.Queue.Indexes.{entry_at}
use dht_crawler.Scheduler.Queue.Invariant.{Inv}
use dht_crawler.Scheduler.Queue.Pushing.{refreshed-info_hash}

-- A stale event leaves the queue as it was. After any other answer the queue has an entry for the hash.
pub record Answers (h : Hash) (q : PendingHashQueue) (s : PendingHashQueue × QueuePushKind)
    : Type 0 where
  pub unchanged : s.1 ≡ stale → s.0 ≡ q
  pub stored : s.1 ≢ stale → (e : QueuedHash) × (entry_at h s.0.entries ≡ some e)

insert_entry-stored :
    (old : QueuedHash) (q : PendingHashQueue)
    → (e : QueuedHash) × (entry_at old.info_hash (insert_entry old q).entries ≡ some e)
unfolding insert_entry
insert_entry-stored old q = (
  record old { order_key = (old.latest_at, (q.sequence + 1) % 2 ^ 64) },
  rw (get-insert hash_discrete old.info_hash old.info_hash, if_pos _ refl),
)

evicted_not_stale : (b : Bool) → (if b then evicted_retry else evicted_oldest) ≢ stale
evicted_not_stale true h = absurd (ground arith)
evicted_not_stale false h = absurd (ground arith)

-- Making room either fails and changes nothing, or does not answer `stale`.
make_room-cases :
    (event : HashDiscovered) (q : PendingHashQueue)
    → (make_room event q ≡ (q, stale)) ⊎ ((make_room event q).1 ≢ stale)
unfolding make_room evict_key evict_entry
make_room-cases event q = elim (Bool-cases (leb q.capacity (length q.entries))) [
  | inr room ↦ inr (rw room (λ h. absurd (ground arith)))
  | inl full ↦ elim (Option-cases (oldest q)) [
    | inl nothing ↦ inl (rw (full, nothing, evict_key) refl)
    | inr ((key, hash), found) ↦ elim (Option-cases (get hash_discrete hash q.entries)) [
      | inl absent ↦ inl (rw (full, found, evict_key, absent, evict_entry) refl)
      | inr (e, at) ↦ elim (Bool-cases (not e.is_retry && leb event.discovered_at e.latest_at)) [
        | inl keeps ↦ inl (rw (full, found, evict_key, at, evict_entry) (simp keeps refl))
        | inr gives ↦ inr (
            rw (full, found, evict_key, at, evict_entry)
              (simp gives (evicted_not_stale e.is_retry)))
      ]
    ]
  ]
]

stored-Answers :
    (h : Hash) (q q' : PendingHashQueue) (old : QueuedHash) (kind : QueuePushKind)
    → old.info_hash ≡ h
    → kind ≢ stale
    → Answers h q (insert_entry old q', kind)
stored-Answers h q q' old kind name not_stale = record {
  unchanged = λ is. absurd (not_stale is);
  stored = λ is.
      let (e, at) = insert_entry-stored old q' in
      (e, subst (λ x. entry_at x (insert_entry old q').entries ≡ some e) name at);
}

stale-Answers : (h : Hash) (q : PendingHashQueue) → Answers h q (q, stale)
stale-Answers h q = record { unchanged = λ is. refl; stored = λ is. absurd (is refl) }

push_new-Answers :
    (event : HashDiscovered) (now : ℕ) (q : PendingHashQueue)
    → Answers event.info_hash q (push_new event now (make_room event q))
unfolding push_new new_entry merge_candidate
push_new-Answers event now q = elim (make_room-cases event q) [
  | inl failed ↦
      subst (λ s. Answers event.info_hash q (push_new event now s)) (sym failed)
        (stale-Answers event.info_hash q)
  | inr room ↦ go (make_room event q).0 (make_room event q).1 room
]
  where
    stored :
        (s : PendingHashQueue) (kind : QueuePushKind)
        → kind ≢ stale
        → Answers event.info_hash q (insert_entry (new_entry event now s.ttl) s, kind)
    stored s kind h = stored-Answers event.info_hash q s (new_entry event now s.ttl) kind refl h

    go :
        (s : PendingHashQueue) (kind : QueuePushKind)
        → kind ≢ stale
        → Answers event.info_hash q (push_new event now (s, kind))
    go s inserted h = stored s inserted h
    go s updated h = stored s updated h
    go s evicted_oldest h = stored s evicted_oldest h
    go s evicted_retry h = stored s evicted_retry h
    go s stale h = absurd (h refl)

-- `push` answers `stale` only if it leaves the queue as it was, and after any other answer the hash
-- of the event has an entry.
pub push-Answers :
    (event : HashDiscovered) (now : ℕ) (q : PendingHashQueue)
    → Inv q
    → Answers event.info_hash q (push event now q)
unfolding push remove_hash push_removed remove_found
push-Answers event now q v = elim (Bool-cases (ltb q.ttl (now - event.discovered_at))) [
  | inl old ↦ rw old (stale-Answers event.info_hash q)
  | inr young ↦ rw young (go (get hash_discrete event.info_hash q.entries) refl)
]
  where
    go :
        (found : Option QueuedHash)
        → entry_at event.info_hash q.entries ≡ found
        → Answers event.info_hash q (push_removed event now (remove_found found event.info_hash q))
    go none at = push_new-Answers event now q
    go (some e) at =
        stored-Answers event.info_hash q (remove_found (some e) event.info_hash q).0
          (refreshed e event q.ttl) updated
          (refreshed-info_hash e event q.ttl ∙ v.numbered.named event.info_hash e at)
          (λ h. absurd (ground arith))
