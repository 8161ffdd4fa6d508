-- ===== src/Scheduler/Queue/Pushing.antt =====
-- `push` and `defer` of `PendingHashQueue` in src/scheduler.rs keep the invariant.
use dht_crawler.Base.{
  ℕ, ◌+◌, ◌-◌, ◌/◌, ◌^◌, ◌≤◌, ◌<◌, ◌≡◌, ◌≢◌, refl, ◌∙◌, max, true, false, not, ◌&&◌, ◌||◌, ltb, leb,
  length, Option, none, some, arith, Bool-cases, Option-cases, inl, inr,
}
use dht_crawler.Base.Assoc.{get, get-remove, get-remove_self, length-remove}
use dht_crawler.Scheduler.{
  Hash, Key, hash_discrete, QueuedHash, HashDiscovered, RetryRecord, merge_candidate,
}
use dht_crawler.Scheduler.Queue.{
  PendingHashQueue, QueuePushKind, inserted, updated, evicted_oldest, evicted_retry, stale,
  insert_entry, remove_found, remove_hash, new_entry, refreshed, oldest, evict_entry, evict_key,
  make_room, push_new, push_removed, push, defer,
}
use dht_crawler.Scheduler.Queue.Indexes.{entry_at}
use dht_crawler.Scheduler.Queue.Invariant.{Inv}
use dht_crawler.Scheduler.Queue.Storing.{insert_entry-Inv, remove_found-Inv}

-- What a removal leaves.
pub record Removed (h : Hash) (q q' : PendingHashQueue) : Type 0 where
  pub inv : Inv q'
  pub absent : entry_at h q'.entries ≡ none
  pub others : (h' : Hash) → entry_at h' q.entries ≡ none → entry_at h' q'.entries ≡ none
  pub sequence : q'.sequence ≡ q.sequence
  pub capacity : q'.capacity ≡ q.capacity
  pub size : length q'.entries ≤ length q.entries
  pub smaller :
      (e : QueuedHash) → entry_at h q.entries ≡ some e → length q'.entries < length q.entries

pub remove_hash-Removed :
    (h : Hash) (q : PendingHashQueue) → Inv q → Removed h q (remove_hash h q).0
unfolding remove_hash remove_found
remove_hash-Removed h q v = elim (Option-cases (get hash_discrete h q.entries)) [
  | inl absent ↦
      rw (absent, remove_found)
        (record {
          inv = v;
          absent = absent;
          others = λ h' none_there. none_there;
          sequence = refl;
          capacity = refl;
          size = omega arith;
          smaller = λ e at. absurd (ground arith);
        })
  | inr (e, at) ↦
      let left = length-remove hash_discrete h q.entries v.uniq at in
      rw (at, remove_found)
        (record {
          inv = remove_found-Inv q v h e at;
          absent = get-remove_self hash_discrete h q.entries;
          others = λ h' none_there. ground (arith, get-remove hash_discrete h h' q.entries);
          sequence = refl;
          capacity = refl;
          size = omega (arith, left);
          smaller = λ e' at'. omega (arith, left);
        })
]

-- Room for a new hash.
record Roomy (q : PendingHashQueue) (s : PendingHashQueue × QueuePushKind) : Type 0 where
  inv : Inv s.0
  others : (h : Hash) → entry_at h q.entries ≡ none → entry_at h s.0.entries ≡ none
  sequence : s.0.sequence ≡ q.sequence
  room : s.1 ≢ stale → length s.0.entries < s.0.capacity

stale-Roomy : (q : PendingHashQueue) → Inv q → Roomy q (q, stale)
stale-Roomy q v = record {
  inv = v;
  others = λ h none_there. none_there;
  sequence = refl;
  room = λ h. absurd (h refl);
}

evict-Roomy :
    (event : HashDiscovered) (q : PendingHashQueue) (found : Option (Key × Hash))
    → Inv q
    → Roomy q (evict_key found event q)
unfolding evict_key evict_entry
evict-Roomy event q none v = stale-Roomy q v
evict-Roomy event q (some (key, hash)) v = elim (Option-cases (get hash_discrete hash q.entries)) [
  | inl absent ↦ rw (absent, evict_entry) (stale-Roomy q v)
  | inr (e, at) ↦ elim (Bool-cases (not e.is_retry && leb event.discovered_at e.latest_at)) [
    | inl keeps ↦ rw (at, evict_entry) (simp keeps (stale-Roomy q v))
    | inr gives ↦
        let removed = remove_hash-Removed hash q v in
        rw (at, evict_entry)
          (simp gives (record {
            inv = removed.inv;
            others = removed.others;
            sequence = removed.sequence;
            room = λ h. omega (arith, removed.smaller e at, removed.capacity, v.bounded);
          }))
  ]
]

make_room-Roomy :
    (event : HashDiscovered) (q : PendingHashQueue) → Inv q → Roomy q (make_room event q)
unfolding make_room
make_room-Roomy event q v = elim (Bool-cases (leb q.capacity (length q.entries))) [
  | inl full ↦ rw full (evict-Roomy event q (oldest q) v)
  | inr room ↦ rw room (record {
    inv = v;
    others = λ h none_there. none_there;
    sequence = refl;
    room = λ h. ground arith;
  })
]

push_new-Inv :
    (event : HashDiscovered) (now : ℕ) (q : PendingHashQueue) (s : PendingHashQueue × QueuePushKind)
    → Roomy q s
    → entry_at event.info_hash q.entries ≡ none
    → q.sequence + 1 < 2 ^ 64
    → Inv (push_new event now s).0
unfolding push_new new_entry merge_candidate
push_new-Inv event now q (s, kind) r absent small = go kind r
  where
    stored :
        (k : QueuePushKind)
        → Roomy q (s, k)
        → k ≢ stale
        → Inv (insert_entry (new_entry event now s.ttl) s)
    stored k r not_stale =
        insert_entry-Inv s r.inv (new_entry event now s.ttl) (r.others event.info_hash absent)
          (r.room not_stale) (omega (arith, r.sequence))

    go : (k : QueuePushKind) → Roomy q (s, k) → Inv (push_new event now (s, k)).0
    go inserted r = stored inserted r (λ h. absurd (ground arith))
    go updated r = stored updated r (λ h. absurd (ground arith))
    go evicted_oldest r = stored evicted_oldest r (λ h. absurd (ground arith))
    go evicted_retry r = stored evicted_retry r (λ h. absurd (ground arith))
    go stale r = r.inv

pub refreshed-info_hash :
    (e : QueuedHash) (event : HashDiscovered) (ttl : ℕ)
    → (refreshed e event ttl).info_hash ≡ e.info_hash
unfolding refreshed merge_candidate
refreshed-info_hash e event ttl = elim (Bool-cases e.is_retry) [
  | inl retry ↦ rw retry refl
  | inr fresh ↦ rw fresh refl
]

push_removed-Inv :
    (event : HashDiscovered) (now : ℕ) (q : PendingHashQueue) (found : Option QueuedHash)
    → Inv q
    → q.sequence + 1 < 2 ^ 64
    → entry_at event.info_hash q.entries ≡ found
    → Inv (push_removed event now (remove_found found event.info_hash q)).0
unfolding push_removed remove_found
push_removed-Inv event now q none v small absent =
    push_new-Inv event now q (make_room event q) (make_room-Roomy event q v) absent small
push_removed-Inv event now q (some e) v small at =
    let q' = (remove_found (some e) event.info_hash q).0 in
    let left = length-remove hash_discrete event.info_hash q.entries v.uniq at in
    let name = refreshed-info_hash e event q.ttl ∙ v.numbered.named event.info_hash e at in
    insert_entry-Inv q' (remove_found-Inv q v event.info_hash e at) (refreshed e event q.ttl)
      (rw name (get-remove_self hash_discrete event.info_hash q.entries))
      (omega (arith, left, v.bounded)) small

-- `push` keeps the indexes true and the queue within its capacity, whatever it answers, while the
-- next sequence number does not wrap around.
pub push-Inv :
    (event : HashDiscovered) (now : ℕ) (q : PendingHashQueue)
    → Inv q
    → q.sequence + 1 < 2 ^ 64
    → Inv (push event now q).0
unfolding push remove_hash
push-Inv event now q v small = elim (Bool-cases (ltb q.ttl (now - event.discovered_at))) [
  | inl old ↦ rw old v
  | inr young ↦
      rw young
        (push_removed-Inv event now q (get hash_discrete event.info_hash q.entries) v small refl)
]

-- `defer` keeps the invariant, whether there is a place for the retry or not.
pub defer-Inv :
    (entry : QueuedHash) (retry : RetryRecord) (q : PendingHashQueue)
    → Inv q
    → q.sequence + 1 < 2 ^ 64
    → Inv (defer entry retry q).0
unfolding defer
defer-Inv entry retry old v small =
    let q = (remove_hash entry.info_hash old).0 in
    let removed = remove_hash-Removed entry.info_hash old v in
    elim (Bool-cases
      (leb q.capacity (length q.entries) || leb (max (q.capacity / 4) 1) (length q.retry_expiry))) [
        | inl full ↦ rw full removed.inv
        | inr room ↦ rw room (
            insert_entry-Inv q removed.inv
              (record entry {
                ready_at = retry.next_due;
                expires_at = retry.expires_at;
                is_retry = true;
                ready = false;
              })
              removed.absent (ground arith) (omega (arith, removed.sequence)))
      ]
