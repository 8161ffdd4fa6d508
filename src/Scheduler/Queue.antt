-- ===== src/Scheduler/Queue.antt =====
-- `PendingHashQueue` of src/scheduler.rs: the entries by InfoHash, and five indexes of them by time
-- and sequence number.
pub mod Indexes
pub mod Invariant
pub mod Storing
pub mod Pushing
pub mod Least
pub mod Promoting
pub mod Expiring
pub mod Popping
pub mod Answers
pub mod Tests
use dht_crawler.Base.{
  ℕ, zero, suc, ◌+◌, ◌-◌, ◌/◌, ◌%◌, ◌^◌, ◌==◌, min, max, Bool, true, false, not, ◌&&◌, ◌||◌, ltb,
  leb, if◌then◌else◌, List, [], ◌∷◌, length, Option, none, some,
}
use dht_crawler.Base.Assoc.{get, insert, remove}
use dht_crawler.Base.Ordered.{first_key_value, last_key_value}
use dht_crawler.Scheduler.{
  Hash, Key, hash_discrete, key_discrete, key_lt, peer_coalesce_window, HashDiscovered, QueuedHash,
  RetryRecord, merge_candidate,
}

pub data QueuePushKind : Type 0 where
  inserted updated evicted_oldest evicted_retry stale : QueuePushKind

abbrev pub Index : Type 0
Index = List (Key × Hash)

pub record PendingHashQueue : Type 0 where
  pub capacity : ℕ
  pub ttl : ℕ
  pub entries : List (Hash × QueuedHash)
  pub expiry : Index
  pub waiting : Index
  pub ready_fresh : Index
  pub ready_retry : Index
  pub retry_expiry : Index
  pub sequence : ℕ
  pub fresh_dispatches : ℕ

unfoldable pub new : ℕ → ℕ → PendingHashQueue
new capacity ttl = record {
  capacity = max capacity 1;
  ttl = ttl;
  entries = [];
  expiry = [];
  waiting = [];
  ready_fresh = [];
  ready_retry = [];
  retry_expiry = [];
  sequence = 0;
  fresh_dispatches = 0;
}

pub len : PendingHashQueue → ℕ
len q = length q.entries

pub is_empty : PendingHashQueue → Bool
is_empty q = length q.entries == 0

pub pressure_len : PendingHashQueue → ℕ
pressure_len q = (length q.entries - length q.retry_expiry) + length q.ready_retry

-- `BTreeMap::insert` of the hash under a key, where a condition holds.
abbrev pub insert_if : Bool → Key → Hash → Index → Index
insert_if cond key hash index = if cond then insert key_discrete key hash index else index

unfoldable pub insert_entry : QueuedHash → PendingHashQueue → PendingHashQueue
insert_entry old q =
    let sequence = (q.sequence + 1) % 2 ^ 64 in
    let entry = record old { order_key = (old.latest_at, sequence) } in
    let hash = entry.info_hash in
    record q {
      sequence = sequence;
      expiry = insert key_discrete (entry.expires_at, sequence) hash q.expiry;
      retry_expiry = insert_if entry.is_retry (entry.expires_at, sequence) hash q.retry_expiry;
      ready_retry =
          insert_if (entry.ready && entry.is_retry) (entry.ready_at, sequence) hash q.ready_retry;
      ready_fresh =
          insert_if (entry.ready && not entry.is_retry) entry.order_key hash q.ready_fresh;
      waiting = insert_if (not entry.ready) (entry.ready_at, sequence) hash q.waiting;
      entries = insert hash_discrete hash entry q.entries;
    }

unfoldable pub remove_found :
    Option QueuedHash → Hash → PendingHashQueue → PendingHashQueue × Option QueuedHash
remove_found none hash q = (q, none)
remove_found (some entry) hash q =
    let sequence = entry.order_key.1 in
    (
      record q {
        entries = remove hash_discrete hash q.entries;
        expiry = remove key_discrete (entry.expires_at, sequence) q.expiry;
        retry_expiry = remove key_discrete (entry.expires_at, sequence) q.retry_expiry;
        waiting = remove key_discrete (entry.ready_at, sequence) q.waiting;
        ready_fresh = remove key_discrete entry.order_key q.ready_fresh;
        ready_retry = remove key_discrete (entry.ready_at, sequence) q.ready_retry;
      },
      some entry,
    )

-- `remove`
unfoldable pub remove_hash : Hash → PendingHashQueue → PendingHashQueue × Option QueuedHash
unfolding remove_found
remove_hash hash q = remove_found (get hash_discrete hash q.entries) hash q

-- The entry of a new hash.
unfoldable pub new_entry : HashDiscovered → ℕ → ℕ → QueuedHash
unfolding merge_candidate
new_entry event now ttl =
    let entry : QueuedHash = record {
      info_hash = event.info_hash;
      peers = [];
      source_nodes = [];
      source = event.source;
      queued_at = now;
      ready_at = now + peer_coalesce_window;
      latest_at = event.discovered_at;
      order_key = (now, 0);
      expires_at = event.discovered_at + ttl;
      is_retry = false;
      ready = false;
    } in
    (merge_candidate entry event).0

-- An entry that is there already.
unfoldable pub refreshed : QueuedHash → HashDiscovered → ℕ → QueuedHash
refreshed old event ttl =
    let entry = (merge_candidate old event).0 in
    if entry.is_retry then entry else record entry { expires_at = entry.latest_at + ttl }

-- The hash that a full queue gives up: that of the first retry to expire, or else of the first entry.
or_else : Option (Key × Hash) → Option (Key × Hash) → Option (Key × Hash)
or_else none other = other
or_else (some first) other = some first

unfoldable pub oldest : PendingHashQueue → Option (Key × Hash)
unfolding or_else
oldest q = or_else (first_key_value key_lt q.retry_expiry) (first_key_value key_lt q.expiry)

-- `self.entries[&oldest_hash]`; where there is no entry, the queue is left alone.
unfoldable pub evict_entry :
    Option QueuedHash → Hash → HashDiscovered → PendingHashQueue → PendingHashQueue × QueuePushKind
unfolding remove_hash
evict_entry none hash event q = (q, stale)
evict_entry (some entry) hash event q =
    if not entry.is_retry && leb event.discovered_at entry.latest_at
    then (q, stale)
    else ((remove_hash hash q).0, if entry.is_retry then evicted_retry else evicted_oldest)

unfoldable pub evict_key :
    Option (Key × Hash) → HashDiscovered → PendingHashQueue → PendingHashQueue × QueuePushKind
unfolding evict_entry
evict_key none event q = (q, stale)
evict_key (some (key, hash)) event q = evict_entry (get hash_discrete hash q.entries) hash event q

-- Room for a new hash, with what was done for it; `stale` where there is none.
unfoldable pub make_room : HashDiscovered → PendingHashQueue → PendingHashQueue × QueuePushKind
unfolding oldest evict_key
make_room event q =
    if leb q.capacity (length q.entries) then evict_key (oldest q) event q else (q, inserted)

unfoldable pub push_new :
    HashDiscovered → ℕ → PendingHashQueue × QueuePushKind → PendingHashQueue × QueuePushKind
unfolding new_entry insert_entry
push_new event now (q, inserted) = (insert_entry (new_entry event now q.ttl) q, inserted)
push_new event now (q, updated) = (insert_entry (new_entry event now q.ttl) q, updated)
push_new event now (q, evicted_oldest) =
    (insert_entry (new_entry event now q.ttl) q, evicted_oldest)
push_new event now (q, evicted_retry) = (insert_entry (new_entry event now q.ttl) q, evicted_retry)
push_new event now (q, stale) = (q, stale)

unfoldable pub push_removed :
    HashDiscovered → ℕ → PendingHashQueue × Option QueuedHash → PendingHashQueue × QueuePushKind
unfolding refreshed insert_entry make_room push_new
push_removed event now (q, some entry) = (insert_entry (refreshed entry event q.ttl) q, updated)
push_removed event now (q, none) = push_new event now (make_room event q)

unfoldable pub push : HashDiscovered → ℕ → PendingHashQueue → PendingHashQueue × QueuePushKind
unfolding push_removed remove_hash
push event now q =
    if ltb q.ttl (now - event.discovered_at)
    then (q, stale)
    else push_removed event now (remove_hash event.info_hash q)

unfoldable pub defer : QueuedHash → RetryRecord → PendingHashQueue → PendingHashQueue × Bool
unfolding remove_hash insert_entry
defer entry retry old =
    let q = (remove_hash entry.info_hash old).0 in
    let deferred = record entry {
      ready_at = retry.next_due;
      expires_at = retry.expires_at;
      is_retry = true;
      ready = false;
    } in
    if leb q.capacity (length q.entries) || leb (max (q.capacity / 4) 1) (length q.retry_expiry)
    then (q, false)
    else (insert_entry deferred q, true)

-- `self.entries.get_mut(&hash)`; where there is no entry, the queue is left alone.
unfoldable pub promote_entry : Option QueuedHash → Key → Hash → PendingHashQueue → PendingHashQueue
promote_entry none key hash q = q
promote_entry (some entry) key hash q = record q {
  entries = insert hash_discrete hash (record entry { ready = true }) q.entries;
  ready_retry = insert_if entry.is_retry key hash q.ready_retry;
  ready_fresh = insert_if (not entry.is_retry) entry.order_key hash q.ready_fresh;
}

-- One round of the loop of `promote_ready`, on the first waiting hash.
unfoldable pub promote_first : Key → Hash → PendingHashQueue → PendingHashQueue
unfolding promote_entry
promote_first key hash q =
    promote_entry (get hash_discrete hash q.entries) key hash
      (record q { waiting = remove key_discrete key q.waiting })

unfoldable pub promote_loop : ℕ → ℕ → PendingHashQueue → PendingHashQueue
unfolding promote_first
promote_loop zero now q = q
promote_loop (suc fuel) now q = elim (first_key_value key_lt q.waiting) [
  | none ↦ q
  | some (key, hash) ↦
      let later = promote_loop fuel now (promote_first key hash q) in
      if ltb now key.0 then q else later
]

-- Each round takes one hash off `waiting`, whose size is the fuel.
unfoldable pub promote_ready : ℕ → PendingHashQueue → PendingHashQueue
unfolding promote_loop
promote_ready now q = promote_loop (length q.waiting) now q

unfoldable pub expire_loop : ℕ → ℕ → PendingHashQueue × ℕ → PendingHashQueue × ℕ
unfolding remove_hash
expire_loop zero now s = s
expire_loop (suc fuel) now (q, expired) = elim (first_key_value key_lt q.expiry) [
  | none ↦ (q, expired)
  | some (key, hash) ↦
      let later = expire_loop fuel now ((remove_hash hash q).0, expired + 1) in
      if leb now key.0 then (q, expired) else later
]

-- Each round takes one hash out of `expiry`, whose size is the fuel.
unfoldable pub expire : ℕ → PendingHashQueue → PendingHashQueue × ℕ
unfolding expire_loop
expire now q = expire_loop (length q.expiry) now (q, 0)

unfoldable pub pop_key :
    Option (Key × Hash) → PendingHashQueue → PendingHashQueue × Option QueuedHash
unfolding remove_hash
pop_key none q = (q, none)
pop_key (some (key, hash)) q = remove_hash hash q

-- The choice of `pop_newest_ready`, once the queue is up to date: at most three fresh hashes before
-- a due retry.
unfoldable pub pop_ready : PendingHashQueue → PendingHashQueue × Option QueuedHash
unfolding pop_key
pop_ready q =
    let no_fresh = length q.ready_fresh == 0 in
    let use_retry = not (length q.ready_retry == 0) && (leb 3 q.fresh_dispatches || no_fresh) in
    if use_retry
    then pop_key (first_key_value key_lt q.ready_retry) (record q { fresh_dispatches = 0 })
    else pop_key (last_key_value key_lt q.ready_fresh)
        (record q { fresh_dispatches = min (q.fresh_dispatches + 1) 255 })

unfoldable pub pop_newest_ready : ℕ → PendingHashQueue → PendingHashQueue × Option QueuedHash
unfolding expire promote_ready pop_ready
pop_newest_ready now q = pop_ready (promote_ready now (expire now q).0)
