-- ===== src/Scheduler/Queue/Invariant.antt =====
-- `PendingHashQueue` of src/scheduler.rs: its invariant. Every index names exactly the entries of
-- its class, under the keys that their fields give.
use dht_crawler.Base.{
  ℕ, ◌≤◌, ◌<◌, ◌≡◌, Bool, not, ◌&&◌, if◌then◌else◌, [], length, Option, none, some, arith,
}
use dht_crawler.Base.Assoc.{get, Uniq}
use dht_crawler.Scheduler.{Hash, Key, hash_discrete, QueuedHash}
use dht_crawler.Scheduler.Queue.{PendingHashQueue, new}
use dht_crawler.Scheduler.Queue.Indexes.{Entries, entry_at, IsIndex}

abbrev pub key_if : Bool → Key → Option Key
key_if cond k = if cond then some k else none

abbrev pub expiry_key : QueuedHash → Option Key
expiry_key e = some (e.expires_at, e.order_key.1)

abbrev pub retry_expiry_key : QueuedHash → Option Key
retry_expiry_key e = key_if e.is_retry (e.expires_at, e.order_key.1)

abbrev pub waiting_key : QueuedHash → Option Key
waiting_key e = key_if (not e.ready) (e.ready_at, e.order_key.1)

abbrev pub ready_fresh_key : QueuedHash → Option Key
ready_fresh_key e = key_if (e.ready && not e.is_retry) e.order_key

abbrev pub ready_retry_key : QueuedHash → Option Key
ready_retry_key e = key_if (e.ready && e.is_retry) (e.ready_at, e.order_key.1)

-- No two entries have one sequence number, and none has one to come.
pub record Numbered (sequence : ℕ) (entries : Entries) : Type 0 where
  pub named : (h : Hash) (e : QueuedHash) → entry_at h entries ≡ some e → e.info_hash ≡ h
  pub seq_bound :
      (h : Hash) (e : QueuedHash) → entry_at h entries ≡ some e → e.order_key.1 ≤ sequence
  pub seq_inj :
      (h h' : Hash) (e e' : QueuedHash)
      → entry_at h entries ≡ some e
      → entry_at h' entries ≡ some e'
      → e.order_key.1 ≡ e'.order_key.1
      → h ≡ h'

pub record Inv (q : PendingHashQueue) : Type 0 where
  pub positive : 0 < q.capacity
  pub bounded : length q.entries ≤ q.capacity
  pub uniq : Uniq hash_discrete q.entries
  pub numbered : Numbered q.sequence q.entries
  pub expiry_ok : IsIndex expiry_key q.expiry q.entries
  pub retry_expiry_ok : IsIndex retry_expiry_key q.retry_expiry q.entries
  pub waiting_ok : IsIndex waiting_key q.waiting q.entries
  pub ready_fresh_ok : IsIndex ready_fresh_key q.ready_fresh q.entries
  pub ready_retry_ok : IsIndex ready_retry_key q.ready_retry q.entries

none-IsIndex : (key_of : QueuedHash → Option Key) → IsIndex key_of [] []
unfolding get
none-IsIndex key_of = record {
  uniq = tt;
  to_index = λ h e k at named. absurd (ground arith);
  to_entry = λ k h at. absurd (ground arith);
}

pub new-Inv : (capacity ttl : ℕ) → Inv (new capacity ttl)
unfolding new get
new-Inv capacity ttl = record {
  positive = omega arith;
  bounded = omega arith;
  uniq = tt;
  numbered = record {
    named = λ h e at. absurd (ground arith);
    seq_bound = λ h e at. absurd (ground arith);
    seq_inj = λ h h' e e' at at' same. absurd (ground arith);
  };
  expiry_ok = none-IsIndex expiry_key;
  retry_expiry_ok = none-IsIndex retry_expiry_key;
  waiting_ok = none-IsIndex waiting_key;
  ready_fresh_ok = none-IsIndex ready_fresh_key;
  ready_retry_ok = none-IsIndex ready_retry_key;
}

-- Keys carry the sequence number of their entry.
abbrev pub Stamped : (QueuedHash → Option Key) → Type 0
Stamped key_of = (e : QueuedHash) (k : Key) → key_of e ≡ some k → k.1 ≡ e.order_key.1

pub expiry-Stamped : Stamped expiry_key
expiry-Stamped e k h = ground arith

pub retry_expiry-Stamped : Stamped retry_expiry_key
retry_expiry-Stamped e k h = ground arith

pub waiting-Stamped : Stamped waiting_key
waiting-Stamped e k h = ground arith

pub ready_fresh-Stamped : Stamped ready_fresh_key
ready_fresh-Stamped e k h = ground arith

pub ready_retry-Stamped : Stamped ready_retry_key
ready_retry-Stamped e k h = ground arith
