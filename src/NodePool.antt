-- ===== src/NodePool.antt =====
-- `NodePool` of src/node_pool.rs: the bounded first-in, first-out queue of nodes to probe. Times are
-- nanoseconds. The numbers of the token bucket are the parameter of Budget; `micros` stands for the
-- time that an expiry is measured to take, in microseconds.
pub mod Recent
pub mod Invariant
pub mod Probing
pub mod Admission
pub mod Suppression
pub mod Slots
pub mod Tests
use dht_crawler.Base.{
  ℕ, zero, suc, ◌+◌, ◌-◌, ◌/◌, ◌^◌, ◌<◌, min, max, Bool, true, false, not, ◌&&◌, ◌||◌, ltb, leb,
  if◌then◌else◌, List, [], ◌∷◌, ◌++◌, length, Option, none, some,
}
use dht_crawler.Base.Assoc.{get, elem, erase, contains}
use dht_crawler.Net.{SocketAddr, NodeTuple, addr_discrete}
use dht_crawler.Addr.{is_valid_node_addr}
use dht_crawler.Budget
use dht_crawler.Budget.{Float, RateBucket}
use Recent.{RecentProbes}

pub data AdmissionOutcome : Type 0 where
  admitted replaced duplicate rate_limited invalid : AdmissionOutcome

pub record QueuedNode : Type 0 where
  pub node : NodeTuple
  pub queued_at : ℕ

pub record NodePool (F : Float) : Type 0 where
  pub queue : List QueuedNode
  pub queued : List SocketAddr
  pub recent : RecentProbes
  pub recent_expired : ℕ
  pub recent_expiry_micros : ℕ
  pub recent_expiry_calls : ℕ
  pub replacement_budget : RateBucket F
  pub recent_ttl : ℕ
  pub capacity : ℕ
  pub warmed : Bool

abbrev pub front_node : List QueuedNode → Option NodeTuple
front_node [] = none
front_node (entry ∷ rest) = some entry.node

rotate_left : List QueuedNode → List QueuedNode
rotate_left [] = []
rotate_left (entry ∷ rest) = rest ++ (entry ∷ [])

age_of_front : List QueuedNode → ℕ → ℕ
age_of_front [] now = 0
age_of_front (entry ∷ rest) now = now - entry.queued_at

-- The test of the loop of `prepare_recent_slot`.
pub slot_blocked : SocketAddr → ℕ → RecentProbes → Bool
slot_blocked addr now recent =
    leb recent.capacity (length recent.entries)
    && (not (contains addr_discrete addr recent.entries) && Recent.has_due now recent)

module _ (F : Float) where
  unfoldable pub new : ℕ → ℕ → ℕ → ℕ → ℕ → NodePool F
  new capacity replacements_per_minute recent_ttl recent_capacity now =
      let replacement_burst = max ((replacements_per_minute + 59) / 60) 1 in
      record {
        queue = [];
        queued = [];
        recent = Recent.new recent_capacity;
        recent_expired = 0;
        recent_expiry_micros = 0;
        recent_expiry_calls = 0;
        replacement_budget = Budget.per_minute F replacements_per_minute replacement_burst true now;
        recent_ttl = recent_ttl;
        capacity = max capacity 1;
        warmed = false;
      }

  pub front : NodePool F → Option NodeTuple
  front pool = front_node pool.queue

  unfoldable pub rotate_front_to_back : NodePool F → NodePool F × Bool
  unfolding rotate_left
  rotate_front_to_back pool =
      if leb (length pool.queue) 1
      then (pool, false)
      else (record pool { queue = rotate_left pool.queue }, true)

  pop_entry : List QueuedNode → NodePool F → NodePool F × Option QueuedNode
  pop_entry [] pool = (pool, none)
  pop_entry (entry ∷ rest) pool = (
    record pool { queue = rest; queued = erase addr_discrete entry.node.addr pool.queued },
    some entry,
  )

  unfoldable pub pop_front_internal : NodePool F → NodePool F × Option QueuedNode
  unfolding pop_entry
  pop_front_internal pool = pop_entry pool.queue pool

  unfoldable pub restore_front : NodeTuple → ℕ → NodePool F → NodePool F
  restore_front node queued_at pool = record pool {
    recent = Recent.forget node.addr pool.recent;
    queued = node.addr ∷ erase addr_discrete node.addr pool.queued;
    queue = record { node = node; queued_at = queued_at } ∷ pool.queue;
  }

  pub len : NodePool F → ℕ
  len pool = length pool.queue

  pub oldest_age : ℕ → NodePool F → ℕ
  unfolding age_of_front
  oldest_age now pool = age_of_front pool.queue now

  pub recent_state : NodePool F → ℕ × ℕ × ℕ
  recent_state pool = (length pool.recent.entries, pool.recent.capacity, length pool.recent.expiry)

  pub take_recent_expiry_stats : NodePool F → NodePool F × (ℕ × ℕ × ℕ)
  take_recent_expiry_stats pool = (
    record pool { recent_expired = 0; recent_expiry_micros = 0; recent_expiry_calls = 0 },
    (pool.recent_expired, pool.recent_expiry_micros, pool.recent_expiry_calls),
  )

  module _ (micros : RecentProbes → ℕ) where
    unfoldable pub expire_recent : ℕ → NodePool F → NodePool F
    expire_recent now pool =
        let (recent, removed) = Recent.expire now pool.recent in
        if Recent.has_due now pool.recent
        then record pool {
          recent = recent;
          recent_expired = pool.recent_expired + removed;
          recent_expiry_micros = min (pool.recent_expiry_micros + micros pool.recent) (2 ^ 64 - 1);
          recent_expiry_calls = pool.recent_expiry_calls + 1;
        }
        else pool

    slot_loop : ℕ → SocketAddr → ℕ → NodePool F → NodePool F
    unfolding expire_recent slot_blocked
    slot_loop zero addr now pool = pool
    slot_loop (suc fuel) addr now pool =
        let later = slot_loop fuel addr now (expire_recent now pool) in
        if slot_blocked addr now pool.recent then later else pool

    -- The fuel is the size of the heap: each round of the loop lowers the number of due elements.
    unfoldable pub prepare_recent_slot : SocketAddr → ℕ → NodePool F → NodePool F
    unfolding expire_recent slot_loop
    prepare_recent_slot addr now pool =
        let pool' = expire_recent now pool in slot_loop (length pool'.recent.expiry) addr now pool'

    pub contains_recent : SocketAddr → ℕ → NodePool F → NodePool F × Bool
    unfolding expire_recent
    contains_recent addr now pool =
        let pool' = expire_recent now pool in (pool', Recent.is_recent addr now pool'.recent)

    unfoldable pub record_probe : SocketAddr → ℕ → NodePool F → NodePool F
    unfolding prepare_recent_slot
    record_probe addr now pool =
        let pool' = prepare_recent_slot addr now pool in
        record pool' { recent = Recent.record_probe addr (now + pool.recent_ttl) pool'.recent }

    probe_entry : ℕ → NodePool F × Option QueuedNode → NodePool F × Option NodeTuple
    unfolding record_probe
    probe_entry now (pool, none) = (pool, none)
    probe_entry now (pool, some entry) = (record_probe entry.node.addr now pool, some entry.node)

    unfoldable pub take_front_for_probe : ℕ → NodePool F → NodePool F × Option NodeTuple
    unfolding probe_entry pop_front_internal
    take_front_for_probe now pool = probe_entry now (pop_front_internal pool)

    -- The end of `admit`, with the flag of the replacement.
    enqueue : NodeTuple → ℕ → NodePool F → Bool → NodePool F × AdmissionOutcome
    enqueue node now pool was_replaced =
        let queue = pool.queue ++ (record { node = node; queued_at = now } ∷ []) in
        (
          record pool {
            queued = node.addr ∷ erase addr_discrete node.addr pool.queued;
            queue = queue;
            warmed = if leb pool.capacity (length queue) then true else pool.warmed;
          },
          if was_replaced then replaced else admitted,
        )

    replace_front : NodePool F → NodePool F × Bool
    unfolding pop_front_internal
    replace_front pool =
        if leb pool.capacity (length pool.queue)
        then ((pop_front_internal pool).0, ltb 0 (length pool.queue))
        else (pool, false)

    -- The replacement budget is asked only when the pool is warm.
    take_budget : ℕ → NodePool F → NodePool F × Bool
    take_budget now pool =
        let (budget, granted) = Budget.try_take_one F now pool.replacement_budget in
        if pool.warmed then (record pool { replacement_budget = budget }, granted) else (pool, true)

    insert_node : NodeTuple → ℕ → NodePool F × Bool → NodePool F × AdmissionOutcome
    unfolding replace_front enqueue
    insert_node node now (pool, false) = (pool, rate_limited)
    insert_node node now (pool, true) =
        let (pool', was_replaced) = replace_front pool in enqueue node now pool' was_replaced

    unfoldable pub admit : NodeTuple → ℕ → NodePool F → NodePool F × AdmissionOutcome
    unfolding expire_recent take_budget insert_node
    admit node now pool =
        let pool' = expire_recent now pool in
        if not (is_valid_node_addr node.addr)
        then (pool, invalid)
        else if elem addr_discrete node.addr pool'.queued
            || Recent.is_recent node.addr now pool'.recent
        then (pool', duplicate)
        else insert_node node now (take_budget now pool')
