-- ===== src/NodePool/Probing.antt =====
-- `take_front_for_probe` and `record_probe` of src/node_pool.rs: what is probed counts as recent.
use dht_crawler.Base.{
  ℕ, zero, suc, ◌+◌, ◌≤◌, ◌≡◌, ◌≢◌, ◌⊎◌, inl, inr, refl, ◌∙◌, subst, List, [], ◌∷◌, none, some,
  arith, Bool-cases,
}
use dht_crawler.Net.{SocketAddr}
use dht_crawler.Budget.{Float}
use dht_crawler.NodePool.Recent.{RecentProbes}
use dht_crawler.NodePool.Recent.Steps.{deadline_of}
use dht_crawler.NodePool.Recent.Deadlines
use dht_crawler.NodePool.{
  NodePool, QueuedNode, expire_recent, slot_blocked, slot_loop, prepare_recent_slot, record_probe,
  take_front_for_probe, probe_entry, pop_entry, pop_front_internal,
}
use dht_crawler.NodePool.Invariant.{Inv, prepare_recent_slot-Inv, pop_front_internal-Inv}

module _ (F : Float) (micros : RecentProbes → ℕ) where
  expire_recent-ttl :
      (now : ℕ) (pool : NodePool F) → (expire_recent F micros now pool).recent_ttl ≡ pool.recent_ttl
  unfolding expire_recent
  expire_recent-ttl now pool = ground arith

  slot_loop-ttl :
      (fuel now : ℕ) (addr : SocketAddr) (pool : NodePool F)
      → (slot_loop F micros fuel addr now pool).recent_ttl ≡ pool.recent_ttl
  unfolding slot_loop
  slot_loop-ttl zero now addr pool = refl
  slot_loop-ttl (suc fuel) now addr pool = elim (Bool-cases (slot_blocked addr now pool.recent)) [
    | inl blocked ↦
        rw blocked (
          slot_loop-ttl fuel now addr (expire_recent F micros now pool)
          ∙ expire_recent-ttl now pool)
    | inr free ↦ rw free
  ]

  prepare-ttl :
      (now : ℕ) (addr : SocketAddr) (pool : NodePool F)
      → (prepare_recent_slot F micros addr now pool).recent_ttl ≡ pool.recent_ttl
  unfolding prepare_recent_slot
  prepare-ttl now addr pool =
      slot_loop-ttl _ now addr (expire_recent F micros now pool) ∙ expire_recent-ttl now pool

  module _ (now : ℕ) (addr : SocketAddr) (pool : NodePool F) (v : Inv now pool) where
    ready : NodePool F
    ready = prepare_recent_slot F micros addr now pool

    ready-Inv : Inv now ready
    unfolding ready
    ready-Inv = prepare_recent_slot-Inv F micros now addr pool v

    ready_fresh : (d : ℕ) → deadline_of addr ready.recent ≡ some d → d ≤ now + pool.recent_ttl
    unfolding ready
    ready_fresh d h = omega (arith, ready-Inv.timely addr d h, prepare-ttl now addr pool)

    record_probe-any :
        (a : SocketAddr)
        → ((addr ≡ a)
            × (deadline_of a (record_probe F micros addr now pool).recent
                ≡ some (now + pool.recent_ttl)))
          ⊎ ((addr ≢ a)
              × ((deadline_of a (record_probe F micros addr now pool).recent ≡ none)
                  ⊎ (deadline_of a (record_probe F micros addr now pool).recent
                      ≡ deadline_of a ready.recent)))
    unfolding record_probe ready
    record_probe-any =
        Deadlines.record_probe_any addr (now + pool.recent_ttl) ready.recent ready-Inv.recent_ok
          ready_fresh

    pub record_probe-Inv : Inv now (record_probe F micros addr now pool)
    unfolding record_probe ready
    record_probe-Inv = record {
      positive = ready-Inv.positive;
      is_queue = ready-Inv.is_queue;
      recent_ok =
          Deadlines.record_probe-Inv addr (now + pool.recent_ttl) ready.recent ready-Inv.recent_ok
            ready_fresh;
      timely = λ a d h.
          ground (arith, record_probe-any a, ready-Inv.timely a d, prepare-ttl now addr pool);
    }

    pub record_probe-ttl : (record_probe F micros addr now pool).recent_ttl ≡ pool.recent_ttl
    unfolding record_probe
    record_probe-ttl = prepare-ttl now addr pool

    pub record_probe-deadline :
        deadline_of addr (record_probe F micros addr now pool).recent ≡ some (now + pool.recent_ttl)
    record_probe-deadline = ground (arith, record_probe-any addr)

  -- Popping touches neither the recent probes nor the time to live.
  pop_entry_same :
      (pool : NodePool F) (queue : List QueuedNode)
      → ((pop_entry F queue pool).0.recent_ttl ≡ pool.recent_ttl)
  unfolding pop_entry
  pop_entry_same pool [] = refl
  pop_entry_same pool (entry ∷ rest) = refl

  -- Taking the head for a probe keeps the queue well-formed and the recent probes in agreement.
  pub take_front_for_probe-Inv :
      (now : ℕ) (pool : NodePool F)
      → Inv now pool
      → Inv now (take_front_for_probe F micros now pool).0
  unfolding take_front_for_probe pop_front_internal
  take_front_for_probe-Inv now pool v = go pool.queue refl
    where
      go :
          (queue : List QueuedNode)
          → pool.queue ≡ queue
          → Inv now (probe_entry F micros now (pop_entry F queue pool)).0
      go [] e = v
      go (entry ∷ rest) e =
          record_probe-Inv now entry.node.addr (pop_entry F (entry ∷ rest) pool).0
            (subst (λ q. Inv now (pop_entry F q pool).0) e (pop_front_internal-Inv F now pool v))
