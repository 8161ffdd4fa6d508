-- ===== src/NodePool/Slots.antt =====
-- `prepare_recent_slot` of src/node_pool.rs ends with its loop's test false: the fuel suffices.
use dht_crawler.Base.{ℕ, zero, suc, ◌≤◌, ◌<◌, ◌≡◌, true, false, length, arith, Bool-cases, inl, inr}
use dht_crawler.Net.{SocketAddr}
use dht_crawler.Budget.{Float}
use dht_crawler.NodePool.Recent
use dht_crawler.NodePool.Recent.{RecentProbes}
use dht_crawler.NodePool.Recent.Due.{due_count, due_count-length, has_due-none, expire-due_count}
use dht_crawler.NodePool.{NodePool, expire_recent, slot_blocked, slot_loop, prepare_recent_slot}
use dht_crawler.NodePool.Invariant.{Inv, expire_recent-Inv}

module _ (F : Float) (micros : RecentProbes → ℕ) (addr : SocketAddr) (now : ℕ) where
  blocked_due :
      (recent : RecentProbes)
      → slot_blocked addr now recent ≡ true
      → Recent.has_due now recent ≡ true
  unfolding slot_blocked
  blocked_due recent h = ground arith

  blocked_none :
      (recent : RecentProbes) → due_count now recent ≤ 0 → slot_blocked addr now recent ≡ false
  unfolding slot_blocked
  blocked_none recent h = let none_due = has_due-none now recent h in ground arith

  expire_recent-due_count :
      (pool : NodePool F)
      → Inv now pool
      → Recent.has_due now pool.recent ≡ true
      → due_count now (expire_recent F micros now pool).recent < due_count now pool.recent
  unfolding expire_recent
  expire_recent-due_count pool v h = rw h (expire-due_count now pool.recent v.recent_ok h)

  slot_loop-free :
      (fuel : ℕ) (pool : NodePool F)
      → Inv now pool
      → due_count now pool.recent ≤ fuel
      → slot_blocked addr now (slot_loop F micros fuel addr now pool).recent ≡ false
  unfolding slot_loop
  slot_loop-free zero pool v h = blocked_none pool.recent h
  slot_loop-free (suc fuel) pool v h = elim (Bool-cases (slot_blocked addr now pool.recent)) [
    | inl blocked ↦
        let fewer = expire_recent-due_count pool v (blocked_due pool.recent blocked) in
        rw blocked (
          slot_loop-free fuel (expire_recent F micros now pool)
            (expire_recent-Inv F micros now pool v) (omega (arith, fewer)))
    | inr free ↦ rw free free
  ]

  -- The loop that makes room for an address ends, however many rounds of expiry it takes: after it
  -- the address is known, or there is room for it, or the head of the heap is not due.
  pub prepare_recent_slot-free :
      (pool : NodePool F)
      → Inv now pool
      → slot_blocked addr now (prepare_recent_slot F micros addr now pool).recent ≡ false
  unfolding prepare_recent_slot
  prepare_recent_slot-free pool v =
      let pool' = expire_recent F micros now pool in
      slot_loop-free (length pool'.recent.expiry) pool' (expire_recent-Inv F micros now pool v)
        (due_count-length now pool'.recent)
