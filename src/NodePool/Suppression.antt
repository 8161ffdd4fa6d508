-- ===== src/NodePool/Suppression.antt =====
-- src/node_pool.rs: a node that was taken for a probe is not admitted again while the probe counts
-- as recent.
use dht_crawler.Base.{
  ℕ, ◌+◌, ◌≤◌, ◌<◌, ◌≡◌, refl, ◌∙◌, subst, true, lt→ltb, List, [], ◌∷◌, some, arith, Bool-cases,
  inl, inr,
}
use mathlib.Core.Option.{some-injective}
use dht_crawler.Base.Assoc.{elem}
use dht_crawler.Net.{SocketAddr, NodeTuple, addr_discrete}
use dht_crawler.Addr.{is_valid_node_addr}
use dht_crawler.Budget.{Float}
use dht_crawler.NodePool.Recent
use dht_crawler.NodePool.Recent.{RecentProbes}
use dht_crawler.NodePool.Recent.Steps.{deadline_of}
use dht_crawler.NodePool.Recent.Expiry
use dht_crawler.NodePool.{
  NodePool, QueuedNode, duplicate, expire_recent, record_probe, take_front_for_probe, probe_entry,
  pop_entry, pop_front_internal, admit,
}
use dht_crawler.NodePool.Invariant.{Inv, Inv-later, pop_front_internal-Inv}
use dht_crawler.NodePool.Probing.{record_probe-deadline, take_front_for_probe-Inv}

module _ (F : Float) (micros : RecentProbes → ℕ) where
  expire_recent-is_recent :
      (now t : ℕ) (a : SocketAddr) (pool : NodePool F)
      → Inv now pool
      → now ≤ t
      → Recent.is_recent a t (expire_recent F micros now pool).recent
        ≡ Recent.is_recent a t pool.recent
  unfolding expire_recent
  expire_recent-is_recent now t a pool v h = elim (Bool-cases (Recent.has_due now pool.recent)) [
    | inl due ↦ rw due ((Expiry.expire-Expires now pool.recent v.recent_ok).recent a t h)
    | inr quiet ↦ rw quiet
  ]

  -- The probed address has its new deadline.
  take-deadline :
      (now : ℕ) (pool : NodePool F) (node : NodeTuple)
      → Inv now pool
      → (take_front_for_probe F micros now pool).1 ≡ some node
      → deadline_of node.addr (take_front_for_probe F micros now pool).0.recent
        ≡ some (now + pool.recent_ttl)
  unfolding take_front_for_probe pop_front_internal probe_entry
  take-deadline now pool node v = go pool.queue refl
    where
      go :
          (queue : List QueuedNode)
          → pool.queue ≡ queue
          → (probe_entry F micros now (pop_entry F queue pool)).1 ≡ some node
          → deadline_of node.addr (probe_entry F micros now (pop_entry F queue pool)).0.recent
            ≡ some (now + pool.recent_ttl)
      go [] e h = absurd (ground arith)
      go (entry ∷ rest) e h =
          let popped = (pop_entry F (entry ∷ rest) pool).0 in
          let v' : Inv now popped =
            subst (λ q. Inv now (pop_entry F q pool).0) e (pop_front_internal-Inv F now pool v) in
          subst
            (λ n.
              deadline_of n.addr (record_probe F micros entry.node.addr now popped).recent
              ≡ some (now + pool.recent_ttl))
            (some-injective entry.node node h)
            (record_probe-deadline F micros now entry.node.addr popped v')

  -- After a node is taken for a probe, a node with its address is turned away as a duplicate until
  -- the time to live of the probe is over, if its address is valid at all.
  pub admit-take_front_for_probe :
      (now later : ℕ) (pool : NodePool F) (node again : NodeTuple)
      → Inv now pool
      → (take_front_for_probe F micros now pool).1 ≡ some node
      → again.addr ≡ node.addr
      → is_valid_node_addr again.addr ≡ true
      → now ≤ later
      → later < now + pool.recent_ttl
      → (admit F micros again later (take_front_for_probe F micros now pool).0).1 ≡ duplicate
  unfolding admit
  admit-take_front_for_probe now later pool node again v taken same_addr good h k =
      let probed = (take_front_for_probe F micros now pool).0 in
      let v' = Inv-later probed h (take_front_for_probe-Inv F micros now pool v) in
      let pool' = expire_recent F micros later probed in
      let recent : Recent.is_recent again.addr later pool'.recent ≡ true =
        expire_recent-is_recent later later again.addr probed v' (omega arith)
        ∙ Expiry.is_recent-deadline_of again.addr later probed.recent
        ∙ rw (same_addr, take-deadline now pool node v taken)
            (lt→ltb later (now + pool.recent_ttl) k) in
      elim (Bool-cases (elem addr_discrete again.addr pool'.queued)) [
        | inl queued ↦ simp (good, queued)
        | inr unqueued ↦ simp (good, unqueued, recent)
      ]
