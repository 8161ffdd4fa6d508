-- ===== src/NodePool/Invariant.antt =====
-- `NodePool` of src/node_pool.rs: the queue holds distinct addresses within its capacity, the set of
-- queued addresses is that of the queue, and the recent probes are valid.
use dht_crawler.Base.{
  ℕ, zero, suc, ◌+◌, ◌≤◌, ◌<◌, ◌≡◌, inl, inr, refl, ap, sym, ◌∙◌, subst, false, leb, List, [], ◌∷◌,
  ◌++◌, length, length-append, some, arith, Bool-cases,
}
use dht_crawler.Base.Assoc.{get, elem, erase, elem-erase, elem-append, Distinct}
use dht_crawler.Net.{SocketAddr, NodeTuple, addr_discrete}
use dht_crawler.Budget.{Float}
use dht_crawler.NodePool.Recent
use dht_crawler.NodePool.Recent.{RecentProbes}
use dht_crawler.NodePool.Recent.Steps.{deadline_of}
use dht_crawler.NodePool.Recent.Deadlines
use dht_crawler.NodePool.Recent.Expiry
use dht_crawler.NodePool.{
  NodePool, QueuedNode, new, expire_recent, slot_blocked, slot_loop, prepare_recent_slot, pop_entry,
  pop_front_internal, restore_front, rotate_left, rotate_front_to_back,
}

-- The addresses of the queue, the head first.
abbrev pub addrs : List QueuedNode → List SocketAddr
addrs [] = []
addrs (entry ∷ rest) = entry.node.addr ∷ addrs rest

-- No deadline is further away than the time to live.
abbrev pub Timely : ℕ → ℕ → RecentProbes → Type 0
Timely now ttl recent = (a : SocketAddr) (d : ℕ) → deadline_of a recent ≡ some d → d ≤ now + ttl

pub record IsQueue (queue : List QueuedNode) (queued : List SocketAddr) (capacity : ℕ)
    : Type 0 where
  pub distinct : Distinct addr_discrete (addrs queue)
  pub same_set : (a : SocketAddr) → elem addr_discrete a queued ≡ elem addr_discrete a (addrs queue)
  pub bounded : length queue ≤ capacity

pub record Inv {F : Float} (now : ℕ) (pool : NodePool F) : Type 0 where
  pub positive : 0 < pool.capacity
  pub is_queue : IsQueue pool.queue pool.queued pool.capacity
  pub recent_ok : Deadlines.Inv pool.recent
  pub timely : Timely now pool.recent_ttl pool.recent

Distinct-snoc :
    (xs : List SocketAddr) (a : SocketAddr)
    → Distinct addr_discrete xs
    → elem addr_discrete a xs ≡ false
    → Distinct addr_discrete (xs ++ (a ∷ []))
unfolding elem
Distinct-snoc [] a d h = (refl, tt)
Distinct-snoc (x ∷ xs) a d h = (
  ground (arith, elem-append addr_discrete x xs (a ∷ []), d.0),
  Distinct-snoc xs a d.1 (ground arith),
)

addrs-snoc :
    (queue : List QueuedNode) (entry : QueuedNode)
    → addrs (queue ++ (entry ∷ [])) ≡ addrs queue ++ (entry.node.addr ∷ [])
addrs-snoc [] entry = refl
addrs-snoc (e ∷ queue) entry = ap (◌∷◌ e.node.addr) (addrs-snoc queue entry)

-- A node with a new address is put at the back.
pub push-IsQueue :
    (queue : List QueuedNode) (queued : List SocketAddr) (capacity : ℕ) (entry : QueuedNode)
    → IsQueue queue queued capacity
    → length queue < capacity
    → elem addr_discrete entry.node.addr queued ≡ false
    → IsQueue
        (queue ++ (entry ∷ []))
        (entry.node.addr ∷ erase addr_discrete entry.node.addr queued)
        capacity
unfolding elem
push-IsQueue queue queued capacity entry v room new = record {
  distinct = rw (addrs-snoc queue entry) (
      Distinct-snoc (addrs queue) entry.node.addr v.distinct
        (sym (v.same_set entry.node.addr) ∙ new));
  same_set = λ a. ground (
    arith,
    addrs-snoc queue entry,
    elem-append addr_discrete a (addrs queue) (entry.node.addr ∷ []),
    elem-erase addr_discrete entry.node.addr a queued,
    v.same_set a,
  );
  bounded = omega (arith, length-append queue (entry ∷ []));
}

-- The head leaves.
pub pop-IsQueue :
    (entry : QueuedNode) (queue : List QueuedNode) (queued : List SocketAddr) (capacity : ℕ)
    → IsQueue (entry ∷ queue) queued capacity
    → IsQueue queue (erase addr_discrete entry.node.addr queued) capacity
unfolding elem
pop-IsQueue entry queue queued capacity v = record {
  distinct = v.distinct.1;
  same_set = λ a.
      ground (arith, elem-erase addr_discrete entry.node.addr a queued, v.same_set a, v.distinct.0);
  bounded = omega (arith, v.bounded);
}

-- A new head with a new address.
cons-IsQueue :
    (entry : QueuedNode) (queue : List QueuedNode) (queued : List SocketAddr) (capacity : ℕ)
    → IsQueue queue queued capacity
    → length queue < capacity
    → elem addr_discrete entry.node.addr queued ≡ false
    → IsQueue
        (entry ∷ queue)
        (entry.node.addr ∷ erase addr_discrete entry.node.addr queued)
        capacity
unfolding elem
cons-IsQueue entry queue queued capacity v room new = record {
  distinct = (sym (v.same_set entry.node.addr) ∙ new, v.distinct);
  same_set = λ a. ground (arith, elem-erase addr_discrete entry.node.addr a queued, v.same_set a);
  bounded = omega (arith, room);
}

-- The head goes to the back.
rotate-IsQueue :
    (queue : List QueuedNode) (queued : List SocketAddr) (capacity : ℕ)
    → IsQueue queue queued capacity
    → IsQueue (rotate_left queue) queued capacity
unfolding rotate_left elem
rotate-IsQueue [] queued capacity v = v
rotate-IsQueue (entry ∷ rest) queued capacity v = record {
  distinct =
      rw (addrs-snoc rest entry)
        (Distinct-snoc (addrs rest) entry.node.addr v.distinct.1 v.distinct.0);
  same_set = λ a. ground (
    arith,
    addrs-snoc rest entry,
    elem-append addr_discrete a (addrs rest) (entry.node.addr ∷ []),
    v.same_set a,
  );
  bounded = omega (arith, length-append rest (entry ∷ []), v.bounded);
}

-- Time passes.
pub Inv-later :
    {F : Float} {now later : ℕ} (pool : NodePool F) → now ≤ later → Inv now pool → Inv later pool
Inv-later pool h v = record {
  positive = v.positive;
  is_queue = v.is_queue;
  recent_ok = v.recent_ok;
  timely = λ a d e. omega (arith, v.timely a d e);
}

module _ (F : Float) where
  pub new-Inv :
      (capacity replacements recent_ttl recent_capacity now : ℕ)
      → Inv now (new F capacity replacements recent_ttl recent_capacity now)
  unfolding new Recent.new elem get
  new-Inv capacity replacements recent_ttl recent_capacity now = record {
    positive = omega arith;
    is_queue = record { distinct = tt; same_set = λ a. refl; bounded = omega arith };
    recent_ok = Deadlines.new-Inv recent_capacity;
    timely = λ a d h. absurd (ground arith);
  }

  pub rotate_front_to_back-Inv :
      (now : ℕ) (pool : NodePool F) → Inv now pool → Inv now (rotate_front_to_back F pool).0
  unfolding rotate_front_to_back
  rotate_front_to_back-Inv now pool v = elim (Bool-cases (leb (length pool.queue) 1)) [
    | inl short ↦ rw short v
    | inr long ↦ rw long (record {
      positive = v.positive;
      is_queue = rotate-IsQueue pool.queue pool.queued pool.capacity v.is_queue;
      recent_ok = v.recent_ok;
      timely = v.timely;
    })
  ]

  -- Putting a node back at the head keeps the pool's invariant, if there is room and the address is
  -- not queued.
  pub restore_front-Inv :
      (now : ℕ) (node : NodeTuple) (queued_at : ℕ) (pool : NodePool F)
      → Inv now pool
      → length pool.queue < pool.capacity
      → elem addr_discrete node.addr pool.queued ≡ false
      → Inv now (restore_front F node queued_at pool)
  unfolding restore_front
  restore_front-Inv now node queued_at pool v room new =
      let (recent_ok, deadlines) = Deadlines.forget-Inv node.addr pool.recent v.recent_ok in
      record {
        positive = v.positive;
        is_queue =
            cons-IsQueue (record { node = node; queued_at = queued_at }) pool.queue pool.queued
              pool.capacity v.is_queue room new;
        recent_ok = recent_ok;
        timely = λ a d h. v.timely a d (ground (arith, deadlines a));
      }

  pop_entry-Inv :
      (now : ℕ) (pool : NodePool F) (queue : List QueuedNode)
      → pool.queue ≡ queue
      → Inv now pool
      → Inv now (pop_entry F queue pool).0
  unfolding pop_entry
  pop_entry-Inv now pool [] e v = v
  pop_entry-Inv now pool (entry ∷ rest) e v = record {
    positive = v.positive;
    is_queue =
        pop-IsQueue entry rest pool.queued pool.capacity
          (subst (λ q. IsQueue q pool.queued pool.capacity) e v.is_queue);
    recent_ok = v.recent_ok;
    timely = v.timely;
  }

  pub pop_front_internal-Inv :
      (now : ℕ) (pool : NodePool F) → Inv now pool → Inv now (pop_front_internal F pool).0
  unfolding pop_front_internal
  pop_front_internal-Inv now pool v = pop_entry-Inv now pool pool.queue refl v

  module _ (micros : RecentProbes → ℕ) where
    pub expire_recent-Inv :
        (now : ℕ) (pool : NodePool F) → Inv now pool → Inv now (expire_recent F micros now pool)
    unfolding expire_recent
    expire_recent-Inv now pool v = elim (Bool-cases (Recent.has_due now pool.recent)) [
      | inl due ↦
          let expires = Expiry.expire-Expires now pool.recent v.recent_ok in
          rw due (record {
            positive = v.positive;
            is_queue = v.is_queue;
            recent_ok = expires.inv;
            timely = λ a d h. v.timely a d (ground (arith, expires.subset a));
          })
      | inr quiet ↦ rw quiet v
    ]

    slot_loop-Inv :
        (fuel now : ℕ) (addr : SocketAddr) (pool : NodePool F)
        → Inv now pool
        → Inv now (slot_loop F micros fuel addr now pool)
    unfolding slot_loop
    slot_loop-Inv zero now addr pool v = v
    slot_loop-Inv (suc fuel) now addr pool v =
        elim (Bool-cases (slot_blocked addr now pool.recent)) [
          | inl blocked ↦ rw blocked (
              slot_loop-Inv fuel now addr (expire_recent F micros now pool)
                (expire_recent-Inv now pool v))
          | inr free ↦ rw free v
        ]

    pub prepare_recent_slot-Inv :
        (now : ℕ) (addr : SocketAddr) (pool : NodePool F)
        → Inv now pool
        → Inv now (prepare_recent_slot F micros addr now pool)
    unfolding prepare_recent_slot
    prepare_recent_slot-Inv now addr pool v =
        slot_loop-Inv (length (expire_recent F micros now pool).recent.expiry) now addr
          (expire_recent F micros now pool) (expire_recent-Inv now pool v)
