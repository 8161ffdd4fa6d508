-- ===== src/NodePool/Admission.antt =====
-- `admit` of src/node_pool.rs: what each outcome does to the queue, and which nodes are turned away.
use dht_crawler.Base.{
  ℕ, suc, ◌<◌, ◌≡◌, inl, inr, refl, ap, ◌∙◌, subst, Bool, true, false, ◌||◌, ltb, leb, List, [],
  ◌∷◌, ◌++◌, length, arith, Bool-cases,
}
use dht_crawler.Base.Assoc.{elem, elem-erase}
use dht_crawler.Net.{NodeTuple, addr_discrete}
use dht_crawler.Addr.{is_valid_node_addr}
use dht_crawler.Budget.{Float}
use dht_crawler.NodePool.Recent
use dht_crawler.NodePool.Recent.{RecentProbes}
use dht_crawler.NodePool.{
  NodePool, QueuedNode, AdmissionOutcome, admitted, replaced, duplicate, rate_limited, invalid,
  expire_recent, pop_entry, pop_front_internal, enqueue, replace_front, take_budget, insert_node,
  admit,
}
use dht_crawler.NodePool.Invariant.{Inv, push-IsQueue, expire_recent-Inv, pop_front_internal-Inv}

-- What an outcome means for the queue, where `entry` is the node with the time of its arrival.
abbrev pub Admits : AdmissionOutcome → QueuedNode → List QueuedNode → List QueuedNode → Type 0
Admits admitted entry old queue = queue ≡ old ++ (entry ∷ [])
Admits replaced entry old queue =
    (head : QueuedNode) × (rest : List QueuedNode) × (old ≡ head ∷ rest)
    × (queue ≡ rest ++ (entry ∷ []))
Admits duplicate entry old queue = queue ≡ old
Admits rate_limited entry old queue = queue ≡ old
Admits invalid entry old queue = queue ≡ old

module _ (F : Float) (micros : RecentProbes → ℕ) where
  expire_recent-queue :
      (now : ℕ) (pool : NodePool F)
      → ((expire_recent F micros now pool).queue ≡ pool.queue)
        × ((expire_recent F micros now pool).queued ≡ pool.queued)
        × ((expire_recent F micros now pool).capacity ≡ pool.capacity)
  unfolding expire_recent
  expire_recent-queue now pool = ground arith

  take_budget-queue :
      (now : ℕ) (pool : NodePool F)
      → ((take_budget F micros now pool).0.queue ≡ pool.queue)
        × ((take_budget F micros now pool).0.queued ≡ pool.queued)
        × ((take_budget F micros now pool).0.capacity ≡ pool.capacity)
  unfolding take_budget
  take_budget-queue now pool = ground arith

  module _ (node : NodeTuple) (now : ℕ) where
    abbrev entry : QueuedNode
    entry = record { node = node; queued_at = now }

    insert-Admits :
        (pool : NodePool F) (granted : Bool) (queue : List QueuedNode)
        → pool.queue ≡ queue
        → 0 < pool.capacity
        → let (pool', outcome) = insert_node F micros node now (pool, granted) in
          Admits outcome entry queue pool'.queue
    unfolding insert_node replace_front enqueue pop_front_internal pop_entry
    insert-Admits pool false queue e positive = e
    insert-Admits pool true [] e positive =
        let room : leb pool.capacity 0 ≡ false = ground arith in simp (e, room)
    insert-Admits pool true (head ∷ rest) e positive =
        elim (Bool-cases (leb pool.capacity (suc (length rest)))) [
          | inl full ↦
              let nonempty : ltb 0 (suc (length rest)) ≡ true = ground arith in
              simp (e, full, nonempty) (head, rest, refl, refl)
          | inr room ↦ simp (e, room)
        ]

    -- The queue after `admit` on a pool with its invariant is what its outcome says: the node at the back, the head gone where it
    -- is replaced, and the same queue where the node is turned away.
    pub admit-Admits :
        (pool : NodePool F)
        → Inv now pool
        → Admits
            (admit F micros node now pool).1
            entry
            pool.queue
            (admit F micros node now pool).0.queue
    unfolding admit
    admit-Admits pool v =
        let pool' = expire_recent F micros now pool in
        let (same, _, cap) = expire_recent-queue now pool in
        let (budgeted, granted) = take_budget F micros now pool' in
        elim (Bool-cases (is_valid_node_addr node.addr)) [
          | inr bad ↦ simp bad
          | inl good ↦
              elim (Bool-cases (
                elem addr_discrete node.addr pool'.queued
                || Recent.is_recent node.addr now pool'.recent)) [
                  | inl known ↦ simp (good, known) same
                  | inr new ↦
                      simp (good, new)
                        (insert-Admits budgeted granted pool.queue
                          ((take_budget-queue now pool').0 ∙ same)
                          (omega (arith, (take_budget-queue now pool').2, cap, v.positive)))
                ]
        ]

    enqueue-Inv :
        (pool : NodePool F) (flag : Bool)
        → Inv now pool
        → length pool.queue < pool.capacity
        → elem addr_discrete node.addr pool.queued ≡ false
        → Inv now (enqueue F micros node now pool flag).0
    unfolding enqueue
    enqueue-Inv pool flag v room new = record {
      positive = v.positive;
      is_queue = push-IsQueue pool.queue pool.queued pool.capacity entry v.is_queue room new;
      recent_ok = v.recent_ok;
      timely = v.timely;
    }

    take_budget-Inv : (pool : NodePool F) → Inv now pool → Inv now (take_budget F micros now pool).0
    unfolding take_budget
    take_budget-Inv pool v = elim (Bool-cases pool.warmed) [
      | inl warm ↦ simp warm (record {
        positive = v.positive;
        is_queue = v.is_queue;
        recent_ok = v.recent_ok;
        timely = v.timely;
      })
      | inr cold ↦ simp cold v
    ]

    -- A full queue gives up its head, and then has room.
    replace_front-Inv :
        (pool : NodePool F) (queue : List QueuedNode)
        → pool.queue ≡ queue
        → Inv now pool
        → elem addr_discrete node.addr pool.queued ≡ false
        → let pool' = (replace_front F micros pool).0 in
          Inv now pool'
          × (length pool'.queue < pool'.capacity)
          × (elem addr_discrete node.addr pool'.queued ≡ false)
    unfolding replace_front pop_front_internal pop_entry
    replace_front-Inv pool [] e v new =
        let room : leb pool.capacity 0 ≡ false = ground (arith, v.positive) in
        simp (e, room) (v, v.positive, new)
    replace_front-Inv pool (head ∷ rest) e v new =
        elim (Bool-cases (leb pool.capacity (suc (length rest)))) [
          | inl full ↦
              simp (e, full)
                (
                  subst (λ q. Inv now (pop_entry F q pool).0) e
                      (pop_front_internal-Inv F now pool v),
                  omega (arith, ap length e, v.is_queue.bounded),
                  rw (elem-erase addr_discrete head.node.addr node.addr pool.queued, new)
                      (ground arith),
                )
          | inr room ↦ simp (e, room) (v, ground arith, new)
        ]

    insert-Inv :
        (pool : NodePool F) (granted : Bool)
        → Inv now pool
        → elem addr_discrete node.addr pool.queued ≡ false
        → Inv now (insert_node F micros node now (pool, granted)).0
    unfolding insert_node
    insert-Inv pool false v new = v
    insert-Inv pool true v new =
        let (v', room, new') = replace_front-Inv pool pool.queue refl v new in
        enqueue-Inv (replace_front F micros pool).0 (replace_front F micros pool).1 v' room new'

    -- `admit` keeps the pool's invariant, whatever its outcome: the queue within its capacity, its
    -- addresses distinct and those of `queued`, the recent probes in agreement.
    pub admit-Inv : (pool : NodePool F) → Inv now pool → Inv now (admit F micros node now pool).0
    unfolding admit insert_node
    admit-Inv pool v =
        let pool' = expire_recent F micros now pool in
        let v' = expire_recent-Inv F micros now pool v in
        let (budgeted, granted) = take_budget F micros now pool' in
        let ready = take_budget-Inv pool' v' in
        elim (Bool-cases (is_valid_node_addr node.addr)) [
          | inr bad ↦ simp bad v
          | inl good ↦
              elim (Bool-cases (
                elem addr_discrete node.addr pool'.queued
                || Recent.is_recent node.addr now pool'.recent)) [
                  | inl known ↦ simp (good, known) v'
                  | inr new ↦
                      simp (good, new)
                        (insert-Inv budgeted granted ready
                          (ground (arith, (take_budget-queue now pool').1)))
                ]
        ]
