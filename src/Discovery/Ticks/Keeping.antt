-- ===== src/Discovery/Ticks/Keeping.antt =====
-- `on_tick` of src/discovery.rs keeps the actor's invariant, whatever the snapshot draws and whatever
-- becomes of the requests.
use dht_crawler.Base.{
  ℕ, zero, suc, ◌+◌, ◌*◌, ◌≤◌, ◌%◌, ◌^◌, max, ◌≡◌, ◌≢◌, refl, sym, ap, subst, ◌∙◌, inl, inr, Bool,
  true, is_some, leb, List, [], ◌∷◌, length, Option, none, some, arith, Option-cases, Bool-cases,
}
use mathlib.Core.Option.{some-injective}
use dht_crawler.Base.Assoc.{
  get, insert, remove, elem, Distinct, get-insert_self, get-insert_other, get-remove_other,
  get-insert_cases, Uniq, length-remove, length-insert_new, length-insert_old,
}
use dht_crawler.Base.Ordered.{first_key_value, get-first_key_value}
use dht_crawler.Net.{SocketAddr, NodeTuple, addr_discrete}
use dht_crawler.Budget.{Float, RateBucket, try_take_one}
use dht_crawler.Discovery.Actor.{
  DueKey, due_key_discrete, CoolKey, cool_key_discrete, cool_key_lt, SampleNode, PendingSample,
  Pending, DiscoveryActor, cool_entry, enter_cooldown, failure_delay, first_due, admit_node,
}
use dht_crawler.Discovery.Actor.Waiting.{node_at, pending_at, queued_at}
use dht_crawler.Discovery.Actor.Moving.{unqueued-Waiting, answered-Waiting, asked-Waiting}
use dht_crawler.Discovery.Actor.Invariant.{Inv, Loose}
use dht_crawler.Discovery.Actor.Admitting.{
  enter_cooldown-Inv, admit_node-Inv, taken_out-Inv, first_due-queued,
}
use dht_crawler.Discovery.Ticks.{
  sample_tid, family_of, expired, released, release_first, release_cooldowns, expire_requests,
  admit_all, refresh_seeds, conclude, ask_entry, ask_round, ask, on_tick,
}

-- A request is only over where there is one, and once.
expired-pending :
    (now : ℕ) (m : Pending) (a : SocketAddr)
    → elem addr_discrete a (expired now m) ≡ true
    → is_some (pending_at a m) ≡ true
unfolding expired elem get
expired-pending now [] a h = absurd (cc)
expired-pending now ((b, p) ∷ m) a h = ground (arith, expired-pending now m a)

expired-Distinct :
    (now : ℕ) (m : Pending) → Uniq addr_discrete m → Distinct addr_discrete (expired now m)
unfolding expired
expired-Distinct now [] u = tt
expired-Distinct now ((b, p) ∷ m) u = elim (Bool-cases (leb p.deadline now)) [
  | inr live ↦ rw live (expired-Distinct now m u.1)
  | inl over ↦ rw over (
    elim (Bool-cases (elem addr_discrete b (expired now m))) [
      | inl twice ↦ absurd (ground (arith, expired-pending now m b twice, u.0))
      | inr once ↦ once
    ],
    expired-Distinct now m u.1,
  )
]

elem-head : (a : SocketAddr) (xs : List SocketAddr) → elem addr_discrete a (a ∷ xs) ≡ true
unfolding elem
elem-head a xs = ground arith

elem-tail :
    (a b : SocketAddr) (xs : List SocketAddr)
    → elem addr_discrete b xs ≡ true
    → elem addr_discrete b (a ∷ xs) ≡ true
unfolding elem
elem-tail a b xs h = ground arith

module _ (F : Float) where
  pub release_first-Inv :
      (key : CoolKey) (now : ℕ) (s : DiscoveryActor F)
      → Inv F s
      → get cool_key_discrete key s.cooldown_expiry ≡ some tt
      → Inv F (release_first F key now s)
  unfolding release_first released
  release_first-Inv key now s v there =
      let (node, cooled) = v.cooling.to_cooldown key tt there in
      rw cooled (admit_node-Inv F node now _ (taken_out-Inv F key.1 node key.0 s v cooled))

  release_cooldowns-Inv :
      (rounds now : ℕ) (s : DiscoveryActor F) → Inv F s → Inv F (release_cooldowns F rounds now s)
  unfolding release_cooldowns
  release_cooldowns-Inv zero now s v = v
  release_cooldowns-Inv (suc rounds) now s v =
      elim (Option-cases (first_key_value cool_key_lt s.cooldown_expiry)) [
        | inl empty ↦ rw (empty, release_cooldowns) v
        | inr ((key, u), first) ↦ elim (Bool-cases (leb key.0 now)) [
          | inr early ↦ rw (first, early, release_cooldowns) v
          | inl over ↦
              let there =
                get-first_key_value cool_key_lt cool_key_discrete s.cooldown_expiry key u
                  v.cooling.uniq_expiry first in
              rw (first, over, release_cooldowns)
                (release_cooldowns-Inv rounds now (release_first F key now s)
                  (release_first-Inv key now s v there))
        ]
      ]

  -- A request that is over or answered leaves its node loose.
  pub answered-Loose :
      (a : SocketAddr) (p : PendingSample) (s : DiscoveryActor F)
      → Inv F s
      → pending_at a s.pending ≡ some p
      → Loose F a (record s { pending = remove addr_discrete a s.pending })
  answered-Loose a p s v asked =
      let (e, at, idle) = v.waiting.awaited a p asked in
      record {
        waiting = answered-Waiting s.nodes s.due s.pending a v.waiting;
        unqueued = λ f h. ap (λ y. y.due) (some-injective f e (sym h ∙ at)) ∙ idle;
        cooling = v.cooling;
        apart = v.apart;
        named = v.named;
        few = v.few;
        room =
            omega
              (arith, v.room, length-remove addr_discrete a s.pending v.waiting.uniq_pending asked);
      }

  enter_cooldown-pending :
      (a : SocketAddr) (until : ℕ) (s : DiscoveryActor F)
      → (enter_cooldown F a until s).pending ≡ s.pending
  unfolding enter_cooldown cool_entry
  enter_cooldown-pending a until s = elim (Option-cases (node_at a s.nodes)) [
    | inl absent ↦ rw absent refl
    | inr (e, at) ↦ rw at refl
  ]

  expire_requests-Inv :
      (addrs : List SocketAddr) (now : ℕ) (s : DiscoveryActor F)
      → Inv F s
      → Distinct addr_discrete addrs
      → ((a : SocketAddr)
          → elem addr_discrete a addrs ≡ true
          → is_some (pending_at a s.pending) ≡ true)
      → Inv F (expire_requests F addrs now s)
  unfolding expire_requests
  expire_requests-Inv [] now s v distinct asked = v
  expire_requests-Inv (a ∷ addrs) now s v distinct asked =
      elim (Option-cases (pending_at a s.pending)) [
        | inl nothing ↦ absurd (ground (arith, asked a (elem-head a addrs), nothing))
        | inr (p, there) ↦
            let s1 = record s { pending = remove addr_discrete a s.pending } in
            let s2 = enter_cooldown F a (now + failure_delay F s) s1 in
            expire_requests-Inv addrs now s2
              (enter_cooldown-Inv F a (now + failure_delay F s) s1 (answered-Loose a p s v there))
              distinct.1
              (λ b among. rw (enter_cooldown-pending a (now + failure_delay F s) s1) (
                let apart : a ≢ b = λ same. ground (arith, distinct.0, among, same) in
                rw (get-remove_other addr_discrete a b s.pending apart)
                  (asked b (elem-tail a b addrs among))))
      ]

  pub admit_all-Inv :
      (nodes : List NodeTuple) (now : ℕ) (s : DiscoveryActor F)
      → Inv F s
      → Inv F (admit_all F nodes now s)
  unfolding admit_all
  admit_all-Inv [] now s v = v
  admit_all-Inv (node ∷ nodes) now s v =
      admit_all-Inv nodes now (admit_node F node now s) (admit_node-Inv F node now s v)

  conclude-Inv :
      (result : Option ℕ) (node : NodeTuple) (tid : List ℕ) (now : ℕ) (s : DiscoveryActor F)
      (e : SampleNode)
      → Loose F node.addr s
      → node_at node.addr s.nodes ≡ some e
      → Inv F (conclude F result node tid now s)
  unfolding conclude
  conclude-Inv none node tid now s e v at = enter_cooldown-Inv F node.addr _ s v
  conclude-Inv (some sent_at) node tid now s e v at =
      let p : PendingSample = record {
        tid = tid;
        deadline = sent_at + max s.options.sample_query_timeout_secs 1 * 1000000000;
      } in
      let free = v.waiting.unawaited node.addr refl in
      record {
        waiting =
            asked-Waiting s.nodes s.due s.pending node.addr e p v.waiting at (v.unqueued e at);
        cooling = v.cooling;
        apart = v.apart;
        named = v.named;
        few = v.few;
        room = omega (arith, v.room, length-insert_new addr_discrete node.addr p s.pending free);
      }

  ask_entry-Inv :
      (send : NodeTuple → List ℕ → Option ℕ) (key : DueKey) (now : ℕ) (s : DiscoveryActor F)
      → Inv F s
      → queued_at key s.due ≡ some tt
      → suc (length s.cooldowns + length s.pending) ≤ max s.options.sample_cooldown_capacity 1
      → Inv F (ask_entry F (node_at key.2 s.nodes) send key now s)
  unfolding ask_entry
  ask_entry-Inv send key now s v queued room =
      let (e, at, due) = v.waiting.to_node key tt queued in
      let named = v.named key.2 e at in
      let e' : SampleNode = record e { due = none } in
      let s' : DiscoveryActor F = record s {
        due = remove due_key_discrete key s.due;
        nodes = insert addr_discrete key.2 e' s.nodes;
        next_tid = max ((s.next_tid + 1) % 2 ^ 64) 1;
      } in
      let loose : Loose F key.2 s' = record {
        waiting = unqueued-Waiting s.nodes s.due s.pending key.2 e key v.waiting at due;
        unqueued = λ f h. elim (get-insert_cases addr_discrete key.2 key.2 e' f s.nodes h) [
          | inl (_, same) ↦ sym (ap (λ y. y.due) same)
          | inr (apart, _) ↦ absurd (apart refl)
        ];
        cooling = v.cooling;
        apart = λ x c h.
            let other : key.2 ≢ x = λ here. ground (arith, v.apart x c h, at, here) in
            get-insert_other addr_discrete key.2 x e' s.nodes other ∙ v.apart x c h;
        named = λ x f h. elim (get-insert_cases addr_discrete key.2 x e' f s.nodes h) [
          | inl (here, same) ↦ sym (ap (λ y. y.node.addr) same) ∙ named ∙ here
          | inr (_, before) ↦ v.named x f before
        ];
        few = omega (
          arith,
          v.few,
          length-insert_old addr_discrete key.2 e' e s.nodes v.waiting.uniq_nodes at,
        );
        room = room;
      } in
      rw at (
        conclude-Inv _ e.node (sample_tid s.next_tid) now s' e'
          (subst (λ x. Loose F x s') (sym named) loose)
          (get-insert_self addr_discrete key.2 e.node.addr e' s.nodes (sym named)))

  same-Inv :
      (s : DiscoveryActor F) (budget : RateBucket F)
      → Inv F s
      → Inv F (record s { query_budget = budget })
  same-Inv s budget v = record {
    waiting = v.waiting;
    cooling = v.cooling;
    apart = v.apart;
    named = v.named;
    few = v.few;
    room = v.room;
  }

  ask_round-Inv :
      (send : NodeTuple → List ℕ → Option ℕ) (now : ℕ) (s : DiscoveryActor F)
      (found : Option DueKey)
      → first_due F now s ≡ found
      → Inv F s
      → Inv F (ask_round F found send now s).0
  unfolding ask_round
  ask_round-Inv send now s none first v = v
  ask_round-Inv send now s (some key) first v =
      let budget = (try_take_one F now s.query_budget).0 in
      let s' : DiscoveryActor F = record s { query_budget = budget } in
      let v' : Inv F s' = same-Inv s budget v in
      elim (Bool-cases (leb s.options.sample_max_in_flight (length s.pending))) [
        | inl busy ↦ rw busy v
        | inr idle ↦
            elim (Bool-cases (
              leb (max s.options.sample_cooldown_capacity 1)
                (length s.cooldowns + length s.pending))) [
                  | inl full ↦ rw (idle, full) v
                  | inr room ↦ elim (Bool-cases (try_take_one F now s.query_budget).1) [
                    | inr refused ↦ rw (idle, room, refused) v'
                    | inl granted ↦
                        rw (idle, room, granted)
                          (ask_entry-Inv send key now s' v' (first_due-queued F now s key v first)
                            (ground arith))
                  ]
                ]
      ]

  ask-Inv :
      (rounds : ℕ) (send : NodeTuple → List ℕ → Option ℕ) (now : ℕ) (s : DiscoveryActor F)
      → Inv F s
      → Inv F (ask F rounds send now s)
  unfolding ask
  ask-Inv zero send now s v = v
  ask-Inv (suc rounds) send now s v =
      let round = ask_round F (first_due F now s) send now s in
      let v' = ask_round-Inv send now s (first_due F now s) refl v in
      elim (Bool-cases round.1) [
        | inl goes_on ↦ rw goes_on (ask-Inv rounds send now round.0 v')
        | inr ends ↦ rw ends v'
      ]

  refresh_seeds-Inv :
      (seeds : Option Bool → List NodeTuple) (now : ℕ) (s : DiscoveryActor F)
      → Inv F s
      → Inv F (refresh_seeds F seeds now s)
  unfolding refresh_seeds
  refresh_seeds-Inv seeds now s v = elim (Bool-cases (leb s.next_seed_refresh now)) [
    | inr early ↦ rw early v
    | inl passed ↦ rw passed (
        admit_all-Inv (seeds (family_of s.netmode)) now
          (record s { next_seed_refresh = now + 5 * 1000000000 })
          (record {
            waiting = v.waiting;
            cooling = v.cooling;
            apart = v.apart;
            named = v.named;
            few = v.few;
            room = v.room;
          }))
  ]

  -- `on_tick` keeps the invariant, whatever seeds are drawn and whatever becomes of the requests: the
  -- maps and their indexes agree; each candidate is queued or awaits an answer, and not both; none
  -- that cools down is a candidate; the candidates are within their bound, and the cooldowns and
  -- the requests together within theirs, so that every request has a place for its cooldown.
  pub on_tick-Inv :
      (seeds : Option Bool → List NodeTuple) (send : NodeTuple → List ℕ → Option ℕ) (now : ℕ)
      (s : DiscoveryActor F)
      → Inv F s
      → Inv F (on_tick F seeds send now s)
  unfolding on_tick
  on_tick-Inv seeds send now s v =
      let s1 = release_cooldowns F 256 now s in
      let v1 = release_cooldowns-Inv 256 now s v in
      let s2 = expire_requests F (expired now s1.pending) now s1 in
      let v2 =
        expire_requests-Inv (expired now s1.pending) now s1 v1
          (expired-Distinct now s1.pending v1.waiting.uniq_pending)
          (expired-pending now s1.pending) in
      ask-Inv _ send now _ (refresh_seeds-Inv seeds now s2 v2)
