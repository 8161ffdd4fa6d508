-- ===== src/Discovery/Responses/Keeping.antt =====
-- `handle_response` of src/discovery.rs keeps the actor's invariant, for every answer of another node.
use dht_crawler.Base.{
  ℕ, ◌+◌, ◌*◌, ◌/◌, ◌%◌, ◌==◌, ◌≡◌, ◌≢◌, refl, sym, ap, ◌∙◌, inl, inr, not, ◌&&◌, ◌||◌, ltb,
  if◌then◌else◌, take, List, [], ◌∷◌, length, Option, none, some, arith, Option-cases, Bool-cases,
}
use dht_crawler.Base.Assoc.{remove, same, get-insert_other, get-insert_cases, length-insert_old}
use dht_crawler.Net.{SocketAddr, NodeTuple, addr_discrete}
use dht_crawler.Krpc.{DhtResponse, chunks_exact}
use dht_crawler.Budget.{Float, RateBucket, try_take_one}
use dht_crawler.Scheduler.{second, hash_discrete, HashSource, announce, get_peers, sample}
use dht_crawler.Discovery.Dedup.{HashDedup, contains}
use dht_crawler.Discovery.Actor.{max_remote_interval, SampleNode, DiscoveryActor, enter_cooldown}
use dht_crawler.Discovery.Actor.Waiting.{node_at, pending_at, changed-Waiting}
use dht_crawler.Discovery.Actor.Invariant.{Inv, Loose}
use dht_crawler.Discovery.Actor.Admitting.{enter_cooldown-Inv}
use dht_crawler.Discovery.Ticks.Keeping.{answered-Loose, admit_all-Inv}
use dht_crawler.Discovery.Responses.{
  SampleResponse, Surroundings, budget_of, with_budget, event_of, wait_of, tell, emit_hash,
  emit_all, id_of, rename_entry, neighbors_of, take_samples, check_samples, take_fields,
  take_response, handle_response,
}

module _ (F : Float) (env : Surroundings) where
  -- The nodes, the requests and the cooldowns stay as they are.
  record Quiet (s s' : DiscoveryActor F) : Type 0 where
    nodes : s'.nodes ≡ s.nodes
    due : s'.due ≡ s.due
    pending : s'.pending ≡ s.pending
    cooldowns : s'.cooldowns ≡ s.cooldowns
    cooldown_expiry : s'.cooldown_expiry ≡ s.cooldown_expiry
    options : s'.options ≡ s.options

  Quiet-refl : (s : DiscoveryActor F) → Quiet s s
  Quiet-refl s = record {
    nodes = refl;
    due = refl;
    pending = refl;
    cooldowns = refl;
    cooldown_expiry = refl;
    options = refl;
  }

  Quiet-trans : (s t u : DiscoveryActor F) → Quiet s t → Quiet t u → Quiet s u
  Quiet-trans s t u p q = record {
    nodes = q.nodes ∙ p.nodes;
    due = q.due ∙ p.due;
    pending = q.pending ∙ p.pending;
    cooldowns = q.cooldowns ∙ p.cooldowns;
    cooldown_expiry = q.cooldown_expiry ∙ p.cooldown_expiry;
    options = q.options ∙ p.options;
  }

  with_budget-Quiet :
      (source : HashSource) (budget : RateBucket F) (s : DiscoveryActor F)
      → Quiet s (with_budget F env source budget s)
  with_budget-Quiet announce budget s = record {
    nodes = refl;
    due = refl;
    pending = refl;
    cooldowns = refl;
    cooldown_expiry = refl;
    options = refl;
  }
  with_budget-Quiet get_peers budget s = record {
    nodes = refl;
    due = refl;
    pending = refl;
    cooldowns = refl;
    cooldown_expiry = refl;
    options = refl;
  }
  with_budget-Quiet sample budget s = record {
    nodes = refl;
    due = refl;
    pending = refl;
    cooldowns = refl;
    cooldown_expiry = refl;
    options = refl;
  }

  tell-Quiet :
      (hash : List ℕ) (node : NodeTuple) (source : HashSource) (now : ℕ) (s : DiscoveryActor F)
      → Quiet s (tell F env hash node source now s).0
  unfolding tell
  tell-Quiet hash node source now s = elim (Bool-cases (env.passes (env.hex hash))) [
    | inr stopped ↦ rw stopped (Quiet-refl s)
    | inl passes ↦ elim (Bool-cases (env.accepts (event_of F env hash node source now))) [
      | inr full ↦ rw (passes, full) (Quiet-refl s)
      | inl taken ↦
          rw (passes, taken)
            (record {
              nodes = refl;
              due = refl;
              pending = refl;
              cooldowns = refl;
              cooldown_expiry = refl;
              options = refl;
            })
    ]
  ]

  dedup-Quiet : (s : DiscoveryActor F) (dedup : HashDedup) → Quiet s (record s { dedup = dedup })
  dedup-Quiet s dedup = record {
    nodes = refl;
    due = refl;
    pending = refl;
    cooldowns = refl;
    cooldown_expiry = refl;
    options = refl;
  }

  emit_hash-Quiet :
      (hash : List ℕ) (node : NodeTuple) (source : HashSource) (now : ℕ) (s : DiscoveryActor F)
      → Quiet s (emit_hash F env hash node source now s).0
  unfolding emit_hash
  emit_hash-Quiet hash node source now s =
      let (dedup, known) = contains hash node.addr source now s.dedup in
      let (budget, granted) = try_take_one F now (budget_of F env source s) in
      let s1 : DiscoveryActor F = record s { dedup = dedup } in
      let s2 : DiscoveryActor F = with_budget F env source budget s1 in
      let paid = Quiet-trans s s1 s2 (dedup-Quiet s dedup) (with_budget-Quiet source budget s1) in
      elim (Bool-cases known) [
        | inl old ↦ rw old (dedup-Quiet s dedup)
        | inr new ↦ elim (Bool-cases granted) [
          | inr refused ↦ rw (new, refused) paid
          | inl given ↦
              rw (new, given)
                (Quiet-trans s s2 (tell F env hash node source now s2).0 paid
                  (tell-Quiet hash node source now s2))
        ]
      ]

  emit_all-Quiet :
      (samples : List (List ℕ)) (node : NodeTuple) (now novel : ℕ) (s : DiscoveryActor F)
      → Quiet s (emit_all F env samples node now (s, novel)).0
  unfolding emit_all
  emit_all-Quiet [] node now novel s = Quiet-refl s
  emit_all-Quiet (hash ∷ samples) node now novel s =
      let (dedup, known) = contains hash node.addr sample now s.dedup in
      let s1 : DiscoveryActor F = record s { dedup = dedup } in
      let s2 = (emit_hash F env hash node sample now s1).0 in
      let novel' = if known then novel else novel + 1 in
      Quiet-trans s s2 (emit_all F env samples node now (s2, novel')).0
        (Quiet-trans s s1 s2 (dedup-Quiet s dedup) (emit_hash-Quiet hash node sample now s1))
        (emit_all-Quiet samples node now novel' s2)

  Quiet-Loose : (a : SocketAddr) (s s' : DiscoveryActor F) → Loose F a s → Quiet s s' → Loose F a s'
  Quiet-Loose a s s' v q = record {
    waiting = rw (q.nodes, q.due, q.pending) v.waiting;
    unqueued = rw q.nodes v.unqueued;
    cooling = rw (q.cooldowns, q.cooldown_expiry) v.cooling;
    apart = rw (q.cooldowns, q.nodes) v.apart;
    named = rw q.nodes v.named;
    few = rw (q.nodes, q.options) v.few;
    room = rw (q.cooldowns, q.pending, q.options) v.room;
  }

  rename_entry-Loose :
      (found : Option SampleNode) (node : NodeTuple) (s : DiscoveryActor F)
      → node_at node.addr s.nodes ≡ found
      → Loose F node.addr s
      → Loose F node.addr (rename_entry F env found node s)
  unfolding rename_entry
  rename_entry-Loose none node s absent v = v
  rename_entry-Loose (some e) node s at v =
      let e' : SampleNode = record e { node = node } in
      record {
        waiting =
            changed-Waiting s.nodes s.due s.pending node.addr (some node.addr) e node v.waiting at;
        unqueued = λ f h. elim (get-insert_cases addr_discrete node.addr node.addr e' f s.nodes h) [
          | inl (_, same) ↦ sym (ap (λ y. y.due) same) ∙ v.unqueued e at
          | inr (_, before) ↦ v.unqueued f before
        ];
        cooling = v.cooling;
        apart = λ x c h.
            let other : node.addr ≢ x = λ here. ground (arith, v.apart x c h, at, here) in
            get-insert_other addr_discrete node.addr x e' s.nodes other ∙ v.apart x c h;
        named = λ x f h. elim (get-insert_cases addr_discrete node.addr x e' f s.nodes h) [
          | inl (here, same) ↦ sym (ap (λ y. y.node.addr) same) ∙ here
          | inr (_, before) ↦ v.named x f before
        ];
        few = omega (
          arith,
          v.few,
          length-insert_old addr_discrete node.addr e' e s.nodes v.waiting.uniq_nodes at,
        );
        room = v.room;
      }

  module _ (response : DhtResponse) (addr : SocketAddr) (now : ℕ) (s : DiscoveryActor F)
      (v : Loose F addr s) where
    take_samples-Inv :
        (id samples : List ℕ) (interval : ℕ)
        → Inv F (take_samples F env id samples interval response addr now s)
    unfolding take_samples
    take_samples-Inv id samples interval =
        let node : NodeTuple = record { id = id; addr = addr } in
        let s1 = rename_entry F env (node_at addr s.nodes) node s in
        let hashes = take 256 (chunks_exact 20 samples) in
        let quiet = emit_all-Quiet hashes node now 0 s1 in
        let (s2, novel) = emit_all F env hashes node now (s1, 0) in
        let v1 = rename_entry-Loose (node_at addr s.nodes) node s refl v in
        let v2 = Quiet-Loose addr s1 s2 v1 quiet in
        let until = now + wait_of F env samples interval novel s2 * second in
        admit_all-Inv F (neighbors_of F env response (enter_cooldown F addr until s2)) now
          (enter_cooldown F addr until s2) (enter_cooldown-Inv F addr until s2 v2)

    check_samples-Inv :
        (id : Option (List ℕ)) (samples : List ℕ) (interval num : ℕ)
        → Inv F (check_samples F env id samples interval num response addr now s)
    unfolding check_samples
    check_samples-Inv none samples interval num = enter_cooldown-Inv F addr _ s v
    check_samples-Inv (some id) samples interval num =
        elim (Bool-cases (
          ltb max_remote_interval interval
          || (not (length samples % 20 == 0) || ltb num (length samples / 20)))) [
            | inl invalid ↦ rw invalid (enter_cooldown-Inv F addr _ s v)
            | inr valid ↦ rw valid (take_samples-Inv id samples interval)
          ]

    take_fields-Inv :
        (samples : Option (List ℕ)) (interval num : Option ℕ)
        → Inv F (take_fields F env samples interval num response addr now s)
    unfolding take_fields
    take_fields-Inv (some samples) (some interval) (some num) =
        check_samples-Inv (id_of F env response.id) samples interval num
    take_fields-Inv (some samples) (some interval) none = enter_cooldown-Inv F addr _ s v
    take_fields-Inv (some samples) none num = enter_cooldown-Inv F addr _ s v
    take_fields-Inv none interval num = enter_cooldown-Inv F addr _ s v

  take_response-Inv :
      (response : Option DhtResponse) (addr : SocketAddr) (now : ℕ) (s : DiscoveryActor F)
      → Loose F addr s
      → Inv F (take_response F env response addr now s)
  unfolding take_response
  take_response-Inv none addr now s v = enter_cooldown-Inv F addr _ s v
  take_response-Inv (some response) addr now s v =
      take_fields-Inv response addr now s v response.samples response.interval response.num

  -- Whatever another node answers, and whenever, `handle_response` keeps the invariant of the actor.
  pub handle_response-Inv :
      (event : SampleResponse) (now : ℕ) (s : DiscoveryActor F)
      → Inv F s
      → Inv F (handle_response F env event now s)
  unfolding handle_response
  handle_response-Inv event now s v = elim (Option-cases (pending_at event.addr s.pending)) [
    | inl unasked ↦ rw unasked v
    | inr (p, asked) ↦
        elim (Bool-cases (same hash_discrete p.tid event.tid && ltb now p.deadline)) [
          | inr other ↦ rw (asked, other) v
          | inl answers ↦
              rw (asked, answers)
                (take_response-Inv event.response event.addr now
                  (record s { pending = remove addr_discrete event.addr s.pending })
                  (answered-Loose F event.addr p s v asked))
        ]
  ]
