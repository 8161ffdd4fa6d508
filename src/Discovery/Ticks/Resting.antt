-- ===== src/Discovery/Ticks/Resting.antt =====
-- `on_tick` of src/discovery.rs asks no node that cools down, and ends no cooldown before its time.
use dht_crawler.Base.{
  ℕ, zero, suc, ◌+◌, ◌<◌, ◌%◌, ◌^◌, max, ◌≡◌, ◌≢◌, refl, sym, ap, ◌∙◌, inl, inr, Bool, true, leb,
  List, [], ◌∷◌, length, Option, none, some, arith, Option-cases, Bool-cases,
}
use mathlib.Core.Option.{some-injective}
use dht_crawler.Base.Assoc.{get, insert, remove, get-insert_other, get-remove_other}
use dht_crawler.Base.Ordered.{first_key_value, get-first_key_value}
use dht_crawler.Net.{SocketAddr, NodeTuple, addr_discrete}
use dht_crawler.Budget.{Float, try_take_one}
use dht_crawler.Discovery.Actor.{
  DueKey, due_key_discrete, CoolKey, cool_key_discrete, cool_key_lt, SampleNode, DiscoveryActor,
  enter_cooldown, failure_delay, first_due, admit_node,
}
use dht_crawler.Discovery.Actor.Waiting.{node_at, pending_at}
use dht_crawler.Discovery.Actor.Invariant.{Inv}
use dht_crawler.Discovery.Actor.Cooling.{cooled_at}
use dht_crawler.Discovery.Actor.Held.{Held, enter_cooldown-Held, admit_node-Held}
use dht_crawler.Discovery.Ticks.{
  sample_tid, family_of, seed_refresh, expired, released, release_first, release_cooldowns,
  expire_requests, admit_all, refresh_seeds, socket_for, sent, conclude, ask_entry, ask_round, ask,
  on_tick,
}
use dht_crawler.Discovery.Ticks.Keeping.{release_first-Inv, on_tick-Inv}

module _ (F : Float) (a : SocketAddr) (c : NodeTuple × ℕ) (now : ℕ) (early : now < c.1) where
  release_first-Held :
      (key : CoolKey) (s : DiscoveryActor F)
      → Inv F s
      → Held F a c s
      → get cool_key_discrete key s.cooldown_expiry ≡ some tt
      → leb key.0 now ≡ true
      → Held F a c (release_first F key now s)
  unfolding release_first released
  release_first-Held key s v h there over =
      let (node, cooled) = v.cooling.to_cooldown key tt there in
      let other : key.1 ≢ a = λ here.
        let same =
          some-injective (node, key.0) c
            (sym cooled ∙ ap (λ x. cooled_at x s.cooldowns) here ∙ h.cooled) in
        ground (arith, ap (λ x. x.1) same, over) in
      rw cooled (
        admit_node-Held F a c node now _ early (record {
          cooled = get-remove_other addr_discrete key.1 a s.cooldowns other ∙ h.cooled;
          out = h.out;
        }))

  release_cooldowns-Held :
      (rounds : ℕ) (s : DiscoveryActor F)
      → Inv F s
      → Held F a c s
      → Held F a c (release_cooldowns F rounds now s)
  unfolding release_cooldowns
  release_cooldowns-Held zero s v h = h
  release_cooldowns-Held (suc rounds) s v h =
      elim (Option-cases (first_key_value cool_key_lt s.cooldown_expiry)) [
        | inl empty ↦ rw (empty, release_cooldowns) h
        | inr ((key, u), first) ↦ elim (Bool-cases (leb key.0 now)) [
          | inr later ↦ rw (first, later, release_cooldowns) h
          | inl over ↦
              let there =
                get-first_key_value cool_key_lt cool_key_discrete s.cooldown_expiry key u
                  v.cooling.uniq_expiry first in
              rw (first, over, release_cooldowns)
                (release_cooldowns-Held rounds (release_first F key now s)
                  (release_first-Inv F key now s v there) (release_first-Held key s v h there over))
        ]
      ]

  expire_requests-Held :
      (addrs : List SocketAddr) (s : DiscoveryActor F)
      → Held F a c s
      → Held F a c (expire_requests F addrs now s)
  unfolding expire_requests
  expire_requests-Held [] s h = h
  expire_requests-Held (b ∷ addrs) s h =
      let s1 : DiscoveryActor F = record s { pending = remove addr_discrete b s.pending } in
      expire_requests-Held addrs (enter_cooldown F b (now + failure_delay F s) s1) (
        enter_cooldown-Held F a c b (now + failure_delay F s) s1
          (record { cooled = h.cooled; out = h.out }))

  admit_all-Held :
      (nodes : List NodeTuple) (s : DiscoveryActor F)
      → Held F a c s
      → Held F a c (admit_all F nodes now s)
  unfolding admit_all
  admit_all-Held [] s h = h
  admit_all-Held (node ∷ nodes) s h =
      admit_all-Held nodes (admit_node F node now s) (admit_node-Held F a c node now s early h)

  refresh_seeds-Held :
      (seeds : Option Bool → List NodeTuple) (s : DiscoveryActor F)
      → Held F a c s
      → Held F a c (refresh_seeds F seeds now s)
  unfolding refresh_seeds
  refresh_seeds-Held seeds s h = elim (Bool-cases (leb s.next_seed_refresh now)) [
    | inr before ↦ rw before h
    | inl passed ↦ rw passed (
        admit_all-Held (seeds (family_of s.netmode))
          (record s { next_seed_refresh = now + seed_refresh })
          (record { cooled = h.cooled; out = h.out }))
  ]

  conclude-Held :
      (result : Option ℕ) (node : NodeTuple) (tid : List ℕ) (s : DiscoveryActor F)
      → Held F a c s
      → Held F a c (conclude F result node tid now s)
  unfolding conclude
  conclude-Held none node tid s h = enter_cooldown-Held F a c node.addr _ s h
  conclude-Held (some sent_at) node tid s h = record { cooled = h.cooled; out = h.out }

  ask_entry-Held :
      (send : NodeTuple → List ℕ → Option ℕ) (key : DueKey) (s : DiscoveryActor F)
      (found : Option SampleNode)
      → node_at key.2 s.nodes ≡ found
      → Held F a c s
      → Held F a c (ask_entry F found send key now s)
  unfolding ask_entry
  ask_entry-Held send key s none at h = record { cooled = h.cooled; out = h.out }
  ask_entry-Held send key s (some e) at h =
      let other : key.2 ≢ a = λ here. ground (arith, at, h.out, here) in
      let s' : DiscoveryActor F = record s {
        due = remove due_key_discrete key s.due;
        nodes = insert addr_discrete key.2 (record e { due = none }) s.nodes;
        next_tid = max ((s.next_tid + 1) % 2 ^ 64) 1;
      } in
      let tid = sample_tid s.next_tid in
      conclude-Held (sent (socket_for F e.node s) (send e.node tid)) e.node tid s' (record {
        cooled = h.cooled;
        out =
            get-insert_other addr_discrete key.2 a (record e { due = none }) s.nodes other ∙ h.out;
      })

  ask_round-Held :
      (send : NodeTuple → List ℕ → Option ℕ) (s : DiscoveryActor F) (found : Option DueKey)
      → Held F a c s
      → Held F a c (ask_round F found send now s).0
  unfolding ask_round
  ask_round-Held send s none h = h
  ask_round-Held send s (some key) h =
      let budget = (try_take_one F now s.query_budget).0 in
      let s' : DiscoveryActor F = record s { query_budget = budget } in
      let h' : Held F a c s' = record { cooled = h.cooled; out = h.out } in
      elim (Bool-cases (leb s.options.sample_max_in_flight (length s.pending))) [
        | inl busy ↦ rw busy h
        | inr idle ↦
            elim (Bool-cases (
              leb (max s.options.sample_cooldown_capacity 1)
                (length s.cooldowns + length s.pending))) [
                  | inl full ↦ rw (idle, full) h
                  | inr room ↦ elim (Bool-cases (try_take_one F now s.query_budget).1) [
                    | inr refused ↦ rw (idle, room, refused) h'
                    | inl granted ↦
                        rw (idle, room, granted)
                          (ask_entry-Held send key s' (node_at key.2 s.nodes) refl h')
                  ]
                ]
      ]

  ask-Held :
      (rounds : ℕ) (send : NodeTuple → List ℕ → Option ℕ) (s : DiscoveryActor F)
      → Held F a c s
      → Held F a c (ask F rounds send now s)
  unfolding ask
  ask-Held zero send s h = h
  ask-Held (suc rounds) send s h =
      let round = ask_round F (first_due F now s) send now s in
      let h' = ask_round-Held send s (first_due F now s) h in
      elim (Bool-cases round.1) [
        | inl goes_on ↦ rw goes_on (ask-Held rounds send round.0 h')
        | inr ends ↦ rw ends h'
      ]

-- A node that is in its cooldown at the time of a tick still is after it, with the same end, whatever
-- nodes are found again and whatever becomes of the requests, and no request to it is in flight.
pub on_tick-rests :
    (F : Float) (a : SocketAddr) (node : NodeTuple) (until now : ℕ)
    (seeds : Option Bool → List NodeTuple) (send : NodeTuple → List ℕ → Option ℕ)
    (s : DiscoveryActor F)
    → now < until
    → Inv F s
    → cooled_at a s.cooldowns ≡ some (node, until)
    → let s' = on_tick F seeds send now s in
      (cooled_at a s'.cooldowns ≡ some (node, until)) × (pending_at a s'.pending ≡ none)
unfolding on_tick
on_tick-rests F a node until now seeds send s early v cooled =
    let c : NodeTuple × ℕ = (node, until) in
    let h : Held F a c s = record { cooled = cooled; out = v.apart a c cooled } in
    let s1 = release_cooldowns F 256 now s in
    let h1 = release_cooldowns-Held F a c now early 256 s v h in
    let h2 = expire_requests-Held F a c now early (expired now s1.pending) s1 h1 in
    let h3 = refresh_seeds-Held F a c now early seeds _ h2 in
    let h4 = ask-Held F a c now early _ send _ h3 in
    let v' = on_tick-Inv F seeds send now s v in (h4.cooled, unasked F a _ v' h4.out)
  where
    unasked :
        (F : Float) (a : SocketAddr) (s : DiscoveryActor F)
        → Inv F s
        → node_at a s.nodes ≡ none
        → pending_at a s.pending ≡ none
    unasked F a s v out = elim (Option-cases (pending_at a s.pending)) [
      | inl none_sent ↦ none_sent
      | inr (p, asked) ↦
          let (e, at, _) = v.waiting.awaited a p asked in absurd (ground (arith, at, out))
    ]
