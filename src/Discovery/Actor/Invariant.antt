-- ===== src/Discovery/Actor/Invariant.antt =====
-- The state of `DiscoveryActor` in src/discovery.rs: its maps and indexes agree and are bounded, a node
-- is never in two places, and no node is lost.
use dht_crawler.Base.{ℕ, suc, ◌+◌, ◌≤◌, ◌≡◌, max, Bool, List, length, none, some, arith}
use dht_crawler.Base.Assoc.{get}
use dht_crawler.Net.{NetMode, SocketAddr, NodeTuple}
use dht_crawler.Options.{DiscoveryOptions}
use dht_crawler.Budget.{Float}
use dht_crawler.Discovery.Actor.{SampleNode, DiscoveryActor, new}
use dht_crawler.Discovery.Actor.Waiting.{Waiting, node_at, empty-Waiting}
use dht_crawler.Discovery.Actor.Cooling.{cooled_at, Cooling}

module _ (F : Float) where
  pub record Inv (s : DiscoveryActor F) : Type 0 where
    pub waiting : Waiting none s.nodes s.due s.pending
    pub cooling : Cooling s.cooldowns s.cooldown_expiry
    pub apart :
        (a : SocketAddr) (c : NodeTuple × ℕ)
        → cooled_at a s.cooldowns ≡ some c
        → node_at a s.nodes ≡ none
    pub named : (a : SocketAddr) (e : SampleNode) → node_at a s.nodes ≡ some e → e.node.addr ≡ a
    pub few : length s.nodes ≤ max s.options.sample_max_nodes 1
    pub room : length s.cooldowns + length s.pending ≤ max s.options.sample_cooldown_capacity 1

  -- In the middle of an operation, with room for the cooldown of the loose address.
  pub record Loose (a : SocketAddr) (s : DiscoveryActor F) : Type 0 where
    pub waiting : Waiting (some a) s.nodes s.due s.pending
    pub unqueued : (e : SampleNode) → node_at a s.nodes ≡ some e → e.due ≡ none
    pub cooling : Cooling s.cooldowns s.cooldown_expiry
    pub apart :
        (a : SocketAddr) (c : NodeTuple × ℕ)
        → cooled_at a s.cooldowns ≡ some c
        → node_at a s.nodes ≡ none
    pub named : (a : SocketAddr) (e : SampleNode) → node_at a s.nodes ≡ some e → e.node.addr ≡ a
    pub few : length s.nodes ≤ max s.options.sample_max_nodes 1
    pub room :
        suc (length s.cooldowns + length s.pending) ≤ max s.options.sample_cooldown_capacity 1

  pub new-Inv :
      (netmode : NetMode) (local_id : List ℕ) (v4 v6 : Bool) (given : DiscoveryOptions) (now : ℕ)
      → Inv (new F netmode local_id v4 v6 given now)
  unfolding new get
  new-Inv netmode local_id v4 v6 given now = record {
    waiting = empty-Waiting;
    cooling = record {
      uniq = tt;
      uniq_expiry = tt;
      to_expiry = λ a c h. absurd (cc);
      to_cooldown = λ k u h. absurd (cc);
    };
    apart = λ a c h. absurd (cc);
    named = λ a e h. absurd (cc);
    few = omega arith;
    room = omega arith;
  }
