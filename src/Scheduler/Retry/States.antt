-- ===== src/Scheduler/Retry/States.antt =====
-- `RetryState` of src/scheduler.rs: what it remembers is bounded, and an address counts once.
use dht_crawler.Base.{
  ℕ, ◌≤◌, ◌≡◌, refl, Bool, ◌&&◌, leb, false, ltb, List, [], ◌∷◌, ◌++◌, length, length-append,
  Option, none, some, arith, Bool-cases, inl, inr,
}
use dht_crawler.Base.Assoc.{elem, elem-append, Distinct}
use dht_crawler.Net.{SocketAddr, NodeTuple, addr_discrete}
use dht_crawler.Options.{MetadataOptions}
use dht_crawler.Scheduler.{PeerCandidate}
use dht_crawler.Scheduler.Retry.{
  RetryState, observe_address, observe, attempt_limit, grant_attempt, observe_peers, observe_nodes,
}

pub record IsState (state : RetryState) : Type 0 where
  pub peers_bounded : length state.peers ≤ 64
  pub peers_distinct : Distinct addr_discrete state.peers
  pub sources_bounded : length state.sources ≤ 8
  pub sources_distinct : Distinct addr_discrete state.sources
  pub extra_bounded : state.retry.extra_attempts ≤ 2

Distinct-snoc :
    (xs : List SocketAddr) (a : SocketAddr)
    → Distinct addr_discrete xs
    → elem addr_discrete a xs ≡ false
    → Distinct addr_discrete (xs ++ (a ∷ []))
unfolding elem
Distinct-snoc [] a d h = (refl, tt)
Distinct-snoc (x ∷ xs) a d h = (
  ground (arith, elem-append addr_discrete x xs (a ∷ []), d.0),
  Distinct-snoc xs a d.1 (ground arith),
)

observe_address-Distinct :
    (addr : Option SocketAddr) (capacity : ℕ) (seen : List SocketAddr)
    → length seen ≤ capacity
    → Distinct addr_discrete seen
    → (length (observe_address addr capacity seen).0 ≤ capacity)
      × Distinct addr_discrete (observe_address addr capacity seen).0
unfolding observe_address
observe_address-Distinct none capacity seen h d = (h, d)
observe_address-Distinct (some addr) capacity seen h d =
    elim (Bool-cases (elem addr_discrete addr seen)) [
      | inl old ↦ rw old (h, d)
      | inr new ↦ elim (Bool-cases (ltb (length seen) capacity)) [
        | inl room ↦
            rw (new, room)
              (ground (arith, length-append seen (addr ∷ [])), Distinct-snoc seen addr d new)
        | inr full ↦ rw (new, full) (h, d)
      ]
    ]

pub observe-IsState :
    (peer source : Option SocketAddr) (state : RetryState)
    → IsState state
    → IsState (observe peer source state).0
unfolding observe
observe-IsState peer source state v =
    let (peers_bounded, peers_distinct) =
      observe_address-Distinct peer 64 state.peers v.peers_bounded v.peers_distinct in
    let (sources_bounded, sources_distinct) =
      observe_address-Distinct source 8 state.sources v.sources_bounded v.sources_distinct in
    record {
      peers_bounded = peers_bounded;
      peers_distinct = peers_distinct;
      sources_bounded = sources_bounded;
      sources_distinct = sources_distinct;
      extra_bounded = v.extra_bounded;
    }

pub grant_attempt-IsState :
    (now : ℕ) (policy : MetadataOptions) (state : RetryState) (novel : Bool)
    → IsState state
    → IsState (grant_attempt now policy (state, novel))
      × ((grant_attempt now policy (state, novel)).retry.expires_at ≡ state.retry.expires_at)
unfolding grant_attempt
grant_attempt-IsState now policy state novel v =
    elim (Bool-cases (
      leb (attempt_limit policy state.retry) state.retry.failures
      && (novel && (ltb state.retry.extra_attempts 2 && ltb 0 policy.retry_max_attempts)))) [
        | inl grants ↦ rw grants (
          record {
            peers_bounded = v.peers_bounded;
            peers_distinct = v.peers_distinct;
            sources_bounded = v.sources_bounded;
            sources_distinct = v.sources_distinct;
            extra_bounded = ground arith;
          },
          refl,
        )
        | inr keeps ↦ rw keeps (v, refl)
      ]

pub observe_peers-IsState :
    (peers : List PeerCandidate) (state : RetryState)
    → IsState state
    → IsState (observe_peers peers state) × ((observe_peers peers state).retry ≡ state.retry)
unfolding observe_peers observe
observe_peers-IsState [] state v = (v, refl)
observe_peers-IsState (peer ∷ peers) state v =
    observe_peers-IsState peers (observe (some peer.addr) none state).0
      (observe-IsState (some peer.addr) none state v)

pub observe_nodes-IsState :
    (nodes : List NodeTuple) (state : RetryState)
    → IsState state
    → IsState (observe_nodes nodes state) × ((observe_nodes nodes state).retry ≡ state.retry)
unfolding observe_nodes observe
observe_nodes-IsState [] state v = (v, refl)
observe_nodes-IsState (node ∷ nodes) state v =
    observe_nodes-IsState nodes (observe none (some node.addr) state).0
      (observe-IsState none (some node.addr) state v)
