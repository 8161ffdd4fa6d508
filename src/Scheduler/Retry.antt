-- ===== src/Scheduler/Retry.antt =====
-- `RetryState` and `RetryHistory` of src/scheduler.rs: the failures of the hashes that are tried
-- again, for a bounded time. The field `record` of the source is `retry` here.
pub mod States
pub mod Lifetimes
pub mod Keeping
pub mod Tests
use dht_crawler.Base.{
  ℕ, zero, suc, ◌+◌, ◌-◌, ◌*◌, ◌^◌, ◌==◌, min, max, Bool, true, false, not, ◌&&◌, ◌||◌, ltb, leb,
  is_some, if◌then◌else◌, List, [], ◌∷◌, ◌++◌, length, Option, none, some, ℕ_discrete,
}
use dht_crawler.Base.Assoc.{get, insert, remove, elem}
use dht_crawler.Base.Ordered.{first_key_value}
use dht_crawler.Net.{SocketAddr, NodeTuple, addr_discrete}
use dht_crawler.Options.{MetadataOptions}
use dht_crawler.Scheduler.{
  Hash, hash_discrete, second, max_candidates, HashDiscovered, PeerCandidate, QueuedHash,
  RetryRecord,
}

abbrev pub usize_max : ℕ
usize_max = 2 ^ 64 - 1

-- `MAX_RETRY_LIFETIME`
abbrev pub max_retry_lifetime : ℕ
max_retry_lifetime = 604800 * 1000000000

unfoldable pub retry_deadline : ℕ → ℕ → ℕ
retry_deadline now delay = now + min delay max_retry_lifetime

unfoldable pub attempt_limit : MetadataOptions → RetryRecord → ℕ
attempt_limit policy retry = min (policy.retry_max_attempts + retry.extra_attempts) usize_max

pub record RetryState : Type 0 where
  pub retry : RetryRecord
  pub peers : List SocketAddr
  pub sources : List SocketAddr

-- One round of the loop of `observe`: what is seen then, and whether the address is new.
unfoldable pub observe_address : Option SocketAddr → ℕ → List SocketAddr → List SocketAddr × Bool
observe_address none capacity seen = (seen, false)
observe_address (some addr) capacity seen =
    if elem addr_discrete addr seen
    then (seen, false)
    else (if ltb (length seen) capacity then seen ++ (addr ∷ []) else seen, true)

unfoldable pub observe : Option SocketAddr → Option SocketAddr → RetryState → RetryState × Bool
unfolding observe_address
observe peer source state =
    let (peers, new_peer) = observe_address peer max_candidates state.peers in
    let (sources, new_source) = observe_address source 8 state.sources in
    (record state { peers = peers; sources = sources }, new_peer || new_source)

abbrev pub RetryKey : Type 0
RetryKey = ℕ × Hash

unfoldable pub retry_key_discrete : Discrete RetryKey
retry_key_discrete = hlevel (ℕ_discrete, hash_discrete)

-- The order of strings, by their bytes.
unfoldable pub hash_lt : Hash → Hash → Bool
hash_lt xs [] = false
hash_lt [] (y ∷ ys) = true
hash_lt (x ∷ xs) (y ∷ ys) = ltb x y || (x == y && hash_lt xs ys)

abbrev pub retry_key_lt : RetryKey → RetryKey → Bool
retry_key_lt a b = ltb a.0 b.0 || (a.0 == b.0 && hash_lt a.1 b.1)

pub record RetryHistory : Type 0 where
  pub entries : List (Hash × RetryState)
  pub expiry : List (RetryKey × Unit {0})

unfoldable pub new : RetryHistory
new = record { entries = []; expiry = [] }

-- One round of the loop of `expire`.
unfoldable pub drop_first : RetryKey → RetryHistory → RetryHistory
drop_first key history = record {
  entries = remove hash_discrete key.1 history.entries;
  expiry = remove retry_key_discrete key history.expiry;
}

unfoldable pub expire_loop : ℕ → ℕ → RetryHistory → RetryHistory
unfolding drop_first
expire_loop zero now history = history
expire_loop (suc fuel) now history = elim (first_key_value retry_key_lt history.expiry) [
  | none ↦ history
  | some (key, u) ↦
      let later = expire_loop fuel now (drop_first key history) in
      if ltb now key.0 then history else later
]

-- Each round takes one key out of `expiry`, whose size is the fuel.
unfoldable pub expire : ℕ → RetryHistory → RetryHistory
unfolding expire_loop
expire now history = expire_loop (length history.expiry) now history

unfoldable pub remove_state : Option RetryState → Hash → RetryHistory → RetryHistory
remove_state none hash history = history
remove_state (some state) hash history = record {
  entries = remove hash_discrete hash history.entries;
  expiry = remove retry_key_discrete (state.retry.expires_at, hash) history.expiry;
}

-- `remove`
unfoldable pub forget : Hash → RetryHistory → RetryHistory
unfolding remove_state
forget hash history = remove_state (get hash_discrete hash history.entries) hash history

-- The state of a hash that has none yet.
unfoldable pub new_state : ℕ → MetadataOptions → RetryState
unfolding retry_deadline
new_state now policy = record {
  retry = record {
    failures = 0;
    next_due = now;
    expires_at = retry_deadline now (policy.retry_history_ttl_secs * second);
    extra_attempts = 0;
  };
  peers = [];
  sources = [];
}

-- What `record` does to the record of the hash.
unfoldable pub count_failure : ℕ → Bool → ℕ → MetadataOptions → RetryRecord → RetryRecord
unfolding retry_deadline
count_failure now failed delay policy retry =
    let failures = if failed then min (retry.failures + 1) usize_max else retry.failures in
    let multiplier = 2 ^ min (failures - 1) 31 in
    let secs =
      min (min (policy.retry_initial_delay_secs * multiplier) (2 ^ 64 - 1))
        policy.retry_max_delay_secs in
    let backoff = if failed then secs * second else delay in
    record retry { failures = failures; next_due = retry_deadline now (max backoff 100000000) }

unfoldable pub record_state :
    Option RetryState
    → Hash
    → ℕ
    → Bool
    → ℕ
    → MetadataOptions
    → RetryHistory
    → RetryHistory × Option RetryRecord
unfolding new_state count_failure
record_state (some state) hash now failed delay policy history =
    let retry = count_failure now failed delay policy state.retry in
    (
      record history {
        entries = insert hash_discrete hash (record state { retry = retry }) history.entries;
      },
      some retry,
    )
record_state none hash now failed delay policy history =
    let state = new_state now policy in
    let retry = count_failure now failed delay policy state.retry in
    if leb policy.retry_history_capacity (length history.entries) then (history, none) else (
      record {
        entries = insert hash_discrete hash (record state { retry = retry }) history.entries;
        expiry = insert retry_key_discrete (state.retry.expires_at, hash) tt history.expiry;
      },
      some retry,
    )

-- `record`
unfoldable pub record_result :
    Hash → ℕ → Bool → ℕ → MetadataOptions → RetryHistory → RetryHistory × Option RetryRecord
unfolding expire record_state
record_result hash now failed delay policy old =
    let history = expire now old in
    record_state (get hash_discrete hash history.entries) hash now failed delay policy history

abbrev pub addr_of_node : Option NodeTuple → Option SocketAddr
addr_of_node none = none
addr_of_node (some node) = some node.addr

-- An extra attempt, where one is due.
unfoldable pub grant_attempt : ℕ → MetadataOptions → RetryState × Bool → RetryState
unfolding attempt_limit retry_deadline
grant_attempt now policy (state, novel) =
    let retry = state.retry in
    let granted = record retry {
      extra_attempts = retry.extra_attempts + 1;
      next_due = retry_deadline now (max (policy.retry_initial_delay_secs * second) 100000000);
    } in
    if leb (attempt_limit policy retry) retry.failures
      && (novel && (ltb retry.extra_attempts 2 && ltb 0 policy.retry_max_attempts))
    then record state { retry = granted }
    else state

unfoldable pub observe_state :
    Option RetryState
    → HashDiscovered
    → ℕ
    → MetadataOptions
    → RetryHistory
    → RetryHistory × Option RetryRecord
unfolding grant_attempt observe
observe_state none event now policy history = (history, none)
observe_state (some state) event now policy history =
    let observed = observe event.peer_addr (addr_of_node event.source_node) state in
    let state' = grant_attempt now policy observed in
    (
      record history { entries = insert hash_discrete event.info_hash state' history.entries },
      some state'.retry,
    )

unfoldable pub observe_event :
    HashDiscovered → ℕ → MetadataOptions → RetryHistory → RetryHistory × Option RetryRecord
unfolding expire observe_state
observe_event event now policy old =
    let history = expire now old in
    observe_state (get hash_discrete event.info_hash history.entries) event now policy history

unfoldable pub observe_peers : List PeerCandidate → RetryState → RetryState
unfolding observe
observe_peers [] state = state
observe_peers (peer ∷ peers) state = observe_peers peers (observe (some peer.addr) none state).0

unfoldable pub observe_nodes : List NodeTuple → RetryState → RetryState
unfolding observe
observe_nodes [] state = state
observe_nodes (node ∷ nodes) state = observe_nodes nodes (observe none (some node.addr) state).0

unfoldable pub remember_state : Option RetryState → QueuedHash → RetryHistory → RetryHistory
unfolding observe_peers observe_nodes
remember_state none entry history = history
remember_state (some state) entry history =
    let state' = observe_nodes entry.source_nodes (observe_peers entry.peers state) in
    record history { entries = insert hash_discrete entry.info_hash state' history.entries }

unfoldable pub remember : QueuedHash → RetryHistory → RetryHistory
unfolding remember_state
remember entry history =
    remember_state (get hash_discrete entry.info_hash history.entries) entry history
