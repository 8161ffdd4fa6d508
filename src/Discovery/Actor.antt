-- ===== src/Discovery/Actor.antt =====
-- `DiscoveryActor` of src/discovery.rs: the nodes that are sampled, by turns, and their cooldowns. The
-- counters of the runtime are left out. `v4` and `v6` say whether there is a socket; the events that
-- the channel has taken are `told`.
pub mod Waiting
pub mod Moving
pub mod Cooling
pub mod Invariant
pub mod Admitting
pub mod Held
use dht_crawler.Base.{
  ℕ, ◌+◌, ◌*◌, ◌%◌, ◌^◌, ◌==◌, min, max, Bool, true, false, not, ◌&&◌, ◌||◌, ltb, leb,
  if◌then◌else◌, List, [], ◌∷◌, length, Option, none, some, ℕ_discrete,
}
use dht_crawler.Base.Assoc.{get, insert, remove}
use dht_crawler.Base.Ordered.{first_key_value}
use dht_crawler.Net.{NetMode, SocketAddr, NodeTuple, addr_discrete, addr_lt}
use dht_crawler.Addr.{addr_allowed_by_netmode, is_valid_node_addr}
use dht_crawler.Options.{DiscoveryOptions}
use dht_crawler.Budget.{Float, RateBucket, per_second}
use dht_crawler.Scheduler.{second, HashDiscovered}
use dht_crawler.Discovery.Dedup.{HashDedup}
use dht_crawler.Discovery.Dedup

-- `MAX_LOCAL_INTERVAL` and `MAX_REMOTE_INTERVAL`, in seconds
abbrev pub max_local_interval : ℕ
max_local_interval = 604800

abbrev pub max_remote_interval : ℕ
max_remote_interval = 21600

abbrev pub DueKey : Type 0
DueKey = ℕ × ℕ × SocketAddr

unfoldable pub due_key_discrete : Discrete DueKey
due_key_discrete = hlevel (ℕ_discrete, addr_discrete)

abbrev pub due_key_lt : DueKey → DueKey → Bool
due_key_lt (t, s, a) (u, r, b) = ltb t u || (t == u && (ltb s r || (s == r && addr_lt a b)))

abbrev pub CoolKey : Type 0
CoolKey = ℕ × SocketAddr

unfoldable pub cool_key_discrete : Discrete CoolKey
cool_key_discrete = hlevel (ℕ_discrete, addr_discrete)

abbrev pub cool_key_lt : CoolKey → CoolKey → Bool
cool_key_lt (t, a) (u, b) = ltb t u || (t == u && addr_lt a b)

pub record SampleNode : Type 0 where
  pub node : NodeTuple
  pub due : Option DueKey

pub record PendingSample : Type 0 where
  pub tid : List ℕ
  pub deadline : ℕ

-- A set is a map to the unit type.
abbrev pub Nodes : Type 0
Nodes = List (SocketAddr × SampleNode)

abbrev pub Due : Type 0
Due = List (DueKey × Unit {0})

abbrev pub Pending : Type 0
Pending = List (SocketAddr × PendingSample)

abbrev pub Cooldowns : Type 0
Cooldowns = List (SocketAddr × (NodeTuple × ℕ))

abbrev pub CooldownExpiry : Type 0
CooldownExpiry = List (CoolKey × Unit {0})

-- `clamp`
abbrev clamp : ℕ → ℕ → ℕ → ℕ
clamp lo hi n = max lo (min hi n)

unfoldable pub clamped : DiscoveryOptions → DiscoveryOptions
clamped options = record options {
  sample_query_timeout_secs = clamp 1 300 options.sample_query_timeout_secs;
  sample_min_interval_secs = min options.sample_min_interval_secs max_local_interval;
  sample_failure_backoff_secs = clamp 1 max_local_interval options.sample_failure_backoff_secs;
  sample_no_new_backoff_secs = min options.sample_no_new_backoff_secs max_local_interval;
  hash_dedup_ttl_secs = clamp 1 max_local_interval options.hash_dedup_ttl_secs;
}

-- `if let Some(old) = due { self.due.remove(&old) }`
abbrev pub without_key : Option DueKey → Due → Due
without_key none due = due
without_key (some key) due = remove due_key_discrete key due

-- `self.due.first().copied().filter(|key| key.0 <= now)`
abbrev pub due_by : ℕ → Option (DueKey × Unit {0}) → Option DueKey
due_by now none = none
due_by now (some (key, u)) = if leb key.0 now then some key else none

module _ (F : Float) where
  pub record DiscoveryActor : Type 0 where
    pub options : DiscoveryOptions
    pub netmode : NetMode
    pub local_id : List ℕ
    pub v4 : Bool
    pub v6 : Bool
    pub told : List HashDiscovered
    pub nodes : Nodes
    pub due : Due
    pub sequence : ℕ
    pub pending : Pending
    pub cooldowns : Cooldowns
    pub cooldown_expiry : CooldownExpiry
    pub next_tid : ℕ
    pub query_budget : RateBucket F
    pub get_peers_budget : RateBucket F
    pub sample_hash_budget : RateBucket F
    pub dedup : HashDedup
    pub next_seed_refresh : ℕ

  unfoldable pub new : NetMode → List ℕ → Bool → Bool → DiscoveryOptions → ℕ → DiscoveryActor
  unfolding clamped
  new netmode local_id v4 v6 given now =
      let options = clamped given in
      record {
        options = options;
        netmode = netmode;
        local_id = local_id;
        v4 = v4;
        v6 = v6;
        told = [];
        nodes = [];
        due = [];
        sequence = 0;
        pending = [];
        cooldowns = [];
        cooldown_expiry = [];
        next_tid = 1;
        query_budget =
            per_second F options.sample_queries_per_second options.sample_burst false now;
        get_peers_budget =
            per_second F options.get_peers_hashes_per_second options.get_peers_burst true now;
        sample_hash_budget =
            per_second F options.sample_hashes_per_second options.sample_hash_burst true now;
        dedup = Dedup.new options.hash_dedup_capacity (max options.hash_dedup_ttl_secs 1 * second);
        next_seed_refresh = now;
      }

  unfoldable pub schedule_entry :
      Option SampleNode → SocketAddr → ℕ → DiscoveryActor → DiscoveryActor
  schedule_entry none addr at s = s
  schedule_entry (some entry) addr at s =
      let sequence = (s.sequence + 1) % 2 ^ 64 in
      let key : DueKey = (at, sequence, addr) in
      record s {
        sequence = sequence;
        nodes = insert addr_discrete addr (record entry { due = some key }) s.nodes;
        due = insert due_key_discrete key tt (without_key entry.due s.due);
      }

  unfoldable pub schedule : SocketAddr → ℕ → DiscoveryActor → DiscoveryActor
  unfolding schedule_entry
  schedule addr at s = schedule_entry (get addr_discrete addr s.nodes) addr at s

  unfoldable pub failure_delay : DiscoveryActor → ℕ
  failure_delay s = max s.options.sample_failure_backoff_secs 1 * second

  unfoldable pub cool_entry : Option SampleNode → SocketAddr → ℕ → DiscoveryActor → DiscoveryActor
  cool_entry none addr until s = s
  cool_entry (some entry) addr until s = record s {
    nodes = remove addr_discrete addr s.nodes;
    due = without_key entry.due s.due;
    cooldowns = insert addr_discrete addr (entry.node, until) s.cooldowns;
    cooldown_expiry = insert cool_key_discrete (until, addr) tt s.cooldown_expiry;
  }

  unfoldable pub enter_cooldown : SocketAddr → ℕ → DiscoveryActor → DiscoveryActor
  unfolding cool_entry
  enter_cooldown addr until s = cool_entry (get addr_discrete addr s.nodes) addr until s

  unfoldable pub first_due : ℕ → DiscoveryActor → Option DueKey
  first_due now s = due_by now (first_key_value due_key_lt s.due)

  unfoldable pub add_node : NodeTuple → ℕ → DiscoveryActor → DiscoveryActor
  unfolding schedule
  add_node node now s = schedule node.addr now (record s {
    nodes = insert addr_discrete node.addr (record { node = node; due = none }) s.nodes;
  })

  -- A candidate that is due makes place.
  unfoldable pub replace_node : Option DueKey → NodeTuple → ℕ → DiscoveryActor → DiscoveryActor
  unfolding add_node
  replace_node none node now s = s
  replace_node (some key) node now s = add_node node now (record s {
    due = remove due_key_discrete key s.due;
    nodes = remove addr_discrete key.2 s.nodes;
  })

  unfoldable pub admit_entry : Option SampleNode → NodeTuple → ℕ → DiscoveryActor → DiscoveryActor
  unfolding add_node replace_node first_due
  admit_entry (some entry) node now s = record s {
    nodes = insert addr_discrete node.addr (record entry { node = node }) s.nodes;
  }
  admit_entry none node now s =
      if leb (max s.options.sample_max_nodes 1) (length s.nodes)
      then replace_node (first_due now s) node now s
      else add_node node now s

  unfoldable pub admit_cooled :
      Option (NodeTuple × ℕ) → NodeTuple → ℕ → DiscoveryActor → DiscoveryActor
  unfolding admit_entry
  admit_cooled none node now s = admit_entry (get addr_discrete node.addr s.nodes) node now s
  admit_cooled (some (old, until)) node now s =
      let s' = record s {
        cooldowns = remove addr_discrete node.addr s.cooldowns;
        cooldown_expiry = remove cool_key_discrete (until, node.addr) s.cooldown_expiry;
      } in
      if ltb now until then s else admit_entry (get addr_discrete node.addr s'.nodes) node now s'

  unfoldable pub admit_node : NodeTuple → ℕ → DiscoveryActor → DiscoveryActor
  unfolding admit_cooled
  admit_node node now s =
      if not (is_valid_node_addr node.addr) || not (addr_allowed_by_netmode node.addr s.netmode)
      then s
      else admit_cooled (get addr_discrete node.addr s.cooldowns) node now s
