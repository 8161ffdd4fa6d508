-- ===== src/Discovery/Ticks.antt =====
-- `DiscoveryActor::on_tick` of src/discovery.rs: cooldowns and requests that are over, new seeds, and the
-- requests that go out. What the environment does is a parameter: `seeds` are the nodes that the
-- snapshot draws, and `send` says when a request for a node was sent, if it was.
pub mod Keeping
pub mod Resting
use dht_crawler.Base.{
  ℕ, zero, suc, ◌+◌, ◌*◌, ◌/◌, ◌%◌, ◌^◌, min, max, Bool, true, false, not, leb, if◌then◌else◌, List,
  [], ◌∷◌, length, Option, none, some,
}
use dht_crawler.Base.Assoc.{get, insert, remove}
use dht_crawler.Base.Ordered.{first_key_value}
use dht_crawler.Net.{
  NetMode, ipv4_only, ipv6_only, dual_stack, SocketAddr, NodeTuple, addr_discrete, is_ipv4,
}
use dht_crawler.Budget.{Float, RateBucket, try_take_one}
use dht_crawler.Scheduler.{second}
use dht_crawler.Discovery.Actor.{
  DueKey, due_key_discrete, CoolKey, cool_key_discrete, cool_key_lt, SampleNode, PendingSample,
  Pending, DiscoveryActor, failure_delay, enter_cooldown, first_due, admit_node,
}

-- `SAMPLE_TID_TAG` and `SEED_REFRESH`
abbrev pub sample_tid_tag : ℕ
sample_tid_tag = 0xb5

abbrev pub seed_refresh : ℕ
seed_refresh = 5 * second

-- The eight bytes of a number of 64 bits, the first replaced by the tag.
unfoldable pub sample_tid : ℕ → List ℕ
sample_tid n =
    sample_tid_tag
    ∷ (n / 2 ^ 48 % 256)
    ∷ (n / 2 ^ 40 % 256)
    ∷ (n / 2 ^ 32 % 256)
    ∷ (n / 2 ^ 24 % 256)
    ∷ (n / 2 ^ 16 % 256)
    ∷ (n / 2 ^ 8 % 256)
    ∷ (n % 256)
    ∷ []

abbrev pub family_of : NetMode → Option Bool
family_of ipv4_only = some false
family_of ipv6_only = some true
family_of dual_stack = none

abbrev pub cool_by : ℕ → Option (CoolKey × Unit {0}) → Option CoolKey
cool_by now none = none
cool_by now (some (key, u)) = if leb key.0 now then some key else none

-- The addresses whose request is over.
unfoldable pub expired : ℕ → Pending → List SocketAddr
expired now [] = []
expired now ((addr, p) ∷ pending) =
    if leb p.deadline now then addr ∷ expired now pending else expired now pending

abbrev pub sent : Bool → Option ℕ → Option ℕ
sent true result = result
sent false result = none

module _ (F : Float) where
  abbrev Actor : Type 0
  Actor = DiscoveryActor F

  unfoldable pub released : Option (NodeTuple × ℕ) → ℕ → Actor → Actor
  released none now s = s
  released (some (node, until)) now s = admit_node F node now s

  -- A cooldown that is over is taken out, and its node admitted again.
  unfoldable pub release_first : CoolKey → ℕ → Actor → Actor
  unfolding released
  release_first key now s = released (get addr_discrete key.1 s.cooldowns) now (record s {
    cooldown_expiry = remove cool_key_discrete key s.cooldown_expiry;
    cooldowns = remove addr_discrete key.1 s.cooldowns;
  })

  -- The first loop of `on_tick`, of at most `rounds` rounds.
  unfoldable pub release_cooldowns : ℕ → ℕ → Actor → Actor
  unfolding release_first
  release_cooldowns zero now s = s
  release_cooldowns (suc rounds) now s =
      elim (cool_by now (first_key_value cool_key_lt s.cooldown_expiry)) [
        | none ↦ s
        | some key ↦ release_cooldowns rounds now (release_first key now s)
      ]

  unfoldable pub expire_requests : List SocketAddr → ℕ → Actor → Actor
  expire_requests [] now s = s
  expire_requests (addr ∷ addrs) now s = expire_requests addrs now (
      enter_cooldown F addr (now + failure_delay F s)
        (record s { pending = remove addr_discrete addr s.pending }))

  unfoldable pub admit_all : List NodeTuple → ℕ → Actor → Actor
  admit_all [] now s = s
  admit_all (node ∷ nodes) now s = admit_all nodes now (admit_node F node now s)

  unfoldable pub refresh_seeds : (Option Bool → List NodeTuple) → ℕ → Actor → Actor
  unfolding admit_all
  refresh_seeds seeds now s =
      if leb s.next_seed_refresh now
      then admit_all (seeds (family_of s.netmode)) now
          (record s { next_seed_refresh = now + seed_refresh })
      else s

  unfoldable pub socket_for : NodeTuple → Actor → Bool
  socket_for node s = if is_ipv4 node.addr then s.v4 else s.v6

  -- The end of a round: the request was sent, at a time, or not.
  unfoldable pub conclude : Option ℕ → NodeTuple → List ℕ → ℕ → Actor → Actor
  conclude (some sent_at) node tid now s = record s {
    pending =
        insert addr_discrete node.addr
          (record {
            tid = tid;
            deadline = sent_at + max s.options.sample_query_timeout_secs 1 * second;
          })
          s.pending;
  }
  conclude none node tid now s = enter_cooldown F node.addr (now + failure_delay F s) s

  unfoldable pub ask_entry :
      Option SampleNode → (NodeTuple → List ℕ → Option ℕ) → DueKey → ℕ → Actor → Actor
  unfolding conclude socket_for sample_tid
  ask_entry none send key now s = record s { due = remove due_key_discrete key s.due }
  ask_entry (some entry) send key now s =
      let tid = sample_tid s.next_tid in
      let s' = record s {
        due = remove due_key_discrete key s.due;
        nodes = insert addr_discrete key.2 (record entry { due = none }) s.nodes;
        next_tid = max ((s.next_tid + 1) % 2 ^ 64) 1;
      } in
      conclude (sent (socket_for entry.node s) (send entry.node tid)) entry.node tid now s'

  abbrev pub with_budget : RateBucket F → Actor → Actor
  with_budget budget s = record s { query_budget = budget }

  -- One round of the loop that sends, and whether the loop goes on.
  unfoldable pub ask_round :
      Option DueKey → (NodeTuple → List ℕ → Option ℕ) → ℕ → Actor → Actor × Bool
  unfolding ask_entry
  ask_round none send now s = (s, false)
  ask_round (some key) send now s =
      let (budget, granted) = try_take_one F now s.query_budget in
      let s' = with_budget budget s in
      if leb s.options.sample_max_in_flight (length s.pending)
      then (s, false)
      else if leb (max s.options.sample_cooldown_capacity 1) (length s.cooldowns + length s.pending)
      then (s, false)
      else if not granted
      then (s', false)
      else (ask_entry (get addr_discrete key.2 s.nodes) send key now s', true)

  -- The last loop of `on_tick`, of at most `rounds` rounds.
  unfoldable pub ask : ℕ → (NodeTuple → List ℕ → Option ℕ) → ℕ → Actor → Actor
  unfolding ask_round
  ask zero send now s = s
  ask (suc rounds) send now s =
      let round = ask_round (first_due F now s) send now s in
      let rest = ask rounds send now round.0 in if round.1 then rest else round.0

  unfoldable pub on_tick :
      (Option Bool → List NodeTuple) → (NodeTuple → List ℕ → Option ℕ) → ℕ → Actor → Actor
  unfolding release_cooldowns expire_requests refresh_seeds ask expired
  on_tick seeds send now s =
      let s1 = release_cooldowns 256 now s in
      let s2 = expire_requests (expired now s1.pending) now s1 in
      let s3 = refresh_seeds seeds now s2 in ask (min s3.options.sample_burst 64) send now s3
