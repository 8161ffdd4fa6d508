-- ===== src/Discovery/Responses.antt =====
-- `DiscoveryActor::handle_response` and `emit_hash` of src/discovery.rs. The filter of the embedding
-- program, the channel for hashes and the text of a hash (`hex::encode`) are parameters: `passes`
-- says whether the filter lets a text through, `accepts` whether the channel takes an event.
pub mod Keeping
pub mod Telling
use dht_crawler.Base.{
  ℕ, zero, suc, ◌+◌, ◌*◌, ◌/◌, ◌%◌, ◌==◌, min, max, Bool, true, false, not, ◌&&◌, ◌||◌, ltb, leb,
  is_some, if◌then◌else◌, List, [], ◌∷◌, ◌++◌, length, take, Option, none, some,
}
use dht_crawler.Base.Assoc.{get, insert, remove, same}
use dht_crawler.Net.{SocketAddr, NodeTuple, addr_discrete}
use dht_crawler.Krpc.{DhtResponse, chunks_exact, for_each_response_node}
use dht_crawler.Budget.{Float, RateBucket, try_take_one}
use dht_crawler.Scheduler.{
  Hash, hash_discrete, second, HashSource, announce, get_peers, sample, HashDiscovered,
}
use dht_crawler.Discovery.Dedup.{is_get_peers, contains}
use dht_crawler.Discovery.Dedup
use dht_crawler.Discovery.Actor.{
  SampleNode, PendingSample, max_remote_interval, DiscoveryActor, failure_delay, enter_cooldown,
  admit_node,
}
use dht_crawler.Discovery.Ticks.{admit_all}

-- `MAX_SAMPLES_PER_RESPONSE`
abbrev pub max_samples_per_response : ℕ
max_samples_per_response = 256

pub record SampleResponse : Type 0 where
  pub addr : SocketAddr
  pub tid : List ℕ
  pub response : Option DhtResponse

-- What surrounds the actor.
pub record Surroundings : Type 0 where
  pub hex : List ℕ → Hash
  pub passes : Hash → Bool
  pub accepts : HashDiscovered → Bool

module _ (F : Float) (env : Surroundings) where
  abbrev Actor : Type 0
  Actor = DiscoveryActor F

  -- The bucket that pays for an event of the source.
  abbrev pub budget_of : HashSource → Actor → RateBucket F
  budget_of source s = if is_get_peers source then s.get_peers_budget else s.sample_hash_budget

  abbrev pub with_budget : HashSource → RateBucket F → Actor → Actor
  with_budget source budget s =
      if is_get_peers source
      then record s { get_peers_budget = budget }
      else record s { sample_hash_budget = budget }

  abbrev pub event_of : List ℕ → NodeTuple → HashSource → ℕ → HashDiscovered
  event_of hash node source now = record {
    info_hash = env.hex hash;
    peer_addr = none;
    source_node = some node;
    source = source;
    discovered_at = now;
  }

  -- A hash that is new and paid for.
  unfoldable pub tell : List ℕ → NodeTuple → HashSource → ℕ → Actor → Actor × Bool
  tell hash node source now s =
      let event = event_of hash node source now in
      if not (env.passes (env.hex hash))
      then (s, false)
      else if not (env.accepts event)
      then (s, false)
      else (
        record s {
          told = s.told ++ (event ∷ []);
          dedup = Dedup.insert hash node.addr source now s.dedup;
        },
        true,
      )

  unfoldable pub emit_hash : List ℕ → NodeTuple → HashSource → ℕ → Actor → Actor × Bool
  unfolding tell
  emit_hash hash node source now s =
      let (dedup, known) = contains hash node.addr source now s.dedup in
      let s1 = record s { dedup = dedup } in
      let (budget, granted) = try_take_one F now (budget_of source s) in
      let s2 = with_budget source budget s1 in
      if known
      then (s1, false)
      else if not granted
      then (s2, false)
      else tell hash node source now s2

  -- The loop over the samples, with the number of hashes that are new.
  unfoldable pub emit_all : List (List ℕ) → NodeTuple → ℕ → Actor × ℕ → Actor × ℕ
  unfolding emit_hash
  emit_all [] node now acc = acc
  emit_all (hash ∷ samples) node now (s, novel) =
      let (dedup, known) = contains hash node.addr sample now s.dedup in
      let (s', told) = emit_hash hash node sample now (record s { dedup = dedup }) in
      emit_all samples node now (s', if known then novel else novel + 1)

  abbrev pub id_of : Option (List ℕ) → Option (List ℕ)
  id_of none = none
  id_of (some id) = if length id == 20 then some id else none

  unfoldable pub rename_entry : Option SampleNode → NodeTuple → Actor → Actor
  rename_entry none node s = s
  rename_entry (some entry) node s = record s {
    nodes = insert addr_discrete node.addr (record entry { node = node }) s.nodes;
  }

  abbrev pub collect : List NodeTuple → NodeTuple → List NodeTuple
  collect nodes node = if ltb (length nodes) 64 then nodes ++ (node ∷ []) else nodes

  unfoldable pub neighbors_of : DhtResponse → Actor → List NodeTuple
  neighbors_of response s = (for_each_response_node response s.netmode collect []).0

  abbrev pub wait_of : List ℕ → ℕ → ℕ → Actor → ℕ
  wait_of samples interval novel s =
      let base = max (max interval s.options.sample_min_interval_secs) 1 in
      if novel == 0 && leb (length samples / 20) max_samples_per_response
      then max base s.options.sample_no_new_backoff_secs
      else base

  -- An answer of the right form.
  unfoldable pub take_samples : List ℕ → List ℕ → ℕ → DhtResponse → SocketAddr → ℕ → Actor → Actor
  unfolding rename_entry emit_all neighbors_of
  take_samples id samples interval response addr now s =
      let node : NodeTuple = record { id = id; addr = addr } in
      let s1 = rename_entry (get addr_discrete addr s.nodes) node s in
      let (s2, novel) =
        emit_all (take max_samples_per_response (chunks_exact 20 samples)) node now (s1, 0) in
      let wait = wait_of samples interval novel s2 in
      let s3 = enter_cooldown F addr (now + wait * second) s2 in
      admit_all F (neighbors_of response s3) now s3

  -- An answer with all that it must have; `interval` and `num` come from the other node.
  unfoldable pub check_samples :
      Option (List ℕ) → List ℕ → ℕ → ℕ → DhtResponse → SocketAddr → ℕ → Actor → Actor
  unfolding take_samples
  check_samples none samples interval num response addr now s =
      enter_cooldown F addr
        (now + max (failure_delay F s) (min interval max_remote_interval * second)) s
  check_samples (some id) samples interval num response addr now s =
      if ltb max_remote_interval interval
        || (not (length samples % 20 == 0) || ltb num (length samples / 20))
      then enter_cooldown F addr
          (now + max (failure_delay F s) (min interval max_remote_interval * second)) s
      else take_samples id samples interval response addr now s

  unfoldable pub take_fields :
      Option (List ℕ) → Option ℕ → Option ℕ → DhtResponse → SocketAddr → ℕ → Actor → Actor
  unfolding check_samples
  take_fields (some samples) (some interval) (some num) response addr now s =
      check_samples (id_of response.id) samples interval num response addr now s
  take_fields (some samples) (some interval) none response addr now s =
      enter_cooldown F addr (now + failure_delay F s) s
  take_fields (some samples) none num response addr now s =
      enter_cooldown F addr (now + failure_delay F s) s
  take_fields none interval num response addr now s =
      enter_cooldown F addr (now + failure_delay F s) s

  unfoldable pub take_response : Option DhtResponse → SocketAddr → ℕ → Actor → Actor
  unfolding take_fields
  take_response none addr now s = enter_cooldown F addr (now + failure_delay F s) s
  take_response (some response) addr now s =
      take_fields response.samples response.interval response.num response addr now s

  abbrev pub matches : List ℕ → ℕ → Option PendingSample → Bool
  matches tid now none = false
  matches tid now (some p) = same hash_discrete p.tid tid && ltb now p.deadline

  unfoldable pub handle_response : SampleResponse → ℕ → Actor → Actor
  unfolding take_response
  handle_response event now s =
      if matches event.tid now (get addr_discrete event.addr s.pending)
      then take_response event.response event.addr now
          (record s { pending = remove addr_discrete event.addr s.pending })
      else s
