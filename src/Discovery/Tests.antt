-- ===== src/Discovery/Tests.antt =====
-- The actor of src/discovery.rs at a concrete node.
use dht_crawler.Base.{◌*◌, ◌≡◌, refl, true, [], ◌∷◌, length, none, some, arith, ℕ_discrete}
use dht_crawler.Base.Assoc.{get, remove, elem}
use dht_crawler.Base.Ordered.{first_key_value}
use dht_crawler.Net.{
  SocketAddr, NodeTuple, v4, dual_stack, addr_discrete, ip_discrete, addr_lt, is_ipv4,
}
use dht_crawler.Addr.{addr_allowed_by_netmode, is_valid_node_addr}
use dht_crawler.Options.{default_discovery_options}
use dht_crawler.Krpc.{DhtResponse, chunks_exact, for_each_response_node}
use dht_crawler.Budget.{
  new as new_bucket, per_second, refill, disabled, try_take_exact, try_take_one,
}
use dht_crawler.Budget.Exact.{exact}
use dht_crawler.Scheduler.{hash_discrete, sample}
use dht_crawler.Discovery.Dedup
use dht_crawler.Discovery.Dedup.Expiring
use dht_crawler.Discovery.Dedup.Expiring.{new-Inv as new_dedup-Inv}
use dht_crawler.Discovery.Actor.{
  DiscoveryActor, due_key_discrete, cool_key_discrete, clamped, new, schedule, schedule_entry,
  cool_entry, enter_cooldown, failure_delay, first_due, add_node, replace_node, admit_entry,
  admit_cooled, admit_node,
}
use dht_crawler.Discovery.Actor.Waiting.{pending_at}
use dht_crawler.Discovery.Actor.Invariant.{Inv, new-Inv}
use dht_crawler.Discovery.Actor.Cooling.{cooled_at}
use dht_crawler.Discovery.Ticks.{
  sample_tid, released, release_first, release_cooldowns, expired, expire_requests, admit_all,
  refresh_seeds, socket_for, conclude, ask_entry, ask_round, ask, on_tick,
}
use dht_crawler.Discovery.Ticks.Keeping.{on_tick-Inv}
use dht_crawler.Discovery.Ticks.Resting.{on_tick-rests}
use dht_crawler.Discovery.Responses.{
  Surroundings, SampleResponse, tell, emit_hash, emit_all, rename_entry, neighbors_of, take_samples,
  check_samples, take_fields, take_response, handle_response,
}
use dht_crawler.Discovery.Responses.Keeping.{handle_response-Inv}
use dht_crawler.Discovery.Responses.Telling.{Tells, emit_hash-Tells}

program : Unit {0}
unfolding schedule schedule_entry cool_entry enter_cooldown failure_delay first_due add_node
    replace_node admit_entry admit_cooled admit_node clamped new sample_tid released release_first
    release_cooldowns expired expire_requests admit_all refresh_seeds socket_for conclude ask_entry
    ask_round ask on_tick tell emit_hash emit_all rename_entry neighbors_of take_samples
    check_samples take_fields take_response handle_response new_bucket per_second refill disabled
    try_take_exact try_take_one get remove elem first_key_value due_key_discrete cool_key_discrete
    hash_discrete addr_discrete ip_discrete ℕ_discrete addr_lt is_ipv4 addr_allowed_by_netmode
    is_valid_node_addr Dedup.new Dedup.expire Dedup.contains Dedup.overwrite Dedup.add_source
    Dedup.make_room Dedup.insert_found Dedup.insert chunks_exact for_each_response_node
program = tt

abbrev peer : SocketAddr
peer = record { ip = v4 8 8 8 8; port = 6881 }

abbrev node : NodeTuple
node = record { id = []; addr = peer }

abbrev start : DiscoveryActor exact
start = new exact dual_stack [] true true default_discovery_options 0

-- The snapshot draws the node, and every request is sent at once.
abbrev first_tick : DiscoveryActor exact
first_tick = on_tick exact (λ family. node ∷ []) (λ n tid. some 1000000000) 1000000000 start

in_flight : length first_tick.pending ≡ 1
unfolding program
in_flight = refl

-- Two seconds after the request its time is not over; three seconds after it is, and the node cools down.
abbrev late_tick : DiscoveryActor exact
late_tick = on_tick exact (λ family. node ∷ []) (λ n tid. none) 4000000000 first_tick

timed_out : late_tick.cooldowns ≡ (peer, (node, 904000000000)) ∷ []
unfolding program
timed_out = refl

start-Inv : Inv exact start
start-Inv = new-Inv exact dual_stack [] true true default_discovery_options 0

first-Inv : Inv exact first_tick
first-Inv =
    on_tick-Inv exact (λ family. node ∷ []) (λ n tid. some 1000000000) 1000000000 start start-Inv

late-Inv : Inv exact late_tick
late-Inv = on_tick-Inv exact (λ family. node ∷ []) (λ n tid. none) 4000000000 first_tick first-Inv

on_tick-Inv_example :
    Inv exact (on_tick exact (λ family. node ∷ []) (λ n tid. none) 5000000000 late_tick)
on_tick-Inv_example =
    on_tick-Inv exact (λ family. node ∷ []) (λ n tid. none) 5000000000 late_tick late-Inv

cooling : cooled_at peer late_tick.cooldowns ≡ some (node, 904000000000)
unfolding program
cooling = refl

on_tick-rests_example :
    let s' = on_tick exact (λ family. node ∷ []) (λ n tid. some 1) 903000000000 late_tick in
    (cooled_at peer s'.cooldowns ≡ some (node, 904000000000)) × (pending_at peer s'.pending ≡ none)
on_tick-rests_example =
    on_tick-rests exact peer node 904000000000 903000000000 (λ family. node ∷ []) (λ n tid. some 1)
      late_tick (omega arith) late-Inv cooling

abbrev env : Surroundings
env = record { hex = λ hash. hash; passes = λ hash. true; accepts = λ event. true }

abbrev answer : DhtResponse
answer = record {
  id = some (
      1 ∷ 2 ∷ 3 ∷ 4 ∷ 5 ∷ 6 ∷ 7 ∷ 8 ∷ 9 ∷ 10 ∷ 11 ∷ 12 ∷ 13 ∷ 14 ∷ 15 ∷ 16 ∷ 17 ∷ 18 ∷ 19 ∷ 20
      ∷ []);
  nodes = none;
  nodes6 = none;
  values = none;
  samples = some (
      20 ∷ 19 ∷ 18 ∷ 17 ∷ 16 ∷ 15 ∷ 14 ∷ 13 ∷ 12 ∷ 11 ∷ 10 ∷ 9 ∷ 8 ∷ 7 ∷ 6 ∷ 5 ∷ 4 ∷ 3 ∷ 2 ∷ 1
      ∷ []);
  interval = some 60;
  num = some 1;
}

abbrev event : SampleResponse
event = record { addr = peer; tid = sample_tid 1; response = some answer }

-- The sample is told of, and the node rests for the local minimum of five minutes.
told_once : length (handle_response exact env event 2000000000 first_tick).told ≡ 1
unfolding program
told_once = refl

rests : length (handle_response exact env event 2000000000 first_tick).cooldowns ≡ 1
unfolding program
rests = refl

handle_response-Inv_example : Inv exact (handle_response exact env event 2000000000 first_tick)
handle_response-Inv_example = handle_response-Inv exact env event 2000000000 first_tick first-Inv

start_dedup-Inv : Expiring.Inv 0 start.dedup
unfolding new clamped Dedup.new
start_dedup-Inv = new_dedup-Inv 0 100000 (900 * 1000000000)

emit_hash-Tells_example :
    Tells exact env (1 ∷ []) node sample 7 start (emit_hash exact env (1 ∷ []) node sample 7 start)
emit_hash-Tells_example =
    emit_hash-Tells exact env (1 ∷ []) node sample 7 0 start start_dedup-Inv (omega arith)
