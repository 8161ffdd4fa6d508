-- ===== src/Scheduler/Queue/Tests.antt =====
-- The queue of src/scheduler.rs at concrete hashes.
use dht_crawler.Base.{ℕ, ◌≡◌, refl, [], ◌∷◌, Option, none, some, arith, ℕ_discrete}
use dht_crawler.Base.Assoc.{get, remove}
use dht_crawler.Base.Ordered.{first_key_value, last_key_value}
use dht_crawler.Net.{v4}
use dht_crawler.Scheduler.{
  Hash, HashDiscovered, QueuedHash, get_peers, hash_discrete, key_discrete, merge_candidate,
}
use dht_crawler.Scheduler.Queue.{
  PendingHashQueue, updated, evicted_oldest, stale, new, push, defer, expire, promote_ready,
  pop_newest_ready, insert_entry,
}
use dht_crawler.Scheduler.Queue.Invariant.{Inv, new-Inv}
use dht_crawler.Scheduler.Queue.Pushing.{push-Inv}
use dht_crawler.Scheduler.Queue.Expiring.{Drops, expire-Drops}
use dht_crawler.Scheduler.Queue.Promoting.{Promotes, promote_ready-Promotes}
use dht_crawler.Scheduler.Queue.Popping.{Takes, current, pop_newest_ready-Takes}
use dht_crawler.Scheduler.Queue.Answers.{Answers, push-Answers}

abbrev event : ℕ → ℕ → HashDiscovered
event n at = record {
  info_hash = n ∷ [];
  peer_addr = some (record { ip = v4 8 8 8 n; port = 6881 });
  source_node = none;
  source = get_peers;
  discovered_at = at;
}

-- Room for two hashes, which stay for a hundred milliseconds.
abbrev empty : PendingHashQueue
empty = new 2 100000000

abbrev one : PendingHashQueue
one = (push (event 1 10) 10 empty).0

abbrev two : PendingHashQueue
two = (push (event 2 20) 20 one).0

program : Unit {0}
unfolding new push defer expire promote_ready pop_newest_ready insert_entry merge_candidate get
    remove first_key_value last_key_value hash_discrete key_discrete ℕ_discrete
program = tt

next_one : one.sequence ≡ 1
unfolding program
next_one = refl

next_two : two.sequence ≡ 2
unfolding program
next_two = refl

one-Inv : Inv one
unfolding new
one-Inv = push-Inv (event 1 10) 10 empty (new-Inv 2 100000000) (omega arith)

two-Inv : Inv two
two-Inv = push-Inv (event 2 20) 20 one one-Inv (omega (arith, next_one))

-- A third hash takes the place of the oldest, unless it is older itself.
third : (push (event 3 30) 30 two).1 ≡ evicted_oldest
unfolding program
third = refl

too_old : (push (event 3 5) 30 two).1 ≡ stale
unfolding program
too_old = refl

again : (push (event 1 30) 30 two).1 ≡ updated
unfolding program
again = refl

push-Inv_example : Inv (push (event 3 30) 30 two).0
push-Inv_example = push-Inv (event 3 30) 30 two two-Inv (omega (arith, next_two))

push-Answers_example : Answers (3 ∷ []) two (push (event 3 30) 30 two)
push-Answers_example = push-Answers (event 3 30) 30 two two-Inv

expire-Drops_example : Drops 100000015 (two, 0) (expire 100000015 two)
expire-Drops_example = expire-Drops 100000015 two two-Inv

-- The first hash has expired then, and the second has not.
expired : (expire 100000015 two).1 ≡ 1
unfolding program
expired = refl

promote_ready-Promotes_example : Promotes 25000010 two (promote_ready 25000010 two)
promote_ready-Promotes_example = promote_ready-Promotes 25000010 two two-Inv

pop_newest_ready-Takes_example : Takes (current 30000000 two) (pop_newest_ready 30000000 two)
pop_newest_ready-Takes_example = pop_newest_ready-Takes 30000000 two two-Inv

abbrev info_hash_of : Option QueuedHash → Hash
info_hash_of none = []
info_hash_of (some e) = e.info_hash

-- The newest of the two is taken.
newest : info_hash_of (pop_newest_ready 30000000 two).1 ≡ 2 ∷ []
unfolding program
newest = refl
