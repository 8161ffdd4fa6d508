-- ===== src/Scheduler/Retry/Tests.antt =====
-- The retry history of src/scheduler.rs at concrete hashes.
use dht_crawler.Base.{ℕ, ◌≤◌, ◌≡◌, refl, max, true, [], ◌∷◌, length, Option, none, some, ℕ_discrete}
use dht_crawler.Base.Assoc.{get, remove}
use dht_crawler.Base.Ordered.{first_key_value}
use dht_crawler.Net.{v4}
use dht_crawler.Options.{MetadataOptions, default_metadata_options}
use dht_crawler.Scheduler.{hash_discrete, HashDiscovered, RetryRecord, get_peers}
use dht_crawler.Scheduler.Retry.{
  RetryHistory, retry_key_discrete, new, record_result, observe_event, expire,
}
use dht_crawler.Scheduler.Retry.Lifetimes.{Inv, Forgets, state_at, alive, new-Inv, expire-Forgets}
use dht_crawler.Scheduler.Retry.Keeping.{Keeps, record_result-Keeps, observe_event-Keeps}

abbrev policy : MetadataOptions
policy = record default_metadata_options {
  retry_history_ttl_secs = 100;
  retry_history_capacity = 1;
}

abbrev one : RetryHistory
one = (record_result (1 ∷ []) 7 true 0 policy new).0

program : Unit {0}
unfolding new record_result observe_event expire get remove first_key_value hash_discrete
    retry_key_discrete ℕ_discrete
program = tt

-- The first failure waits for the initial delay of sixty seconds.
due : Option RetryRecord → ℕ
due none = 0
due (some retry) = retry.next_due

first_delay : due (record_result (1 ∷ []) 7 true 0 policy new).1 ≡ 60000000007
unfolding program due
first_delay = refl

second_delay : due (record_result (1 ∷ []) 7 true 0 policy one).1 ≡ 120000000007
unfolding program due
second_delay = refl

-- There is room for one hash only.
no_room : (record_result (2 ∷ []) 8 true 0 policy one).1 ≡ none
unfolding program
no_room = refl

one-Inv : Inv one
one-Inv = (record_result-Keeps (1 ∷ []) 7 true 0 policy new new-Inv).0.inv

abbrev event : HashDiscovered
event = record {
  info_hash = 1 ∷ [];
  peer_addr = some (record { ip = v4 8 8 8 8; port = 6881 });
  source_node = none;
  source = get_peers;
  discovered_at = 9;
}

record_result-Keeps_example :
    Keeps (λ h. alive 9 (state_at h one)) (record_result (1 ∷ []) 9 true 0 policy one).0
    × (length (record_result (1 ∷ []) 9 true 0 policy one).0.entries
        ≤ max (length (expire 9 one).entries) 1)
record_result-Keeps_example = record_result-Keeps (1 ∷ []) 9 true 0 policy one one-Inv

observe_event-Keeps_example :
    Keeps (λ h. alive 9 (state_at h one)) (observe_event event 9 policy one).0
observe_event-Keeps_example = observe_event-Keeps event 9 policy one one-Inv

expire-Forgets_example : Forgets 100000000007 one (expire 100000000007 one)
expire-Forgets_example = expire-Forgets 100000000007 one one-Inv

-- The lifetime is over after a hundred seconds.
over : expire 100000000007 one ≡ new
unfolding program
over = refl
