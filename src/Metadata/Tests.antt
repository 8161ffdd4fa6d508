-- ===== src/Metadata/Tests.antt =====
-- The failure cache of src/metadata.rs at concrete peers.
use dht_crawler.Base.{◌≤◌, ◌≡◌, ◌≢◌, refl, false, [], ◌∷◌, none, some, ℕ_discrete, arith}
use dht_crawler.Base.Assoc.{get, remove}
use dht_crawler.Net.{SocketAddr, v4, addr_discrete, ip_discrete}
use dht_crawler.Metadata.{
  timeout, connect_failed, metadata_failed, PeerFailureKey, endpoint, metadata, key_discrete,
  PeerFailureCache, new, drop_popped, expire, disabled, make_room, get_reason, store, forget,
}
use dht_crawler.Metadata.Expiring.{Inv, new-Inv, alive, entry_at, live_reason, get_reason-live}
use dht_crawler.Metadata.Storing.{Stores, store-Stores, forget-Forgets}

abbrev peer : SocketAddr
peer = record { ip = v4 8 8 8 8; port = 6881 }

abbrev one : PeerFailureCache
one = (store (endpoint peer) timeout 10 (new 1 100)).0

abbrev two : PeerFailureCache
two = (store (metadata (7 ∷ []) peer) metadata_failed 50 one).0

program : Unit {0}
unfolding new drop_popped expire make_room get_reason store forget get remove key_discrete
    addr_discrete ip_discrete ℕ_discrete
program = tt

found : (get_reason (endpoint peer) 109 one).1 ≡ (some timeout, 1)
unfolding program
found = refl

over : (get_reason (endpoint peer) 110 one).1 ≡ (none, 0)
unfolding program
over = refl

-- A cache of one entry gives up the older for the newer.
given_up : (get_reason (endpoint peer) 60 two).1 ≡ (none, 1)
unfolding program
given_up = refl

stored_again : (store (endpoint peer) connect_failed 50 one).1 ≡ 1
unfolding program
stored_again = refl

one-Inv : Inv 10 one
one-Inv = (store-Stores 0 10 (new 1 100) (new-Inv 0 1 100) (omega arith) (endpoint peer) timeout).2

get_reason-live_example :
    let (cache', (reason, count)) = get_reason (endpoint peer) 109 one in
    (reason ≡ live_reason 109 (entry_at (endpoint peer) one))
    × ((k : PeerFailureKey) → alive 109 (entry_at k cache') ≡ alive 109 (entry_at k one))
    × (count ≤ one.capacity)
    × Inv 109 cache'
get_reason-live_example = get_reason-live 10 109 one one-Inv (omega arith) (endpoint peer)

store-Stores_example :
    let (cache', count) = store (metadata (7 ∷ []) peer) metadata_failed 50 one in
    (disabled one ≡ false → Stores (metadata (7 ∷ []) peer) metadata_failed 50 one cache')
    × (count ≤ one.capacity)
    × Inv 50 cache'
store-Stores_example =
    store-Stores 10 50 one one-Inv (omega arith) (metadata (7 ∷ []) peer) metadata_failed

forget_removes :
    let (cache', count) = forget (endpoint peer) 60 two in
    (entry_at (endpoint peer) cache' ≡ none)
    × ((k : PeerFailureKey)
        → endpoint peer ≢ k
        → alive 60 (entry_at k cache') ≡ alive 60 (entry_at k two))
    × (count ≤ two.capacity)
    × Inv 60 cache'
forget_removes =
    forget-Forgets 50 60 two
      (store-Stores 10 50 one one-Inv (omega arith) (metadata (7 ∷ []) peer) metadata_failed).2
      (omega arith) (endpoint peer)
