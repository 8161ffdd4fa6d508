-- ===== src/Discovery/Dedup/Tests.antt =====
-- The deduplication of src/discovery.rs at concrete hashes.
use dht_crawler.Base.{◌≡◌, refl, true, false, [], ◌∷◌, arith, ℕ_discrete}
use dht_crawler.Base.Assoc.{get, remove}
use dht_crawler.Net.{SocketAddr, v4, addr_discrete, ip_discrete}
use dht_crawler.Scheduler.{Hash, hash_discrete, get_peers, sample}
use dht_crawler.Discovery.Dedup.{
  HashDedup, new, expire, duplicate, contains, overwrite, add_source, make_room, insert_found,
  insert,
}
use dht_crawler.Discovery.Dedup.Expiring.{
  ends_at, Inv, new-Inv, live, sources_of, end_of, contains-Answers,
}
use dht_crawler.Discovery.Dedup.Inserting.{Inserts, insert-Inserts, contains-insert}

abbrev peer : SocketAddr
peer = record { ip = v4 8 8 8 8; port = 6881 }

abbrev other : SocketAddr
other = record { ip = v4 8 8 4 4; port = 6881 }

abbrev one : HashDedup
one = insert (1 ∷ []) peer get_peers 10 (new 1 100)

program : Unit {0}
unfolding new expire contains overwrite add_source make_room insert_found insert get remove ends_at
    hash_discrete addr_discrete ip_discrete ℕ_discrete
program = tt

known : (contains (1 ∷ []) peer get_peers 109 one).1 ≡ true
unfolding program
known = refl

-- An address that asked for a hash can sample it later.
upgrade : (contains (1 ∷ []) peer sample 109 one).1 ≡ false
unfolding program
upgrade = refl

upgraded : (contains (1 ∷ []) peer sample 109 (insert (1 ∷ []) peer sample 50 one)).1 ≡ true
unfolding program
upgraded = refl

over : (contains (1 ∷ []) peer get_peers 110 (insert (1 ∷ []) other sample 50 one)).1 ≡ false
unfolding program
over = refl

one-Inv : Inv 10 one
one-Inv = (insert-Inserts (1 ∷ []) peer get_peers 10 (new 1 100) (new-Inv 10 1 100)).inv

contains-Answers_example :
    let (dedup', answer) = contains (1 ∷ []) other sample 60 one in
    (answer ≡ duplicate (live 60 (end_of (1 ∷ []) one) (sources_of (1 ∷ []) one)) other sample)
    × ((h : Hash)
        → (sources_of h dedup' ≡ live 60 (end_of h one) (sources_of h one))
          × (end_of h dedup' ≡ live 60 (end_of h one) (end_of h one)))
    × Inv 60 dedup'
contains-Answers_example = contains-Answers 10 60 one one-Inv (omega arith) (1 ∷ []) other sample

insert-Inserts_example : Inserts (2 ∷ []) peer sample 10 one (insert (2 ∷ []) peer sample 10 one)
insert-Inserts_example = insert-Inserts (2 ∷ []) peer sample 10 one one-Inv

contains-insert_example :
    (contains (2 ∷ []) peer sample 109 (insert (2 ∷ []) peer sample 10 one)).1 ≡ true
unfolding new insert insert_found make_room ends_at hash_discrete get ℕ_discrete remove
contains-insert_example =
    contains-insert (2 ∷ []) peer sample 10 109 one one-Inv (omega arith) (omega arith)
